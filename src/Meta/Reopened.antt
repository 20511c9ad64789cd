-- ===== src/Meta/Reopened.antt =====
-- A metadata object that libzerostash/src/meta/writer.rs seals, opened by meta/reader.rs.
use zerostash.Prelude.{
  ℕ, subst, ◌-◌, ◌≤◌, ◌<◌, ◌≡◌, ◌∙◌, refl, sym, ap, ap₂, true, false, some, ◌++◌, drop, take,
  length, leb, ltb, ok, arith, length-take, slice,
}
use zerostash.Objects.{
  Bytes, ObjectId, Object, block_size, with_id, set_id, reset_cursor, as_ref, finalize_range,
  finalize_with, clear, seek, crypto_digest_size,
}
use zerostash.Crypto.Provider.{CryptoProvider, IsSound}
use zerostash.Backends
use zerostash.Backends.{Backend, BackendError, Contract}
use zerostash.Meta.{MetaObjectHeader, header_size}
use zerostash.Meta.Encoding.{Encoder}
use zerostash.Meta.Reader.{Reader, Codec, open_object, decrypt}
use zerostash.Meta.Headed.{take-past, headed-IsBlock, padded-IsBlock, slice-headed}
use zerostash.Meta.Writer.{
  Cbor, Writer, pad_object, draw_id, head_object, headed, header_of, store_object, write_object,
  restart,
}
use zerostash.Crypto.Sealing.{IsBlock, IsSealing}

module _ (C : CryptoProvider) (B : Backend) (E : Encoder) (S : Cbor) (K : IsSound C)
    (Q : IsSealing C) (D : Contract B) (W : Backends.IsLawful B D) (X : Codec) where
  -- Decoding a header stops where its encoding does.
  abbrev pub Decodes : Type 0
  Decodes =
      (h : MetaObjectHeader) (bs rest : Bytes)
      → S.encode_header h ≡ some bs
      → X.decode_header (bs ++ rest) ≡ some (some h)

  -- What a reader makes of a block that was encrypted and written.
  open-written :
      (o o' : Object) (h : MetaObjectHeader) (bs rest : Bytes) (b b' : B.State) (r : Reader C B)
      → Decodes
      → IsBlock o
      → C.encrypt_object o ≡ some o'
      → length o'.buffer ≡ length o.buffer
      → o'.id ≡ o.id
      → S.encode_header h ≡ some bs
      → length bs < header_size
      → o.buffer ≡ bs ++ rest
      → D.Coherent b
      → D.Accepts block_size
      → B.write_object o' b ≡ (ok tt, b')
      → length r.inner.buffer ≡ block_size
      → (r' : Reader C B) × (open_object C B X o.id (record r { backend = b' }) ≡ (ok h, r'))
        × (r'.header ≡ some h)
        × (as_ref r'.inner ≡ some (take o.capacity o.buffer))
  unfolding open_object decrypt set_id reset_cursor with_id as_ref
  open-written o o' h bs rest b b' r decodes v enc size id coded short starts co accepts wrote
        inner =
      let id_read : (B.read_object o.id b').0 ≡ ok (with_id o'.id o'.buffer) =
        ap (λ i. (B.read_object i b').0) (sym id)
        ∙ W.read-write o' b b' co (subst D.Accepts (sym (size ∙ v.whole)) accepts) wrote in
      let out : Object = set_id o.id (reset_cursor r.inner) in
      let (inner', decrypted_to, same, cap) =
        Q.opened o o' out (with_id o'.id o'.buffer) v enc inner refl refl in
      let capacity : inner'.capacity ≡ o.capacity = omega (arith, cap, v.room, v.whole) in
      let long : o.capacity ≤ length inner'.buffer = omega (
        arith,
        ap length same,
        length-take o.capacity inner'.buffer,
        length-take o.capacity o.buffer,
        v.room,
      ) in
      let in_range : leb inner'.capacity (length inner'.buffer) ≡ true =
        ground (arith, capacity, long) in
      let bytes : take inner'.capacity inner'.buffer ≡ bs ++ take (o.capacity - length bs) rest =
        ap (λ n. take n inner'.buffer) capacity
        ∙ same
        ∙ ap (take o.capacity) starts
        ∙ take-past o.capacity bs rest (omega (arith, short, v.room, v.whole)) in
      (
        record { inner = inner'; header = some h; backend = (B.read_object o.id b').1 },
        rw
            (
              id_read,
              decrypted_to,
              in_range,
              bytes,
              decodes h bs (take (o.capacity - length bs) rest) coded,
            )
            refl,
        refl,
        rw in_range (ap some (ap (λ n. take n inner'.buffer) capacity ∙ same)),
      )

  -- What a reader has that opened the object under the header `h`: the header, and contents of the
  -- object's capacity that are the object's bytes between the header's room and the cursor.
  pub record Reopens (o : Object) (h : MetaObjectHeader) (r : Reader C B) : Type 0 where
    pub remembered : r.header ≡ some h
    pub contents : Bytes
    pub readable : as_ref r.inner ≡ some contents
    pub size : length contents ≡ o.capacity
    pub same :
        (a b : ℕ)
        → header_size ≤ a
        → a ≤ b
        → b ≤ o.cursor
        → b ≤ o.capacity
        → slice contents a b ≡ slice o.buffer a b

  -- A seal whose steps go through ends with the backend that took the object.
  seal-runs :
      (o with_header sealed : Object) (bs : Bytes) (w : Writer C B E)
      → o.cursor ≤ length o.buffer
      → (next : ObjectId)
      → next ≡ (C.fill crypto_digest_size (C.fill (length o.buffer - o.cursor) w.source).1).0
      → S.encode_header (header_of C B E S w next o.cursor) ≡ some bs
      → headed C B E S (finalize_with (C.fill (length o.buffer - o.cursor) w.source).0 o) (some bs)
        ≡ some with_header
      → C.encrypt_object with_header ≡ some sealed
      → (B.write_object sealed w.backend).0 ≡ ok tt
      → header_size ≤ sealed.capacity
      → (w' : Writer C B E) × (pad_object C B E S o w ≡ (ok tt, w'))
        × (w'.backend ≡ (B.write_object sealed w.backend).1)
  unfolding pad_object draw_id head_object store_object write_object restart finalize_range
      header_of seek clear set_id
  seal-runs o with_header sealed bs w inside next drawn coded put enc wrote room =
      let in_buffer : leb o.cursor (length o.buffer) ≡ true = ground (arith, inside) in
      let seekable : ltb sealed.capacity header_size ≡ false = ground (arith, room) in
      let coded' = ap (λ x. S.encode_header (header_of C B E S w x o.cursor)) (sym drawn) ∙ coded in
      (
        (pad_object C B E S o w).1,
        rw (in_buffer, coded', put, enc, wrote, seekable) refl,
        rw (in_buffer, coded', put, enc, wrote) refl,
      )

  -- A seal of a block, once its encoder has finished, goes through, and what it stores is opened
  -- under the block's id with the header that was written and the bytes of the block between the
  -- header's room and its cursor, at a capacity that is the block's: where headers are decoded to what was
  -- encoded, the header is encoded in less than 512 bytes whatever id is drawn, and the backend takes
  -- objects of a block's size, being coherent.
  pub pad_object-open_object :
      (o : Object) (w : Writer C B E) (r : Reader C B)
      → Decodes
      → IsBlock o
      → o.cursor ≤ length o.buffer
      → ((next : ObjectId)
          → length next ≡ 32
          → (bs : Bytes) × (S.encode_header (header_of C B E S w next o.cursor) ≡ some bs)
            × (length bs < header_size))
      → D.Coherent w.backend
      → D.Accepts block_size
      → ((x : Object) → length x.buffer ≡ block_size → (B.write_object x w.backend).0 ≡ ok tt)
      → length r.inner.buffer ≡ block_size
      → (w' : Writer C B E) × (next : ObjectId) × (pad_object C B E S o w ≡ (ok tt, w'))
        × (r' : Reader C B) × (open_object C B X o.id (record r { backend = w'.backend })
            ≡ (ok (header_of C B E S w next o.cursor), r'))
        × Reopens o (header_of C B E S w next o.cursor) r'
  unfolding finalize_with
  pad_object-open_object o w r decodes v inside header co accepts takes inner =
      let n = length o.buffer - o.cursor in
      let next : ObjectId = (C.fill crypto_digest_size (C.fill n w.source).1).0 in
      let padded_object : Object = finalize_with (C.fill n w.source).0 o in
      let (bs, coded, short) = header next (K.length-fill 32 (C.fill n w.source).1) in
      let block =
        padded-IsBlock C B E S o (C.fill n w.source).0 v inside (K.length-fill n w.source) in
      let (headed_object, put, block', same_id, starts, same_cap) =
        headed-IsBlock C B E S padded_object bs block short in
      let (sealed, enc, id, size, cap) = Q.sealed headed_object block' in
      let wrote = takes sealed (size ∙ block'.whole) in
      let (r', run, remembered, readable) =
        open-written headed_object sealed (header_of C B E S w next o.cursor) bs
          (drop (length bs) padded_object.buffer) w.backend (B.write_object sealed w.backend).1 r
          decodes block' enc size id coded short starts co accepts
          (ap (λ x. (x, (B.write_object sealed w.backend).1)) wrote) inner in
      let (w', seals, backend) =
        seal-runs o headed_object sealed bs w inside next refl coded put enc wrote
          (omega (arith, cap, same_cap, v.room, v.whole)) in
      (
        w',
        next,
        seals,
        r',
        ap₂ (λ i b. open_object C B X i (record r { backend = b })) (sym same_id) backend ∙ run,
        record {
          remembered = remembered;
          contents = take headed_object.capacity headed_object.buffer;
          readable = readable;
          size = omega (
            arith,
            length-take headed_object.capacity headed_object.buffer,
            same_cap,
            block'.whole,
            v.room,
            v.whole,
          );
          same = λ a b behind ab below within.
              ap₂ (λ n xs. slice (take n xs) a b) same_cap starts
              ∙ slice-headed C B E S o bs (C.fill n w.source).0 a b short (omega (arith, v.whole))
                  (omega (arith, K.length-fill n w.source)) behind ab below within;
        },
      )
