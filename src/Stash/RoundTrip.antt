-- ===== src/Stash/RoundTrip.antt =====
-- libzerostash/src/stash/mod.rs: `Stash::commit`, and then `Stash::read`, of records.
use zerostash.Prelude.{
  ℕ, ◌<◌, ◌≡◌, ◌∙◌, refl, sym, ap, List, [], ◌∷◌, length, some, ok, ◌>>◌, arith, subst,
  length-replicate,
}
use zerostash.Objects.{Bytes, ObjectId, Object, block_size, default}
use zerostash.Crypto.Provider.{CryptoProvider, IsSound}
use zerostash.Crypto.Sealing.{IsBlock, IsSealing}
use zerostash.Backends
use zerostash.Backends.{Backend, Contract}
use zerostash.Meta.{files, chunks, field_eq, header_size}
use zerostash.Meta.Encoding.{Encoder, idle, finish}
use zerostash.Meta.Reader
use zerostash.Meta.Reader.{Reader, ReadError, Codec, read_into, open_object}
use zerostash.Meta.Writer.{Cbor, Writer, write_field, seal_and_store, header_of}
use zerostash.Meta.Frames.{Each, IsFrame}
use zerostash.Meta.Reopened.{Decodes, Reopens, pad_object-open_object}
use zerostash.Stash.Written.{
  BothWritten, Fit, write_fields-BothWritten, first_object, first_writer, new_lem, first-IsBlock,
}
use zerostash.Stash.Contents.{root_header, read_fields-both, read_chain-one}
use zerostash.Stash.{read_chain, committed, commit}

module _ (C : CryptoProvider) (B : Backend) (E : Encoder) (S : Cbor) (K : IsSound C)
    (Q : IsSealing C) (D : Contract B) (W : Backends.IsLawful B D) (X : Codec) where
  -- Such headers are encoded in less than 512 bytes.
  abbrev pub Encodes : Type 0
  Encodes =
      (at end : ℕ)
      → at < block_size
      → end < block_size
      → (bs : Bytes) × (S.encode_header (root_header C B E S K Q D W X at end) ≡ some bs)
        × (length bs < header_size)

  -- Writes of blocks go through.
  abbrev pub Takes : B.State → Type 0
  Takes b = (x : Object) → length x.buffer ≡ block_size → (B.write_object x b).0 ≡ ok tt

  module _ (F : IsFrame E X) where
    last-IsBlock :
        {file_records chunk_records : List Bytes} {o : Object} {w w' : Writer C B E}
        → (v : BothWritten C B E S X F file_records chunk_records o w w') → IsBlock o
        → IsBlock v.last
    last-IsBlock v block =
        let size : length v.last.buffer ≡ block_size =
          ap length v.chunks_kept
          ∙ v.chunks_frame.same_length
          ∙ ap length v.files_kept
          ∙ v.files_frame.same_length
          ∙ block.whole in
        record {
          id_size = ap length v.same_id ∙ block.id_size;
          room = omega (arith, v.same_capacity, block.room, size, block.whole);
          whole = size;
        }

    -- The header of both fields, once nothing is being written.
    header-root_header :
        {file_records chunk_records : List Bytes} {o : Object} {w w' : Writer C B E}
        → (v : BothWritten C B E S X F file_records chunk_records o w w') → o.cursor ≡ header_size
        → w.offsets ≡ []
        → (next : ObjectId) (end : ℕ)
        → header_of C B E S (record w' { encoder = idle }) next end
          ≡ root_header C B E S K Q D W X v.between.cursor end
    unfolding header_of
    header-root_header v at none_yet next end = rw (v.no_field, v.offsets_are, none_yet, at) refl

    -- What the writer of `commit` seals is opened with both fields.
    sealed-reads :
        (file_records chunk_records : List Bytes) (o : Object) (w w' : Writer C B E)
        (v : BothWritten C B E S X F file_records chunk_records o w w')
        → Decodes C B E S K Q D W X
        → IsBlock o
        → o.cursor ≡ header_size
        → w.offsets ≡ []
        → Encodes
        → D.Coherent w.backend
        → D.Accepts block_size
        → Takes w.backend
        → (w'' : Writer C B E) × (seal_and_store C B E S w' ≡ (ok tt, w''))
          × (r : Reader C B) × (read_chain C B X 1 (some o.id) [] (Reader.new C B X w''.backend)
              ≡ some (ok ((files, file_records) ∷ (chunks, chunk_records) ∷ []), r))
    unfolding seal_and_store finish Reader.new default
    sealed-reads file_records chunk_records o w w' v decodes block at none_yet encodes co accepts
          takes =
        let idle_writer : Writer C B E = record w' { encoder = idle } in
        let at_between : v.between.cursor < block_size =
          omega
            (arith, v.chunks_frame.forward, v.chunks_behind, v.within, block.room, block.whole) in
        let at_end : v.last.cursor < block_size =
          omega (arith, v.within, block.room, block.whole) in
        let block' = last-IsBlock v block in
        let header = λ (next : ObjectId) (long : length next ≡ 32).
          subst (λ h. (bs : Bytes) × (S.encode_header h ≡ some bs) × (length bs < header_size))
            (sym (header-root_header v at none_yet next v.last.cursor))
            (encodes v.between.cursor v.last.cursor at_between at_end) in
        let (w'', next, seals, r, opens, opened) =
          pad_object-open_object C B E S K Q D W X v.last idle_writer (Reader.new C B X w'.backend)
            decodes block' (omega (arith, v.within, v.same_capacity, block'.room)) header
            (subst D.Coherent (sym v.same_backend) co) accepts
            (λ x size. ap (λ b. (B.write_object x b).0) v.same_backend ∙ takes x size)
            (length-replicate {A = ℕ} block_size 0) in
        let same_header = header-root_header v at none_yet next v.last.cursor in
        (
          w'',
          rw (v.parked_last, seals) refl,
          r,
          read_chain-one C B E S K Q D W X F v.between.cursor v.last.cursor o.id
              ((files, file_records) ∷ (chunks, chunk_records) ∷ []) (Reader.new C B X w''.backend)
              r
              (ap (λ id. open_object C B X id (Reader.new C B X w''.backend)) (sym v.same_id)
                ∙ opens
                ∙ ap (λ h. (ok h, r)) same_header)
              (read_fields-both C B E S K Q D W X F file_records chunk_records o w w' v r at
                (subst (λ h. Reopens C B E S K Q D W X v.last h r) same_header opened)),
        )

    committed-ok :
        (file_records chunk_records : List Bytes) (w w1 w2 w3 : Writer C B E)
        → write_field C B E S files file_records w ≡ (ok tt, w1)
        → write_field C B E S chunks chunk_records w1 ≡ (ok tt, w2)
        → seal_and_store C B E S w2 ≡ (ok tt, w3)
        → committed C B E S (ok w) file_records chunk_records ≡ ok w3
    committed-ok file_records chunk_records w w1 w2 w3 run1 run2 seals =
        let run : (write_field C B E S files file_records
                >> write_field C B E S chunks chunk_records
                >> seal_and_store C B E S)
              w
            ≡ (ok tt, w3) =
          rw (run1, run2, seals) refl in
        rw (committed, ap (λ x. x.0) run) (ap (λ x. ok x.1) run)

    -- The commit of records that fit, with room for the gaps behind the fields, goes through, and
    -- reading from the root id gives back the records of the files and then of the chunks: for a
    -- coherent backend that takes blocks, headers that are encoded in less than 512 bytes and decoded
    -- again, and a frame encoder that keeps its bound and whose frames are decoded.
    pub commit-read_chain :
        (root : ObjectId) (source : C.Source) (b : B.State)
        (file_records chunk_records : List Bytes)
        → Decodes C B E S K Q D W X
        → Encodes
        → D.Coherent b
        → D.Accepts block_size
        → Takes b
        → length root ≡ 32
        → Fit C B E S X F file_records chunk_records (first_object C B E S X F root)
        → Each F.IsRecord file_records
        → Each F.IsRecord chunk_records
        → (w : Writer C B E) × (commit C B E S root source b file_records chunk_records ≡ ok w)
          × (r : Reader C B) × (read_chain C B X 1 (some root) [] (Reader.new C B X w.backend)
              ≡ some (ok ((files, file_records) ∷ (chunks, chunk_records) ∷ []), r))
    unfolding commit
    commit-read_chain root source b file_records chunk_records decodes encodes co accepts takes long
          fit good good' =
        let o : Object = first_object C B E S X F root in
        let w : Writer C B E = first_writer C B E S X F root source b in
        let block = first-IsBlock C B E S X F root long in
        let (w1, w2, run1, run2, v) =
          write_fields-BothWritten C B E S X F file_records chunk_records o w (omega arith)
            (omega (arith, block.room)) (omega arith) fit good good' refl in
        let (w3, seals, r, reads) =
          sealed-reads file_records chunk_records o w w2 v decodes block refl refl encodes co
            accepts takes in
        (
          w3,
          ap (λ x. committed C B E S x file_records chunk_records)
                (new_lem C B E S X F root source b)
              ∙ committed-ok file_records chunk_records w w1 w2 w3 run1 run2 seals,
          r,
          reads,
        )
