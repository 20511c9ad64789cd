-- ===== src/Meta/Fields.antt =====
-- libzerostash/src/meta/writer.rs: `write_field` where the object has room for the field.
use zerostash.Prelude.{
  ℕ, ◌+◌, ◌-◌, ◌*◌, ◌%◌, ◌^◌, ◌≤◌, ◌<◌, ◌≡◌, refl, sym, ap, subst, true, false, List, [], ◌∷◌, ◌++◌,
  append_assoc, append-nil, length, ltb, ok, none, some, arith,
}
use zerostash.Compress.{stream_block_size}
use zerostash.Prelude.Int.{pos}
use zerostash.Objects.{Bytes, Object, seek, current}
use zerostash.Crypto.Provider.{CryptoProvider}
use zerostash.Backends.{Backend}
use zerostash.Meta.{Field, as_offset, header_size}
use zerostash.Meta.Encoding.{Encoder, parked, encoding, writer, start_encoding, finish, write_state}
use zerostash.Meta.Reader.{Codec}
use zerostash.Meta.Writer.{
  Cbor, Writer, track, sub_usize, write_next, write_records, write_field, finish_field, skip_of,
}
use zerostash.Meta.Frames.{total, Each, Stream, begun, more, Framed, IsFrame}

total-append : (xs ys : List Bytes) → total (xs ++ ys) ≡ total xs + total ys
total-append [] ys = omega arith
total-append (x ∷ xs) ys = omega (arith, total-append xs ys)

-- Of a large `a`, `usize` subtraction is the subtraction.
sub_usize_lem : (a b : ℕ) → b ≤ a → a < 2 ^ 63 → sub_usize a b ≡ a - b
sub_usize_lem a b h w = omega arith

module _ (C : CryptoProvider) (B : Backend) (E : Encoder) (S : Cbor) (X : Codec)
    (F : IsFrame E X) where
  -- The object has room for a frame with `n` bytes of records such that no test of `write_next` or
  -- `write_field` seals.
  pub record Room (o : Object) (n : ℕ) : Type 0 where
    pub behind_header : header_size ≤ o.cursor
    pub fits : o.cursor + F.bound n + n + 2 * stream_block_size ≤ o.capacity
    pub in_buffer : o.capacity ≤ length o.buffer
    pub word : o.capacity < 2 ^ 32

  write_next-more :
      (o : Object) (n : ℕ) (records : List Bytes) (s : E.State) (bs : Bytes) (w : Writer C B E)
      → Room o n
      → total records + length bs ≤ n
      → Stream E F.IsRecord o records s
      → F.IsRecord bs
      → w.encoder ≡ encoding s
      → (s' : E.State) × (write_next C B E S bs w ≡ (ok tt, record w { encoder = encoding s' }))
        × Stream E F.IsRecord o (records ++ bs ∷ []) s'
  unfolding write_next writer start_encoding write_state
  write_next-more o n records s bs w room small stream good at =
      let (same_id, capacity, forward, at_most) = F.standing o records s stream in
      let mono = F.bound_mono (total records + length bs) n small in
      let mono' = F.bound_mono (total records) n (omega arith) in
      let (s', took) =
        F.written o records s bs stream good (omega (arith, room.fits, room.in_buffer)) in
      let far : ltb (sub_usize (E.writer s).capacity (E.writer s).cursor) stream_block_size
          ≡ false =
        ground (
          arith,
          room.fits,
          room.word,
          sub_usize_lem (E.writer s).capacity (E.writer s).cursor (omega (arith, room.fits))
              (omega (arith, room.word)),
        ) in
      let fits : ltb (sub_usize (E.writer s).capacity 64) (length bs + (E.writer s).cursor)
          ≡ false =
        ground (
          arith,
          room.fits,
          room.word,
          sub_usize_lem (E.writer s).capacity 64 (omega (arith, room.fits))
              (omega (arith, room.word)),
        ) in
      (s', rw (at, far, fits, took) refl, more stream good took)

  write_records-all :
      (o : Object) (n : ℕ) (records later : List Bytes) (s : E.State) (w : Writer C B E)
      → Room o n
      → total records + total later ≤ n
      → Stream E F.IsRecord o records s
      → Each F.IsRecord later
      → w.encoder ≡ encoding s
      → (s' : E.State) × (write_records C B E S later w
          ≡ (ok tt, record w { encoder = encoding s' }))
        × Stream E F.IsRecord o (records ++ later) s'
  unfolding write_records
  write_records-all o n records [] s w room small stream good at = (
    s,
    ap (λ e. (ok tt, record w { encoder = e })) at,
    subst (λ rs. Stream E F.IsRecord o rs s) (sym (append-nil records)) stream,
  )
  write_records-all o n records (bs ∷ later) s w room small stream (good, goods) at =
      let (s1, first, stream1) =
        write_next-more o n records s bs w room (omega arith) stream good at in
      let (s2, rest, stream2) =
        write_records-all o n (records ++ bs ∷ []) later s1 (record w { encoder = encoding s1 })
          room (omega (arith, total-append records (bs ∷ []))) stream1 goods refl in
      (
        s2,
        rw (first, rest) refl,
        subst (λ rs. Stream E F.IsRecord o rs s2) (append_assoc records (bs ∷ []) later) stream2,
      )

  skip_of-le : (o : Object) → skip_of C B E S o ≤ stream_block_size
  skip_of-le o = omega arith

  seek-forward :
      (o : Object) (k : ℕ)
      → o.cursor + k ≤ o.capacity
      → seek (current (pos k)) o ≡ (ok (o.cursor + k), record o { cursor = o.cursor + k })
  unfolding seek
  seek-forward o k h = ground (arith, h)

  -- The frame is finished, and the object is parked at a position up to 64 KiB behind it.
  finish_field-parks :
      (o : Object) (n : ℕ) (records : List Bytes) (s : E.State) (w : Writer C B E)
      → Room o n
      → total records ≤ n
      → Stream E F.IsRecord o records s
      → w.encoder ≡ encoding s
      → (o' : Object) × (skip : ℕ) × (skip ≤ stream_block_size)
        × Framed X o o' (F.bound n) records
        × (finish_field C B E S (E.writer s) w
            ≡ (ok tt, record w { encoder = parked (record o' { cursor = o'.cursor + skip }) }))
  unfolding finish_field finish
  finish_field-parks o n records s w room small stream at =
      let (same_id, capacity, forward, at_most) = F.standing o records s stream in
      let mono = F.bound_mono (total records) n small in
      let (o', ends, f) =
        F.finished o records s stream (omega (arith, room.fits, room.in_buffer)) in
      let skip : ℕ = skip_of C B E S (E.writer s) in
      let short : skip ≤ stream_block_size = skip_of-le (E.writer s) in
      let stays : ltb (skip + (E.writer s).cursor) (E.writer s).capacity ≡ true =
        ground (arith, room.fits) in
      let sought = seek-forward o' skip (omega (arith, f.at_most, f.same_capacity, room.fits)) in
      (
        o',
        skip,
        short,
        record {
          same_id = f.same_id;
          same_capacity = f.same_capacity;
          same_length = f.same_length;
          forward = f.forward;
          at_most = omega (arith, f.at_most);
          below = f.below;
          decoded = f.decoded;
        },
        rw (stays, at, ends, sought) refl,
      )

  -- The field stands in the object as a frame at the position that its offset names; the object is
  -- the same otherwise, and is parked up to 64 KiB behind the frame.
  pub record FieldWritten (f : Field) (records : List Bytes) (room : ℕ) (o : Object)
      (w w' : Writer C B E) : Type 0 where
    pub object : Object
    pub skip : ℕ
    pub skips : skip ≤ stream_block_size
    pub frame : Framed X o object room records
    pub result : w' ≡ record w {
      offsets = w.offsets ++ as_offset f o.cursor ∷ [];
      objects = track f o.id w.objects;
      encoder = parked (record object { cursor = object.cursor + skip });
      current_field = none;
    }

  -- `write_field` into a parked object with room for the records goes through without a seal: it
  -- registers the field at the object's position and tracks the object, and leaves the records there
  -- as a frame that decodes to them, everything before it as it was.
  pub write_field-FieldWritten :
      (f : Field) (o : Object) (n : ℕ) (records : List Bytes) (w : Writer C B E)
      → Room o n
      → total records ≤ n
      → Each F.IsRecord records
      → w.encoder ≡ parked o
      → (w' : Writer C B E) × (write_field C B E S f records w ≡ (ok tt, w'))
        × FieldWritten f records (F.bound n) o w w'
  unfolding write_field writer start_encoding
  write_field-FieldWritten f o n records w room small good at =
      let mono = F.bound_mono 0 n (omega arith) in
      let (s, made) = F.started o (omega (arith, room.fits, room.in_buffer)) in
      let position : o.cursor % 2 ^ 32 ≡ o.cursor = omega (arith, room.fits, room.word) in
      let w1 : Writer C B E = record w {
        offsets = w.offsets ++ as_offset f o.cursor ∷ [];
        objects = track f o.id w.objects;
        encoder = encoding s;
        current_field = some f;
      } in
      let (s', taken, stream) =
        write_records-all o n [] records s w1 room (omega (arith, small)) (begun made) good refl in
      let w2 : Writer C B E = record w1 { encoder = encoding s'; current_field = none } in
      let (o', skip, short, framed, parks) =
        finish_field-parks o n records s' w2 room small stream refl in
      (
        record w2 { encoder = parked (record o' { cursor = o'.cursor + skip }) },
        rw (at, position, made, taken, parks) refl,
        record { object = o'; skip = skip; skips = short; frame = framed; result = refl },
      )
