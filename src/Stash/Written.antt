-- ===== src/Stash/Written.antt =====
-- libzerostash/src/stash/mod.rs: the object of `Stash::commit` with both fields written into it,
-- where they fit.
use zerostash.Prelude.{
  ℕ, ◌+◌, ◌-◌, ◌*◌, ◌^◌, ◌≤◌, ◌<◌, ◌≡◌, ◌∙◌, refl, ap, List, [], ◌∷◌, ◌++◌, length, none, ok, arith,
  append_assoc, length-replicate,
}
use zerostash.Compress.{stream_block_size}
use zerostash.Objects.{
  Bytes, ObjectId, Object, block_size, tag_size, default, default_buffer, set_id, reserve_tag, seek,
}
use zerostash.Crypto.Provider.{CryptoProvider}
use zerostash.Crypto.Sealing.{IsBlock}
use zerostash.Backends.{Backend}
use zerostash.Meta.{Field, files, chunks, files_at, chunks_at, as_offset, field_eq, header_size}
use zerostash.Meta.Encoding.{Encoder, parked}
use zerostash.Meta.Reader.{Codec}
use zerostash.Meta.Writer
use zerostash.Meta.Writer.{Cbor, Writer, write_field, seal_and_store, pad_object, header_of}
use zerostash.Meta.Frames.{total, Each, Framed, IsFrame}
use zerostash.Meta.Fields.{Room, FieldWritten, write_field-FieldWritten}

module _ (C : CryptoProvider) (B : Backend) (E : Encoder) (S : Cbor) (X : Codec)
    (F : IsFrame E X) where
  -- The writer after both fields were written into the object `o`, one behind the other.
  pub record BothWritten (file_records chunk_records : List Bytes) (o : Object)
      (w w' : Writer C B E) : Type 0 where
    pub between : Object
    pub last : Object
    pub files_end : Object
    pub chunks_end : Object
    pub files_frame : Framed X o files_end (F.bound (total file_records)) file_records
    pub chunks_frame : Framed X between chunks_end (F.bound (total chunk_records)) chunk_records
    pub files_behind : files_end.cursor ≤ between.cursor
    pub files_kept : between.buffer ≡ files_end.buffer
    pub chunks_behind : chunks_end.cursor ≤ last.cursor
    pub chunks_kept : last.buffer ≡ chunks_end.buffer
    pub same_id : last.id ≡ o.id
    pub same_capacity : last.capacity ≡ o.capacity
    pub within : last.cursor ≤ o.capacity
    pub offsets_are : w'.offsets ≡ w.offsets ++ files_at o.cursor ∷ chunks_at between.cursor ∷ []
    pub parked_last : w'.encoder ≡ parked last
    pub no_field : w'.current_field ≡ none
    pub same_backend : w'.backend ≡ w.backend

  -- The room that both fields need, with the gaps behind them.
  abbrev pub Fit : List Bytes → List Bytes → Object → Type 0
  Fit file_records chunk_records o =
      o.cursor
        + F.bound (total file_records)
        + total file_records
        + F.bound (total chunk_records)
        + total chunk_records
        + 4 * stream_block_size
      ≤ o.capacity

  -- The object that the field leaves behind, parked.
  abbrev parked_at :
      {f : Field} {records : List Bytes} {room : ℕ} {o : Object} {w w' : Writer C B E}
      → FieldWritten C B E S X F f records room o w w'
      → Object
  parked_at f = record f.object { cursor = f.object.cursor + f.skip }

  both-BothWritten :
      (file_records chunk_records : List Bytes) (o : Object) (w w1 w2 : Writer C B E)
      → Fit file_records chunk_records o
      → (f1 : FieldWritten C B E S X F files file_records (F.bound (total file_records)) o w w1)
      → (f2 : FieldWritten C B E S X F chunks chunk_records
          (F.bound (total chunk_records))
          (parked_at f1)
          w1
          w2)
      → BothWritten file_records chunk_records o w w2
  unfolding as_offset
  both-BothWritten file_records chunk_records o w w1 w2 fit f1 f2 = record {
    between = parked_at f1;
    last = parked_at f2;
    files_end = f1.object;
    chunks_end = f2.object;
    files_frame = f1.frame;
    chunks_frame = f2.frame;
    files_behind = omega arith;
    files_kept = refl;
    chunks_behind = omega arith;
    chunks_kept = refl;
    same_id = f2.frame.same_id ∙ f1.frame.same_id;
    same_capacity = f2.frame.same_capacity ∙ f1.frame.same_capacity;
    within = omega (arith, fit, f1.frame.at_most, f1.skips, f2.frame.at_most, f2.skips);
    offsets_are = rw (f2.result, f1.result) (append_assoc w.offsets _ _);
    parked_last = ap (λ w. w.encoder) f2.result;
    no_field = ap (λ w. w.current_field) f2.result;
    same_backend = ap (λ w. w.backend) f2.result ∙ ap (λ w. w.backend) f1.result;
  }

  pub write_fields-BothWritten :
      (file_records chunk_records : List Bytes) (o : Object) (w : Writer C B E)
      → header_size ≤ o.cursor
      → o.capacity ≤ length o.buffer
      → o.capacity < 2 ^ 32
      → Fit file_records chunk_records o
      → Each F.IsRecord file_records
      → Each F.IsRecord chunk_records
      → w.encoder ≡ parked o
      → (w1 w2 : Writer C B E) × (write_field C B E S files file_records w ≡ (ok tt, w1))
        × (write_field C B E S chunks chunk_records w1 ≡ (ok tt, w2))
        × BothWritten file_records chunk_records o w w2
  write_fields-BothWritten file_records chunk_records o w behind in_buffer word fit good good' at =
      let room : Room C B E S X F o (total file_records) = record {
        behind_header = behind;
        fits = omega (arith, fit);
        in_buffer = in_buffer;
        word = word;
      } in
      let (w1, run1, f1) =
        write_field-FieldWritten C B E S X F files o (total file_records) file_records w room
          (omega arith) good at in
      let o1 : Object = record f1.object { cursor = f1.object.cursor + f1.skip } in
      let room1 : Room C B E S X F o1 (total chunk_records) = record {
        behind_header = omega (arith, behind, f1.frame.forward);
        fits = omega (arith, fit, f1.frame.at_most, f1.skips, f1.frame.same_capacity);
        in_buffer = omega (arith, in_buffer, f1.frame.same_capacity, f1.frame.same_length);
        word = omega (arith, word, f1.frame.same_capacity);
      } in
      let (w2, run2, f2) =
        write_field-FieldWritten C B E S X F chunks o1 (total chunk_records) chunk_records w1 room1
          (omega arith) good' (ap (λ w. w.encoder) f1.result) in
      (w1, w2, run1, run2, both-BothWritten file_records chunk_records o w w1 w2 fit f1 f2)

  -- The object that `Writer::new` starts with, and the writer.
  abbrev pub first_object : ObjectId → Object
  first_object root = record {
    id = root;
    buffer = default_buffer;
    capacity = block_size - tag_size;
    cursor = header_size;
  }

  abbrev pub first_writer : ObjectId → C.Source → B.State → Writer C B E
  first_writer root source b = record {
    objects = [];
    offsets = [];
    encoder = parked (first_object root);
    current_field = none;
    source = source;
    backend = b;
  }

  pub new_lem :
      (root : ObjectId) (source : C.Source) (b : B.State)
      → Writer.new C B E S root source b ≡ ok (first_writer root source b)
  unfolding Writer.new default set_id reserve_tag seek
  new_lem root source b = refl

  pub first-IsBlock : (root : ObjectId) → length root ≡ 32 → IsBlock (first_object root)
  unfolding default_buffer
  first-IsBlock root long = record {
    id_size = long;
    room = omega (arith, length-replicate {A = ℕ} block_size 0);
    whole = length-replicate {A = ℕ} block_size 0;
  }
