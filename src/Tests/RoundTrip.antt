-- ===== src/Tests/RoundTrip.antt =====
-- A stash with one file and two chunks, committed and read back.
use zerostash.Prelude.{
  ℕ, zero, suc, Option, none, length-replicate, replicate, ◌-◌, ◌≡◌, refl, some, [], ◌∷◌, ok, arith,
}
use zerostash.Objects.{Bytes, CryptoDigest, Object, block_size}
use zerostash.Backends.{unconditional, in_memory, memory_write}
use zerostash.Backends.Memory.{in_memory-IsLawful}
use zerostash.Meta.{chunks, files_at}
use zerostash.Meta.Writer.{Writer, write_field}
use zerostash.Meta.Encoding.{parked}
use zerostash.Stash.Stores.{Items, Stores, commit_stores, read}
use zerostash.Stash.Stores.Reread.{Same, empty, read-commit_stores}
use zerostash.Meta.Fields.{Room, FieldWritten, write_field-FieldWritten}
use zerostash.Prelude.Equality.{bytes_eq}
use zerostash.Prelude.Dict
use zerostash.Chunks
use zerostash.Chunks.Pointer.{ChunkPointer}
use zerostash.Chunks.Dedup.{HasUniqueKeys}
use zerostash.Files
use zerostash.Files.{Entry}
use zerostash.Tests.Indices.{fresh_entry}
use zerostash.Tests.Samples.{provider, provider-IsSound, sample_id, key, zero_tag}
use zerostash.Tests.Frames.{marked, marked_codec, marked_frames}
use zerostash.Tests.Reopened.{cbor, decoded, sealing, codec-Decodes}

abbrev object : Object
object = record {
  id = sample_id;
  buffer = replicate block_size 0;
  capacity = block_size - 16;
  cursor = 66000;
}

abbrev writing : Writer provider in_memory marked
writing = record {
  objects = [];
  offsets = files_at 512 ∷ [];
  encoder = parked object;
  current_field = none;
  source = 1;
  backend = [];
}

abbrev pointer_at : ℕ → ChunkPointer
pointer_at n = record { offs = n; size = 7; file = sample_id; hash = key; tag = zero_tag }

abbrev entry : Entry
entry = record fresh_entry { chunks = (0, pointer_at 3) ∷ [] }

abbrev pointer_in : Bytes → Option (CryptoDigest × ChunkPointer)
pointer_in [] = none
pointer_in (zero ∷ bs) = none
pointer_in (suc n ∷ bs) = some (n ∷ [], pointer_at n)

abbrev items : Items
items = record {
  encode_file = λ e. suc e.size ∷ [];
  decode_file = λ bs. some entry;
  encode_chunk = λ c. suc c.1.offs ∷ [];
  decode_chunk = pointer_in;
}

abbrev stores : Stores
stores = record {
  chunk_store = (3 ∷ [], pointer_at 3) ∷ (9 ∷ [], pointer_at 9) ∷ [];
  file_store = (entry, tt) ∷ [];
}

unique : HasUniqueKeys stores.chunk_store
unfolding Dict.lookup
unique = (ground arith, (refl, tt))

read-commit_stores_example :
    (w : Writer provider in_memory marked) × (s : Stores) × (commit_stores items provider in_memory
        marked cbor sample_id 1 [] stores
      ≡ ok w)
    × (read items provider in_memory (marked_codec decoded) 1 sample_id w.backend empty
        ≡ some (ok s))
    × Same stores s
unfolding marked_frames memory_write Files.serialize Chunks.serialize
read-commit_stores_example =
    read-commit_stores provider in_memory marked cbor provider-IsSound sealing
      (unconditional in_memory) in_memory-IsLawful (marked_codec decoded) (marked_frames decoded)
      items sample_id 1 [] stores codec-Decodes (λ at end h h'. (_, refl, omega arith)) tt tt
      (λ x e. refl) refl unique (((3, refl), refl), tt) (((3, refl), refl), (((9, refl), refl), tt))
      (omega arith)

field-Room :
    Room provider in_memory marked cbor (marked_codec decoded) (marked_frames decoded) object 2
unfolding marked_frames
field-Room = record {
  behind_header = omega arith;
  fits = omega arith;
  in_buffer = omega (arith, length-replicate {A = ℕ} block_size 0);
  word = omega arith;
}

write_field-FieldWritten_example :
    (w : Writer provider in_memory marked) × (write_field provider in_memory marked cbor chunks
        ((6 ∷ []) ∷ (7 ∷ []) ∷ [])
        writing
      ≡ (ok tt, w))
    × FieldWritten provider in_memory marked cbor
        (marked_codec decoded)
        (marked_frames decoded)
        chunks
        ((6 ∷ []) ∷ (7 ∷ []) ∷ [])
        3
        object
        writing
        w
unfolding marked_frames
write_field-FieldWritten_example =
    write_field-FieldWritten provider in_memory marked cbor (marked_codec decoded)
      (marked_frames decoded) chunks object 2 ((6 ∷ []) ∷ (7 ∷ []) ∷ []) writing field-Room
      (omega arith) ((5, refl), ((6, refl), tt)) refl
