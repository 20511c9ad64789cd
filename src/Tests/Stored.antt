-- ===== src/Tests/Stored.antt =====
-- A file of three bytes, stored by a worker, flushed, and restored.
use zerostash.Prelude.{
  ◌+◌, ◌≤◌, ◌≡◌, ◌∙◌, refl, sym, ap, false, some, List, [], ◌∷◌, length, get_or, replicate, ok,
  Outcome, take, arith,
}
use zerostash.Prelude.Equality.{bytes_eq}
use zerostash.Prelude.Dict
use zerostash.Objects.{
  Bytes, CryptoDigest, finalize_range, finalize_with, write, reset_cursor, set_id,
}
use zerostash.Chunks.Pointer.{ChunkPointer}
use zerostash.Backends.{unconditional, in_memory, memory_write}
use zerostash.Backends.Memory.{in_memory-IsLawful}
use zerostash.Storage.{Storage, store_chunk, make_room, place, flush, write_all}
use zerostash.Storage.Flush.{IsValid}
use zerostash.Rollsum
use zerostash.Rollsum.{Rollsum}
use zerostash.Chunks
use zerostash.Compress.{block}
use zerostash.Crypto.{to_le_bytes, encrypt_chunk}
use zerostash.Splitter.{Item, split, collect, next, new}
use zerostash.Files.{has_changed}
use zerostash.Store.{Worker, store_changed, push_items, push_item, flush_worker}
use zerostash.Store.Held.{IsFaithful, Fresh, FreshRun, Honest}
use zerostash.Restore.{done, restore_file}
use zerostash.Restore.Groups.{Chunk}
use zerostash.Restore.Stored.{Fits, fits, all_fit, stored_file-restored}
use zerostash.Tests.Samples.{
  access, access-Granted, provider, provider-IsSound, lz4, lz4-IsLawful, sample_id, zero_tag,
}
use zerostash.Tests.Indices.{fresh_entry}

abbrev pub bytes : Bytes
bytes = 9 ∷ 9 ∷ 9 ∷ []

abbrev pub digest_of : Bytes → CryptoDigest
digest_of bs = bs

abbrev pub contents : CryptoDigest → Bytes
contents hash = hash

-- One chunk for a whole file.
abbrev pub whole_file : Rollsum
whole_file = record { find_offset = λ bs. length bs }

whole_file-IsLawful : Rollsum.IsLawful whole_file
whole_file-IsLawful = record { positive = λ bs h. h; inside = λ bs. omega arith }

abbrev pub storage : Storage provider in_memory
storage = record {
  object = record { id = sample_id; buffer = replicate 8 0; capacity = 8; cursor = 0 };
  capacity = 8;
  source = 1;
  backend = [];
}

pub storage-IsValid : IsValid storage
unfolding replicate
storage-IsValid = record {
  full = refl;
  whole = refl;
  cursor_in = omega arith;
  id_size = refl;
  addressable = omega arith;
}

abbrev pub worker : Worker provider in_memory
worker = record { chunks = []; files = []; storage = storage }

pub worker-IsFaithful :
    IsFaithful provider in_memory lz4 (unconditional in_memory) in_memory-IsLawful contents worker
unfolding Dict.lookup
worker-IsFaithful = record {
  ready = record { valid = storage-IsValid; coherent = tt; accepted = tt };
  held = λ hash p found. absurd (cc);
}

abbrev stored : Worker provider in_memory
stored =
    (store_changed provider in_memory lz4 digest_of whole_file (some bytes) fresh_entry worker).1

stored_run :
    store_changed provider in_memory lz4 digest_of whole_file (some bytes) fresh_entry worker
    ≡ (ok tt, stored)
unfolding store_changed push_items push_item split collect next new Chunks.push Chunks.entry
    Dict.lookup store_chunk block make_room place flush finalize_range memory_write Dict.insert
    write_all write to_le_bytes encrypt_chunk replicate reset_cursor set_id finalize_with
stored_run = refl

abbrev finished : Worker provider in_memory
finished = (flush_worker provider in_memory lz4 digest_of whole_file stored).1

finished_run : flush_worker provider in_memory lz4 digest_of whole_file stored ≡ (ok tt, finished)
unfolding store_changed push_items push_item split collect next new Chunks.push Chunks.entry
    Dict.lookup store_chunk block make_room place flush finalize_range memory_write Dict.insert
    write_all write to_le_bytes encrypt_chunk replicate reset_cursor set_id finalize_with
finished_run = refl

abbrev pointer : ChunkPointer
pointer = record { offs = 0; size = 7; file = sample_id; hash = bytes; tag = zero_tag }

only_pointer :
    (hash : CryptoDigest) (p : ChunkPointer)
    → Dict.lookup hash ((bytes, pointer) ∷ []) ≡ some p
    → p ≡ pointer
unfolding Dict.lookup
only_pointer hash p found = ground (arith, found)

abbrev room : Bytes
room = replicate 23 0

pieces :
    split digest_of whole_file (take 3 bytes)
    ≡ record { start = 0; chunk = bytes; hash = bytes } ∷ []
unfolding split collect next new
pieces = refl

abbrev items : List Item
items = split digest_of whole_file (take 3 bytes)

items-Honest :
    Honest provider in_memory lz4 (unconditional in_memory) in_memory-IsLawful contents items
unfolding split collect next new
items-Honest = (refl, tt)

stored_chunks : stored.chunks ≡ (bytes, pointer) ∷ []
unfolding store_changed push_items push_item split collect next new Chunks.push Chunks.entry
    Dict.lookup store_chunk block make_room place flush finalize_range memory_write Dict.insert
    write_all write to_le_bytes encrypt_chunk replicate reset_cursor set_id finalize_with
stored_chunks = refl

worker-Fresh :
    Fresh provider in_memory lz4 (unconditional in_memory) in_memory-IsLawful contents worker
unfolding Dict.lookup
worker-Fresh hash p found = absurd (cc)

next_first : get_or (flush provider in_memory stored.storage).1.object.id 0 1 ≡ 2
unfolding store_changed push_items push_item split collect next new Chunks.push Chunks.entry
    Dict.lookup store_chunk block make_room place flush finalize_range memory_write Dict.insert
    write_all write to_le_bytes encrypt_chunk replicate reset_cursor set_id finalize_with
next_first = refl

stored-Fresh :
    Fresh provider in_memory lz4 (unconditional in_memory) in_memory-IsLawful contents stored
stored-Fresh hash p found same =
    let here = only_pointer hash p (ap (Dict.lookup hash) (sym stored_chunks) ∙ found) in
    omega (arith, ap (λ i. get_or i 0 1) (sym (ap (λ q. q.file) here) ∙ same), next_first)

items-FreshRun :
    FreshRun provider in_memory lz4
      (unconditional in_memory)
      in_memory-IsLawful
      contents
      items
      worker
unfolding store_changed push_items push_item split collect next new Chunks.push Chunks.entry
    Dict.lookup store_chunk block make_room place flush finalize_range memory_write Dict.insert
    write_all write to_le_bytes encrypt_chunk replicate reset_cursor set_id finalize_with
items-FreshRun = (worker-Fresh, stored-Fresh)

packed_bytes : block lz4 bytes ≡ ok (3 ∷ 0 ∷ 0 ∷ 0 ∷ bytes)
unfolding block to_le_bytes
packed_bytes = refl

ok-injective : {E A : Type 0} (x y : A) → ◌≡◌ {A = Outcome E A} (ok x) (ok y) → x ≡ y
ok-injective x y e = cc

packed_room : (z : Bytes) → block lz4 bytes ≡ ok z → length z + 16 ≤ length room
unfolding replicate
packed_room z e = omega (arith, ap length (ok-injective _ z (sym packed_bytes ∙ e)))

items-Fits :
    Fits provider in_memory lz4
      (unconditional in_memory)
      in_memory-IsLawful
      contents
      provider-IsSound
      lz4-IsLawful
      digest_of
      whole_file
      whole_file-IsLawful
      (take 3 bytes)
      finished.storage.backend
      (length room)
      stored.chunks
      items
unfolding split collect next new
items-Fits = fits (omega arith) (λ z e. packed_room z e) all_fit

stored_file-restored_example :
    (pointers : List Chunk) × (has_changed (record fresh_entry { chunks = pointers }) finished.files
      ≡ false)
    × (buffer : Bytes) × (b : in_memory.State) × (restore_file provider lz4 in_memory 3 pointers
          access
          (some (8 ∷ []))
          room
          finished.storage.backend
        ≡ done (some bytes, buffer, b))
stored_file-restored_example =
    stored_file-restored provider in_memory lz4 (unconditional in_memory) in_memory-IsLawful
      contents provider-IsSound lz4-IsLawful digest_of whole_file whole_file-IsLawful bytes
      fresh_entry worker stored finished access (some (8 ∷ [])) room (access-Granted 3)
      worker-IsFaithful items-Honest items-FreshRun items-Fits refl (omega arith) refl stored_run
      finished_run
