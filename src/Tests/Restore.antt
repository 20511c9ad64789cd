-- ===== src/Tests/Restore.antt =====
-- Storing and restoring a file of three bytes.
use zerostash.Prelude.{
  ℕ, ◌≡◌, refl, ap, inl, false, some, List, [], ◌∷◌, ◌++◌, length, get_elem?, replicate, ok, arith,
}
use zerostash.Prelude.Equality.{bytes_eq}
use zerostash.Prelude.Dict
use zerostash.Objects.{
  Bytes, CryptoDigest, finalize_range, finalize_with, write, reset_cursor, set_id,
}
use zerostash.Chunks.Pointer.{ChunkPointer}
use zerostash.Backends.{unconditional, in_memory, memory_read, memory_write}
use zerostash.Backends.Memory.{in_memory-IsLawful}
use zerostash.Storage.{store_chunk, make_room, place, flush, write_all}
use zerostash.Rollsum.{Rollsum}
use zerostash.Chunks
use zerostash.Compress.{block}
use zerostash.Crypto.{to_le_bytes, encrypt_chunk}
use zerostash.Splitter.{split, collect, next, new}
use zerostash.Files.{entry_eq, has_changed}
use zerostash.Store.{Worker, store_changed, push_items, push_item}
use zerostash.Store.Files.{Recorded, Keeps, store_changed-Recorded}
use zerostash.Restore.{done, restore_file}
use zerostash.Restore.Content.{IsPart}
use zerostash.Restore.Groups.{Chunk}
use zerostash.Restore.Rounds.{Available, Later}
use zerostash.Restore.Whole.{restore_file-content}
use zerostash.Tests.Samples.{
  access, access-Granted, provider, provider-IsSound, lz4, lz4-IsLawful, key, sample_id, zero_tag,
}
use zerostash.Tests.Storage.{packed, packed-block, pointer, filled, filled-Holds}
use zerostash.Tests.Indices.{fresh_entry}

abbrev pub content : Bytes
content = 1 ∷ 2 ∷ 3 ∷ []

-- Room for the compressed chunk and its tag.
abbrev room : Bytes
room = packed ++ zero_tag

abbrev pub memory : in_memory.State
memory = (sample_id, filled.object) ∷ []

pub memory_has : (memory_read sample_id memory).0 ≡ ok filled.object
unfolding memory_read Dict.lookup
memory_has = ground arith

pub content-IsPart : IsPart content 0 content
content-IsPart = record { inside = omega arith; at = λ j h. ap (get_elem? content) (omega arith) }

abbrev plain_of : Chunk → Bytes
plain_of c = content

content-Available : Available provider lz4 in_memory content memory 23 content (0, pointer)
content-Available = record {
  hash = key;
  compressed = packed;
  object = filled.object;
  read = memory_has;
  same_id = refl;
  held = filled-Holds;
  packed = packed-block;
  positive = omega arith;
  small = omega arith;
  decryptable = omega arith;
  part = content-IsPart;
}

restore_file-content_example :
    (buffer : Bytes) × (b : in_memory.State) × (restore_file provider lz4 in_memory 3
        ((0, pointer) ∷ [])
        access
        (some (8 ∷ 8 ∷ 8 ∷ 8 ∷ 8 ∷ []))
        room
        memory
      ≡ done (some content, buffer, b))
    × (length buffer ≡ 23)
    × Later in_memory (unconditional in_memory) memory b
restore_file-content_example =
    restore_file-content provider lz4 in_memory provider-IsSound (unconditional in_memory)
      in_memory-IsLawful lz4-IsLawful content 23 plain_of ((0, pointer) ∷ []) access
      (some (8 ∷ 8 ∷ 8 ∷ 8 ∷ 8 ∷ [])) room memory tt (access-Granted 3) (omega arith) refl
      (content-Available, tt) (λ i h. inl (omega arith, h))

abbrev worker : Worker provider in_memory
worker = record { chunks = []; files = []; storage = filled }

abbrev digest_of : Bytes → CryptoDigest
digest_of bs = bs

abbrev whole_file : Rollsum
whole_file = record { find_offset = λ bs. length bs }

abbrev stored_worker : Worker provider in_memory
stored_worker =
    (store_changed provider in_memory lz4 digest_of whole_file (some (9 ∷ 9 ∷ 9 ∷ [])) fresh_entry
      worker).1

store_run :
    store_changed provider in_memory lz4 digest_of whole_file
      (some (9 ∷ 9 ∷ 9 ∷ []))
      fresh_entry
      worker
    ≡ (ok tt, stored_worker)
unfolding store_changed push_items push_item split collect next new Chunks.push Chunks.entry
    Dict.lookup store_chunk block make_room place flush finalize_range memory_write Dict.insert
    write_all write to_le_bytes encrypt_chunk replicate reset_cursor set_id finalize_with
store_run = refl

store_changed-Recorded_example :
    (pointers : List (ℕ × ChunkPointer)) × Recorded stored_worker.chunks
      (split digest_of whole_file (9 ∷ 9 ∷ 9 ∷ []))
      pointers
    × (has_changed (record fresh_entry { chunks = pointers }) stored_worker.files ≡ false)
    × Keeps worker.chunks stored_worker.chunks
store_changed-Recorded_example =
    store_changed-Recorded provider in_memory lz4 digest_of whole_file (9 ∷ 9 ∷ 9 ∷ []) fresh_entry
      worker stored_worker refl store_run
