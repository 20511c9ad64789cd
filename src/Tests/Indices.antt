-- ===== src/Tests/Indices.antt =====
-- The indices of chunks and files at concrete inputs.
use zerostash.Prelude.{ℕ, suc, ◌≡◌, refl, false, Option, some, none, [], ◌∷◌, ok, Exec, arith}
use zerostash.Prelude.Equality.{bytes_eq}
use zerostash.Prelude.Dict
use zerostash.Chunks
use zerostash.Chunks.{ChunkIndex}
use zerostash.Chunks.Pointer.{ChunkPointer}
use zerostash.Chunks.Dedup.{Pushed, entry-Pushed}
use zerostash.Files
use zerostash.Files.{Entry, entry_eq, FileIndex, has_changed}
use zerostash.Files.Changed.{has_changed-after_push}
use zerostash.Tests.Samples.{sample_id, key, zero_tag}

abbrev pointer : ChunkPointer
pointer = record { offs = 0; size = 7; file = sample_id; hash = key; tag = zero_tag }

-- Stores a chunk and counts the calls.
abbrev store : Exec ℕ (Unit {0}) ChunkPointer
store n = (ok pointer, suc n)

entry_run : Chunks.entry key store ([], 0) ≡ (ok pointer, ((key, pointer) ∷ [], 1))
unfolding Chunks.entry Dict.lookup Dict.insert
entry_run = refl

entry-Pushed_example : Pushed key store [] ((key, pointer) ∷ []) pointer
entry-Pushed_example = entry-Pushed key store [] ((key, pointer) ∷ []) 0 1 pointer entry_run

abbrev faster : ChunkIndex → ChunkIndex
faster index = (key, pointer) ∷ index

no_key : ◌≡◌ {A = Option ChunkPointer} (Dict.lookup key []) none
unfolding Dict.lookup
no_key = refl

key_found : Dict.lookup key (faster []) ≡ some pointer
unfolding Dict.lookup
key_found = ground arith

abbrev pub fresh_entry : Entry
fresh_entry = record {
  unix_secs = 100;
  unix_nanos = 5;
  unix_perm = 420;
  unix_uid = 1000;
  unix_gid = 1000;
  size = 3;
  readonly = false;
  name = 97 ∷ [];
  chunks = [];
}

abbrev stored_entry : Entry
stored_entry = record fresh_entry { chunks = (0, pointer) ∷ [] }

has_changed-after_push_example :
    has_changed fresh_entry (Files.push stored_entry []) ≡ has_changed fresh_entry []
has_changed-after_push_example = has_changed-after_push fresh_entry stored_entry [] refl (λ e. cc)
