-- ===== src/Tests/Finished.antt =====
-- The threads of a commit with one worker and a file of three bytes, from the start to the end.
use zerostash.Prelude.{
  ℕ, zero, suc, ◌≡◌, ◌≢◌, ◌∙◌, refl, sym, ap, subst, some, none, [], ◌∷◌, get_elem?, get_or,
  replicate, arith,
}
use zerostash.Prelude.Equality.{bytes_eq}
use zerostash.Prelude.Dict
use zerostash.Objects.{
  Bytes, CryptoDigest, set_id, finalize_range, finalize_with, write, reset_cursor,
}
use zerostash.Chunks
use zerostash.Chunks.Pointer.{ChunkPointer}
use zerostash.Files
use zerostash.Compress.{block}
use zerostash.Crypto.{to_le_bytes, encrypt_chunk}
use zerostash.Backends.{unconditional, in_memory, memory_write}
use zerostash.Backends.Memory.{in_memory-IsLawful}
use zerostash.Storage.{store_chunk, make_room, place, flush, write_all, clone}
use zerostash.Splitter.{split, collect, next, new}
use zerostash.Files.{from_file, to_unix_mtime, has_changed, entry_eq}
use zerostash.Store.{has_parent, push_item}
use zerostash.Store.Kept.{Kept}
use zerostash.Store.Pool.{
  Slot, as_worker, send, worker, move, begin_file, start, workers_of, finished, crashed, next_chunk,
  end_loop,
}
use zerostash.Store.Pool.Progress.{Done}
use zerostash.Store.Pool.Moves.{NoCrash}
use zerostash.Store.Pool.Steps.{IsFresh}
use zerostash.Store.Pool.Settled.{HonestTask, Allowed, AllAllowed}
use zerostash.Store.Pool.Finished.{IsSpawned, recursive-Kept}
use zerostash.Tests.Samples.{provider, provider-IsSound, lz4, lz4-IsLawful}
use zerostash.Tests.Stored.{bytes, contents, digest_of, whole_file, worker as storing_worker}
use zerostash.Tests.Recursive.{file, away, no_pointer, worker-Settled, pointer}
use zerostash.Tests.Pool.{P, one_file, stored_all, stored_all_steps, run_all, waits}

abbrev Fresh : P → Slot → Type 0
Fresh p slot =
    IsFresh provider in_memory lz4 (unconditional in_memory) in_memory-IsLawful contents
      provider-IsSound lz4-IsLawful digest_of whole_file p slot

abbrev IsAllowed : P → Type 0
IsAllowed p =
    Allowed provider in_memory lz4 (unconditional in_memory) in_memory-IsLawful contents
      provider-IsSound lz4-IsLawful digest_of whole_file (worker 0) p

abbrev IsHonest : Slot → Type 0
IsHonest slot =
    HonestTask provider in_memory lz4 (unconditional in_memory) in_memory-IsLawful contents
      provider-IsSound lz4-IsLawful digest_of whole_file slot.task

only_slot : (slot b : Slot) (j : ℕ) → get_elem? (slot ∷ []) j ≡ some b → slot ≡ b
only_slot slot b zero e = cc
only_slot slot b (suc j) e = absurd (cc)

-- What a step of the only worker needs.
alone-IsAllowed :
    (p : P) (slot : Slot) (id : Bytes)
    → p.slots ≡ slot ∷ []
    → (flush provider in_memory
        (as_worker provider in_memory lz4 digest_of whole_file slot p).storage).1.object.id
      ≡ id
    → ((hash : CryptoDigest) (r : ChunkPointer) → Dict.lookup hash p.chunks ≡ some r → r.file ≢ id)
    → slot.object.id ≢ id
    → IsHonest slot
    → IsAllowed p
alone-IsAllowed p slot id alone drawn chunks other honest b at =
    subst (λ (x : Slot). Fresh p x × IsHonest x)
      (only_slot slot b 0 (sym (ap (λ s. get_elem? s 0) alone) ∙ at))
      (
        record {
          of_chunks = λ hash r found e. chunks hash r found (e ∙ drawn);
          of_workers = λ j c at' e. other (
              ap (λ (x : Slot). x.object.id)
                (only_slot slot c j (sym (ap (λ s. get_elem? s j) alone) ∙ at'))
              ∙ e
              ∙ drawn);
        },
        honest,
      )

new_id : ◌≢◌ {A = Bytes} (replicate 32 1) (replicate 32 3)
unfolding replicate
new_id e = omega (arith, ap (λ i. get_or i 0 1) e)

abbrev slot_of : P → Slot
slot_of p = elim (get_elem? p.slots 0) [ none ↦ waits | some s ↦ s ]

abbrev after_send : P
after_send = run_all (send ∷ []) one_file

send-IsAllowed : IsAllowed after_send
unfolding start workers_of move begin_file next_chunk end_loop clone has_parent from_file
    to_unix_mtime has_changed push_item split collect next new Chunks.push Chunks.entry Dict.lookup
    store_chunk block make_room place flush finalize_range memory_write Dict.insert write_all write
    to_le_bytes encrypt_chunk replicate reset_cursor set_id finalize_with Files.push
send-IsAllowed =
    alone-IsAllowed after_send (slot_of after_send) (replicate 32 3) refl refl
      (no_pointer (replicate 32 3)) new_id tt

abbrev after_begin : P
after_begin = run_all (send ∷ worker 0 ∷ []) one_file

begin-IsAllowed : IsAllowed after_begin
unfolding start workers_of move begin_file next_chunk end_loop clone has_parent from_file
    to_unix_mtime has_changed push_item split collect next new Chunks.push Chunks.entry Dict.lookup
    store_chunk block make_room place flush finalize_range memory_write Dict.insert write_all write
    to_le_bytes encrypt_chunk replicate reset_cursor set_id finalize_with Files.push
begin-IsAllowed =
    alone-IsAllowed after_begin (slot_of after_begin) (replicate 32 3) refl refl
      (no_pointer (replicate 32 3)) new_id refl

abbrev after_chunk : P
after_chunk = run_all (send ∷ worker 0 ∷ worker 0 ∷ []) one_file

chunk-IsAllowed : IsAllowed after_chunk
unfolding start workers_of move begin_file next_chunk end_loop clone has_parent from_file
    to_unix_mtime has_changed push_item split collect next new Chunks.push Chunks.entry Dict.lookup
    store_chunk block make_room place flush finalize_range memory_write Dict.insert write_all write
    to_le_bytes encrypt_chunk replicate reset_cursor set_id finalize_with Files.push
chunk-IsAllowed =
    alone-IsAllowed after_chunk (slot_of after_chunk) (replicate 32 3) refl refl
      (away 1 (replicate 32 3) refl) new_id tt

abbrev after_entry : P
after_entry = run_all (send ∷ worker 0 ∷ worker 0 ∷ worker 0 ∷ []) one_file

entry-IsAllowed : IsAllowed after_entry
unfolding start workers_of move begin_file next_chunk end_loop clone has_parent from_file
    to_unix_mtime has_changed push_item split collect next new Chunks.push Chunks.entry Dict.lookup
    store_chunk block make_room place flush finalize_range memory_write Dict.insert write_all write
    to_le_bytes encrypt_chunk replicate reset_cursor set_id finalize_with Files.push
entry-IsAllowed =
    alone-IsAllowed after_entry (slot_of after_entry) (replicate 32 3) refl refl
      (away 1 (replicate 32 3) refl) new_id tt

all_allowed :
    AllAllowed provider in_memory lz4
      (unconditional in_memory)
      in_memory-IsLawful
      contents
      provider-IsSound
      lz4-IsLawful
      digest_of
      whole_file
      stored_all_steps
unfolding start workers_of move begin_file next_chunk end_loop clone has_parent from_file
    to_unix_mtime has_changed push_item split collect next new Chunks.push Chunks.entry Dict.lookup
    store_chunk block make_room place flush finalize_range memory_write Dict.insert write_all write
    to_le_bytes encrypt_chunk replicate reset_cursor set_id finalize_with Files.push
    stored_all_steps
all_allowed = (((((tt, tt), send-IsAllowed), begin-IsAllowed), chunk-IsAllowed), entry-IsAllowed)

one_file-IsSpawned :
    IsSpawned provider in_memory lz4
      (unconditional in_memory)
      in_memory-IsLawful
      contents
      provider-IsSound
      lz4-IsLawful
      digest_of
      whole_file
      one_file
unfolding start workers_of Dict.lookup
one_file-IsSpawned = record {
  apart = λ i j a b at at' ne. absurd (ne (only_index b j at' ∙ sym (only_index a i at)));
  away = λ hash r i slot found at. absurd (cc);
}
  where
    only_index : (s : Slot) (j : ℕ) → get_elem? one_file.slots j ≡ some s → j ≡ 0
    only_index s zero e = refl
    only_index s (suc j) e = absurd (cc)

last_state : Done provider in_memory lz4 digest_of whole_file stored_all
unfolding start workers_of move begin_file next_chunk end_loop clone has_parent from_file
    to_unix_mtime has_changed push_item split collect next new Chunks.push Chunks.entry Dict.lookup
    store_chunk block make_room place flush finalize_range memory_write Dict.insert write_all write
    to_le_bytes encrypt_chunk replicate reset_cursor set_id finalize_with Files.push
last_state = record { all_sent = refl; all_received = refl; all_ended = (tt, tt) }

none_crashed : NoCrash provider in_memory lz4 digest_of whole_file stored_all
unfolding start workers_of move begin_file next_chunk end_loop clone has_parent from_file
    to_unix_mtime has_changed push_item split collect next new Chunks.push Chunks.entry Dict.lookup
    store_chunk block make_room place flush finalize_range memory_write Dict.insert write_all write
    to_le_bytes encrypt_chunk replicate reset_cursor set_id finalize_with Files.push
none_crashed i slot at e =
    let ends : finished ≡ crashed =
      ap (λ (x : Slot). x.task) (only_slot (slot_of stored_all) slot i at) ∙ e in
    cc

indexed : stored_all.chunks ≡ (bytes, pointer) ∷ []
unfolding start workers_of move begin_file next_chunk end_loop clone has_parent from_file
    to_unix_mtime has_changed push_item split collect next new Chunks.push Chunks.entry Dict.lookup
    store_chunk block make_room place flush finalize_range memory_write Dict.insert write_all write
    to_le_bytes encrypt_chunk replicate reset_cursor set_id finalize_with Files.push
indexed = refl

looked_up : Dict.lookup bytes ((bytes, pointer) ∷ []) ≡ some pointer
unfolding Dict.lookup
looked_up = ground arith

pointer_found : Dict.lookup bytes stored_all.chunks ≡ some pointer
pointer_found = ap (Dict.lookup bytes) indexed ∙ looked_up

recursive-Kept_example :
    Kept provider in_memory lz4
      (unconditional in_memory)
      in_memory-IsLawful
      contents
      provider-IsSound
      lz4-IsLawful
      stored_all.backend
      bytes
      pointer
recursive-Kept_example =
    recursive-Kept provider in_memory lz4 (unconditional in_memory) in_memory-IsLawful contents
      provider-IsSound lz4-IsLawful digest_of whole_file 2 5 (file ∷ []) storing_worker stored_all
      stored_all_steps worker-Settled one_file-IsSpawned all_allowed last_state none_crashed bytes
      pointer pointer_found
