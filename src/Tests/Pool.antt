-- ===== src/Tests/Pool.antt =====
-- Threads of a commit that interleave: two files of three bytes, sent to one worker or to none.
use zerostash.Prelude.{
  ◌+◌, ◌≤◌, ◌≡◌, ◌≢◌, refl, some, none, List, replicate, [], ◌∷◌, ◌⊎◌, length, arith,
}
use zerostash.Prelude.Equality.{bytes_eq}
use zerostash.Prelude.Dict
use zerostash.Objects.{set_id, finalize_range, finalize_with, write, reset_cursor}
use zerostash.Chunks
use zerostash.Files
use zerostash.Compress.{block}
use zerostash.Crypto.{to_le_bytes, encrypt_chunk}
use zerostash.Backends.{in_memory, memory_write}
use zerostash.Storage.{store_chunk, make_room, place, flush, write_all, clone}
use zerostash.Splitter.{split, collect, next, new}
use zerostash.Files.{from_file, to_unix_mtime, has_changed, entry_eq}
use zerostash.Store.{has_parent, push_item}
use zerostash.Store.Pool.{
  Pool, Slot, Move, send, worker, move, Run, here, step, begin_file, start, workers_of, waiting,
  next_chunk, end_loop,
}
use zerostash.Store.Pool.Costs.{weight}
use zerostash.Store.Pool.Weight.{Run-weight}
use zerostash.Store.Pool.Progress.{Done, CanMove, recursive-progress}
use zerostash.Store.Pool.Stuck.{recursive_one_thread}
use zerostash.Tests.Samples.{provider, lz4}
use zerostash.Tests.Stored.{digest_of, whole_file, worker as storing_worker}
use zerostash.Tests.Recursive.{file}

abbrev pub P : Type 0
P = Pool provider in_memory

abbrev begun : P
begun = start provider in_memory lz4 digest_of whole_file 2 (file ∷ file ∷ []) storing_worker

abbrev sent : P
sent = record begun { to_send = file ∷ []; channel = file ∷ [] }

sent_steps : Run provider in_memory lz4 digest_of whole_file begun 1 sent
unfolding start move
sent_steps = step send here refl

abbrev pub waits : Slot
waits = record {
  task = waiting;
  object = (clone provider in_memory storing_worker.storage).0.object;
  capacity = (clone provider in_memory storing_worker.storage).0.capacity;
}

recursive-progress_example :
    Done provider in_memory lz4 digest_of whole_file sent
    ⊎ CanMove provider in_memory lz4 digest_of whole_file sent
unfolding start workers_of
recursive-progress_example =
    recursive-progress provider in_memory lz4 digest_of whole_file 2 1 (file ∷ file ∷ [])
      storing_worker sent 0 waits (omega arith) sent_steps refl (λ e. cc)

abbrev alone : P
alone = start provider in_memory lz4 digest_of whole_file 1 (file ∷ file ∷ []) storing_worker

abbrev alone_sent : P
alone_sent = record alone { to_send = file ∷ []; channel = file ∷ [] }

alone_steps : Run provider in_memory lz4 digest_of whole_file alone 1 alone_sent
unfolding start move
alone_steps = step send here refl

recursive_one_thread_example :
    (alone_sent.chunks ≡ [])
    × (alone_sent.files ≡ [])
    × (alone_sent.backend ≡ [])
    × (length alone_sent.channel ≤ 16)
    × (length alone_sent.channel + length alone_sent.to_send ≡ 2)
    × (length alone_sent.channel ≡ 16
        → (m : Move) (r : P)
        → move provider in_memory lz4 digest_of whole_file m alone_sent ≢ some r)
unfolding start
recursive_one_thread_example =
    recursive_one_thread provider in_memory lz4 digest_of whole_file (file ∷ file ∷ [])
      storing_worker 1 alone_sent alone_steps

abbrev pub one_file : P
one_file = start provider in_memory lz4 digest_of whole_file 2 (file ∷ []) storing_worker

abbrev pub run_all : List Move → P → P
run_all [] p = p
run_all (m ∷ moves) p =
    let q : P = elim (move provider in_memory lz4 digest_of whole_file m p) [
      | none ↦ p
      | some q ↦ q
    ] in
    run_all moves q

-- The file is sent, received, its chunk and then its entry pushed, and the worker flushes and ends.
abbrev pub stored_all : P
stored_all = run_all (send ∷ worker 0 ∷ worker 0 ∷ worker 0 ∷ worker 0 ∷ []) one_file

unfoldable pub stored_all_steps :
    Run provider in_memory lz4 digest_of whole_file one_file 5 stored_all
unfolding start workers_of move begin_file next_chunk end_loop clone has_parent from_file
    to_unix_mtime has_changed push_item split collect next new Chunks.push Chunks.entry Dict.lookup
    store_chunk block make_room place flush finalize_range memory_write Dict.insert write_all write
    to_le_bytes encrypt_chunk replicate reset_cursor set_id finalize_with Files.push
stored_all_steps =
    step (worker 0)
      (step (worker 0) (step (worker 0) (step (worker 0) (step send here refl) refl) refl) refl)
      refl

Run-weight_example :
    5 + weight provider in_memory lz4 digest_of whole_file stored_all
    ≤ weight provider in_memory lz4 digest_of whole_file one_file
Run-weight_example =
    Run-weight provider in_memory lz4 digest_of whole_file one_file stored_all 5 stored_all_steps
