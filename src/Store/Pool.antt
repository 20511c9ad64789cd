-- ===== src/Store/Pool.antt =====
-- libzerostash/src/stash/store.rs: `recursive` with its threads, which interleave: `process_path`
-- sends the files into the bounded channel, and the workers receive them. A push of a chunk is one
-- step, as are the beginning and the end of a file and the flush of a worker; what the channel does is
-- crossbeam's: a send waits while it is full, and the iteration of a receiver ends when it is empty
-- and the sender is gone.
pub mod Unfinished
pub mod Orderly
pub mod Progress
pub mod Costs
pub mod Weight
pub mod Stuck
pub mod Sound
pub mod Advance
pub mod Steps
pub mod Moves
pub mod Settled
pub mod Finished
use zerostash.Prelude.{
  ℕ, zero, suc, ◌*◌, ◌-◌, ◌==◌, ◌≡◌, Option, none, some, List, [], ◌∷◌, ◌++◌, length, get_elem?,
  set, take, ltb, if◌then◌else◌, Outcome, ok, err, panic,
}
use zerostash.Objects.{Bytes, CryptoDigest, Object}
use zerostash.Chunks.{ChunkIndex}
use zerostash.Chunks.Pointer.{ChunkPointer}
use zerostash.Compress.{Lz4}
use zerostash.Crypto.Provider.{CryptoProvider}
use zerostash.Backends.{Backend}
use zerostash.Storage.{Storage, ObjectError, clone}
use zerostash.Rollsum.{Rollsum}
use zerostash.Splitter.{Item, split}
use zerostash.Files as FileStore
use zerostash.Files.{Entry, FileIndex, Metadata, from_file}
use zerostash.Store.{Worker, DirEntry, has_parent, unwrapped, push_item, flush_worker}

-- Where a worker stands in `process_file_loop`: it waits for the next file, goes through the chunks
-- of one, has ended with its flush, or has panicked.
pub data Task : Type 0 where
  waiting finished crashed : Task
  storing : Entry → List Item → Task

-- What is a worker's own.
pub record Slot : Type 0 where
  pub task : Task
  pub object : Object
  pub capacity : ℕ

-- The workers, the files that `process_path` has yet to send, the channel, and what is shared.
pub record Pool (C : CryptoProvider) (B : Backend) : Type 0 where
  pub bound : ℕ
  pub to_send : List DirEntry
  pub channel : List DirEntry
  pub slots : List Slot
  pub chunks : ChunkIndex
  pub files : FileIndex
  pub source : C.Source
  pub backend : B.State

pub data Move : Type 0 where
  send : Move
  worker : ℕ → Move

module _ (C : CryptoProvider) (B : Backend) (Z : Lz4) (digest : Bytes → CryptoDigest)
    (R : Rollsum) where
  abbrev pub P : Type 0
  P = Pool C B

  -- The worker of a slot, with what is shared.
  abbrev pub as_worker : Slot → P → Worker C B
  as_worker slot p = record {
    chunks = p.chunks;
    files = p.files;
    storage = record {
      object = slot.object;
      capacity = slot.capacity;
      source = p.source;
      backend = p.backend;
    };
  }

  abbrev pub as_slot : Task → Worker C B → Slot
  as_slot task w = record { task = task; object = w.storage.object; capacity = w.storage.capacity }

  abbrev pub put_back : ℕ → Task × Worker C B → P → P
  put_back i (task, w) p = record p {
    slots = set p.slots i (as_slot task w);
    chunks = w.chunks;
    files = w.files;
    source = w.storage.source;
    backend = w.storage.backend;
  }

  -- A file that was received, up to the loop over its chunks.
  abbrev pub begin_mapped : Option Bytes → Entry → Worker C B → Task × Worker C B
  begin_mapped none entry w = (crashed, w)
  begin_mapped (some bytes) entry w = (storing entry (split digest R (take entry.size bytes)), w)

  abbrev pub begin_changed : Option Bytes → Entry → Worker C B → Task × Worker C B
  begin_changed mapped entry w =
      if entry.size == 0
      then (waiting, record w { files = FileStore.push entry w.files })
      else begin_mapped mapped entry w

  abbrev pub begin_entry : Option Bytes → Outcome ObjectError Entry → Worker C B → Task × Worker C B
  begin_entry mapped (ok entry) w =
      if FileStore.has_changed entry w.files then begin_changed mapped entry w else (waiting, w)
  begin_entry mapped (err e) w = (crashed, w)
  begin_entry mapped panic w = (crashed, w)

  abbrev pub begin_opened :
      Option Bytes → Option (Metadata × Option Bytes) → Worker C B → Task × Worker C B
  begin_opened name none w = (crashed, w)
  begin_opened name (some (m, mapped)) w = begin_entry mapped (unwrapped (from_file m name)) w

  unfoldable pub begin_file : DirEntry → Worker C B → Task × Worker C B
  begin_file file w =
      if has_parent file.path then (waiting, w) else begin_opened file.name file.opened w

  abbrev pub after_push : ℕ → Entry → List Item → Outcome ObjectError ChunkPointer → Task
  after_push start entry items (ok ptr) =
      storing (record entry { chunks = entry.chunks ++ (start, ptr) ∷ [] }) items
  after_push start entry items (err e) = crashed
  after_push start entry items panic = crashed

  -- The next chunk of the file, or the push of its entry.
  unfoldable pub next_chunk : Entry → List Item → Worker C B → Task × Worker C B
  next_chunk entry [] w = (waiting, record w { files = FileStore.push entry w.files })
  next_chunk entry (x ∷ items) w =
      let (r, w') = push_item C B Z x w in (after_push x.start entry items r, w')

  abbrev pub ended : Outcome ObjectError (Unit {0}) → Task
  ended (ok u) = finished
  ended (err e) = crashed
  ended panic = crashed

  unfoldable pub end_loop : Worker C B → Task × Worker C B
  end_loop w = let (r, w') = flush_worker C B Z digest R w in (ended r, w')

  -- A worker that waits: it receives, ends, or is blocked.
  abbrev pub receive : ℕ → Slot → List DirEntry → List DirEntry → P → Option P
  receive i slot (file ∷ channel) rest p =
      some (put_back i (begin_file file (as_worker slot p)) (record p { channel = channel }))
  receive i slot [] [] p = some (put_back i (end_loop (as_worker slot p)) p)
  receive i slot [] (file ∷ rest) p = none

  abbrev pub turn : ℕ → Slot → Task → P → Option P
  turn i slot waiting p = receive i slot p.channel p.to_send p
  turn i slot (storing entry items) p =
      some (put_back i (next_chunk entry items (as_worker slot p)) p)
  turn i slot finished p = none
  turn i slot crashed p = none

  abbrev pub turn_of : ℕ → Option Slot → P → Option P
  turn_of i none p = none
  turn_of i (some slot) p = turn i slot slot.task p

  -- `sender.send(entry)`, which waits while the channel is full
  abbrev pub send_next : List DirEntry → P → Option P
  send_next [] p = none
  send_next (file ∷ rest) p =
      if ltb (length p.channel) p.bound
      then some (record p { to_send = rest; channel = p.channel ++ file ∷ [] })
      else none

  -- A step of one thread, `none` where the thread is blocked or has ended.
  unfoldable pub move : Move → P → Option P
  unfolding begin_file next_chunk end_loop
  move send p = send_next p.to_send p
  move (worker i) p = turn_of i (get_elem? p.slots i) p

  -- Any interleaving.
  pub data Run (p : P) : ℕ → P → Type 0 where
    here : Run p 0 p
    step : {n : ℕ} {q r : P} (m : Move) → Run p n q → move m q ≡ some r → Run p (suc n) r

  -- The workers that `recursive` spawns, each with a clone of the object store, before any runs.
  unfoldable pub workers_of : ℕ → Storage C B → List Slot × C.Source
  unfolding clone
  workers_of zero s = ([], s.source)
  workers_of (suc n) s =
      let (cloned, source) = clone C B s in
      let (slots, source') = workers_of n (record s { source = source }) in
      (
        record { task = waiting; object = cloned.object; capacity = cloned.capacity } ∷ slots,
        source',
      )

  -- `recursive` at its start, with one thread at least
  unfoldable pub start : ℕ → List DirEntry → Worker C B → P
  unfolding workers_of
  start threads files w =
      let (slots, source) = workers_of (threads - 1) w.storage in
      record {
        bound = 16 * threads;
        to_send = files;
        channel = [];
        slots = slots;
        chunks = w.chunks;
        files = w.files;
        source = source;
        backend = w.storage.backend;
      }
