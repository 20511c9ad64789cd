-- ===== src/Store.antt =====
-- libzerostash/src/stash/store.rs: how a worker of a commit stores a file. The threads
-- and the channel between them are in Store/Pool.
pub mod Files
pub mod Pushed
pub mod Held
pub mod Queue
pub mod Kept
pub mod Pool
use zerostash.Prelude.{
  ℕ, ◌==◌, Bool, true, false, not, ◌||◌, Option, none, some, List, [], ◌∷◌, ◌++◌, take,
  if◌then◌else◌, Outcome, ok, err, panic, Exec, ◌>>=◌, ◌>>◌, and_then, pure, lift,
}
use zerostash.Objects.{Bytes, CryptoDigest}
use zerostash.Chunks
use zerostash.Chunks.{ChunkIndex}
use zerostash.Chunks.Pointer.{ChunkPointer}
use zerostash.Compress.{Lz4}
use zerostash.Crypto.Provider.{CryptoProvider}
use zerostash.Backends.{Backend}
use zerostash.Storage.{Storage, ObjectError, store_chunk, flush}
use zerostash.Rollsum.{Rollsum}
use zerostash.Splitter.{Item, split}
use zerostash.Files as FileStore
use zerostash.Files.{Entry, FileIndex, Metadata, from_file}
use zerostash.Restore.{Component, parent_dir, root_dir, cur_dir, normal}

-- What a worker finds at a path of the queue: `opened` is the metadata and the bytes that are mapped,
-- `none` where `File::open` or `file.metadata()` fails, and for the bytes where `map` does; `name` is the path's text, if it is UTF-8.
pub record DirEntry : Type 0 where
  pub path : List Component
  pub name : Option Bytes
  pub opened : Option (Metadata × Option Bytes)

-- What a worker works on: the two indices, which are shared, and its own object store.
pub record Worker (C : CryptoProvider) (B : Backend) : Type 0 where
  pub chunks : ChunkIndex
  pub files : FileIndex
  pub storage : Storage C B

-- `components().any(|c| c == Component::ParentDir)`
unfoldable pub has_parent : List Component → Bool
has_parent [] = false
has_parent (parent_dir ∷ cs) = true
has_parent (c ∷ cs) = has_parent cs

-- `.unwrap()` of a result
abbrev pub unwrapped {ℓ} : {E F A : Type ℓ} → Outcome E A → Outcome F A
unwrapped (ok a) = ok a
unwrapped (err e) = panic
unwrapped panic = panic

module _ (C : CryptoProvider) (B : Backend) (Z : Lz4) where
  abbrev pub W : Type 0
  W = Worker C B

  abbrev pub pushed :
      W
      → Outcome ObjectError ChunkPointer × (ChunkIndex × Storage C B)
      → Outcome ObjectError ChunkPointer × W
  pushed w (r, (chunks, storage)) = (unwrapped r, record w { chunks = chunks; storage = storage })

  -- `chunkindex.push(hash, || objectstore.store_chunk(&hash, data)).unwrap()`
  unfoldable pub push_item : Item → Exec W ObjectError ChunkPointer
  push_item x w =
      pushed w (
        Chunks.push x.hash (store_chunk C B Z x.hash x.chunk) (λ index. index)
          (w.chunks, w.storage))

  -- The loop over the chunks of a file; `entry.chunks.push` appends.
  unfoldable pub push_items : List Item → Entry → Exec W ObjectError Entry
  push_items [] entry w = (ok entry, w)
  push_items (x ∷ items) entry w =
      let (r, w') = push_item x w in
      and_then r
        (λ ptr. push_items items (record entry { chunks = entry.chunks ++ (x.start, ptr) ∷ [] })) w'

  abbrev pub add_entry : Entry → Exec W ObjectError (Unit {0})
  add_entry entry w = (ok tt, record w { files = FileStore.push entry w.files })

  module _ (chunk_hash : Bytes → CryptoDigest) (R : Rollsum) where
    -- `none`: the mapping failed.
    abbrev pub store_mapped : Option Bytes → Entry → Exec W ObjectError (Unit {0})
    store_mapped none entry w = (panic, w)
    store_mapped (some bytes) entry w =
        (push_items (split chunk_hash R (take entry.size bytes)) entry >>= add_entry) w

    -- A file that has changed: an empty one has no chunks, and of any other `entry.size` bytes are
    -- mapped.
    unfoldable pub store_changed : Option Bytes → Entry → Exec W ObjectError (Unit {0})
    store_changed mapped entry =
        if entry.size == 0 then add_entry entry else store_mapped mapped entry

    abbrev pub flush_worker : Exec W ObjectError (Unit {0})
    flush_worker w =
        let (r, storage) = flush C B w.storage in (unwrapped r, record w { storage = storage })
