-- ===== src/Stash/Stores.antt =====
-- libzerostash/src/stash/mod.rs: `Stash::read` and `Stash::commit` with the stores themselves, over
-- `MetaObjectField` of libzerostash/src/chunks.rs and files.rs. The CBOR of an item is the parameter
-- `Items`.
pub mod Reread
use zerostash.Prelude.{ℕ, Option, none, some, List, [], ◌∷◌, map, Outcome, ok, err, panic}
use zerostash.Objects.{Bytes, CryptoDigest, ObjectId, IoError}
use zerostash.Chunks
use zerostash.Chunks.{ChunkIndex}
use zerostash.Chunks.Pointer.{ChunkPointer}
use zerostash.Files
use zerostash.Files.{Entry, FileIndex}
use zerostash.Crypto.Provider.{CryptoProvider}
use zerostash.Backends.{Backend}
use zerostash.Meta.{Field, chunks, files}
use zerostash.Meta.Encoding.{Encoder}
use zerostash.Meta.Reader
use zerostash.Meta.Reader.{Reader, ReadError, Codec}
use zerostash.Meta.Writer.{Writer, Cbor}
use zerostash.Stash.{Records, read_chain, commit}

-- `serialize_to_vec` of an item, and the item that `read_next` makes of a record
pub record Items : Type 0 where
  pub encode_file : Entry → Bytes
  pub decode_file : Bytes → Option Entry
  pub encode_chunk : CryptoDigest × ChunkPointer → Bytes
  pub decode_chunk : Bytes → Option (CryptoDigest × ChunkPointer)

-- `while let Ok(item) = mw.read_next()`
unfoldable pub items_of : {A : Type 0} → (Bytes → Option A) → List Bytes → List A
items_of decode [] = []
items_of decode (bs ∷ records) =
    let rest = items_of decode records in elim (decode bs) [ none ↦ [] | some a ↦ a ∷ rest ]

-- The fields of `Stash` that its files and chunks are in.
pub record Stores : Type 0 where
  pub chunk_store : ChunkIndex
  pub file_store : FileIndex

module _ (I : Items) where
  -- `store.deserialize(…)` of one field
  unfoldable pub load_field : Field → List Bytes → Stores → Stores
  unfolding items_of
  load_field chunks records s = record s {
    chunk_store = Chunks.deserialize (items_of I.decode_chunk records) s.chunk_store;
  }
  load_field files records s = record s {
    file_store = Files.deserialize (items_of I.decode_file records) s.file_store;
  }

  unfoldable pub load : Records → Stores → Stores
  unfolding load_field
  load [] s = s
  load ((field, records) ∷ rest) s = load rest (load_field field records s)

  abbrev pub loaded :
      {X : Type 0}
      → Stores
      → Option (Outcome ReadError Records × X)
      → Option (Outcome ReadError Stores)
  loaded s none = none
  loaded s (some (ok records, r)) = some (ok (load records s))
  loaded s (some (err e, r)) = some (err e)
  loaded s (some (panic, r)) = some panic

  module _ (C : CryptoProvider) (B : Backend) where
    -- `Stash::read`, with fuel for the objects of the chain: the stores after it, where it returns
    -- `Ok`.
    unfoldable pub read :
        Codec → ℕ → ObjectId → B.State → Stores → Option (Outcome ReadError Stores)
    read D fuel root b s = loaded s (read_chain C B D fuel (some root) [] (Reader.new C B D b))

    -- `Stash::commit`
    unfoldable pub commit_stores :
        (E : Encoder)
        → Cbor
        → ObjectId
        → C.Source
        → B.State
        → Stores
        → Outcome IoError (Writer C B E)
    commit_stores E S root source b s =
        commit C B E S root source b (map I.encode_file (Files.serialize s.file_store))
          (map I.encode_chunk (Chunks.serialize s.chunk_store))
