-- ===== src/Chunks.antt =====
-- libzerostash/src/chunks.rs: `ChunkStore`, the index that makes equal chunks be stored once. The
-- map behind `Arc<DashMap>` is shared; its contents are passed along here.
pub mod Pointer
pub mod Dedup
use zerostash.Prelude.{Option, none, some, List, [], ◌∷◌, Outcome, ok, err, panic, Exec}
use zerostash.Prelude.Equality.{bytes_eq}
use zerostash.Prelude.Dict
use zerostash.Prelude.Dict.{Dict}
use zerostash.Objects.{CryptoDigest}
use zerostash.Chunks.Pointer.{ChunkPointer}

abbrev pub ChunkIndex : Type 0
ChunkIndex = Dict CryptoDigest ChunkPointer

module _ {S E : Type 0} where
  abbrev pub inserted :
      CryptoDigest
      → ChunkIndex
      → Outcome E ChunkPointer × S
      → Outcome E ChunkPointer × (ChunkIndex × S)
  inserted digest index (ok p, s) = (ok p, (Dict.insert digest p index, s))
  inserted digest index (err e, s) = (err e, (index, s))
  inserted digest index (panic, s) = (panic, (index, s))

  abbrev pub occupied :
      CryptoDigest
      → Exec S E ChunkPointer
      → Option ChunkPointer
      → Exec (ChunkIndex × S) E ChunkPointer
  occupied digest store (some p) (index, s) = (ok p, (index, s))
  occupied digest store none (index, s) = inserted digest index (store s)

  -- `self.0.entry(digest)`, under the lock of the entry: `store` is called if it is vacant.
  unfoldable pub entry : CryptoDigest → Exec S E ChunkPointer → Exec (ChunkIndex × S) E ChunkPointer
  entry digest store (index, s) = occupied digest store (Dict.lookup digest index) (index, s)

  abbrev pub checked :
      CryptoDigest
      → Exec S E ChunkPointer
      → (ChunkIndex → ChunkIndex)
      → Option ChunkPointer
      → Exec (ChunkIndex × S) E ChunkPointer
  checked digest store others (some p) (index, s) = (ok p, (index, s))
  checked digest store others none (index, s) = entry digest store (others index, s)

  -- `push`: a look without the lock, then the entry. `others` is what other threads do to the index
  -- in between.
  unfoldable pub push :
      CryptoDigest
      → Exec S E ChunkPointer
      → (ChunkIndex → ChunkIndex)
      → Exec (ChunkIndex × S) E ChunkPointer
  unfolding entry
  push digest store others (index, s) =
      checked digest store others (Dict.lookup digest index) (index, s)

-- `serialize`: the entries, in the order of the iteration
unfoldable pub serialize : ChunkIndex → List (CryptoDigest × ChunkPointer)
serialize index = index

-- `deserialize`: the items that `read_next` returns before its first error, inserted one by one
unfoldable pub deserialize : List (CryptoDigest × ChunkPointer) → ChunkIndex → ChunkIndex
deserialize [] index = index
deserialize ((hash, pointer) ∷ items) index = deserialize items (Dict.insert hash pointer index)
