-- ===== src/Splitter.antt =====
-- libzerostash/src/splitter.rs: `FileSplitter`, an iterator over the chunks of a file. The trait
-- `Rollsum` and the hash of the chunks are parameters of it.
pub mod Chunks
use zerostash.Prelude.{
  ℕ, zero, suc, ◌+◌, Option, some, none, List, [], ◌∷◌, length, drop, slice, leb, if◌then◌else◌,
}
use zerostash.Objects.{Bytes, CryptoDigest}
use zerostash.Rollsum.{Rollsum}

pub record FileSplitter : Type 0 where
  pub bytes : Bytes
  pub cur : ℕ

-- `(start, hash, data)`
pub record Item : Type 0 where
  pub start : ℕ
  pub hash : CryptoDigest
  pub chunk : Bytes

unfoldable pub new : Bytes → FileSplitter
new bytes = record { bytes = bytes; cur = 0 }

module _ (chunk_hash : Bytes → CryptoDigest) (R : Rollsum) where
  -- `data[start..start + end]` is in range, since a split lies inside its buffer.
  unfoldable pub next : FileSplitter → Option (Item × FileSplitter)
  next s =
      let end = R.find_offset (drop s.cur s.bytes) in
      let chunk = slice s.bytes s.cur (s.cur + end) in
      if leb (length s.bytes) s.cur
      then none
      else some (
        record { start = s.cur; hash = chunk_hash chunk; chunk = chunk },
        record s { cur = s.cur + end },
      )

  -- A `for` loop over the iterator, with fuel for the number of items.
  unfoldable pub collect : ℕ → FileSplitter → List Item
  collect zero s = []
  collect (suc fuel) s = elim (next s) [ none ↦ [] | some (x, s') ↦ x ∷ collect fuel s' ]

  -- As many items as there are bytes are enough.
  unfoldable pub split : Bytes → List Item
  split bytes = collect (length bytes) (new bytes)
