-- ===== src/Splitter/Chunks.antt =====
-- The chunks of a file: in order, none empty, with nothing lost.
use native.Mathlib.Decide.{dec_le}
use zerostash.Prelude.{
  ℕ, zero, suc, ◌+◌, ◌-◌, ◌≤◌, ◌<◌, ◌≡◌, ◌∙◌, refl, sym, ap, ap₂, some, none, List, [], ◌∷◌, ◌++◌,
  length, take, drop, slice, leb, false, length-drop, drop-length, drop-drop, take-append-drop,
  arith,
}
use zerostash.Objects.{Bytes, CryptoDigest}
use zerostash.Rollsum.{Rollsum, IsLawful}
use zerostash.Splitter.{FileSplitter, Item, new, next, collect, split}

-- The chunks, put together.
abbrev pub joined : List Item → Bytes
joined [] = []
joined (x ∷ items) = x.chunk ++ joined items

module _ (chunk_hash : Bytes → CryptoDigest) (R : Rollsum) (L : IsLawful R) where
  -- The items of a list are the chunks of `bytes` from `cur` to the end, one behind the other.
  pub data Tiles (bytes : Bytes) : ℕ → List Item → Type 0 where
    end : {cur : ℕ} → cur ≡ length bytes → Tiles bytes cur []
    item :
        {cur : ℕ} {items : List Item} (size : ℕ) (x : Item)
        → 0 < size
        → cur + size ≤ length bytes
        → x.start ≡ cur
        → x.chunk ≡ slice bytes cur (cur + size)
        → x.hash ≡ chunk_hash x.chunk
        → Tiles bytes (cur + size) items
        → Tiles bytes cur (x ∷ items)

  next-none : (s : FileSplitter) → length s.bytes ≤ s.cur → next chunk_hash R s ≡ none
  unfolding next
  next-none s h = ground arith

  abbrev step_size : Bytes → ℕ → ℕ
  step_size bytes cur = R.find_offset (drop cur bytes)

  abbrev item_at : Bytes → ℕ → Item
  item_at bytes cur = record {
    start = cur;
    hash = chunk_hash (slice bytes cur (cur + step_size bytes cur));
    chunk = slice bytes cur (cur + step_size bytes cur);
  }

  next-some :
      (bytes : Bytes) (cur : ℕ)
      → cur < length bytes
      → next chunk_hash R (record { bytes = bytes; cur = cur })
        ≡ some (item_at bytes cur, record { bytes = bytes; cur = cur + step_size bytes cur })
  unfolding next
  next-some bytes cur h = let e : leb (length bytes) cur ≡ false = ground arith in rw e refl

  -- Fuel for the bytes that are left is enough for the loop to reach the end of the file.
  collect-Tiles :
      (fuel : ℕ) (bytes : Bytes) (cur : ℕ)
      → cur ≤ length bytes
      → length bytes ≤ cur + fuel
      → Tiles bytes cur (collect chunk_hash R fuel (record { bytes = bytes; cur = cur }))
  unfolding collect
  collect-Tiles zero bytes cur inside enough = end (omega arith)
  collect-Tiles (suc fuel) bytes cur inside enough = elim (dec_le (length bytes) cur) [
    | yes over ↦
        rw (next-none (record { bytes = bytes; cur = cur }) over, collect) (end (omega arith))
    | no more ↦
        let pos : 0 < step_size bytes cur =
          L.positive (drop cur bytes) (omega (arith, length-drop cur bytes)) in
        let fits : cur + step_size bytes cur ≤ length bytes =
          omega (arith, L.inside (drop cur bytes), length-drop cur bytes) in
        rw (next-some bytes cur (omega arith), collect)
          (item (step_size bytes cur) (item_at bytes cur) pos fits refl refl refl
            (collect-Tiles fuel bytes (cur + step_size bytes cur) fits (omega arith)))
  ]

  -- The items of a file are its chunks: each starts where the one before ends, none is empty, each
  -- carries the hash of its bytes, and the last ends with the file. The loop ends on its own.
  pub split-Tiles : (bytes : Bytes) → Tiles bytes 0 (split chunk_hash R bytes)
  unfolding split new
  split-Tiles bytes = collect-Tiles (length bytes) bytes 0 (omega arith) (omega arith)

  joined-Tiles :
      (bytes : Bytes) {cur : ℕ} {items : List Item}
      → Tiles bytes cur items
      → joined items ≡ drop cur bytes
  joined-Tiles bytes (end {cur = cur} e) = sym (drop-length bytes cur (omega arith))
  joined-Tiles bytes (item {cur = cur} size x pos fits start chunk hash rest) =
      ap₂ ◌++◌ (chunk ∙ ap (λ n. take n (drop cur bytes)) width)
        (joined-Tiles bytes rest ∙ sym (drop-drop cur size bytes))
      ∙ take-append-drop size (drop cur bytes)
    where
      width : cur + size - cur ≡ size
      width = omega arith

  -- Put together, the chunks of a file are the file.
  pub joined-split : (bytes : Bytes) → joined (split chunk_hash R bytes) ≡ bytes
  joined-split bytes = joined-Tiles bytes (split-Tiles bytes)
