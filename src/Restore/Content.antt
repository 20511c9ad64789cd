-- ===== src/Restore/Content.antt =====
-- Which bytes of a file are right while its chunks are written in any order.
use native.Mathlib.Decide.{dec_lt}
use zerostash.Prelude.{
  ℕ, ◌+◌, ◌-◌, ◌≤◌, ◌<◌, ◌≡◌, ◌∙◌, ap, length, get_elem?, lt→ltb, le→ltb, place_at,
  get_elem?-place_at, arith,
}
use zerostash.Objects.{Bytes}

-- `plain` is the part of `content` from `start` on.
pub record IsPart (content : Bytes) (start : ℕ) (plain : Bytes) : Type 0 where
  pub inside : start + length plain ≤ length content
  pub at : (j : ℕ) → j < length plain → get_elem? plain j ≡ get_elem? content (start + j)

abbrev pub Right : Bytes → Bytes → ℕ → Type 0
Right content mmap i = get_elem? mmap i ≡ get_elem? content i

module _ (content mmap plain : Bytes) (start i : ℕ)
    (fits : start + length plain ≤ length mmap) where
  -- Writing a part of the content at its place makes the bytes of the part right.
  pub place_at-part :
      IsPart content start plain
      → start ≤ i
      → i < start + length plain
      → Right content (place_at mmap start plain) i
  place_at-part part lo hi =
      get_elem?-place_at mmap start plain i fits
      ∙ rw (le→ltb i start lo, lt→ltb i (start + length plain) hi)
          (part.at (i - start) (omega arith) ∙ ap (get_elem? content) (omega arith))

  -- It keeps each byte that is right.
  pub place_at-Right :
      IsPart content start plain
      → Right content mmap i
      → Right content (place_at mmap start plain) i
  place_at-Right part right = elim (dec_lt i start) [
    | yes below ↦ get_elem?-place_at mmap start plain i fits ∙ rw (lt→ltb i start below) right
    | no lo ↦ elim (dec_lt i (start + length plain)) [
      | yes hi ↦ place_at-part part (omega arith) hi
      | no above ↦
          get_elem?-place_at mmap start plain i fits
          ∙ rw (le→ltb i start (omega arith), le→ltb i (start + length plain) (omega arith)) right
    ]
  ]
