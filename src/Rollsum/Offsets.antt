-- ===== src/Rollsum/Offsets.antt =====
-- `find_offset` of both splitters: a split is never empty and lies inside the buffer.
use zerostash.Prelude.{ℕ, zero, suc, ◌+◌, ◌*◌, ◌/◌, ◌≤◌, ◌<◌, [], ◌∷◌, length, slice, arith}
use zerostash.Objects.{Bytes}
use zerostash.Rollsum.{
  IsLawful, Hasher, sea_loop, sea_find_offset, sea_split, BupSplit, bup_new, roll, bup_loop,
  bup_find_offset, bup_split,
}

module _ (H : Hasher) where
  sea_loop-le :
      (buf : Bytes) (rounds : ℕ) (h : H.State) (last limit : ℕ)
      → limit + 16 * rounds < length buf + 16
      → sea_loop H buf rounds h last limit ≤ length buf
  unfolding sea_loop
  sea_loop-le buf zero h last limit room = omega arith
  sea_loop-le buf (suc rounds) h last limit room =
      ground (arith, sea_loop-le buf rounds (H.write (slice buf last limit) h) limit (limit + 16))

  sea_loop_pos :
      (buf : Bytes) (rounds : ℕ) (h : H.State) (last limit : ℕ)
      → 0 < length buf
      → 0 < sea_loop H buf rounds h last limit
  unfolding sea_loop
  sea_loop_pos buf zero h last limit pos = pos
  sea_loop_pos buf (suc rounds) h last limit pos =
      ground (arith, sea_loop_pos buf rounds (H.write (slice buf last limit) h) limit (limit + 16))

  -- Whatever the hash function, `SeaSplit` splits off at least one byte of a buffer that has one,
  -- and at most the whole buffer.
  pub sea_split-IsLawful : IsLawful (sea_split H)
  unfolding sea_find_offset
  sea_split-IsLawful = record {
    positive = λ buf pos. sea_loop_pos buf ((length buf + 15) / 16) H.fresh 0 0 pos;
    inside = λ buf. sea_loop-le buf ((length buf + 15) / 16) H.fresh 0 0 (omega arith);
  }

bup_loop_bounds :
    (buf : Bytes) (i : ℕ) (b : BupSplit)
    → (i ≤ bup_loop buf i b) × (bup_loop buf i b ≤ i + length buf)
unfolding bup_loop
bup_loop_bounds [] i b = omega arith
bup_loop_bounds (v ∷ rest) i b = ground (arith, bup_loop_bounds rest (i + 1) (roll v b))

bup_loop_pos : (v : ℕ) (rest : Bytes) (i : ℕ) (b : BupSplit) → i < bup_loop (v ∷ rest) i b
unfolding bup_loop
bup_loop_pos v rest i b = ground (arith, bup_loop_bounds rest (i + 1) (roll v b))

-- `BupSplit` splits off at least one byte of a buffer that has one, and at most the whole buffer.
pub bup_split-IsLawful : IsLawful bup_split
unfolding bup_find_offset
bup_split-IsLawful = record {
  positive = bup_pos;
  inside = λ buf. omega (arith, bup_loop_bounds buf 0 bup_new);
}
  where
    bup_pos : (buf : Bytes) → 0 < length buf → 0 < bup_find_offset buf
    bup_pos [] h = absurd (omega arith)
    bup_pos (v ∷ rest) h = bup_loop_pos v rest 0 bup_new
