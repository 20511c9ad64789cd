-- ===== src/Tests/Splits.antt =====
-- The splitters at concrete inputs.
use zerostash.Prelude.{ℕ, ◌+◌, ◌*◌, ◌≡◌, refl, [], ◌∷◌, arith}
use zerostash.Objects.{Bytes, CryptoDigest}
use zerostash.Rollsum.{
  IsLawful, Hasher, sea_split, bup_split, bup_new, roll, BupSplit, window_size, rollsum_char_offset,
}
use zerostash.Rollsum.Offsets.{sea_split-IsLawful, bup_split-IsLawful}
use zerostash.Rollsum.Window.{IsSummed, roll-IsSummed, bup_new-IsSummed, roll_drift, sum}
use zerostash.Splitter.{split}
use zerostash.Splitter.Chunks.{Tiles, split-Tiles}

-- A hasher that counts its blocks and meets a boundary at the third.
abbrev hasher : Hasher
hasher = record { State = ℕ; fresh = 8189; write = λ bs n. n + 1; finish = λ n. n }

sea_split-IsLawful_example : IsLawful (sea_split hasher)
sea_split-IsLawful_example = sea_split-IsLawful hasher

abbrev digest_of : Bytes → CryptoDigest
digest_of bs = bs

abbrev bytes : Bytes
bytes = 5 ∷ 250 ∷ 3 ∷ 77 ∷ []

split-Tiles_example :
    Tiles digest_of bup_split bup_split-IsLawful bytes 0 (split digest_of bup_split bytes)
split-Tiles_example = split-Tiles digest_of bup_split bup_split-IsLawful bytes

roll-IsSummed_example : IsSummed (roll 200 bup_new)
roll-IsSummed_example = roll-IsSummed 200 bup_new (omega arith) bup_new-IsSummed

-- A window whose next byte to leave is 200.
abbrev full : BupSplit
full = record {
  s1 = 2184;
  s2 = 0;
  window =
      200 ∷ 0 ∷ 0 ∷ 0 ∷ 0 ∷ 0 ∷ 0 ∷ 0 ∷ 0 ∷ 0 ∷ 0 ∷ 0 ∷ 0 ∷ 0 ∷ 0 ∷ 0 ∷ 0 ∷ 0 ∷ 0 ∷ 0 ∷ 0 ∷ 0 ∷ 0
      ∷ 0 ∷ 0 ∷ 0 ∷ 0 ∷ 0 ∷ 0 ∷ 0 ∷ 0 ∷ 0 ∷ 0 ∷ 0 ∷ 0 ∷ 0 ∷ 0 ∷ 0 ∷ 0 ∷ 0 ∷ 0 ∷ 0 ∷ 0 ∷ 0 ∷ 0 ∷ 0
      ∷ 0 ∷ 0 ∷ 0 ∷ 0 ∷ 0 ∷ 0 ∷ 0 ∷ 0 ∷ 0 ∷ 0 ∷ 0 ∷ 0 ∷ 0 ∷ 0 ∷ 0 ∷ 0 ∷ 0 ∷ 0 ∷ [];
  wofs = 0;
}

full-IsSummed : IsSummed full
unfolding sum
full-IsSummed = record {
  sized = refl;
  bytes = omega arith;
  in_window = omega arith;
  fits = omega arith;
  fits_second = omega arith;
  summed = refl;
}

full_exact : full.s1 ≡ window_size * rollsum_char_offset + sum full.window + 0
unfolding sum
full_exact = refl

roll_drift_example :
    (roll 1 full).s1 ≡ window_size * rollsum_char_offset + sum (roll 1 full).window + (0 + 256)
roll_drift_example = roll_drift 1 full 0 full-IsSummed (omega arith) full_exact (omega arith)
