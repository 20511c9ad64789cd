-- ===== src/Rollsum/Window.antt =====
-- `BupSplit::roll`: what the first sum has to do with the window.
use zerostash.Prelude.{
  ℕ, zero, suc, ◌+◌, ◌*◌, ◌%◌, ◌<◌, ◌≡◌, ◌∙◌, refl, ap, [], ◌∷◌, length, get_or, set, replicate,
  length-replicate, arith,
}
use zerostash.Objects.{Bytes}
use zerostash.Objects.Hex.{AreBytes}
use zerostash.Rollsum.{BupSplit, roll, bup_new, window_size, rollsum_char_offset, u32_mod}

unfoldable pub sum : Bytes → ℕ
sum [] = 0
sum (x ∷ xs) = x + sum xs

sum-set : (xs : Bytes) (i v : ℕ) → i < length xs → sum (set xs i v) + get_or xs i 0 ≡ sum xs + v
unfolding sum
sum-set [] i v h = absurd (omega arith)
sum-set (x ∷ xs) zero v h = omega arith
sum-set (x ∷ xs) (suc i) v h = omega (arith, sum-set xs i v (omega arith))

length-set : (xs : Bytes) (i v : ℕ) → length (set xs i v) ≡ length xs
length-set [] i v = refl
length-set (x ∷ xs) zero v = refl
length-set (x ∷ xs) (suc i) v = ap suc (length-set xs i v)

set-AreBytes : (xs : Bytes) (i v : ℕ) → AreBytes xs → v < 256 → AreBytes (set xs i v)
set-AreBytes [] i v h b = tt
set-AreBytes (x ∷ xs) zero v h b = (b, h.1)
set-AreBytes (x ∷ xs) (suc i) v h b = (h.0, set-AreBytes xs i v h.1 b)

get_or-lt : (xs : Bytes) (i : ℕ) → AreBytes xs → get_or xs i 0 < 256
get_or-lt [] i h = omega arith
get_or-lt (x ∷ xs) zero h = h.0
get_or-lt (x ∷ xs) (suc i) h = get_or-lt xs i h.1

pub record IsSummed (b : BupSplit) : Type 0 where
  pub sized : length b.window ≡ window_size
  pub bytes : AreBytes b.window
  pub in_window : b.wofs < window_size
  pub fits : b.s1 < u32_mod
  pub fits_second : b.s2 < u32_mod
  pub summed : b.s1 % 256 ≡ (window_size * rollsum_char_offset + sum b.window) % 256

-- Rolling in a byte keeps the window's size and offset in range and both sums `u32`, and keeps the
-- first sum equal to that of the window's bytes, modulo 256.
pub roll-IsSummed : (ch : ℕ) (b : BupSplit) → ch < 256 → IsSummed b → IsSummed (roll ch b)
unfolding roll
roll-IsSummed ch b small v = record {
  sized = length-set b.window b.wofs ch ∙ v.sized;
  bytes = set-AreBytes b.window b.wofs ch v.bytes small;
  in_window = omega arith;
  fits = omega arith;
  fits_second = omega arith;
  summed = omega (
    arith,
    v.summed,
    sum-set b.window b.wofs ch (omega (arith, v.sized, v.in_window)),
    get_or-lt b.window b.wofs v.bytes,
  );
}

-- The first sum itself is no function of the window: when the byte that leaves is larger than the
-- one that enters, and the first sum has room for 256 more in its 32 bits, it gains 256 on the sum
-- of the window.
pub roll_drift :
    (ch : ℕ) (b : BupSplit) (drift : ℕ)
    → IsSummed b
    → ch < get_or b.window b.wofs 0
    → b.s1 ≡ window_size * rollsum_char_offset + sum b.window + drift
    → b.s1 + 256 < u32_mod
    → (roll ch b).s1 ≡ window_size * rollsum_char_offset + sum (roll ch b).window + (drift + 256)
unfolding roll
roll_drift ch b drift v falls exact room = omega (
  arith,
  sum-set b.window b.wofs ch (omega (arith, v.sized, v.in_window)),
  get_or-lt b.window b.wofs v.bytes,
)

sum-replicate_zero : (n : ℕ) → sum (replicate n 0) ≡ 0
unfolding sum replicate
sum-replicate_zero zero = refl
sum-replicate_zero (suc n) = omega (arith, sum-replicate_zero n)

zeros-AreBytes : (n : ℕ) → AreBytes (replicate n 0)
unfolding replicate
zeros-AreBytes zero = tt
zeros-AreBytes (suc n) = (omega arith, zeros-AreBytes n)

-- A new splitter starts in that state.
pub bup_new-IsSummed : IsSummed bup_new
unfolding bup_new
bup_new-IsSummed = record {
  sized = length-replicate window_size 0;
  bytes = zeros-AreBytes window_size;
  in_window = omega arith;
  fits = omega arith;
  fits_second = omega arith;
  summed = omega (arith, sum-replicate_zero window_size);
}
