-- ===== src/Crypto/Xor.antt =====
-- XOR of two bytes undoes itself, which is read off the table of all pairs of bytes.
use zerostash.Prelude.{
  ℕ, zero, suc, ◌<◌, ◌≡◌, ◌∙◌, sym, ap, refl, Bool, true, false, ◌==◌, if◌then◌else◌, bit_xor,
  arith,
}

abbrev cancels : ℕ → ℕ → Bool
cancels k x = bit_xor k (bit_xor k x) == x

-- The row of `k`: the bytes below a bound.
row : ℕ → ℕ → Bool
row k zero = true
row k (suc bound) = if cancels k bound then row k bound else false

-- The rows of the keys below a bound, each as wide as told.
table : ℕ → ℕ → Bool
unfolding row
table width zero = true
table width (suc bound) = if row bound width then table width bound else false

whole_table : table 256 256 ≡ true
unfolding table
whole_table = refl

in_row : (k x bound : ℕ) → row k bound ≡ true → x < bound → cancels k x ≡ true
unfolding row
in_row k x zero full below = absurd (omega arith)
in_row k x (suc bound) full below = ground (arith, in_row k x bound)

in_table : (width k bound : ℕ) → table width bound ≡ true → k < bound → row k width ≡ true
unfolding table
in_table width k zero full below = absurd (omega arith)
in_table width k (suc bound) full below = ground (arith, in_table width k bound)

xor_cancel : (k x : ℕ) → k < 256 → x < 256 → bit_xor k (bit_xor k x) ≡ x
xor_cancel k x hk hx =
    let e : cancels k x ≡ true = in_row k x 256 (in_table 256 k 256 whole_table hk) hx in
    ground arith

pub bit_xor-injective :
    (k x y : ℕ) → k < 256 → x < 256 → y < 256 → bit_xor k x ≡ bit_xor k y → x ≡ y
bit_xor-injective k x y hk hx hy e =
    sym (xor_cancel k x hk hx) ∙ ap (bit_xor k) e ∙ xor_cancel k y hk hy
