-- ===== src/Prelude/Slices.antt =====
-- Reads and writes of a range of a buffer: what a write leaves, and that the ranges below it stay.
use Prim.Native.Nat.{ℕ, ◌+◌, ◌-◌, ◌≤◌}
use mathlib.Core.Path.{◌≡◌, refl, sym, ap, ◌∙◌}
use mathlib.Core.List.{List, ◌++◌}
use native.Mathlib.Omega.{arith}
use zerostash.Prelude.Lists.{
  length, take, drop, slice, splice, length-append, length-take, length-drop, take-append,
  drop-append, take-append_left, take-take, take-drop, take-add, drop-drop,
}

module _ {ℓ} {A : Type ℓ} where
  pub length-splice :
      (xs : List A) (a : ℕ) (ys : List A)
      → a + length ys ≤ length xs
      → length (splice xs a ys) ≡ length xs
  length-splice xs a ys h = omega (
    arith,
    length-append (take a xs) (ys ++ drop (a + length ys) xs),
    length-append ys (drop (a + length ys) xs),
    length-take a xs,
    length-drop (a + length ys) xs,
  )

  pub slice-eq-drop-take : (xs : List A) (a b : ℕ) → a ≤ b → slice xs a b ≡ drop a (take b xs)
  slice-eq-drop-take xs a b h = take-drop a (b - a) xs ∙ ap (λ k. drop a (take k xs)) (omega arith)

  -- Buffers that agree below `n` agree on each range below `n`.
  pub slice-congr_prefix :
      (xs ys : List A) (a b n : ℕ)
      → a ≤ b
      → b ≤ n
      → take n xs ≡ take n ys
      → slice xs a b ≡ slice ys a b
  slice-congr_prefix xs ys a b n ab bn e =
      slice-eq-drop-take xs a b ab
      ∙ ap (drop a) (sym (take-take b n xs bn) ∙ ap (take b) e ∙ take-take b n ys bn)
      ∙ sym (slice-eq-drop-take ys a b ab)

  pub take-congr_prefix :
      (xs ys : List A) (m n : ℕ) → m ≤ n → take n xs ≡ take n ys → take m xs ≡ take m ys
  take-congr_prefix xs ys m n h e = sym (take-take m n xs h) ∙ ap (take m) e ∙ take-take m n ys h

  pub slice-splice_self :
      (xs : List A) (a : ℕ) (ys : List A)
      → a ≤ length xs
      → slice (splice xs a ys) a (a + length ys) ≡ ys
  slice-splice_self xs a ys h =
      ap (take (a + length ys - a)) (
        drop-append (take a xs) (ys ++ drop (a + length ys) xs) a (omega (arith, length-take a xs)))
      ∙ take-append ys (drop (a + length ys) xs) (a + length ys - a) (omega arith)

  -- What stands below the written range stays.
  pub take-splice :
      (xs : List A) (n a : ℕ) (ys : List A)
      → n ≤ a
      → a ≤ length xs
      → take n (splice xs a ys) ≡ take n xs
  take-splice xs n a ys na h =
      take-append_left (take a xs) (ys ++ drop (a + length ys) xs) n
        (omega (arith, length-take a xs))
      ∙ take-take n a xs na

  pub slice-split :
      (xs : List A) (a b c : ℕ) → a ≤ b → b ≤ c → slice xs a c ≡ slice xs a b ++ slice xs b c
  slice-split xs a b c ab bc =
      ap (λ n. take n (drop a xs)) (let e : c - a ≡ (b - a) + (c - b) = omega arith in e)
      ∙ take-add (b - a) (c - b) (drop a xs)
      ∙ ap (λ ys. slice xs a b ++ take (c - b) ys)
          (drop-drop a (b - a) xs ∙ ap (λ n. drop n xs) (omega arith))

  -- What was written to the front covers what stood there.
  pub drop-past_front :
      (ys xs : List A) (a : ℕ) → length ys ≤ a → drop a (ys ++ drop (length ys) xs) ≡ drop a xs
  drop-past_front ys xs a h =
      let e : a ≡ length ys + (a - length ys) = omega arith in
      ap (λ n. drop n (ys ++ drop (length ys) xs)) e
      ∙ sym (drop-drop (length ys) (a - length ys) (ys ++ drop (length ys) xs))
      ∙ ap (drop (a - length ys)) (drop-append ys (drop (length ys) xs) (length ys) refl)
      ∙ drop-drop (length ys) (a - length ys) xs
      ∙ ap (λ n. drop n xs) (omega arith)
