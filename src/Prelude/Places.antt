-- ===== src/Prelude/Places.antt =====
-- Writes into the middle of a list, index by index.
use Prim.Native.Nat.{ℕ, zero, suc, ◌+◌, ◌-◌, ◌≤◌, ◌<◌}
use mathlib.Core.Path.{◌≡◌, ◌∙◌, refl, ap, ap₂}
use mathlib.Core.Option.{some}
use mathlib.Core.List.{List, [], ◌∷◌, ◌++◌}
use native.Mathlib.Omega.{arith}
use zerostash.Prelude.Tests.{ltb, if◌then◌else◌}
use zerostash.Prelude.Lists.{
  length, take, drop, get_elem?, slice, splice, length-append, length-take, length-drop,
}

module _ {A : Type 0} where
  -- `xs[start..]` with `ys` written to its front
  abbrev pub place_at : List A → ℕ → List A → List A
  place_at xs start ys = take start xs ++ splice (drop start xs) 0 ys

  pub length-place_at :
      (xs : List A) (start : ℕ) (ys : List A)
      → start + length ys ≤ length xs
      → length (place_at xs start ys) ≡ length xs
  length-place_at xs start ys h = omega (
    arith,
    length-append (take start xs) (ys ++ drop (0 + length ys) (drop start xs)),
    length-append ys (drop (0 + length ys) (drop start xs)),
    length-take start xs,
    length-drop (0 + length ys) (drop start xs),
    length-drop start xs,
  )

  get_elem?-front :
      (xs ys : List A) (n i : ℕ)
      → n ≡ length ys
      → n ≤ length xs
      → get_elem? (ys ++ drop n xs) i ≡ (if ltb i n then get_elem? ys i else get_elem? xs i)
  get_elem?-front xs [] zero i e h = ground arith
  get_elem?-front xs [] (suc n) i e h = absurd (omega arith)
  get_elem?-front xs (y ∷ ys) zero i e h = absurd (omega arith)
  get_elem?-front [] (y ∷ ys) (suc n) i e h = absurd (omega arith)
  get_elem?-front (x ∷ xs) (y ∷ ys) (suc n) zero e h = ground arith
  get_elem?-front (x ∷ xs) (y ∷ ys) (suc n) (suc i) e h = ground (arith, get_elem?-front xs ys n i)

  -- Inside the written range stands what was written, outside it what was there.
  pub get_elem?-place_at :
      (xs : List A) (start : ℕ) (ys : List A) (i : ℕ)
      → start + length ys ≤ length xs
      → get_elem? (place_at xs start ys) i ≡ (
          if ltb i start
          then get_elem? xs i
          else if ltb i (start + length ys)
          then get_elem? ys (i - start)
          else get_elem? xs i)
  get_elem?-place_at xs zero ys i h = ground (
    arith,
    get_elem?-front xs ys (0 + length ys) i (omega arith) (omega arith),
    let e : i - 0 ≡ i = omega arith in e,
  )
  get_elem?-place_at [] (suc start) ys i h = absurd (omega arith)
  get_elem?-place_at (x ∷ xs) (suc start) ys zero h = ground arith
  get_elem?-place_at (x ∷ xs) (suc start) ys (suc i) h = ground (
    arith,
    get_elem?-place_at xs start ys i (omega arith),
    let e : suc i - suc start ≡ i - start = omega arith in e,
  )

  pub get_elem?-ext :
      (xs ys : List A)
      → length xs ≡ length ys
      → ((i : ℕ) → i < length xs → get_elem? xs i ≡ get_elem? ys i)
      → xs ≡ ys
  get_elem?-ext [] [] e h = refl
  get_elem?-ext [] (y ∷ ys) e h = absurd (omega arith)
  get_elem?-ext (x ∷ xs) [] e h = absurd (omega arith)
  get_elem?-ext (x ∷ xs) (y ∷ ys) e h =
      ap₂ ◌∷◌ (some-inj x y (h 0 (omega arith)))
        (get_elem?-ext xs ys (omega arith) (λ i lt. h (suc i) (omega arith)))
    where
      some-inj : (a b : A) → some a ≡ some b → a ≡ b
      some-inj a b p = cc

  get_elem?-take : (n : ℕ) (xs : List A) (i : ℕ) → i < n → get_elem? (take n xs) i ≡ get_elem? xs i
  get_elem?-take zero xs i h = absurd (omega arith)
  get_elem?-take (suc n) [] i h = refl
  get_elem?-take (suc n) (x ∷ xs) zero h = refl
  get_elem?-take (suc n) (x ∷ xs) (suc i) h = get_elem?-take n xs i (omega arith)

  get_elem?-drop : (n : ℕ) (xs : List A) (i : ℕ) → get_elem? (drop n xs) i ≡ get_elem? xs (n + i)
  get_elem?-drop zero xs i = ap (get_elem? xs) (omega arith)
  get_elem?-drop (suc n) [] i = refl
  get_elem?-drop (suc n) (x ∷ xs) i =
      let shift : suc (n + i) ≡ suc n + i = omega arith in
      get_elem?-drop n xs i ∙ ap (get_elem? (x ∷ xs)) shift

  pub get_elem?-slice :
      (xs : List A) (a b i : ℕ) → a + i < b → get_elem? (slice xs a b) i ≡ get_elem? xs (a + i)
  get_elem?-slice xs a b i h =
      get_elem?-take (b - a) (drop a xs) i (omega arith) ∙ get_elem?-drop a xs i
