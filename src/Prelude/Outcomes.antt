-- ===== src/Prelude/Outcomes.antt =====
-- What a Rust call can end in: a value, an error, or a panic.
use mathlib.Core.Path.{◌≡◌, refl}
use mathlib.Core.Option.{Option, none, some}

pub data Outcome {ℓ} (E A : Type ℓ) : Type ℓ where
  ok : A → Outcome E A
  err : E → Outcome E A
  panic : Outcome E A

-- A method on `&mut self`: what was written before an early return stays written.
abbrev pub Exec {ℓ} : Type ℓ → Type ℓ → Type ℓ → Type ℓ
Exec S E A = S → Outcome E A × S

module _ {ℓ} {S E A B : Type ℓ} where
  abbrev pub and_then : Outcome E A → (A → Exec S E B) → Exec S E B
  and_then (ok a) f s = f a s
  and_then (err e) f s = (err e, s)
  and_then panic f s = (panic, s)

  infixl 5 ◌>>=◌ ◌>>◌
  abbrev pub ◌>>=◌ : Exec S E A → (A → Exec S E B) → Exec S E B
  ◌>>=◌ m f s = let (r, s') = m s in and_then r f s'

  abbrev pub ◌>>◌ : Exec S E A → Exec S E B → Exec S E B
  m >> n = m >>= λ _. n

module _ {ℓ} {S E A : Type ℓ} where
  abbrev pub pure : A → Exec S E A
  pure a s = (ok a, s)

  abbrev pub lift : Outcome E A → Exec S E A
  lift r s = (r, s)

  abbrev pub gets : (S → A) → Exec S E A
  gets f s = (ok (f s), s)

-- `.unwrap()`, `.expect(…)`, and a call that panics where its model is `none`
abbrev pub unwrap {ℓ} : {E A : Type ℓ} → Option A → Outcome E A
unwrap (some a) = ok a
unwrap none = panic

-- `?` with `From` for the error
abbrev pub map_err {ℓ} : {E F A : Type ℓ} → (E → F) → Outcome E A → Outcome F A
map_err f (ok a) = ok a
map_err f (err e) = err (f e)
map_err f panic = panic

-- Inversion of a chain that returned a value.
module _ {S E A B : Type 0} where
  pub and_then-ok :
      (r : Outcome E A) (f : A → Exec S E B) (s : S) {b : B} {s' : S}
      → and_then r f s ≡ (ok b, s')
      → (a : A) × (r ≡ ok a) × (f a s ≡ (ok b, s'))
  and_then-ok (ok a) f s h = (a, refl, h)
  and_then-ok (err e) f s h = absurd (cc)
  and_then-ok panic f s h = absurd (cc)

pub unwrap-ok :
    {E A : Type 0} (o : Option A) {a : A} → ◌≡◌ {A = Outcome E A} (unwrap o) (ok a) → o ≡ some a
unwrap-ok none h = absurd (cc)
unwrap-ok (some x) h = cc
