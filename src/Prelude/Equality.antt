-- ===== src/Prelude/Equality.antt =====
-- `Eq`, the trait behind `==` and the keys of the hash maps.
use Prim.Native.Nat.{ℕ}
use mathlib.Core.Path.{◌≡◌}
use mathlib.Core.Logic.{ite, if_neg}
use mathlib.Core.Bool.{Bool, true, false, false≢true}
use mathlib.Core.List.{List}
use native.Mathlib.Decide.{ℕ_discrete}

pub record Eq {ℓ} (A : Type ℓ) : Type ℓ where
  pub dec : Discrete A

infix 50 ◌=?◌
abbrev pub ◌=?◌ {ℓ} : {A : Type ℓ} ⦃e : Eq A⦄ → A → A → Bool
◌=?◌ ⦃e⦄ a b = ite (e.dec a b) true false

pub =?→eq {ℓ} : {A : Type ℓ} ⦃e : Eq A⦄ (a b : A) → (a =? b) ≡ true → a ≡ b
=?→eq ⦃e⦄ a b h = elim (e.dec a b) [
  | yes p ↦ p
  | no n ↦ let bad : false ≡ true = rw (if_neg _ n) at h in absurd (false≢true bad)
]

bytes_dec : Discrete (List ℕ)
bytes_dec = hlevel ℕ_discrete

instance unfoldable pub bytes_eq : Eq (List ℕ)
unfolding bytes_dec ℕ_discrete
bytes_eq = record { dec = bytes_dec }
