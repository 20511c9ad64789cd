-- ===== src/Prelude/Dict.antt =====
-- A hash map as an association list: the order of entries is that of first insertion, one of the
-- orders that an iteration may have.
use mathlib.Core.Path.{◌≡◌, ◌∙◌, refl, sym, ap, ap₂}
use mathlib.Core.Logic.{◌≢◌, if_pos, if_neg}
use mathlib.Core.Option.{Option, none, some}
use mathlib.Core.List.{List, [], ◌∷◌}
use native.Mathlib.Omega.{arith}
use zerostash.Prelude.Tests.{if◌then◌else◌}
use zerostash.Prelude.Equality.{Eq, ◌=?◌}

abbrev pub Dict {ℓ κ} : Type ℓ → Type κ → Type (ℓ ⊔ κ)
Dict K V = List (K × V)

some-injective {ℓ} : {A : Type ℓ} (a b : A) → ◌≡◌ {A = Option A} (some a) (some b) → a ≡ b
some-injective a b e = cc

module _ {ℓ κ} {K : Type ℓ} {V : Type κ} ⦃e : Eq K⦄ where
  unfoldable pub lookup : K → Dict K V → Option V
  lookup j [] = none
  lookup j ((k, v) ∷ d) = if j =? k then some v else lookup j d

  -- A present key keeps its place, as an overwrite does.
  unfoldable pub insert : K → V → Dict K V → Dict K V
  insert k v [] = (k, v) ∷ []
  insert k v ((j, w) ∷ d) = if k =? j then (k, v) ∷ d else (j, w) ∷ insert k v d

  -- `entry(k).or_insert_with(…)`, and the value changed by `f`
  unfoldable pub upsert : K → V → (V → V) → Dict K V → Dict K V
  upsert k new f [] = (k, f new) ∷ []
  upsert k new f ((j, w) ∷ d) = if k =? j then (j, f w) ∷ d else (j, w) ∷ upsert k new f d

  pub lookup-insert :
      (j k : K) (v : V) (d : Dict K V)
      → lookup j (insert k v d) ≡ (if j =? k then some v else lookup j d)
  unfolding insert lookup
  lookup-insert j k v [] = refl
  lookup-insert j k v (_ ∷ d) = ground (arith, lookup-insert j k v d)

  pub lookup-insert_self :
      (j k : K) (v : V) (d : Dict K V) → j ≡ k → lookup j (insert k v d) ≡ some v
  lookup-insert_self j k v d same = ground (arith, lookup-insert j k v d, same)

  pub lookup-insert_ne :
      (j k : K) (v : V) (d : Dict K V) → j ≢ k → lookup j (insert k v d) ≡ lookup j d
  lookup-insert_ne j k v d ne = ground (arith, lookup-insert j k v d, ne)

  -- Writing what is there changes nothing.
  pub insert-same : (k : K) (v : V) (d : Dict K V) → lookup k d ≡ some v → insert k v d ≡ d
  unfolding insert lookup
  insert-same k v [] h = absurd (cc)
  insert-same k v ((j, w) ∷ d) h = elim (e.dec k j) [
    | yes same ↦
        let found : (if k =? j then some w else lookup k d) ≡ some w = rw (if_pos _ same) refl in
        rw (if_pos _ same) (ap₂ (λ x y. (x, y) ∷ d) same (some-injective v w (sym h ∙ found)))
    | no ne ↦
        let found : (if k =? j then some w else lookup k d) ≡ lookup k d = rw (if_neg _ ne) refl in
        rw (if_neg _ ne) (ap (λ r. (j, w) ∷ r) (insert-same k v d (sym found ∙ h)))
  ]
