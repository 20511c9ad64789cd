-- ===== src/Meta/Offsets.antt =====
-- A header's fields and their offsets.
use zerostash.Prelude.{ℕ, ◌≡◌, ◌↔◌, ◌⊎◌, inl, inr, refl, some, List, [], ◌∷◌, Bool-cases, arith}
use zerostash.Prelude.Equality.{◌=?◌, =?→eq}
use zerostash.Meta.{
  Field, chunks, files, field_eq, FieldOffset, to_u32, as_field, as_offset, MetaObjectHeader,
  offset_fields, fields, find_offset, get_offset,
}

-- An offset keeps its field and its position.
pub as_offset_parts :
    (f : Field) (offs : ℕ) → (as_field (as_offset f offs) ≡ f) × (to_u32 (as_offset f offs) ≡ offs)
unfolding as_field as_offset to_u32
as_offset_parts chunks offs = (refl, refl)
as_offset_parts files offs = (refl, refl)

abbrev pub Among : Field → List Field → Type 0
Among f [] = ⊥
Among f (g ∷ gs) = (g ≡ f) ⊎ Among f gs

find_offset-some :
    (f : Field) (offsets : List FieldOffset)
    → Among f (offset_fields offsets)
    → (o : ℕ) × (find_offset f offsets ≡ some o)
unfolding find_offset offset_fields
find_offset-some f [] h = absurd h
find_offset-some f (fo ∷ offsets) (inl h) = (to_u32 fo, ground arith)
find_offset-some f (fo ∷ offsets) (inr h) =
    let (o, e) = find_offset-some f offsets h in
    elim (Bool-cases (as_field fo =? f)) [
      | inl here ↦ (to_u32 fo, rw here)
      | inr later ↦ (o, rw later e)
    ]

find_offset-Among :
    (f : Field) (offsets : List FieldOffset) (o : ℕ)
    → find_offset f offsets ≡ some o
    → Among f (offset_fields offsets)
unfolding find_offset offset_fields
find_offset-Among f [] o h = cc
find_offset-Among f (fo ∷ offsets) o h = elim (Bool-cases (as_field fo =? f)) [
  | inl here ↦ inl (=?→eq (as_field fo) f here)
  | inr later ↦ inr (find_offset-Among f offsets o (rw later at h))
]

-- A field has an offset in a header exactly when the header lists it; so a reader that goes through
-- the fields of a header never meets `NoField`.
pub get_offset-fields :
    (f : Field) (h : MetaObjectHeader) → Among f (fields h) ↔ ((o : ℕ) × (get_offset f h ≡ some o))
unfolding get_offset fields
get_offset-fields f h =
    (find_offset-some f h.offsets, λ found. find_offset-Among f h.offsets found.0 found.1)
