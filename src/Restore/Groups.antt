-- ===== src/Restore/Groups.antt =====
-- `object_ordered`: no chunk of a file is lost, and each comes under its own object.
use zerostash.Prelude.{ℕ, ◌≡◌, ◌⊎◌, inl, inr, refl, List, [], ◌∷◌, ◌++◌, Bool-cases}
use zerostash.Prelude.Equality.{◌=?◌, =?→eq, bytes_eq}
use zerostash.Prelude.Dict
use zerostash.Prelude.Dict.{Dict}
use zerostash.Objects.{ObjectId}
use zerostash.Chunks.Pointer.{ChunkPointer}
use zerostash.Restore.{push_chunk, object_ordered}

abbrev pub Chunk : Type 0
Chunk = ℕ × ChunkPointer

abbrev pub Group : Type 0
Group = ObjectId × List Chunk

-- `P` holds of some chunk of the list; of some chunk of some group.
abbrev pub Some : (Chunk → Type 0) → List Chunk → Type 0
Some P [] = ⊥
Some P (c ∷ cs) = P c ⊎ Some P cs

abbrev pub SomeGroup : (Chunk → Type 0) → List Group → Type 0
SomeGroup P [] = ⊥
SomeGroup P ((id, cs) ∷ gs) = Some P cs ⊎ SomeGroup P gs

-- `P` holds of each chunk of the list.
abbrev pub All : (Chunk → Type 0) → List Chunk → Type 0
All P [] = Unit
All P (c ∷ cs) = P c × All P cs

-- Each chunk of a group belongs to the group's object, and `P` holds of it.
abbrev pub Grouped : (Chunk → Type 0) → List Group → Type 0
Grouped P [] = Unit
Grouped P ((id, cs) ∷ gs) = All (λ c. (c.1.file ≡ id) × P c) cs × Grouped P gs

-- `Q` holds of the object of each group.
abbrev pub Keys : (ObjectId → Type 0) → List Group → Type 0
Keys Q [] = Unit
Keys Q ((id, cs) ∷ gs) = Q id × Keys Q gs

on_left : {A B X : Type 0} → (A → B) → A ⊎ X → B ⊎ X
on_left f (inl a) = inl (f a)
on_left f (inr x) = inr x

on_right : {A B X : Type 0} → (A → B) → X ⊎ A → X ⊎ B
on_right f (inl x) = inl x
on_right f (inr a) = inr (f a)

module _ (P : Chunk → Type 0) where
  Some-append_left : (cs : List Chunk) (c : Chunk) → Some P cs → Some P (cs ++ c ∷ [])
  Some-append_left [] c h = absurd h
  Some-append_left (x ∷ cs) c (inl h) = inl h
  Some-append_left (x ∷ cs) c (inr h) = inr (Some-append_left cs c h)

  Some-append_right : (cs : List Chunk) (c : Chunk) → P c → Some P (cs ++ c ∷ [])
  Some-append_right [] c h = inl h
  Some-append_right (x ∷ cs) c h = inr (Some-append_right cs c h)

  All-append : (cs : List Chunk) (c : Chunk) → All P cs → P c → All P (cs ++ c ∷ [])
  All-append [] c hs h = (h, tt)
  All-append (x ∷ cs) c hs h = (hs.0, All-append cs c hs.1 h)

module _ (P : Chunk → Type 0) (start : ℕ) (cp : ChunkPointer) where
  push_old : (a : List Group) → SomeGroup P a → SomeGroup P (push_chunk (start, cp) a)
  unfolding push_chunk Dict.upsert
  push_old [] h = absurd h
  push_old ((id, cs) ∷ a) h = elim (Bool-cases (cp.file =? id)) [
    | inl same ↦ rw same (on_left (Some-append_left P cs (start, cp)) h)
    | inr other ↦ rw other (on_right (push_old a) h)
  ]

  push_new : (a : List Group) → P (start, cp) → SomeGroup P (push_chunk (start, cp) a)
  unfolding push_chunk Dict.upsert
  push_new [] h = inl (inl h)
  push_new ((id, cs) ∷ a) h = elim (Bool-cases (cp.file =? id)) [
    | inl same ↦ rw same (inl (Some-append_right P cs (start, cp) h))
    | inr other ↦ rw other (inr (push_new a h))
  ]

  push-Grouped :
      (a : List Group) → Grouped P a → P (start, cp) → Grouped P (push_chunk (start, cp) a)
  unfolding push_chunk Dict.upsert
  push-Grouped [] g h = (((refl, h), tt), tt)
  push-Grouped ((id, cs) ∷ a) g h = elim (Bool-cases (cp.file =? id)) [
    | inl same ↦
        rw same (
          All-append (λ c. (c.1.file ≡ id) × P c) cs (start, cp) g.0 (=?→eq cp.file id same, h),
          g.1,
        )
    | inr other ↦ rw other (g.0, push-Grouped a g.1 h)
  ]

module _ (P : Chunk → Type 0) where
  -- What holds of some chunk of the file holds of some chunk of a group.
  pub object_ordered-Some :
      (cs : List Chunk) (a : List Group)
      → SomeGroup P a ⊎ Some P cs
      → SomeGroup P (object_ordered cs a)
  unfolding object_ordered
  object_ordered-Some [] a (inl h) = h
  object_ordered-Some [] a (inr h) = absurd h
  object_ordered-Some ((start, cp) ∷ cs) a (inl h) =
      object_ordered-Some cs (push_chunk (start, cp) a) (inl (push_old P start cp a h))
  object_ordered-Some ((start, cp) ∷ cs) a (inr (inl h)) =
      object_ordered-Some cs (push_chunk (start, cp) a) (inl (push_new P start cp a h))
  object_ordered-Some ((start, cp) ∷ cs) a (inr (inr h)) =
      object_ordered-Some cs (push_chunk (start, cp) a) (inr h)

  -- Every chunk of a group is one of the file, under its own object.
  pub object_ordered-Grouped :
      (cs : List Chunk) (a : List Group) → Grouped P a → All P cs → Grouped P (object_ordered cs a)
  unfolding object_ordered
  object_ordered-Grouped [] a g h = g
  object_ordered-Grouped ((start, cp) ∷ cs) a g h =
      object_ordered-Grouped cs (push_chunk (start, cp) a) (push-Grouped P start cp a g h.0) h.1

push-Keys :
    (Q : ObjectId → Type 0) (start : ℕ) (cp : ChunkPointer) (a : List Group)
    → Keys Q a
    → Q cp.file
    → Keys Q (push_chunk (start, cp) a)
unfolding push_chunk Dict.upsert
push-Keys Q start cp [] g h = (h, tt)
push-Keys Q start cp ((id, cs) ∷ a) g h = elim (Bool-cases (cp.file =? id)) [
  | inl same ↦ rw same g
  | inr other ↦ rw other (g.0, push-Keys Q start cp a g.1 h)
]

-- The objects of the groups are objects of chunks.
pub object_ordered-Keys :
    (Q : ObjectId → Type 0) (cs : List Chunk) (a : List Group)
    → Keys Q a
    → All (λ c. Q c.1.file) cs
    → Keys Q (object_ordered cs a)
unfolding object_ordered
object_ordered-Keys Q [] a g h = g
object_ordered-Keys Q ((start, cp) ∷ cs) a g h =
    object_ordered-Keys Q cs (push_chunk (start, cp) a) (push-Keys Q start cp a g h.0) h.1
