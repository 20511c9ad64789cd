-- ===== src/Objects/Seek.antt =====
-- `Seek` of `Object<T>`.
use zerostash.Prelude.{
  ℕ, ◌+◌, ◌-◌, ◌≤◌, ◌≡◌, ◌↔◌, Outcome, ok, err, arith, some, ltb, inl, inr, Bool-cases,
  Option-cases, ltb→le,
}
use zerostash.Prelude.Int.{ℤ, pos, negsuc, pos_part, neg_part, sub_ℕ}
use zerostash.Objects.{
  Object, IoError, invalid_input, SeekFrom, start, end, current, seek, in_range,
}

-- The two ways a seek can end: at a position within the capacity, which it returns, or refused
-- with the object unchanged.
pub data Sought (o : Object) (out : Outcome IoError ℕ × Object) : Type 0 where
  at : (p : ℕ) → p ≤ o.capacity → out ≡ (ok p, record o { cursor = p }) → Sought o out
  refused : out ≡ (err invalid_input, o) → Sought o out

abbrev target : ℤ → Object → ℤ
target c o = sub_ℕ (o.cursor + pos_part c) (neg_part c)

in_range-le : (z : ℤ) (m p : ℕ) → in_range z m ≡ some p → p ≤ m
in_range-le z m p e = ground arith

-- Every seek ends within the capacity and returns the new cursor, or is refused with
-- `InvalidInput` and changes nothing; it never panics.
pub seek-Sought : (p : SeekFrom) (o : Object) → Sought o (seek p o)
unfolding seek
seek-Sought (start s) o = elim (Bool-cases (ltb o.capacity s)) [
  | inl e ↦ refused (rw e)
  | inr e ↦ at s (omega (arith, ltb→le o.capacity s)) (rw e)
]
seek-Sought (end e) o = elim (Option-cases (in_range e o.capacity)) [
  | inl n ↦ refused (rw n)
  | inr (p, e') ↦ at (o.capacity - p) (omega arith) (rw e')
]
seek-Sought (current c) o = elim (Option-cases (in_range (target c o) o.capacity)) [
  | inl n ↦ refused (rw n)
  | inr (p, e) ↦ at p (in_range-le (target c o) o.capacity p e) (rw e)
]

-- A relative seek succeeds exactly when the moved position lies in `0 ..= capacity`, and then
-- stands there.
pub seek-current_iff :
    (c : ℤ) (o : Object) (p : ℕ)
    → (seek (current c) o ≡ (ok p, record o { cursor = p }))
      ↔ ((p + neg_part c ≡ o.cursor + pos_part c) × (p ≤ o.capacity))
unfolding seek
seek-current_iff (pos n) o p = (λ e. ground arith, λ h. ground arith)
seek-current_iff (negsuc n) o p = (λ e. ground arith, λ h. ground arith)

-- A seek from the end by an offset between 0 and the capacity lands that far before the capacity,
-- the other way from `std::io::SeekFrom::End`, which adds the offset to the size.
pub seek-end :
    (e : ℤ) (o : Object)
    → neg_part e ≡ 0
    → pos_part e ≤ o.capacity
    → (seek (end e) o).1.cursor + pos_part e ≡ o.capacity
unfolding seek
seek-end (pos n) o z h = ground arith
seek-end (negsuc n) o z h = absurd (omega arith)
