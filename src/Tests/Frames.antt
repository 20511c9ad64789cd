-- ===== src/Tests/Frames.antt =====
-- A toy frame: records of one byte that is not zero, written as they are, with a zero behind them.
use zerostash.Prelude.{
  ℕ, zero, suc, ◌+◌, ◌≤◌, ◌<◌, ◌≡◌, ◌∙◌, refl, sym, ap, ap₂, Option, some, none, List, [], ◌∷◌,
  ◌++◌, length, take, drop, subst, ◌-◌, slice, slice-split, slice-congr_prefix, take-congr_prefix,
  append_assoc, append-nil, Outcome, ok, err, panic, arith, leb, Bool-cases, inl, inr,
}
use zerostash.Objects.{Bytes, Object, IoError, other, write}
use zerostash.Objects.Buffer.{Wrote, write-Wrote, write_overflow}
use zerostash.Meta.{MetaObjectHeader}
use zerostash.Meta.Encoding.{Encoder}
use zerostash.Meta.Reader.{Codec}
use zerostash.Meta.Frames.{total, Each, Stream, begun, more, Framed, IsFrame}

abbrev after : Outcome IoError ℕ × Object → Outcome IoError Object
after (ok n, o) = ok o
after (err e, o) = err e
after (panic, o) = panic

abbrev ended : Outcome IoError ℕ × Object → Object × Option IoError
ended (ok n, o) = (o, none)
ended (err e, o) = (o, some e)
ended (panic, o) = (o, some other)

abbrev pub marked : Encoder
marked = record {
  State = Object;
  stream = λ o. ok o;
  write_all = λ bs o. after (write bs o);
  finish = λ o. ended (write (0 ∷ []) o);
  writer = λ o. o;
}

abbrev pub records_in : Bytes → List Bytes
records_in [] = []
records_in (zero ∷ bs) = []
records_in (suc n ∷ bs) = (suc n ∷ []) ∷ records_in bs

abbrev pub One : Bytes → Type 0
One bs = (n : ℕ) × (bs ≡ suc n ∷ [])

abbrev concat : List Bytes → Bytes
concat [] = []
concat (bs ∷ records) = bs ++ concat records

concat-append : (xs ys : List Bytes) → concat (xs ++ ys) ≡ concat xs ++ concat ys
concat-append [] ys = refl
concat-append (x ∷ xs) ys =
    ap (λ zs. x ++ zs) (concat-append xs ys) ∙ sym (append_assoc x (concat xs) (concat ys))

total-append : (xs ys : List Bytes) → total (xs ++ ys) ≡ total xs + total ys
total-append [] ys = omega arith
total-append (x ∷ xs) ys = omega (arith, total-append xs ys)

Each-append : (xs : List Bytes) (bs : Bytes) → Each One xs → One bs → Each One (xs ++ bs ∷ [])
Each-append [] bs h g = (g, tt)
Each-append (x ∷ xs) bs (h, hs) g = (h, Each-append xs bs hs g)

records_in-concat :
    (records : List Bytes) (rest : Bytes)
    → Each One records
    → records_in ((concat records ++ 0 ∷ []) ++ rest) ≡ records
records_in-concat [] rest h = refl
records_in-concat (bs ∷ records) rest ((n, e), hs) =
    ap (λ b. records_in (((b ++ concat records) ++ 0 ∷ []) ++ rest)) e
    ∙ ap₂ (λ b bss. b ∷ bss) (sym e) (records_in-concat records rest hs)

-- The records so far stand at the cursor of the object that the encoder was started on.
pub record Stands (o : Object) (records : List Bytes) (s : Object) : Type 0 where
  same_id : s.id ≡ o.id
  same_capacity : s.capacity ≡ o.capacity
  same_length : length s.buffer ≡ length o.buffer
  moved : s.cursor ≡ o.cursor + total records
  below : take o.cursor s.buffer ≡ take o.cursor o.buffer
  stored : slice s.buffer o.cursor s.cursor ≡ concat records
  each : Each One records

-- What stands at `o.cursor` after a write at the cursor of `s`.
extended :
    (o s s' : Object) (bs : Bytes)
    → Wrote bs s s'
    → o.cursor ≤ s.cursor
    → slice s'.buffer o.cursor s'.cursor ≡ slice s.buffer o.cursor s.cursor ++ bs
extended o s s' bs w h =
    ap (slice s'.buffer o.cursor) w.moved
    ∙ slice-split s'.buffer o.cursor s.cursor (s.cursor + length bs) h (omega arith)
    ∙ ap₂ ◌++◌
        (slice-congr_prefix s'.buffer s.buffer o.cursor s.cursor s.cursor h (omega arith) w.below)
        w.stored

-- A write that went through was in range.
taken :
    (bs : Bytes) (s s' : Object)
    → after (write bs s) ≡ ok s'
    → s.cursor + length bs ≤ length s.buffer
taken bs s s' e = elim (Bool-cases (leb (s.cursor + length bs) (length s.buffer))) [
  | inl inside ↦ ground (arith, inside)
  | inr outside ↦
      let far : length s.buffer < s.cursor + length bs = ground (arith, outside) in
      let bad : ◌≡◌ {A = Outcome IoError Object} panic (ok s') =
        ap after (sym (write_overflow bs s far)) ∙ e in
      absurd (cc)
]

ok-injective : (a b : Object) → ◌≡◌ {A = Outcome IoError Object} (ok a) (ok b) → a ≡ b
ok-injective a b e = cc

pub stream-Stands :
    {o : Object} {records : List Bytes} {s : Object}
    → Stream marked One o records s
    → Stands o records s
stream-Stands {o} (begun e) = subst (Stands o []) (ok-injective o _ e) (record {
  same_id = refl;
  same_capacity = refl;
  same_length = refl;
  moved = omega arith;
  below = refl;
  stored =
      ap (λ n. take n (drop o.cursor o.buffer))
        (let e : o.cursor - o.cursor ≡ 0 = omega arith in e);
  each = tt;
})
stream-Stands {o} (more {records} {s} {s'} {bs} stream good e) =
    let v = stream-Stands stream in
    let (s1, w) = write-Wrote bs s (taken bs s s' e) in
    let before : o.cursor ≤ s.cursor = omega (arith, v.moved) in
    subst (Stands o (records ++ bs ∷ [])) (ok-injective s1 s' (ap after (sym w.result) ∙ e))
      (record {
        same_id = w.same_id ∙ v.same_id;
        same_capacity = w.same_capacity ∙ v.same_capacity;
        same_length = w.same_length ∙ v.same_length;
        moved = omega (arith, w.moved, v.moved, total-append records (bs ∷ []));
        below = take-congr_prefix s1.buffer s.buffer o.cursor s.cursor before w.below ∙ v.below;
        stored =
            extended o s s1 bs w before
            ∙ ap (λ xs. xs ++ bs) v.stored
            ∙ ap (λ xs. concat records ++ xs) (sym (append-nil bs))
            ∙ sym (concat-append records (bs ∷ []));
        each = Each-append records bs v.each good;
      })

module _ (decode_header : Bytes → Option (Option MetaObjectHeader)) where
  abbrev pub marked_codec : Codec
  marked_codec = record { decode_header = decode_header; destream = λ bs. ok (records_in bs) }

  pub marked-finished :
      (o : Object) (records : List Bytes) (s : Object)
      → Stands o records s
      → o.cursor + (total records + 1) ≤ length o.buffer
      → (o' : Object) × (ended (write (0 ∷ []) s) ≡ (o', none))
        × Framed marked_codec o o' (total records + 1) records
  marked-finished o records s v room =
      let (o', w) = write-Wrote (0 ∷ []) s (omega (arith, v.moved, v.same_length)) in
      let before : o.cursor ≤ s.cursor = omega (arith, v.moved) in
      (
        o',
        ap ended w.result,
        record {
          same_id = w.same_id ∙ v.same_id;
          same_capacity = w.same_capacity ∙ v.same_capacity;
          same_length = w.same_length ∙ v.same_length;
          forward = omega (arith, w.moved, v.moved);
          at_most = omega (arith, w.moved, v.moved);
          below = take-congr_prefix o'.buffer s.buffer o.cursor s.cursor before w.below ∙ v.below;
          decoded = λ rest.
              ap (λ xs. ok (records_in (xs ++ rest)))
                (extended o s o' (0 ∷ []) w before ∙ ap (λ xs. xs ++ 0 ∷ []) v.stored)
              ∙ ap ok (records_in-concat records rest v.each);
        },
      )

  unfoldable pub marked_frames : IsFrame marked marked_codec
  marked_frames = record {
    IsRecord = One;
    bound = λ n. n + 1;
    bound_mono = λ m n h. omega arith;
    started = λ o room. (o, refl);
    written = λ o records s bs stream good room.
        let v = stream-Stands stream in
        let (s', w) = write-Wrote bs s (omega (arith, v.moved, v.same_length)) in
        (s', ap after w.result);
    standing = λ o records s stream.
        let v = stream-Stands stream in
        (v.same_id, v.same_capacity, omega (arith, v.moved), omega (arith, v.moved));
    finished = λ o records s stream room. marked-finished o records s (stream-Stands stream) room;
  }
