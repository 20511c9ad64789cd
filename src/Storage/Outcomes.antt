-- ===== src/Storage/Outcomes.antt =====
-- Every way in which `Storage::store_chunk` can end.
use native.Mathlib.Decide.{dec_le}
use zerostash.Prelude.{
  ◌+◌, ◌^◌, ◌≤◌, ◌<◌, ◌≡◌, ◌≢◌, ◌∙◌, inl, inr, refl, sym, ap, subst, subst₂, [], ◌∷◌, true, false,
  length, Outcome, ok, err, panic, and_then, Bool-cases, ltb→le, lt→ltb, arith,
}
use zerostash.Objects.{Bytes, CryptoDigest, Object}
use zerostash.Objects.Buffer.{write_overflow}
use zerostash.Chunks.Pointer.{ChunkPointer}
use zerostash.Compress.{Lz4, block}
use zerostash.Crypto.Provider.{CryptoProvider, IsSound}
use zerostash.Backends
use zerostash.Backends.{Contract, Backend, BackendError}
use zerostash.Storage.{
  Storage, ObjectError, write_all, place, placed, returned, pointer, flush, make_room, needs_flush,
  store_chunk,
}
use zerostash.Storage.Flush.{IsValid, flush-Flushed, flush-ne-panic}
use zerostash.Storage.Place.{Placed, place-Placed}

write_all_overflow :
    (bs : Bytes) (o : Object)
    → o.cursor ≤ length o.buffer
    → length o.buffer < o.cursor + length bs
    → write_all bs o ≡ (panic, o)
unfolding write_all
write_all_overflow [] o h over = absurd (omega arith)
write_all_overflow (b ∷ bs) o h over = write_overflow (b ∷ bs) o over

-- What stands before the chunk is placed: the storage itself, where there is room, or what a flush
-- left.
pub data Room {C : CryptoProvider} {B : Backend} (z : Bytes) (s s1 : Storage C B) : Type 0 where
  stayed : needs_flush C B z s ≡ false → s1 ≡ s → Room z s s1
  flushed : needs_flush C B z s ≡ true → flush C B s ≡ (ok tt, s1) → Room z s s1

ok-injective :
    (p q : ChunkPointer) → ◌≡◌ {A = Outcome ObjectError ChunkPointer} (ok p) (ok q) → p ≡ q
ok-injective p q e = cc

module _ (C : CryptoProvider) (B : Backend) (K : IsSound C) where
  pub place_overflow :
      (hash : CryptoDigest) (z : Bytes) (s : Storage C B)
      → IsValid s
      → length z < 2 ^ 32
      → length s.object.buffer < s.object.cursor + length z
      → (place C B hash z s).0 ≡ panic
  unfolding place
  place_overflow hash z s v small over =
      let ((c, t), e) = K.encrypt_total s.object hash z v.id_size (omega arith) in
      let lengths = K.encrypt_length s.object hash z c t e in
      ap (λ x. (placed C B hash z s x).0) e
      ∙ ap (λ out. returned C B (pointer C B s.object hash z t) out.0)
          (write_all_overflow c s.object v.cursor_in (omega (arith, lengths)))

  module _ (Z : Lz4) (hash : CryptoDigest) (plain : Bytes) where
    pub store_chunk_steps :
        (z : Bytes) (s : Storage C B)
        → block Z plain ≡ ok z
        → store_chunk C B Z hash plain s
          ≡ and_then (make_room C B z s).0 (λ _. place C B hash z) (make_room C B z s).1
    unfolding store_chunk
    store_chunk_steps z s e = rw e refl

    Room-made : (z : Bytes) (s s1 : Storage C B) → make_room C B z s ≡ (ok tt, s1) → Room z s s1
    unfolding make_room
    Room-made z s s1 e = elim (Bool-cases (needs_flush C B z s)) [
      | inl full ↦ flushed full (rw full at e)
      | inr free ↦
          let e' : ◌≡◌ {A = Outcome ObjectError (Unit {0}) × Storage C B} (ok tt, s) (ok tt, s1) =
            rw free at e in
          stayed free (sym (ap (λ out. out.1) e'))
    ]

    Room-IsValid : (z : Bytes) (s s1 : Storage C B) → IsValid s → Room z s s1 → IsValid s1
    Room-IsValid z s s1 v (stayed free same) = subst IsValid (sym same) v
    Room-IsValid z s s1 v (flushed full e) = (flush-Flushed C B K s s1 v e).1.valid

    -- Where the compressed chunk fits an object at all, there is room for it then.
    Room-fits :
        (z : Bytes) (s s1 : Storage C B)
        → IsValid s
        → length z ≤ s.capacity
        → Room z s s1
        → s1.object.cursor + length z ≤ length s1.object.buffer
    Room-fits z s s1 v small (stayed free same) =
        subst (λ (x : Storage C B). x.object.cursor + length z ≤ length x.object.buffer) (sym same)
          (omega (arith, v.full, ltb→le s.capacity (s.object.cursor + length z) free))
    Room-fits z s s1 v small (flushed full e) =
        let (o, f) = flush-Flushed C B K s s1 v e in
        omega (arith, f.rewound, f.valid.full, f.same_capacity)

    after_room :
        (z : Bytes) (s : Storage C B) (r : Outcome ObjectError (Unit {0})) (s1 s' : Storage C B)
        (p : ChunkPointer)
        → and_then r (λ _. place C B hash z) s1 ≡ (ok p, s')
        → (r ≡ ok tt) × (place C B hash z s1 ≡ (ok p, s'))
    after_room z s (ok tt) s1 s' p e = (refl, e)
    after_room z s (err x) s1 s' p e = (cc, cc)
    after_room z s panic s1 s' p e = (cc, cc)

    place_ok :
        (z : Bytes) (s s' : Storage C B) (p : ChunkPointer)
        → IsValid s
        → length z < 2 ^ 32
        → place C B hash z s ≡ (ok p, s')
        → Placed hash z s s' p
    place_ok z s s' p v small e =
        elim (dec_le (s.object.cursor + length z) (length s.object.buffer)) [
          | yes fits ↦
              let (q, t, run, placed) = place-Placed C B K hash z s v fits in
              let same : ◌≡◌ {A = Outcome ObjectError ChunkPointer × Storage C B} (ok q, t)
                  (ok p, s') =
                sym run ∙ e in
              subst₂ (λ x y. Placed hash z s x y) (ap (λ out. out.1) same)
                (ok-injective q p (ap (λ out. out.0) same)) placed
          | no over ↦
              let bad : ok p ≡ panic =
                sym (ap (λ out. out.0) e) ∙ place_overflow hash z s v small (omega arith) in
              cc
        ]

    -- A chunk that was stored: `before` is the state that it was placed in.
    pub record Stored (z : Bytes) (s s' : Storage C B) (p : ChunkPointer) : Type 0 where
      pub before : Storage C B
      pub made : Room z s before
      pub before_valid : IsValid before
      pub placed : Placed hash z before s' p

    pub store_chunk-Stored :
        (z : Bytes) (s s' : Storage C B) (p : ChunkPointer)
        → IsValid s
        → block Z plain ≡ ok z
        → length z < 2 ^ 32
        → store_chunk C B Z hash plain s ≡ (ok p, s')
        → Stored z s s' p
    store_chunk-Stored z s s' p v packed small e =
        let (r, s1) = make_room C B z s in
        let (made, run) = after_room z s r s1 s' p (sym (store_chunk_steps z s packed) ∙ e) in
        let room : Room z s s1 = Room-made z s s1 (ap (λ x. (x, s1)) made) in
        let v1 : IsValid s1 = Room-IsValid z s s1 v room in
        record {
          before = s1;
          made = room;
          before_valid = v1;
          placed = place_ok z s1 s' p v1 small run;
        }

    -- The two ends of a call on a chunk that fits an object.
    pub data Ended (z : Bytes) (s : Storage C B) : Type 0 where
      stored :
          (p : ChunkPointer) (s' : Storage C B)
          → store_chunk C B Z hash plain s ≡ (ok p, s')
          → Stored z s s' p
          → Ended z s
      refused :
          (e : ObjectError)
          → needs_flush C B z s ≡ true
          → (flush C B s).0 ≡ err e
          → store_chunk C B Z hash plain s ≡ (err e, (flush C B s).1)
          → Ended z s

    placed_in :
        (z : Bytes) (s s1 : Storage C B)
        → IsValid s
        → block Z plain ≡ ok z
        → length z ≤ s.capacity
        → make_room C B z s ≡ (ok tt, s1)
        → Ended z s
    placed_in z s s1 v packed fits e =
        let room : Room z s s1 = Room-made z s s1 e in
        let v1 : IsValid s1 = Room-IsValid z s s1 v room in
        let (p, s', run, placed) = place-Placed C B K hash z s1 v1 (Room-fits z s s1 v fits room) in
        stored p s'
          (store_chunk_steps z s packed
            ∙ ap (λ out. and_then out.0 (λ _. place C B hash z) out.1) e
            ∙ run)
          (record { before = s1; made = room; before_valid = v1; placed = placed })

    flushed_in :
        (z : Bytes) (s : Storage C B) (r : Outcome ObjectError (Unit {0})) (s1 : Storage C B)
        → IsValid s
        → block Z plain ≡ ok z
        → length z ≤ s.capacity
        → needs_flush C B z s ≡ true
        → flush C B s ≡ (r, s1)
        → r ≢ panic
        → Ended z s
    unfolding make_room
    flushed_in z s (ok tt) s1 v packed fits full e h = placed_in z s s1 v packed fits (rw full e)
    flushed_in z s (err x) s1 v packed fits full e h =
        refused x full (ap (λ out. out.0) e) (store_chunk_steps z s packed ∙ rw (full, e) refl)
    flushed_in z s panic s1 v packed fits full e h = absurd (h refl)

    -- A chunk whose compressed size is at most an object's is stored at the cursor of an object with
    -- room for it, or a flush was needed and the backend refused it, whose error is returned; there
    -- is no panic.
    pub store_chunk-Ended :
        (D : Contract B)
        → Backends.IsLawful B D
        → (z : Bytes) (s : Storage C B) → IsValid s
        → block Z plain ≡ ok z
        → length z ≤ s.capacity
        → Ended z s
    unfolding make_room
    store_chunk-Ended D W z s v packed fits = elim (Bool-cases (needs_flush C B z s)) [
      | inl full ↦
          flushed_in z s (flush C B s).0 (flush C B s).1 v packed fits full refl
            (flush-ne-panic C B K D W s v)
      | inr free ↦ placed_in z s s v packed fits (rw free refl)
    ]

    -- A chunk whose compressed size is more than an object's is never stored: once there is room,
    -- even in an empty object, the write runs past the buffer and panics.
    pub store_chunk_too_long :
        (z : Bytes) (s s1 : Storage C B)
        → IsValid s
        → block Z plain ≡ ok z
        → s.capacity < length z
        → length z < 2 ^ 32
        → flush C B s ≡ (ok tt, s1)
        → (store_chunk C B Z hash plain s).0 ≡ panic
    unfolding make_room
    store_chunk_too_long z s s1 v packed long small e =
        let (o, f) = flush-Flushed C B K s s1 v e in
        ap (λ out. out.0) (store_chunk_steps z s packed)
        ∙ rw (lt→ltb s.capacity (s.object.cursor + length z) (omega arith), e)
            (place_overflow hash z s1 f.valid small
              (omega (arith, f.rewound, f.same_capacity, f.valid.full)))
