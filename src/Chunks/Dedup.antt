-- ===== src/Chunks/Dedup.antt =====
-- `ChunkStore::push`: each chunk is stored once.
use zerostash.Prelude.{
  ◌≡◌, ◌∙◌, refl, Option, none, some, Option-cases, inl, inr, [], ◌∷◌, Outcome, ok, err, panic,
  Exec, arith,
}
use zerostash.Prelude.Equality.{bytes_eq}
use zerostash.Prelude.Dict
use zerostash.Prelude.Dict.{lookup-insert}
use zerostash.Objects.{CryptoDigest}
use zerostash.Chunks.Pointer.{ChunkPointer}
use zerostash.Chunks.{ChunkIndex, entry, push, inserted, serialize, deserialize}

module _ {S E : Type 0} (digest : CryptoDigest) (store : Exec S E ChunkPointer) where
  -- A digest that the index has is answered from it: the chunk is not stored again, and nothing
  -- changes.
  pub push_known :
      (others : ChunkIndex → ChunkIndex) (index : ChunkIndex) (s : S) (p : ChunkPointer)
      → Dict.lookup digest index ≡ some p
      → push digest store others (index, s) ≡ (ok p, (index, s))
  unfolding push
  push_known others index s p e = rw e refl

  -- Where another thread was faster, between the look and the lock, its pointer is returned and the
  -- chunk is not stored a second time.
  pub push_raced :
      (others : ChunkIndex → ChunkIndex) (index : ChunkIndex) (s : S) (p : ChunkPointer)
      → Dict.lookup digest index ≡ none
      → Dict.lookup digest (others index) ≡ some p
      → push digest store others (index, s) ≡ (ok p, (others index, s))
  unfolding push
  push_raced others index s p miss hit = rw (miss, hit) refl

  -- What a successful push leaves: the pointer under its digest, and every pointer that was in the
  -- index, or that other threads put there, as it was.
  pub record Pushed (before after : ChunkIndex) (p : ChunkPointer) : Type 0 where
    pub present : Dict.lookup digest after ≡ some p
    pub others_kept :
        (d : CryptoDigest) (q : ChunkPointer)
        → Dict.lookup d before ≡ some q
        → Dict.lookup d after ≡ some q

  inserted-Pushed :
      (index index' : ChunkIndex) (r : Outcome E ChunkPointer) (s s' : S) (p : ChunkPointer)
      → Dict.lookup digest index ≡ none
      → inserted digest index (r, s) ≡ (ok p, (index', s'))
      → Pushed index index' p
  inserted-Pushed index index' (ok q) s s' p miss e = record {
    present = ground (arith, lookup-insert digest digest q index);
    others_kept = λ d x h. ground (arith, lookup-insert d digest q index);
  }
  inserted-Pushed index index' (err x) s s' p miss e = cc
  inserted-Pushed index index' panic s s' p miss e = cc

  -- The entry of a digest that returns a pointer leaves it under the digest, and every pointer that
  -- the index had as it was.
  pub entry-Pushed :
      (index index' : ChunkIndex) (s s' : S) (p : ChunkPointer)
      → entry digest store (index, s) ≡ (ok p, (index', s'))
      → Pushed index index' p
  unfolding entry
  entry-Pushed index index' s s' p e = elim (Option-cases (Dict.lookup digest index)) [
    | inl miss ↦ inserted-Pushed index index' (store s).0 (store s).1 s' p miss (rw miss at e)
    | inr (q, hit) ↦
        let e' : ◌≡◌ {A = Outcome E ChunkPointer × (ChunkIndex × S)} (ok q, (index, s))
            (ok p, (index', s')) =
          rw hit at e in
        record { present = ground (arith, hit, e'); others_kept = λ d x h. ground (arith, h, e') }
  ]

  -- A store that fails leaves the index alone and returns its error.
  pub push_failed :
      (index : ChunkIndex) (s s' : S) (e : E)
      → Dict.lookup digest index ≡ none
      → store s ≡ (err e, s')
      → push digest store (λ i. i) (index, s) ≡ (err e, (index, s'))
  unfolding push
  push_failed index s s' e miss bad = rw miss (rw (miss, entry) (rw bad refl))

-- Each key stands once, as in a map.
abbrev pub HasUniqueKeys : ChunkIndex → Type 0
HasUniqueKeys [] = Unit
HasUniqueKeys ((k, _) ∷ d) = (Dict.lookup k d ≡ none) × HasUniqueKeys d

abbrev or_else : Option ChunkPointer → Option ChunkPointer → Option ChunkPointer
or_else none q = q
or_else (some p) q = some p

lookup-deserialize :
    (items index : ChunkIndex) (d : CryptoDigest)
    → HasUniqueKeys items
    → Dict.lookup d (deserialize items index) ≡ or_else (Dict.lookup d items) (Dict.lookup d index)
unfolding deserialize Dict.lookup
lookup-deserialize [] index d u = refl
lookup-deserialize ((k, p) ∷ items) index d u =
    ground (
      arith,
      u.0,
      lookup-insert d k p index,
      lookup-deserialize items (Dict.insert k p index) d u.1,
    )

or_else-none : (o : Option ChunkPointer) → or_else o none ≡ o
or_else-none none = refl
or_else-none (some p) = refl

-- An index that is written out and read into an empty store answers every digest as before.
pub deserialize-serialize :
    (index : ChunkIndex) (d : CryptoDigest)
    → HasUniqueKeys index
    → Dict.lookup d (deserialize (serialize index) []) ≡ Dict.lookup d index
unfolding serialize Dict.lookup
deserialize-serialize index d u =
    lookup-deserialize index [] d u ∙ or_else-none (Dict.lookup d index)
