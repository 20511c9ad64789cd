-- ===== src/Store/Pool/Advance.antt =====
-- libzerostash/src/stash/store.rs: a step of one worker, as far as the shared index goes.
use zerostash.Prelude.{
  ℕ, ◌≡◌, ◌≢◌, ◌∙◌, refl, sym, ap, subst, ◌⊎◌, inl, inr, some, get_elem?, set, ℕ_discrete,
}
use zerostash.Prelude.Equality.{bytes_eq}
use zerostash.Prelude.Dict
use zerostash.Objects.{Bytes, CryptoDigest}
use zerostash.Chunks.Pointer.{ChunkPointer}
use zerostash.Compress
use zerostash.Compress.{Lz4}
use zerostash.Crypto.Provider.{CryptoProvider, IsSound}
use zerostash.Backends
use zerostash.Backends.{Backend, Contract}
use zerostash.Storage.Located.{Located, pending, flushed}
use zerostash.Rollsum.{Rollsum}
use zerostash.Store.{Worker}
use zerostash.Store.Held.{Held}
use zerostash.Store.Pool.{Pool, Slot, Task, as_slot}
use zerostash.Store.Pool.Sound.{
  get_elem?-set_self, get_elem?-set_ne, same_slot, storage_of, Somewhere, inside, outside,
  IsCoherent, Advance, pending-moves, IsReady-moves,
}

module _ (C : CryptoProvider) (B : Backend) (Z : Lz4) (D : Contract B) (W : Backends.IsLawful B D)
    (contents : CryptoDigest → Bytes) (K : IsSound C) (L : Compress.IsLawful Z)
    (digest : Bytes → CryptoDigest) (R : Rollsum) where
  -- The state that a step of worker `i` leaves.
  pub record IsAfter (p q : Pool C B) (i : ℕ) (task : Task) (w : Worker C B) : Type 0 where
    pub slots : q.slots ≡ set p.slots i (as_slot C B Z digest R task w)
    pub chunks : q.chunks ≡ w.chunks
    pub backend : q.backend ≡ w.storage.backend

  module _ (p q : Pool C B) (i : ℕ) (slot : Slot) (task : Task) (w : Worker C B)
      (v : IsCoherent C B Z D W contents K L digest R p)
      (d : Advance C B Z D W contents K L digest R p i slot task w)
      (after : IsAfter p q i task w) where
    abbrev new_slot : Slot
    new_slot = as_slot C B Z digest R task w

    own : get_elem? q.slots i ≡ some new_slot
    own = ap (λ s. get_elem? s i) after.slots ∙ get_elem?-set_self p.slots i slot new_slot d.at

    others : (j : ℕ) → j ≢ i → get_elem? q.slots j ≡ get_elem? p.slots j
    others j ne = ap (λ s. get_elem? s j) after.slots ∙ get_elem?-set_ne p.slots i j new_slot ne

    -- A slot is the worker's own, or as it was.
    which :
        (j : ℕ) (b : Slot)
        → get_elem? q.slots j ≡ some b
        → ((j ≡ i) × (new_slot ≡ b)) ⊎ ((j ≢ i) × (get_elem? p.slots j ≡ some b))
    which j b at = elim (ℕ_discrete j i) [
      | yes same ↦ inl (same, same_slot q.slots i j new_slot b same own at)
      | no ne ↦ inr (ne, sym (others j ne) ∙ at)
    ]

    -- What the worker's storage holds, and no other object has.
    classified :
        (hash : CryptoDigest) (r : ChunkPointer)
        → ((j : ℕ) (b : Slot) → get_elem? p.slots j ≡ some b → j ≢ i → r.file ≢ b.object.id)
        → Held C B Z D W contents w.storage hash r
        → Somewhere C B Z D W contents K L digest R q hash r
    classified hash r away h = at h.located
      where
        at :
            Located w.storage r hash h.compressed
            → Somewhere C B Z D W contents K L digest R q hash r
        at (pending file below held) = inside i new_slot own file (
            pending-moves C B Z D W contents K L digest R w.storage
              (storage_of C B Z D W contents K L digest R new_slot q) hash r file refl h)
        at (flushed other o read id held) =
            outside
              (λ j b at. elim (which j b at) [
                | inl (same, is) ↦ λ e. other (e ∙ ap (λ (x : Slot). x.object.id) (sym is))
                | inr (ne, was) ↦ away j b was ne
              ])
              (record {
                compressed = h.compressed;
                packed = h.packed;
                object = o;
                read = ap (λ b. (B.read_object r.file b).0) after.backend ∙ read;
                same_id = id;
                held = held;
              })

    old-Somewhere :
        (hash : CryptoDigest) (r : ChunkPointer)
        → Dict.lookup hash p.chunks ≡ some r
        → Somewhere C B Z D W contents K L digest R p hash r
        → Somewhere C B Z D W contents K L digest R q hash r
    old-Somewhere hash r found (inside j b at file h) = elim (ℕ_discrete j i) [
      | yes same ↦
          let is : slot ≡ b = same_slot p.slots i j slot b same d.at at in
          let h' =
            subst
              (λ (x : Slot).
                Held C B Z D W contents (storage_of C B Z D W contents K L digest R x p) hash r)
              (sym is) h in
          classified hash r
            (λ k c at' ne e.
              v.apart i k slot c d.at at' ne
                (sym e ∙ file ∙ ap (λ (x : Slot). x.object.id) (sym is)))
            (d.keeps hash r found h')
      | no ne ↦ inside j b (others j ne ∙ at) file (
          pending-moves C B Z D W contents K L digest R
            (storage_of C B Z D W contents K L digest R b p)
            (storage_of C B Z D W contents K L digest R b q) hash r file refl h)
    ]
    old-Somewhere hash r found (outside away k) =
        classified hash r (λ j b at ne. away j b at)
          (d.keeps hash r found (record {
            compressed = k.compressed;
            packed = k.packed;
            located = flushed (away i slot d.at) k.object k.read k.same_id k.held;
          }))

    found_before :
        (hash : CryptoDigest) (r : ChunkPointer)
        → Dict.lookup hash q.chunks ≡ some r
        → Dict.lookup hash w.chunks ≡ some r
    found_before hash r found = ap (Dict.lookup hash) (sym after.chunks) ∙ found

    id_of : (b : Slot) → new_slot ≡ b → b.object.id ≡ w.storage.object.id
    id_of b is = ap (λ (x : Slot). x.object.id) (sym is)

    -- Such a step keeps the pool coherent.
    pub Advance-IsCoherent : IsCoherent C B Z D W contents K L digest R q
    Advance-IsCoherent = record {
      ready = λ j b at.
          let co : D.Coherent q.backend = subst D.Coherent (sym after.backend) d.ready.coherent in
          elim (which j b at) [
            | inl (same, is) ↦
                IsReady-moves C B Z D W contents K L digest R w.storage
                  (storage_of C B Z D W contents K L digest R b q) d.ready
                  (ap (λ (x : Slot). x.object) is) (ap (λ (x : Slot). x.capacity) is) co
            | inr (ne, was) ↦
                IsReady-moves C B Z D W contents K L digest R
                  (storage_of C B Z D W contents K L digest R b p)
                  (storage_of C B Z D W contents K L digest R b q) (v.ready j b was) refl refl co
          ];
      apart = λ j k a b at at' ne e. elim (which j a at) [
        | inl (ji, isa) ↦ elim (which k b at') [
          | inl (ki, isb) ↦ ne (ki ∙ sym ji)
          | inr (ki, was) ↦ d.unused k b was ki (e ∙ id_of a isa)
        ]
        | inr (ji, was) ↦ elim (which k b at') [
          | inl (ki, isb) ↦ d.unused j a was ji (sym e ∙ id_of b isb)
          | inr (ki, was') ↦ v.apart j k a b was was' ne e
        ]
      ];
      held = λ hash r found. elim (d.pointers hash r (found_before hash r found)) [
        | inl old ↦ old-Somewhere hash r old (v.held hash r old)
        | inr (file, h) ↦ inside i new_slot own file (
            pending-moves C B Z D W contents K L digest R w.storage
              (storage_of C B Z D W contents K L digest R new_slot q) hash r file refl h)
      ];
      settled = λ j b hash r at done found e. elim (which j b at) [
        | inl (same, is) ↦
            d.ends (ap (λ (x : Slot). x.task) is ∙ done) hash r (found_before hash r found)
              (e ∙ id_of b is)
        | inr (ne, was) ↦ elim (d.pointers hash r (found_before hash r found)) [
          | inl old ↦ v.settled j b hash r was done old e
          | inr (file, h) ↦ d.unused j b was ne (sym e ∙ file)
        ]
      ];
    }
