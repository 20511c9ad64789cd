-- ===== src/Store/Pool/Sound.antt =====
-- libzerostash/src/stash/store.rs: where the chunks are that the shared index points at, while the
-- threads of `recursive` interleave.
use zerostash.Prelude.{
  ℕ, zero, suc, ◌+◌, ◌≤◌, ◌<◌, ◌^◌, length, ◌≡◌, ◌≢◌, ◌∙◌, refl, sym, ap, subst, ◌⊎◌, Option, some,
  List, [], ◌∷◌, get_elem?, set,
}
use zerostash.Prelude.Equality.{bytes_eq}
use zerostash.Prelude.Dict
use zerostash.Objects.{Bytes, CryptoDigest}
use zerostash.Chunks.Pointer.{ChunkPointer}
use zerostash.Compress
use zerostash.Compress.{Lz4}
use zerostash.Crypto.Provider.{CryptoProvider, IsSound}
use zerostash.Backends
use zerostash.Backends.{Backend, Contract}
use zerostash.Storage.{Storage}
use zerostash.Storage.Place.{Holds}
use zerostash.Storage.Located.{Located, pending, flushed}
use zerostash.Storage.Keeps.{IsReady}
use zerostash.Rollsum.{Rollsum}
use zerostash.Store.{Worker}
use zerostash.Store.Held.{Held}
use zerostash.Store.Kept.{Kept}
use zerostash.Store.Pool.{Pool, Slot, Task, finished, as_worker}

pub get_elem?-set_self :
    (slots : List Slot) (i : ℕ) (old new : Slot)
    → get_elem? slots i ≡ some old
    → get_elem? (set slots i new) i ≡ some new
get_elem?-set_self [] i old new e = absurd (cc)
get_elem?-set_self (s ∷ slots) zero old new e = refl
get_elem?-set_self (s ∷ slots) (suc i) old new e = get_elem?-set_self slots i old new e

pub get_elem?-set_ne :
    (slots : List Slot) (i j : ℕ) (new : Slot)
    → j ≢ i
    → get_elem? (set slots i new) j ≡ get_elem? slots j
get_elem?-set_ne [] i j new ne = refl
get_elem?-set_ne (s ∷ slots) zero zero new ne = absurd (ne refl)
get_elem?-set_ne (s ∷ slots) zero (suc j) new ne = refl
get_elem?-set_ne (s ∷ slots) (suc i) zero new ne = refl
get_elem?-set_ne (s ∷ slots) (suc i) (suc j) new ne =
    get_elem?-set_ne slots i j new (λ e. ne (ap suc e))

pub same_slot :
    (slots : List Slot) (i j : ℕ) (a b : Slot)
    → j ≡ i
    → get_elem? slots i ≡ some a
    → get_elem? slots j ≡ some b
    → a ≡ b
same_slot slots i j a b ji ea eb =
    let both : ◌≡◌ {A = Option Slot} (some a) (some b) =
      sym ea ∙ ap (get_elem? slots) (sym ji) ∙ eb in
    cc

module _ (C : CryptoProvider) (B : Backend) (Z : Lz4) (D : Contract B) (W : Backends.IsLawful B D)
    (contents : CryptoDigest → Bytes) (K : IsSound C) (L : Compress.IsLawful Z)
    (digest : Bytes → CryptoDigest) (R : Rollsum) where
  abbrev pub storage_of : Slot → Pool C B → Storage C B
  storage_of slot p = (as_worker C B Z digest R slot p).storage

  -- A chunk is in the object of a worker, or in the backend under the id of no worker's object.
  pub data Somewhere (p : Pool C B) (hash : CryptoDigest) (q : ChunkPointer) : Type 0 where
    inside :
        (i : ℕ) (slot : Slot)
        → get_elem? p.slots i ≡ some slot
        → q.file ≡ slot.object.id
        → Held C B Z D W contents (storage_of slot p) hash q
        → Somewhere p hash q
    outside :
        ((i : ℕ) (slot : Slot) → get_elem? p.slots i ≡ some slot → q.file ≢ slot.object.id)
        → Kept C B Z D W contents K L p.backend hash q
        → Somewhere p hash q

  -- The workers can store, each into its own object; every pointer of the index is to a chunk that is
  -- somewhere, and not in the object of a worker that has finished.
  pub record IsCoherent (p : Pool C B) : Type 0 where
    pub ready :
        (i : ℕ) (slot : Slot)
        → get_elem? p.slots i ≡ some slot
        → IsReady C B Z D W (storage_of slot p)
    pub apart :
        (i j : ℕ) (a b : Slot)
        → get_elem? p.slots i ≡ some a
        → get_elem? p.slots j ≡ some b
        → j ≢ i
        → b.object.id ≢ a.object.id
    pub held :
        (hash : CryptoDigest) (q : ChunkPointer)
        → Dict.lookup hash p.chunks ≡ some q
        → Somewhere p hash q
    pub settled :
        (i : ℕ) (slot : Slot) (hash : CryptoDigest) (q : ChunkPointer)
        → get_elem? p.slots i ≡ some slot
        → slot.task ≡ finished
        → Dict.lookup hash p.chunks ≡ some q
        → q.file ≢ slot.object.id

  -- What a worker's step does: its storage keeps what was in it and in the backend, stands under the
  -- id that it had or under one that nothing has, and new pointers are to its object.
  pub record Advance (p : Pool C B) (i : ℕ) (slot : Slot) (task : Task) (w : Worker C B)
      : Type 0 where
    pub at : get_elem? p.slots i ≡ some slot
    pub ready : IsReady C B Z D W w.storage
    pub keeps :
        (hash : CryptoDigest) (q : ChunkPointer)
        → Dict.lookup hash p.chunks ≡ some q
        → Held C B Z D W contents (storage_of slot p) hash q
        → Held C B Z D W contents w.storage hash q
    pub unused :
        (j : ℕ) (b : Slot)
        → get_elem? p.slots j ≡ some b
        → j ≢ i
        → b.object.id ≢ w.storage.object.id
    pub pointers :
        (hash : CryptoDigest) (q : ChunkPointer)
        → Dict.lookup hash w.chunks ≡ some q
        → (Dict.lookup hash p.chunks ≡ some q)
          ⊎ ((q.file ≡ w.storage.object.id) × Held C B Z D W contents w.storage hash q)
    pub ends :
        task ≡ finished
        → (hash : CryptoDigest) (q : ChunkPointer) → Dict.lookup hash w.chunks ≡ some q
        → q.file ≢ w.storage.object.id

  -- What a worker holds does not depend on the others.
  pub pending-moves :
      (s t : Storage C B) (hash : CryptoDigest) (q : ChunkPointer)
      → q.file ≡ s.object.id
      → s.object ≡ t.object
      → Held C B Z D W contents s hash q
      → Held C B Z D W contents t hash q
  pending-moves s t hash q file same h = record {
    compressed = h.compressed;
    packed = h.packed;
    located = at h.located;
  }
    where
      at : Located s q hash h.compressed → Located t q hash h.compressed
      at (pending e below held) =
          pending (e ∙ ap (λ o. o.id) same) (subst (λ o. q.offs + q.size ≤ o.cursor) same below)
            (subst (λ o. Holds C o q hash h.compressed) same held)
      at (flushed other r read id held) = absurd (other file)

  pub IsReady-moves :
      (s t : Storage C B)
      → IsReady C B Z D W s
      → s.object ≡ t.object
      → s.capacity ≡ t.capacity
      → D.Coherent t.backend
      → IsReady C B Z D W t
  IsReady-moves s t v same room co = record {
    valid = record {
      full = sym room ∙ v.valid.full ∙ ap (λ o. length o.buffer) same;
      whole = subst (λ o. o.capacity ≡ length o.buffer) same v.valid.whole;
      cursor_in = subst (λ o. o.cursor ≤ length o.buffer) same v.valid.cursor_in;
      id_size = subst (λ o. length o.id ≡ 32) same v.valid.id_size;
      addressable = subst (λ o. length o.buffer < 2 ^ 32) same v.valid.addressable;
    };
    coherent = co;
    accepted = subst (λ o. D.Accepts (length o.buffer)) same v.accepted;
  }
