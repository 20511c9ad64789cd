-- ===== src/Store/Pool/Moves.antt =====
-- libzerostash/src/stash/store.rs: the steps of the threads of `recursive` where no worker panics.
use zerostash.Prelude.{
  ℕ, ◌==◌, ◌≡◌, ◌≢◌, ◌∙◌, refl, sym, ap, subst, inl, inr, Bool-cases, ℕ_discrete, Option, none,
  some, List, [], ◌∷◌, get_elem?, set, Outcome, ok, err, panic,
}
use zerostash.Prelude.Equality.{bytes_eq}
use zerostash.Objects.{Bytes, CryptoDigest}
use zerostash.Chunks.Pointer.{ChunkPointer}
use zerostash.Compress.{Lz4}
use zerostash.Crypto.Provider.{CryptoProvider}
use zerostash.Backends.{Backend}
use zerostash.Storage.{ObjectError}
use zerostash.Rollsum.{Rollsum}
use zerostash.Splitter.{Item}
use zerostash.Files.{Entry, Metadata, from_file, has_changed, entry_eq}
use zerostash.Store.{Worker, DirEntry, has_parent, unwrapped, push_item, flush_worker}
use zerostash.Store.Pool.{
  Pool, Slot, Task, crashed, begin_file, next_chunk, end_loop, begin_mapped, begin_changed,
  begin_entry, begin_opened, after_push, ended, as_slot, put_back,
}
use zerostash.Store.Pool.Sound.{get_elem?-set_self, get_elem?-set_ne, same_slot}

module _ (C : CryptoProvider) (B : Backend) (Z : Lz4) (digest : Bytes → CryptoDigest)
    (R : Rollsum) where
  -- No worker has panicked.
  abbrev pub NoCrash : Pool C B → Type 0
  NoCrash p = (i : ℕ) (slot : Slot) → get_elem? p.slots i ≡ some slot → slot.task ≢ crashed

  -- The beginning of a file changes neither the chunk index nor the object store.
  pub record IsStill (w w' : Worker C B) : Type 0 where
    pub same_chunks : w'.chunks ≡ w.chunks
    pub same_storage : w'.storage ≡ w.storage

  unmoved : (w : Worker C B) → IsStill w w
  unmoved w = record { same_chunks = refl; same_storage = refl }

  begin_mapped-IsStill :
      (mapped : Option Bytes) (entry : Entry) (w : Worker C B)
      → IsStill w (begin_mapped C B Z digest R mapped entry w).1
  begin_mapped-IsStill none entry w = unmoved w
  begin_mapped-IsStill (some bytes) entry w = unmoved w

  begin_changed-IsStill :
      (mapped : Option Bytes) (entry : Entry) (w : Worker C B)
      → IsStill w (begin_changed C B Z digest R mapped entry w).1
  begin_changed-IsStill mapped entry w = elim (Bool-cases (entry.size == 0)) [
    | inl nothing ↦ rw nothing (record { same_chunks = refl; same_storage = refl })
    | inr some_bytes ↦ rw some_bytes (begin_mapped-IsStill mapped entry w)
  ]

  begin_entry-IsStill :
      (mapped : Option Bytes) (r : Outcome ObjectError Entry) (w : Worker C B)
      → IsStill w (begin_entry C B Z digest R mapped r w).1
  begin_entry-IsStill mapped (ok entry) w = elim (Bool-cases (has_changed entry w.files)) [
    | inl changed ↦ rw changed (begin_changed-IsStill mapped entry w)
    | inr same ↦ rw same (unmoved w)
  ]
  begin_entry-IsStill mapped (err e) w = unmoved w
  begin_entry-IsStill mapped panic w = unmoved w

  begin_opened-IsStill :
      (name : Option Bytes) (opened : Option (Metadata × Option Bytes)) (w : Worker C B)
      → IsStill w (begin_opened C B Z digest R name opened w).1
  begin_opened-IsStill name none w = unmoved w
  begin_opened-IsStill name (some (m, mapped)) w =
      begin_entry-IsStill mapped (unwrapped (from_file m name)) w

  pub begin_file-IsStill :
      (file : DirEntry) (w : Worker C B) → IsStill w (begin_file C B Z digest R file w).1
  unfolding begin_file
  begin_file-IsStill file w = elim (Bool-cases (has_parent file.path)) [
    | inl up ↦ rw up (unmoved w)
    | inr down ↦ rw down (begin_opened-IsStill file.name file.opened w)
  ]

  pub end_loop-ok :
      (w : Worker C B)
      → (end_loop C B Z digest R w).0 ≢ crashed
      → flush_worker C B Z digest R w ≡ (ok tt, (end_loop C B Z digest R w).1)
  unfolding end_loop
  end_loop-ok w goes =
      ap (λ r. (r, (flush_worker C B Z digest R w).1))
        (returned (flush_worker C B Z digest R w).0 goes)
    where
      returned : (r : Outcome ObjectError (Unit {0})) → ended C B Z digest R r ≢ crashed → r ≡ ok tt
      returned (ok u) h = refl
      returned (err e) h = absurd (h refl)
      returned panic h = absurd (h refl)

  pub next_chunk-ok :
      (entry : Entry) (x : Item) (items : List Item) (w : Worker C B)
      → (next_chunk C B Z digest R entry (x ∷ items) w).0 ≢ crashed
      → (ptr : ChunkPointer) × (push_item C B Z x w
          ≡ (ok ptr, (next_chunk C B Z digest R entry (x ∷ items) w).1))
  unfolding next_chunk
  next_chunk-ok entry x items w goes =
      let (ptr, e) = returned (push_item C B Z x w).0 goes in
      (ptr, ap (λ r. (r, (push_item C B Z x w).1)) e)
    where
      returned :
          (r : Outcome ObjectError ChunkPointer)
          → after_push C B Z digest R x.start entry items r ≢ crashed
          → (ptr : ChunkPointer) × (r ≡ ok ptr)
      returned (ok ptr) h = (ptr, refl)
      returned (err e) h = absurd (h refl)
      returned panic h = absurd (h refl)

  -- Before a step of a worker that had not panicked, none had, if none has afterwards.
  pub put_back-NoCrash :
      (p p' q : Pool C B) (i : ℕ) (slot : Slot) (r : Task × Worker C B)
      → get_elem? p.slots i ≡ some slot
      → slot.task ≢ crashed
      → p'.slots ≡ p.slots
      → put_back C B Z digest R i r p' ≡ q
      → NoCrash q
      → NoCrash p × (r.0 ≢ crashed)
  put_back-NoCrash p p' q i slot (task, w) at alive same e none_crashed = (
    λ j b at'. elim (ℕ_discrete j i) [
      | yes ji ↦
          subst (λ (x : Slot). x.task ≢ crashed) (same_slot p.slots i j slot b ji at at') alive
      | no ne ↦ none_crashed j b (slots_at j ∙ get_elem?-set_ne p.slots i j new ne ∙ at')
    ],
    none_crashed i new (slots_at i ∙ get_elem?-set_self p.slots i slot new at),
  )
    where
      new : Slot
      new = as_slot C B Z digest R task w

      slots_at : (j : ℕ) → get_elem? q.slots j ≡ get_elem? (set p.slots i new) j
      slots_at j =
          ap (λ (x : Pool C B). get_elem? x.slots j) (sym e)
          ∙ ap (λ s. get_elem? (set s i new) j) same

  pub next_chunk-IsStill :
      (entry : Entry) (w : Worker C B) → IsStill w (next_chunk C B Z digest R entry [] w).1
  unfolding next_chunk
  next_chunk-IsStill entry w = record { same_chunks = refl; same_storage = refl }
