-- ===== src/Store/Pool/Costs.antt =====
-- libzerostash/src/stash/store.rs: what the files and the workers of `recursive` weigh.
use zerostash.Prelude.{
  ℕ, zero, suc, ◌+◌, ◌≤◌, ◌<◌, ◌==◌, ◌≡◌, refl, ap, subst, Bool-cases, inl, inr, Option, none, some,
  List, [], ◌∷◌, ◌++◌, length, get_elem?, set, take, Outcome, ok, err, panic, arith,
}
use zerostash.Objects.{Bytes, CryptoDigest}
use zerostash.Chunks.Pointer.{ChunkPointer}
use zerostash.Compress.{Lz4}
use zerostash.Crypto.Provider.{CryptoProvider}
use zerostash.Backends.{Backend}
use zerostash.Storage.{ObjectError}
use zerostash.Rollsum.{Rollsum}
use zerostash.Splitter.{Item, split}
use zerostash.Files.{Entry, Metadata, FileError, from_file, to_unix_mtime, has_changed}
use zerostash.Store.{Worker, DirEntry, has_parent, unwrapped, push_item, flush_worker}
use zerostash.Store.Pool.{
  Pool, Slot, Task, waiting, finished, crashed, storing, begin_file, next_chunk, end_loop,
  begin_mapped, begin_changed, begin_entry, begin_opened, after_push, ended,
}

module _ (C : CryptoProvider) (B : Backend) (Z : Lz4) (digest : Bytes → CryptoDigest)
    (R : Rollsum) where
  -- What a file may cost: a step for each chunk.
  abbrev cost_mapped : ℕ → Option Bytes → ℕ
  cost_mapped size none = 0
  cost_mapped size (some bytes) = length (split digest R (take size bytes))

  abbrev cost_opened : Option (Metadata × Option Bytes) → ℕ
  cost_opened none = 0
  cost_opened (some (m, mapped)) = cost_mapped m.len mapped

  abbrev pub cost : DirEntry → ℕ
  cost file = cost_opened file.opened

  abbrev pub costs : ℕ → List DirEntry → ℕ
  costs k [] = 0
  costs k (file ∷ files) = cost file + k + costs k files

  abbrev pub task_weight : Task → ℕ
  task_weight waiting = 1
  task_weight finished = 0
  task_weight crashed = 0
  task_weight (storing entry items) = length items + 2

  abbrev pub slots_weight : List Slot → ℕ
  slots_weight [] = 0
  slots_weight (slot ∷ slots) = task_weight slot.task + slots_weight slots

  -- The steps that are left, at most.
  abbrev pub weight : Pool C B → ℕ
  weight p = costs 4 p.to_send + costs 3 p.channel + slots_weight p.slots

  pub costs-append : (k : ℕ) (xs ys : List DirEntry) → costs k (xs ++ ys) ≡ costs k xs + costs k ys
  costs-append k [] ys = omega arith
  costs-append k (x ∷ xs) ys = omega (arith, costs-append k xs ys)

  pub slots_weight-set :
      (slots : List Slot) (i : ℕ) (slot slot' : Slot)
      → get_elem? slots i ≡ some slot
      → slots_weight (set slots i slot') + task_weight slot.task
        ≡ slots_weight slots + task_weight slot'.task
  slots_weight-set [] i slot slot' e = absurd (cc)
  slots_weight-set (s ∷ slots) zero slot slot' e =
      let same : s ≡ slot = cc in omega (arith, ap (λ (x : Slot). task_weight x.task) same)
  slots_weight-set (s ∷ slots) (suc i) slot slot' e =
      omega (arith, slots_weight-set slots i slot slot' e)

  size-from_file :
      (m : Metadata) (name : Option Bytes) (entry : Entry)
      → from_file m name ≡ ok entry
      → entry.size ≡ m.len
  unfolding from_file to_unix_mtime
  size-from_file m name entry e = ground arith

  begin_mapped-weight :
      (mapped : Option Bytes) (entry : Entry) (w : Worker C B)
      → task_weight (begin_mapped C B Z digest R mapped entry w).0
        ≤ cost_mapped entry.size mapped + 2
  begin_mapped-weight none entry w = omega arith
  begin_mapped-weight (some bytes) entry w = omega arith

  begin_changed-weight :
      (mapped : Option Bytes) (entry : Entry) (w : Worker C B)
      → task_weight (begin_changed C B Z digest R mapped entry w).0
        ≤ cost_mapped entry.size mapped + 2
  begin_changed-weight mapped entry w = elim (Bool-cases (entry.size == 0)) [
    | inl nothing ↦ rw nothing (omega arith)
    | inr some_bytes ↦ rw some_bytes (begin_mapped-weight mapped entry w)
  ]

  begin_entry-weight :
      (mapped : Option Bytes) (n : ℕ) (r : Outcome ObjectError Entry) (w : Worker C B)
      → ((entry : Entry) → r ≡ ok entry → entry.size ≡ n)
      → task_weight (begin_entry C B Z digest R mapped r w).0 ≤ cost_mapped n mapped + 2
  begin_entry-weight mapped n (ok entry) w size = elim (Bool-cases (has_changed entry w.files)) [
    | inl changed ↦ rw changed (
        subst
          (λ k.
            task_weight (begin_changed C B Z digest R mapped entry w).0 ≤ cost_mapped k mapped + 2)
          (size entry refl) (begin_changed-weight mapped entry w))
    | inr known ↦ rw known (omega arith)
  ]
  begin_entry-weight mapped n (err e) w size = omega arith
  begin_entry-weight mapped n panic w size = omega arith

  unwrapped-inv :
      (r : Outcome FileError Entry) (entry : Entry)
      → ◌≡◌ {A = Outcome ObjectError Entry} (unwrapped r) (ok entry)
      → r ≡ ok entry
  unwrapped-inv (ok a) entry e = cc
  unwrapped-inv (err x) entry e = absurd (cc)
  unwrapped-inv panic entry e = absurd (cc)

  begin_opened-weight :
      (name : Option Bytes) (opened : Option (Metadata × Option Bytes)) (w : Worker C B)
      → task_weight (begin_opened C B Z digest R name opened w).0 ≤ cost_opened opened + 2
  begin_opened-weight name none w = omega arith
  begin_opened-weight name (some (m, mapped)) w =
      begin_entry-weight mapped m.len (unwrapped (from_file m name)) w
        (λ entry e. size-from_file m name entry (unwrapped-inv (from_file m name) entry e))

  pub begin_file-weight :
      (file : DirEntry) (w : Worker C B)
      → task_weight (begin_file C B Z digest R file w).0 ≤ cost file + 2
  unfolding begin_file
  begin_file-weight file w = elim (Bool-cases (has_parent file.path)) [
    | inl up ↦ rw up (omega arith)
    | inr down ↦ rw down (begin_opened-weight file.name file.opened w)
  ]

  pub next_chunk-weight :
      (entry : Entry) (items : List Item) (w : Worker C B)
      → task_weight (next_chunk C B Z digest R entry items w).0 < length items + 2
  unfolding next_chunk
  next_chunk-weight entry [] w = omega arith
  next_chunk-weight entry (x ∷ items) w = pushed (push_item C B Z x w).0
    where
      pushed :
          (r : Outcome ObjectError ChunkPointer)
          → task_weight (after_push C B Z digest R x.start entry items r) < suc (length items) + 2
      pushed (ok ptr) = omega arith
      pushed (err e) = omega arith
      pushed panic = omega arith

  pub end_loop-weight : (w : Worker C B) → task_weight (end_loop C B Z digest R w).0 ≤ 0
  unfolding end_loop
  end_loop-weight w = after (flush_worker C B Z digest R w).0
    where
      after : (r : Outcome ObjectError (Unit {0})) → task_weight (ended C B Z digest R r) ≤ 0
      after (ok u) = omega arith
      after (err e) = omega arith
      after panic = omega arith
