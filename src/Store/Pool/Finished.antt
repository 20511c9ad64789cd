-- ===== src/Store/Pool/Finished.antt =====
-- libzerostash/src/stash/store.rs: `recursive` from its start to its end, with threads that
-- interleave.
use zerostash.Prelude.{
  ℕ, zero, suc, ◌-◌, ◌^◌, ◌≤◌, ◌<◌, subst, ◌≡◌, ◌≢◌, ◌∙◌, refl, sym, ap, some, List, get_elem?,
  length,
}
use zerostash.Prelude.Equality.{bytes_eq}
use zerostash.Prelude.Dict
use zerostash.Objects.{Bytes, CryptoDigest, set_id}
use zerostash.Chunks.Pointer.{ChunkPointer}
use zerostash.Compress
use zerostash.Compress.{Lz4}
use zerostash.Crypto.Provider.{CryptoProvider, IsSound}
use zerostash.Backends
use zerostash.Backends.{Backend, Contract}
use zerostash.Storage.{Storage, clone}
use zerostash.Storage.Keeps.{IsReady}
use zerostash.Rollsum.{Rollsum}
use zerostash.Files.{entry_eq}
use zerostash.Store.{Worker, DirEntry}
use zerostash.Store.Kept.{Kept}
use zerostash.Store.Queue.{Settled}
use zerostash.Store.Pool.{Pool, Slot, waiting, Run, start, workers_of}
use zerostash.Store.Pool.Orderly.{some-injective}
use zerostash.Store.Pool.Progress.{Done, AllEnded-get, ended-finished}
use zerostash.Store.Pool.Sound.{Somewhere, inside, outside, IsCoherent}
use zerostash.Store.Pool.Moves.{NoCrash}
use zerostash.Store.Pool.Settled.{AllAllowed, Run-IsCoherent}

module _ (C : CryptoProvider) (B : Backend) (Z : Lz4) (D : Contract B) (W : Backends.IsLawful B D)
    (contents : CryptoDigest → Bytes) (K : IsSound C) (L : Compress.IsLawful Z)
    (digest : Bytes → CryptoDigest) (R : Rollsum) where
  -- The workers were given ids that differ from one another, and from those of the objects that the
  -- index points into.
  pub record IsSpawned (p : Pool C B) : Type 0 where
    pub apart :
        (i j : ℕ) (a b : Slot)
        → get_elem? p.slots i ≡ some a
        → get_elem? p.slots j ≡ some b
        → j ≢ i
        → b.object.id ≢ a.object.id
    pub away :
        (hash : CryptoDigest) (r : ChunkPointer) (i : ℕ) (slot : Slot)
        → Dict.lookup hash p.chunks ≡ some r
        → get_elem? p.slots i ≡ some slot
        → r.file ≢ slot.object.id

  -- A worker as it was spawned from the storage `s`.
  record IsClone (s : Storage C B) (slot : Slot) : Type 0 where
    waits : slot.task ≡ waiting
    id_size : length slot.object.id ≡ 32
    same_object : slot.object ≡ record s.object { id = slot.object.id }
    same_capacity : slot.capacity ≡ s.capacity

  workers-IsClone :
      (n : ℕ) (s : Storage C B) (i : ℕ) (slot : Slot)
      → get_elem? (workers_of C B Z digest R n s).0 i ≡ some slot
      → IsClone s slot
  unfolding workers_of clone set_id
  workers-IsClone zero s i slot e = absurd (cc)
  workers-IsClone (suc n) s zero slot e =
      subst (IsClone s) (some-injective C B Z digest R _ slot e) (record {
        waits = refl;
        id_size = K.length-fill 32 s.source;
        same_object = refl;
        same_capacity = refl;
      })
  workers-IsClone (suc n) s (suc i) slot e =
      let v = workers-IsClone n (record s { source = (clone C B s).1 }) i slot e in
      record {
        waits = v.waits;
        id_size = v.id_size;
        same_object = v.same_object;
        same_capacity = v.same_capacity;
      }

  clone-IsReady :
      (s t : Storage C B) (slot : Slot)
      → IsReady C B Z D W s
      → IsClone s slot
      → t.object ≡ slot.object
      → t.capacity ≡ slot.capacity
      → t.backend ≡ s.backend
      → IsReady C B Z D W t
  clone-IsReady s t slot v c object capacity backend =
      let same = object ∙ c.same_object in
      record {
        valid = record {
          full = capacity ∙ c.same_capacity ∙ v.valid.full ∙ ap (λ o. length o.buffer) (sym same);
          whole = ap (λ o. o.capacity) same ∙ v.valid.whole ∙ ap (λ o. length o.buffer) (sym same);
          cursor_in = subst (λ o. o.cursor ≤ length o.buffer) (sym same) v.valid.cursor_in;
          id_size = ap (λ o. length o.id) object ∙ c.id_size;
          addressable = subst (λ o. length o.buffer < 2 ^ 32) (sym same) v.valid.addressable;
        };
        coherent = subst D.Coherent (sym backend) v.coherent;
        accepted = subst (λ o. D.Accepts (length o.buffer)) (sym same) v.accepted;
      }

  start-IsCoherent :
      (threads : ℕ) (files : List DirEntry) (w : Worker C B)
      → Settled C B Z D W contents K L digest R w
      → IsSpawned (start C B Z digest R threads files w)
      → IsCoherent C B Z D W contents K L digest R (start C B Z digest R threads files w)
  unfolding start
  start-IsCoherent threads files w v spawned = record {
    ready = λ i slot at.
        clone-IsReady w.storage _ slot v.ready (workers-IsClone (threads - 1) w.storage i slot at)
          refl refl refl;
    apart = spawned.apart;
    held = λ hash r found.
        outside (λ i slot at. spawned.away hash r i slot found at) (v.kept hash r found);
    settled = λ i slot hash r at done found. spawned.away hash r i slot found at;
  }

  -- Where the chunk index points only at chunks that can be read back from the backend, it does so
  -- again once every file was sent and received and every worker has ended without a panic, however
  -- the threads of `recursive` interleaved: where no hash of the chunks that were stored collides, and
  -- no id that was drawn is that of an object that the index points into or of another worker's.
  pub recursive-Kept :
      (threads n : ℕ) (files : List DirEntry) (w : Worker C B) (q : Pool C B)
      (run : Run C B Z digest R (start C B Z digest R threads files w) n q)
      → Settled C B Z D W contents K L digest R w
      → IsSpawned (start C B Z digest R threads files w)
      → AllAllowed C B Z D W contents K L digest R run
      → Done C B Z digest R q
      → NoCrash C B Z digest R q
      → (hash : CryptoDigest) (r : ChunkPointer) → Dict.lookup hash q.chunks ≡ some r
      → Kept C B Z D W contents K L q.backend hash r
  recursive-Kept threads n files w q run v spawned allowed done none_crashed hash r found =
      placed (coherent.held hash r found)
    where
      coherent : IsCoherent C B Z D W contents K L digest R q
      coherent =
          Run-IsCoherent C B Z D W contents K L digest R (start C B Z digest R threads files w) q n
            run allowed (start-IsCoherent threads files w v spawned) none_crashed

      placed :
          Somewhere C B Z D W contents K L digest R q hash r
          → Kept C B Z D W contents K L q.backend hash r
      placed (inside i slot there file h) = absurd (
          coherent.settled i slot hash r there
            (ended-finished C B Z digest R slot.task
              (AllEnded-get q.slots i slot done.all_ended there) (none_crashed i slot there))
            found file)
      placed (outside away k) = k
