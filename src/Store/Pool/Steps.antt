-- ===== src/Store/Pool/Steps.antt =====
-- libzerostash/src/stash/store.rs: the steps of a worker that go through, as far as the shared index
-- goes.
use zerostash.Prelude.{
  ℕ, ◌≡◌, ◌≢◌, ◌∙◌, sym, ap, subst, subst₂, ◌⊎◌, inl, inr, Option, some, get_elem?, ok,
}
use zerostash.Prelude.Equality.{bytes_eq}
use zerostash.Prelude.Dict
use zerostash.Prelude.Dict.{lookup-insert_self, lookup-insert_ne}
use zerostash.Objects.{Bytes, CryptoDigest}
use zerostash.Chunks.Pointer.{ChunkPointer}
use zerostash.Compress
use zerostash.Compress.{Lz4, block}
use zerostash.Crypto.Provider.{CryptoProvider, IsSound}
use zerostash.Backends
use zerostash.Backends.{Backend, Contract}
use zerostash.Storage.{Storage, flush}
use zerostash.Storage.Flush.{flush-Flushed}
use zerostash.Storage.Located.{Located, Placed-Located, Flushed-keeps}
use zerostash.Storage.Keeps.{IsReady, Stored-IsReady, Stored-keeps, flush-IsReady}
use zerostash.Storage.Outcomes.{Room, stayed, flushed, Stored, store_chunk-Stored}
use zerostash.Rollsum.{Rollsum}
use zerostash.Splitter.{Item}
use zerostash.Store.{Worker, push_item, flush_worker}
use zerostash.Store.Held.{Held, flushed_id}
use zerostash.Store.Kept.{flush_worker-ok}
use zerostash.Store.Pushed.{PushedItem, known, stored, push_item-PushedItem, store_chunk-block}
use zerostash.Store.Pool.{Pool, Slot, Task, finished, as_worker}
use zerostash.Store.Pool.Sound.{storage_of, IsCoherent, Advance}

module _ (C : CryptoProvider) (B : Backend) (Z : Lz4) (D : Contract B) (W : Backends.IsLawful B D)
    (contents : CryptoDigest → Bytes) (K : IsSound C) (L : Compress.IsLawful Z)
    (digest : Bytes → CryptoDigest) (R : Rollsum) where
  abbrev S : Slot → Pool C B → Storage C B
  S slot p = storage_of C B Z D W contents K L digest R slot p

  -- The id that the next flush of the slot draws is that of no object that the index points into and
  -- of no worker's object.
  pub record IsFresh (p : Pool C B) (slot : Slot) : Type 0 where
    pub of_chunks :
        (hash : CryptoDigest) (r : ChunkPointer)
        → Dict.lookup hash p.chunks ≡ some r
        → r.file ≢ (flush C B (S slot p)).1.object.id
    pub of_workers :
        (j : ℕ) (b : Slot)
        → get_elem? p.slots j ≡ some b
        → b.object.id ≢ (flush C B (S slot p)).1.object.id

  module _ (p : Pool C B) (i : ℕ) (slot : Slot) (v : IsCoherent C B Z D W contents K L digest R p)
      (at : get_elem? p.slots i ≡ some slot) where
    pub still-Advance :
        (task : Task) (w : Worker C B)
        → w.chunks ≡ p.chunks
        → w.storage ≡ S slot p
        → task ≢ finished
        → Advance C B Z D W contents K L digest R p i slot task w
    still-Advance task w chunks storage goes = record {
      at = at;
      ready = subst (IsReady C B Z D W) (sym storage) (v.ready i slot at);
      keeps = λ hash r found h. subst (λ s. Held C B Z D W contents s hash r) (sym storage) h;
      unused = λ j b at' ne e.
          v.apart i j slot b at at' ne (e ∙ ap (λ (s : Storage C B). s.object.id) storage);
      pointers = λ hash r found. inl (ap (Dict.lookup hash) (sym chunks) ∙ found);
      ends = λ done. absurd (goes done);
    }

    module _ (fresh : IsFresh p slot) where
      item-Advance :
          (x : Item) (ptr : ChunkPointer) (task : Task) (w : Worker C B) (z : Bytes)
          → contents x.hash ≡ x.chunk
          → block Z x.chunk ≡ ok z
          → w.chunks ≡ Dict.insert x.hash ptr p.chunks
          → Stored C B K Z x.hash x.chunk z (S slot p) w.storage ptr
          → task ≢ finished
          → Advance C B Z D W contents K L digest R p i slot task w
      item-Advance x ptr task w z honest packed chunks d goes = record {
        at = at;
        ready =
            Stored-IsReady C B Z D W K L x.hash x.chunk z (S slot p) w.storage ptr
              (v.ready i slot at) d;
        keeps = λ hash r found h. record {
          compressed = h.compressed;
          packed = h.packed;
          located =
              Stored-keeps C B Z D W K L x.hash hash x.chunk z h.compressed (S slot p) w.storage ptr
                r (v.ready i slot at) d
                (λ full same. fresh.of_chunks hash r found (
                  same
                  ∙ flushed_id C B Z D W contents K L x.hash x.chunk z (S slot p) w.storage ptr d
                      full))
                h.located;
        };
        unused = λ j b at' ne. unused_by d.made j b at' ne;
        pointers = λ hash r found. after_insert hash r (ap (Dict.lookup hash) (sym chunks) ∙ found);
        ends = λ done. absurd (goes done);
      }
        where
          unused_by :
              Room z (S slot p) d.before
              → (j : ℕ) (b : Slot) → get_elem? p.slots j ≡ some b
              → j ≢ i
              → b.object.id ≢ w.storage.object.id
          unused_by (stayed free e) j b at' ne same =
              v.apart i j slot b at at' ne
                (same ∙ d.placed.same_id ∙ ap (λ (s : Storage C B). s.object.id) e)
          unused_by (flushed full run) j b at' ne same = fresh.of_workers j b at' (
              same
              ∙ flushed_id C B Z D W contents K L x.hash x.chunk z (S slot p) w.storage ptr d full)

          after_insert :
              (hash : CryptoDigest) (r : ChunkPointer)
              → Dict.lookup hash (Dict.insert x.hash ptr p.chunks) ≡ some r
              → (Dict.lookup hash p.chunks ≡ some r)
                ⊎ ((r.file ≡ w.storage.object.id) × Held C B Z D W contents w.storage hash r)
          after_insert hash r found = elim (bytes_eq.dec hash x.hash) [
            | yes same ↦
                let both : ◌≡◌ {A = Option ChunkPointer} (some ptr) (some r) =
                  sym (lookup-insert_self hash x.hash ptr p.chunks same) ∙ found in
                let is : ptr ≡ r = cc in
                inr (
                  ap (λ q. q.file) (sym is) ∙ d.placed.same_file ∙ sym d.placed.same_id,
                  record {
                    compressed = z;
                    packed = ap (block Z) (ap contents same ∙ honest) ∙ packed;
                    located =
                        subst₂ (λ k y. Located w.storage k y z) is (sym same)
                          (Placed-Located C B K x.hash z d.before w.storage ptr d.placed);
                  },
                )
            | no ne ↦ inl (sym (lookup-insert_ne hash x.hash ptr p.chunks ne) ∙ found)
          ]

      pub push-Advance :
          (x : Item) (ptr : ChunkPointer) (task : Task) (w : Worker C B)
          → contents x.hash ≡ x.chunk
          → push_item C B Z x (as_worker C B Z digest R slot p) ≡ (ok ptr, w)
          → task ≢ finished
          → Advance C B Z D W contents K L digest R p i slot task w
      push-Advance x ptr task w honest e goes =
          ends_in (push_item-PushedItem C B Z x (as_worker C B Z digest R slot p) w ptr e)
        where
          ends_in :
              PushedItem C B Z x (as_worker C B Z digest R slot p) w ptr
              → Advance C B Z D W contents K L digest R p i slot task w
          ends_in (known hit chunks storage) = still-Advance task w chunks storage goes
          ends_in (stored chunks run) =
              let (z, packed) =
                store_chunk-block C B Z x.hash x.chunk (S slot p) w.storage ptr run in
              item-Advance x ptr task w z honest packed chunks
                (store_chunk-Stored C B K Z x.hash x.chunk z (S slot p) w.storage ptr
                  (v.ready i slot at).valid packed
                  (L.compress-lt x.chunk z (unfold block in packed)) run)
                goes

      pub flush-Advance :
          (task : Task) (w : Worker C B)
          → flush_worker C B Z digest R (as_worker C B Z digest R slot p) ≡ (ok tt, w)
          → Advance C B Z D W contents K L digest R p i slot task w
      flush-Advance task w e =
          let (run, files) = flush_worker-ok C B Z digest R (as_worker C B Z digest R slot p) w e in
          let (o, f) = flush-Flushed C B K (S slot p) w.storage (v.ready i slot at).valid run in
          let id : w.storage.object.id ≡ (flush C B (S slot p)).1.object.id =
            sym (ap (λ r. r.1.object.id) run) in
          let chunks : w.chunks ≡ p.chunks = sym (ap (λ r. r.1.chunks) e) in
          record {
            at = at;
            ready = flush-IsReady C B Z D W K L (S slot p) w.storage (v.ready i slot at) run;
            keeps = λ hash r found h. record {
              compressed = h.compressed;
              packed = h.packed;
              located =
                  Flushed-keeps C B K D W hash h.compressed (S slot p) w.storage r o
                    (v.ready i slot at).coherent (v.ready i slot at).accepted f
                    (λ same. fresh.of_chunks hash r found (same ∙ id)) h.located;
            };
            unused = λ j b at' ne same. fresh.of_workers j b at' (same ∙ id);
            pointers = λ hash r found. inl (ap (Dict.lookup hash) (sym chunks) ∙ found);
            ends = λ done hash r found same.
                fresh.of_chunks hash r (ap (Dict.lookup hash) (sym chunks) ∙ found) (same ∙ id);
          }
