-- ===== src/Store/Kept.antt =====
-- What a flush leaves of the chunk index of a worker: every pointer is to a chunk in the backend.
use zerostash.Prelude.{◌≡◌, ◌≢◌, ◌∙◌, refl, sym, ap, some, Outcome, ok, err, panic}
use zerostash.Prelude.Equality.{bytes_eq}
use zerostash.Prelude.Dict
use zerostash.Objects.{Bytes, CryptoDigest, Object}
use zerostash.Chunks.Pointer.{ChunkPointer}
use zerostash.Compress
use zerostash.Compress.{Lz4, block, max_input}
use zerostash.Crypto.Provider.{CryptoProvider, IsSound}
use zerostash.Backends
use zerostash.Backends.{Backend, Contract}
use zerostash.Storage.{Storage, ObjectError, flush}
use zerostash.Storage.Flush.{flush-Flushed}
use zerostash.Storage.Place.{Holds}
use zerostash.Storage.Located.{Located, pending, flushed, Flushed-keeps}
use zerostash.Rollsum.{Rollsum}
use zerostash.Files.{entry_eq}
use zerostash.Store.{Worker, flush_worker, unwrapped}
use zerostash.Store.Held.{Held, IsFaithful, Fresh}

module _ (C : CryptoProvider) (B : Backend) (Z : Lz4) (D : Contract B) (W : Backends.IsLawful B D)
    (contents : CryptoDigest → Bytes) (K : IsSound C) (L : Compress.IsLawful Z) where
  -- The chunk of the hash can be read back from the backend.
  pub record Kept (b : B.State) (hash : CryptoDigest) (p : ChunkPointer) : Type 0 where
    pub compressed : Bytes
    pub packed : block Z (contents hash) ≡ ok compressed
    pub object : Object
    pub read : (B.read_object p.file b).0 ≡ ok object
    pub same_id : object.id ≡ p.file
    pub held : Holds C object p hash compressed

  flushed-Kept :
      (s : Storage C B) (hash : CryptoDigest) (p : ChunkPointer)
      → p.file ≢ s.object.id
      → Held C B Z D W contents s hash p
      → Kept s.backend hash p
  flushed-Kept s hash p fresh h = at h.located
    where
      at : Located s p hash h.compressed → Kept s.backend hash p
      at (pending file below held) = absurd (fresh file)
      at (flushed other r read same held) = record {
        compressed = h.compressed;
        packed = h.packed;
        object = r;
        read = read;
        same_id = same;
        held = held;
      }

  -- After a flush, all that the index points at is in the backend.
  pub flush-Kept :
      (w : Worker C B) (s' : Storage C B)
      → IsFaithful C B Z D W contents w
      → Fresh C B Z D W contents w
      → flush C B w.storage ≡ (ok tt, s')
      → (hash : CryptoDigest) (p : ChunkPointer) → Dict.lookup hash w.chunks ≡ some p
      → Kept s'.backend hash p
  flush-Kept w s' v fresh run hash p found =
      let (o, f) = flush-Flushed C B K w.storage s' v.ready.valid run in
      let new : p.file ≢ s'.object.id =
        λ e. fresh hash p found (e ∙ sym (ap (λ r. r.1.object.id) run)) in
      let h = v.held hash p found in
      flushed-Kept s' hash p new (record {
        compressed = h.compressed;
        packed = h.packed;
        located =
            Flushed-keeps C B K D W hash h.compressed w.storage s' p o v.ready.coherent
              v.ready.accepted f new h.located;
      })

module _ (C : CryptoProvider) (B : Backend) (Z : Lz4) (digest : Bytes → CryptoDigest)
    (R : Rollsum) where
  unwrapped-ok :
      (r : Outcome ObjectError (Unit {0}))
      → ◌≡◌ {A = Outcome ObjectError (Unit {0})} (unwrapped r) (ok tt)
      → r ≡ ok tt
  unwrapped-ok (ok u) e = refl
  unwrapped-ok (err x) e = absurd (cc)
  unwrapped-ok panic e = absurd (cc)

  pub flush_worker-ok :
      (w w' : Worker C B)
      → flush_worker C B Z digest R w ≡ (ok tt, w')
      → (flush C B w.storage ≡ (ok tt, w'.storage)) × (w'.files ≡ w.files)
  flush_worker-ok w w' e = (
    ap (λ r. (r, (flush C B w.storage).1)) (unwrapped-ok (flush C B w.storage).0 (ap (λ r. r.0) e))
        ∙ ap (λ r. (ok tt, r.1.storage)) e,
    sym (ap (λ r. r.1.files) e),
  )
