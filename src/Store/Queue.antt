-- ===== src/Store/Queue.antt =====
-- When a chunk index points only at chunks that can be read back.
use zerostash.Prelude.{◌≡◌, some}
use zerostash.Prelude.Equality.{bytes_eq}
use zerostash.Prelude.Dict
use zerostash.Objects.{Bytes, CryptoDigest}
use zerostash.Chunks.Pointer.{ChunkPointer}
use zerostash.Compress
use zerostash.Compress.{Lz4}
use zerostash.Crypto.Provider.{CryptoProvider, IsSound}
use zerostash.Backends
use zerostash.Backends.{Backend, Contract}
use zerostash.Storage.Keeps.{IsReady}
use zerostash.Rollsum.{Rollsum}
use zerostash.Store.{Worker}
use zerostash.Store.Kept.{Kept}

module _ (C : CryptoProvider) (B : Backend) (Z : Lz4) (D : Contract B) (W : Backends.IsLawful B D)
    (contents : CryptoDigest → Bytes) (K : IsSound C) (L : Compress.IsLawful Z)
    (digest : Bytes → CryptoDigest) (R : Rollsum) where
  -- The storage can go on, and all that the index points at is in the backend.
  pub record Settled (w : Worker C B) : Type 0 where
    pub ready : IsReady C B Z D W w.storage
    pub kept :
        (hash : CryptoDigest) (p : ChunkPointer)
        → Dict.lookup hash w.chunks ≡ some p
        → Kept C B Z D W contents K L w.storage.backend hash p
