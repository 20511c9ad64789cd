-- ===== src/Stash/Adding.antt =====
-- libzerostash/src/stash/mod.rs: `add_recursive`, which runs the threads of Store/Pool.
use zerostash.Prelude.{ℕ, List}
use zerostash.Objects.{Bytes, CryptoDigest}
use zerostash.Compress.{Lz4}
use zerostash.Crypto.Provider.{CryptoProvider}
use zerostash.Backends.{Backend}
use zerostash.Storage
use zerostash.Rollsum.{Rollsum}
use zerostash.Store.{DirEntry}
use zerostash.Store.Pool.{Pool, start}
use zerostash.Stash.Checkout.{Stash}

module _ (C : CryptoProvider) (B : Backend) (Z : Lz4) (digest : Bytes → CryptoDigest)
    (R : Rollsum) where
  -- A new object store; the indices of the stash are shared with the threads.
  unfoldable pub add_recursive : ℕ → List DirEntry → C.Source → Stash B → Pool C B
  unfolding start
  add_recursive threads files source s =
      start C B Z digest R threads files
        (record { chunks = s.chunks; files = s.files; storage = Storage.new C B source s.backend })

  -- The stash when all threads have ended.
  unfoldable pub added : Pool C B → Stash B → Stash B
  added p s = record s { backend = p.backend; chunks = p.chunks; files = p.files }
