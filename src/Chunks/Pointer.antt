-- ===== src/Chunks/Pointer.antt =====
-- `ChunkPointer` of libzerostash/src/chunks.rs. `offs` and `size` are `u32`.
use zerostash.Prelude.{ℕ}
use zerostash.Objects.{ObjectId, CryptoDigest, Tag}

pub record ChunkPointer : Type 0 where
  pub offs : ℕ
  pub size : ℕ
  pub file : ObjectId
  pub hash : CryptoDigest
  pub tag : Tag
