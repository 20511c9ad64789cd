-- ===== src/Crypto/Provider.antt =====
-- The traits `Random` and `CryptoProvider` of libzerostash/src/crypto.rs, and what their users
-- rely on. `none` is a panic.
use zerostash.Prelude.{ℕ, ◌+◌, ◌≤◌, ◌<◌, ◌^◌, ◌≡◌, Option, some, length, take, slice}
use zerostash.Objects.{Bytes, CryptoDigest, Tag, Object}
use zerostash.Chunks.Pointer.{ChunkPointer}

pub record CryptoProvider : Type 1 where
  pub Source : Type 0
  pub fill : ℕ → Source → Bytes × Source
  pub encrypt_chunk : Object → CryptoDigest → Bytes → Option (Bytes × Tag)
  pub encrypt_object : Object → Option Object
  pub decrypt_chunk : Bytes → Object → ChunkPointer → Option (ℕ × Bytes)
  pub decrypt_object_into : Object → Object → Option Object

-- A pointer to `c` in the buffer of `o`.
pub record PointsTo (o : Object) (hash : CryptoDigest) (c : Bytes) (t : Tag) (p : ChunkPointer)
    : Type 0 where
  pub in_buffer : p.offs + p.size ≤ length o.buffer
  pub sized : p.size ≡ length c
  pub stored : slice o.buffer p.offs (p.offs + p.size) ≡ c
  pub same_hash : p.hash ≡ hash
  pub same_tag : p.tag ≡ t

pub record IsSound (C : CryptoProvider) : Type 0 where
  pub length-fill : (n : ℕ) (s : C.Source) → length (C.fill n s).0 ≡ n
  pub encrypt_total :
      (o : Object) (hash : CryptoDigest) (plain : Bytes)
      → length o.id ≡ 32
      → length plain ≤ 2 ^ 32
      → (out : Bytes × Tag) × (C.encrypt_chunk o hash plain ≡ some out)
  pub encrypt_length :
      (o : Object) (hash : CryptoDigest) (plain c : Bytes) (t : Tag)
      → C.encrypt_chunk o hash plain ≡ some (c, t)
      → (length c ≡ length plain) × (length t ≡ 16)
  pub decrypt-encrypt :
      (o r : Object) (hash : CryptoDigest) (plain c target : Bytes) (t : Tag) (p : ChunkPointer)
      → C.encrypt_chunk o hash plain ≡ some (c, t)
      → r.id ≡ o.id
      → PointsTo r hash c t p
      → length plain < 2 ^ 32
      → length plain + 16 ≤ length target
      → (out : Bytes) × (C.decrypt_chunk target r p ≡ some (length plain, out))
        × (take (length plain) out ≡ plain)
        × (length out ≡ length target)
