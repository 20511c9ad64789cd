-- ===== src/Crypto.antt =====
-- libzerostash/src/crypto.rs: `ObjectOperations`, the nonces and the derived keys. The AEAD of ring,
-- blake2bp, argon2 and the system's randomness are the parameter `Primitives`.
pub mod Provider
pub mod Xor
pub mod Uniqueness
pub mod Chunk
pub mod Whole
pub mod Sound
pub mod Sealing
pub mod StashKey
use zerostash.Prelude.{
  ℕ, ◌+◌, ◌≤◌, ◌<◌, ◌-◌, ◌*◌, ◌/◌, ◌%◌, ◌^◌, ◌≡◌, bit_xor, Option, none, some, List, [], ◌∷◌, ◌++◌,
  length, take, drop, splice, slice, leb, ltb, ◌&&◌, if◌then◌else◌, Outcome, err, unwrap,
}
use zerostash.Objects.{
  Bytes, CryptoDigest, ObjectId, Tag, Object, crypto_digest_size, copy_range, write_tag,
  reserve_tag, from_bytes,
}
use zerostash.Chunks.Pointer.{ChunkPointer}

abbrev pub Key : Type 0
Key = Bytes

abbrev pub Nonce : Type 0
Nonce = Bytes

-- What the file calls: `fill n` is `getrandom` of `n` bytes; `seal` is
-- `seal_in_place_separate_tag` and `unseal` is `open_in_place`, `none` where they return an error;
-- `hash n key` is blake2bp with an output of `n` bytes; `argon2` is `argon2::hash_raw`.
pub record Primitives : Type 1 where
  pub Source : Type 0
  pub fill : ℕ → Source → Bytes × Source
  pub seal : Key → Nonce → Bytes → Option (Bytes × Tag)
  pub unseal : Key → Nonce → Bytes → Option Bytes
  pub hash : ℕ → Bytes → Bytes → Bytes
  pub argon2 : Bytes → Bytes → Option Bytes

-- What their documentation states. The length bound of ChaCha20 is 2 ^ 38 - 64 bytes; no buffer of
-- the program reaches 2 ^ 32.
pub record IsLawful (P : Primitives) : Type 0 where
  pub length-fill : (n : ℕ) (s : P.Source) → length (P.fill n s).0 ≡ n
  pub seal_total :
      (k : Key) (n : Nonce) (d : Bytes)
      → length k ≡ 32
      → length n ≡ 12
      → length d ≤ 2 ^ 32
      → (out : Bytes × Tag) × (P.seal k n d ≡ some out)
  pub length-seal :
      (k : Key) (n : Nonce) (d c : Bytes) (t : Tag)
      → P.seal k n d ≡ some (c, t)
      → (length c ≡ length d) × (length t ≡ 16)
  pub unseal-seal :
      (k : Key) (n : Nonce) (d c : Bytes) (t : Tag)
      → P.seal k n d ≡ some (c, t)
      → P.unseal k n (c ++ t) ≡ some d
  pub length-hash : (n : ℕ) (k d : Bytes) → length (P.hash n k d) ≡ n

-- `a[i] ^= b[i]` for the indices of the shorter one; the arrays have fixed sizes in the source.
unfoldable pub xor_into : Bytes → Bytes → Bytes
xor_into [] b = []
xor_into (x ∷ a) [] = x ∷ a
xor_into (x ∷ a) (y ∷ b) = bit_xor x y ∷ xor_into a b

unfoldable pub derive_chunk_key : Key → CryptoDigest → Key
derive_chunk_key key_src hash = xor_into key_src hash

-- `to_le_bytes` of a `u32`
unfoldable pub to_le_bytes : ℕ → Bytes
to_le_bytes n = n % 256 ∷ n / 256 % 256 ∷ n / 256 / 256 % 256 ∷ n / 256 / 256 / 256 % 256 ∷ []

-- The first 12 bytes of the id; `id[..12]` of 32 bytes is in range.
unfoldable pub get_object_nonce : ObjectId → Nonce
get_object_nonce object_id = take 12 object_id

unfoldable pub get_chunk_nonce : ObjectId → ℕ → Nonce
get_chunk_nonce object_id data_size = xor_into (take 12 object_id) (to_le_bytes data_size)

module _ (P : Primitives) where
  unfoldable pub chunk_hash : Bytes → CryptoDigest
  chunk_hash content = P.hash crypto_digest_size [] content

  -- The outputs are copied into arrays, which wants the exact size.
  unfoldable pub derive_subkey : Key → Bytes → Option Key
  derive_subkey key ctx =
      if ltb (length ctx) 16 then from_bytes (P.hash crypto_digest_size ctx key) else none

  -- An error of argon2 is returned; an output of another size than the array's is a panic.
  abbrev pub copied : Option Bytes → Outcome (Unit {0}) Key
  copied none = err tt
  copied (some result) = unwrap (from_bytes result)

  unfoldable pub derive_argon2 : Bytes → Bytes → Outcome (Unit {0}) Key
  unfolding from_bytes
  derive_argon2 salt_raw password = copied (P.argon2 password (P.hash 16 [] salt_raw))

  module _ (key : Key) where
    unfoldable pub encrypt_chunk : Object → CryptoDigest → Bytes → Option (Bytes × Tag)
    unfolding derive_chunk_key
    encrypt_chunk object hash plain =
        P.seal (derive_chunk_key key hash) (get_chunk_nonce object.id (length plain % 2 ^ 32)) plain

    abbrev pub place_sealed : Object → Option (Bytes × Tag) → Option Object
    place_sealed object none = none
    place_sealed object (some (c, t)) =
        write_tag t (record object { buffer = splice object.buffer 0 c })

    -- `object.as_mut()` is `buffer[..capacity]`, which panics past the end.
    unfoldable pub encrypt_object : Object → Option Object
    encrypt_object object =
        if leb object.capacity (length object.buffer)
        then place_sealed object
            (P.seal key (get_object_nonce object.id) (take object.capacity object.buffer))
        else none

    abbrev pub place_opened : ℕ → Bytes → Option Bytes → Option (ℕ × Bytes)
    place_opened size target none = none
    place_opened size target (some plain) = some (size, splice target 0 plain)

    -- The ciphertext and the tag, side by side in `target`, opened in place.
    abbrev pub gather : Bytes → Bytes → ChunkPointer → Bytes
    gather target stored chunk =
        splice (splice target 0 (slice stored chunk.offs (chunk.offs + chunk.size))) chunk.size
          chunk.tag

    unfoldable pub decrypt_chunk : Bytes → Object → ChunkPointer → Option (ℕ × Bytes)
    decrypt_chunk target o chunk =
        let cyphertext_size = chunk.size + length chunk.tag in
        if leb cyphertext_size (length target) && leb (chunk.offs + chunk.size) (length o.buffer)
        then place_opened chunk.size (gather target o.buffer chunk) (
            P.unseal (derive_chunk_key key chunk.hash) (get_chunk_nonce o.id chunk.size)
              (take cyphertext_size (gather target o.buffer chunk)))
        else none

    abbrev pub place_object : Object → Bytes → Option Bytes → Option Object
    place_object output buf none = none
    place_object output buf (some plain) =
        some (reserve_tag (record output { buffer = splice buf 0 plain }))

    abbrev pub open_copy : Object → ObjectId → Option Bytes → Option Object
    open_copy output id none = none
    open_copy output id (some buf) =
        place_object output buf (P.unseal key (get_object_nonce id) buf)

    unfoldable pub decrypt_object_into : Object → Object → Option Object
    decrypt_object_into output obj =
        open_copy output obj.id (copy_range output.buffer 0 (length output.buffer) obj.buffer)
