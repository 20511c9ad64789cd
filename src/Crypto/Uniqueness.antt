-- ===== src/Crypto/Uniqueness.antt =====
-- No two chunks share a key and a nonce: the key tells the hashes apart, and the nonce the sizes.
use zerostash.Prelude.{
  ℕ, zero, suc, ◌^◌, ◌≤◌, ◌<◌, ◌≡◌, ap₂, refl, [], ◌∷◌, length, take, arith, length-take,
}
use zerostash.Objects.{Bytes, CryptoDigest, ObjectId}
use zerostash.Objects.Hex.{AreBytes}
use zerostash.Crypto.{Key, xor_into, derive_chunk_key, to_le_bytes, get_chunk_nonce}
use zerostash.Crypto.Xor.{bit_xor-injective}

xor_into-injective :
    (k a b : Bytes)
    → AreBytes k
    → AreBytes a
    → AreBytes b
    → length a ≤ length k
    → length a ≡ length b
    → xor_into k a ≡ xor_into k b
    → a ≡ b
unfolding xor_into
xor_into-injective k [] [] hk ha hb room same e = refl
xor_into-injective k [] (y ∷ b) hk ha hb room same e = absurd (omega arith)
xor_into-injective k (x ∷ a) [] hk ha hb room same e = absurd (omega arith)
xor_into-injective [] (x ∷ a) (y ∷ b) hk ha hb room same e = absurd (omega arith)
xor_into-injective (z ∷ k) (x ∷ a) (y ∷ b) hk ha hb room same e =
    ap₂ ◌∷◌ (bit_xor-injective z x y hk.0 ha.0 hb.0 (cc))
      (xor_into-injective k a b hk.1 ha.1 hb.1 (omega arith) (omega arith) (cc))

-- Under one key, chunks with different hashes are encrypted with different keys.
pub derive_chunk_key-injective :
    (key : Key) (a b : CryptoDigest)
    → AreBytes key
    → AreBytes a
    → AreBytes b
    → length key ≡ 32
    → length a ≡ 32
    → length b ≡ 32
    → derive_chunk_key key a ≡ derive_chunk_key key b
    → a ≡ b
unfolding derive_chunk_key
derive_chunk_key-injective key a b hk ha hb lk la lb e =
    xor_into-injective key a b hk ha hb (omega arith) (omega arith) e

le_bytes : (n : ℕ) → AreBytes (to_le_bytes n)
unfolding to_le_bytes
le_bytes n = omega arith

to_le_bytes-injective : (m n : ℕ) → m < 2 ^ 32 → n < 2 ^ 32 → to_le_bytes m ≡ to_le_bytes n → m ≡ n
unfolding to_le_bytes
to_le_bytes-injective m n hm hn e = ground arith

take-AreBytes : (n : ℕ) (xs : Bytes) → AreBytes xs → AreBytes (take n xs)
take-AreBytes zero xs h = tt
take-AreBytes (suc n) [] h = tt
take-AreBytes (suc n) (x ∷ xs) h = (h.0, take-AreBytes n xs h.1)

-- In one object, chunks of different sizes are encrypted with different nonces.
pub get_chunk_nonce-injective :
    (id : ObjectId) (m n : ℕ)
    → AreBytes id
    → length id ≡ 32
    → m < 2 ^ 32
    → n < 2 ^ 32
    → get_chunk_nonce id m ≡ get_chunk_nonce id n
    → m ≡ n
unfolding get_chunk_nonce
get_chunk_nonce-injective id m n hid lid hm hn e = to_le_bytes-injective m n hm hn (
    xor_into-injective (take 12 id) (to_le_bytes m) (to_le_bytes n) (take-AreBytes 12 id hid)
      (le_bytes m) (le_bytes n) (unfold to_le_bytes in omega (arith, length-take 12 id))
      (unfold to_le_bytes in omega arith) e)
