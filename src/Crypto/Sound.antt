-- ===== src/Crypto/Sound.antt =====
-- `ObjectOperations` as a `CryptoProvider`.
use zerostash.Prelude.{◌≡◌, length}
use zerostash.Crypto.{
  Key, Primitives, IsLawful, encrypt_chunk, encrypt_object, decrypt_chunk, decrypt_object_into,
}
use zerostash.Crypto.Chunk.{encrypt_chunk_total, encrypt_chunk-length, decrypt_chunk-encrypt_chunk}
use zerostash.Crypto.Provider.{CryptoProvider, IsSound}

-- `ObjectOperations::new(key)`
abbrev pub object_operations : Primitives → Key → CryptoProvider
object_operations P key = record {
  Source = P.Source;
  fill = P.fill;
  encrypt_chunk = encrypt_chunk P key;
  encrypt_object = encrypt_object P key;
  decrypt_chunk = decrypt_chunk P key;
  decrypt_object_into = decrypt_object_into P key;
}

-- `ObjectOperations` with a key of 32 bytes, over primitives that do what they document, gives its
-- users what they rely on: chunks are encrypted with no panic, keep their length, and are decrypted
-- to the plaintext from wherever their ciphertext stands in an object of the same id.
pub object_operations-IsSound :
    (P : Primitives) (key : Key) → IsLawful P → length key ≡ 32 → IsSound (object_operations P key)
object_operations-IsSound P key L hk = record {
  length-fill = L.length-fill;
  encrypt_total = λ o hash plain. encrypt_chunk_total P L key o hash plain hk;
  encrypt_length = encrypt_chunk-length P L key;
  decrypt-encrypt = decrypt_chunk-encrypt_chunk P L key;
}
