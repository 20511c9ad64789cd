-- ===== src/Tests/Crypto.antt =====
-- `ObjectOperations` and the compressor at concrete inputs.
use zerostash.Prelude.{
  ℕ, ◌-◌, ◌≡◌, refl, some, [], ◌∷◌, ◌++◌, length, take, ok, arith, sym, ap, ◌∙◌, replicate,
  length-take, length-append, length-replicate, take-take, take-append,
}
use zerostash.Objects.{Bytes, Object, block_size, tag_size}
use zerostash.Crypto
use zerostash.Crypto.StashKey.{StashKey, Separates, Derived, stash_key-Derived}
use zerostash.Crypto.{Primitives, encrypt_object, decrypt_object_into, to_le_bytes}
use zerostash.Crypto.Provider.{IsSound}
use zerostash.Crypto.Sound.{object_operations, object_operations-IsSound}
use zerostash.Crypto.Whole.{decrypt_object_into-encrypt_object}
use zerostash.Crypto.Uniqueness.{derive_chunk_key-injective, get_chunk_nonce-injective}
use zerostash.Compress.{in_bounds, overrun, decompress_into, block}
use zerostash.Compress.Blocks.{decompress_into-block, decompress_into_overruns}
use zerostash.Objects.Hex.{AreBytes}
use zerostash.Tests.Samples.{
  primitives, primitives-IsLawful, lz4, lz4-IsLawful, key, sample_id, zero_tag,
}

object_operations-IsSound_example : IsSound (object_operations primitives key)
object_operations-IsSound_example =
    object_operations-IsSound primitives key primitives-IsLawful refl

abbrev plain : Bytes
plain = 1 ∷ 2 ∷ 3 ∷ []

abbrev packed : Bytes
packed = 3 ∷ 0 ∷ 0 ∷ 0 ∷ 1 ∷ 2 ∷ 3 ∷ []

-- Three bytes and the room of a tag.
abbrev small_object : Object
small_object = record { id = sample_id; buffer = plain ++ zero_tag; capacity = 3; cursor = 3 }

abbrev used_object : Object
used_object = record { id = key; buffer = (9 ∷ 9 ∷ 9 ∷ []) ++ zero_tag; capacity = 3; cursor = 0 }

decrypt_object_into-encrypt_object_example :
    (o' : Object) × (out' : Object) × (encrypt_object primitives key small_object ≡ some o')
    × (o'.id ≡ sample_id)
    × (length o'.buffer ≡ 19)
    × (decrypt_object_into primitives key used_object o' ≡ some out')
    × (take 3 out'.buffer ≡ plain)
    × (out'.capacity ≡ block_size - tag_size)
decrypt_object_into-encrypt_object_example =
    decrypt_object_into-encrypt_object primitives primitives-IsLawful key small_object used_object
      refl refl refl (omega arith) refl

key-AreBytes : AreBytes key
key-AreBytes = omega arith

sample_id-AreBytes : AreBytes sample_id
sample_id-AreBytes = omega arith

derive_chunk_key-injective_example : sample_id ≡ sample_id
derive_chunk_key-injective_example =
    derive_chunk_key-injective key sample_id sample_id key-AreBytes sample_id-AreBytes
      sample_id-AreBytes refl refl refl refl

get_chunk_nonce-injective_example : ◌≡◌ {A = ℕ} 260 260
get_chunk_nonce-injective_example =
    get_chunk_nonce-injective sample_id 260 260 sample_id-AreBytes refl (omega arith) (omega arith)
      refl

packed-block : block lz4 plain ≡ ok packed
unfolding block to_le_bytes
packed-block = refl

decompress_into-block_example :
    decompress_into lz4 (9 ∷ 9 ∷ 9 ∷ 9 ∷ []) packed ≡ ok (in_bounds (1 ∷ 2 ∷ 3 ∷ 9 ∷ []))
decompress_into-block_example =
    decompress_into-block lz4 lz4-IsLawful (9 ∷ 9 ∷ 9 ∷ 9 ∷ []) plain packed packed-block
      (omega arith) (omega arith) (omega arith)

decompress_into_overruns_example : decompress_into lz4 (9 ∷ []) packed ≡ ok (overrun plain)
decompress_into_overruns_example =
    decompress_into_overruns lz4 lz4-IsLawful (9 ∷ []) plain packed packed-block (omega arith)
      (omega arith)

-- A keyed hash that puts the key in front.
abbrev prefixing : Primitives
prefixing = record primitives { hash = λ n k d. take n (k ++ replicate n 0) }

prefixing-IsLawful : Crypto.IsLawful prefixing
prefixing-IsLawful = record {
  length-fill = primitives-IsLawful.length-fill;
  seal_total = primitives-IsLawful.seal_total;
  length-seal = primitives-IsLawful.length-seal;
  unseal-seal = primitives-IsLawful.unseal-seal;
  length-hash = λ n k d. omega (
    arith,
    length-take n (k ++ replicate n 0),
    length-append k (replicate n 0),
    length-replicate {A = ℕ} n 0,
  );
}

abbrev master : StashKey
master = record { master_key = key }

prefix_of : (c : Bytes) → length c ≡ 8 → take 8 (take 32 (c ++ replicate 32 0)) ≡ c
prefix_of c h =
    take-take 8 32 (c ++ replicate 32 0) (omega arith) ∙ take-append c (replicate 32 0) 8 (sym h)

master-Separates : Separates prefixing prefixing-IsLawful master
master-Separates c d hc hd same = sym (prefix_of c hc) ∙ ap (take 8) same ∙ prefix_of d hd

stash_key-Derived_example : Derived prefixing prefixing-IsLawful master
stash_key-Derived_example = stash_key-Derived prefixing prefixing-IsLawful master master-Separates
