-- ===== src/Tests/Samples.antt =====
-- Small instances of what the model takes as parameters: a cipher that adds a tag of zeros, a
-- compressor that only puts the length in front, and a source of randomness that counts its calls.
use zerostash.Prelude.{
  ℕ, ◌+◌, ◌-◌, ◌≤◌, ◌<◌, ◌^◌, ◌≡◌, ◌∙◌, refl, sym, ap, ap₂, Option, some, none, [], ◌∷◌, ◌++◌,
  length, take, replicate, length-replicate, length-append, length-take, take-append, take-length,
  ltb, leb, if◌then◌else◌, ok, err, arith,
}
use zerostash.Objects.{Bytes, ObjectId, Tag, invalid_input}
use zerostash.Crypto
use zerostash.Crypto.{Primitives, to_le_bytes}
use zerostash.Crypto.Provider.{CryptoProvider, IsSound}
use zerostash.Crypto.Sound.{object_operations, object_operations-IsSound}
use zerostash.Compress
use zerostash.Compress.{Lz4, max_input}
use zerostash.Restore.{Access, Granted}

abbrev pub zero_tag : Tag
zero_tag = 0 ∷ 0 ∷ 0 ∷ 0 ∷ 0 ∷ 0 ∷ 0 ∷ 0 ∷ 0 ∷ 0 ∷ 0 ∷ 0 ∷ 0 ∷ 0 ∷ 0 ∷ 0 ∷ []

abbrev pub primitives : Primitives
primitives = record {
  Source = ℕ;
  fill = λ n s. (replicate n s, s + 1);
  seal = λ k n d. some (d, zero_tag);
  unseal = λ k n d. some (take (length d - 16) d);
  hash = λ n k d. replicate n 0;
  argon2 = λ p s. some (replicate 32 0);
}

seal_parts :
    (d c : Bytes) (t : Tag)
    → ◌≡◌ {A = Option (Bytes × Tag)} (some (d, zero_tag)) (some (c, t))
    → (d ≡ c) × (zero_tag ≡ t)
seal_parts d c t e = (cc, cc)

unseal_whole : (d : Bytes) → take (length (d ++ zero_tag) - 16) (d ++ zero_tag) ≡ d
unseal_whole d =
    take-append d zero_tag (length (d ++ zero_tag) - 16) (omega (arith, length-append d zero_tag))

pub primitives-IsLawful : Crypto.IsLawful primitives
primitives-IsLawful = record {
  length-fill = λ n s. length-replicate n s;
  seal_total = λ k n d hk hn hd. ((d, zero_tag), refl);
  length-seal = λ k n d c t e.
      (sym (ap length (seal_parts d c t e).0), sym (ap length (seal_parts d c t e).1));
  unseal-seal = λ k n d c t e.
      ap (λ x. some (take (length x - 16) x))
        (sym (ap₂ ◌++◌ (seal_parts d c t e).0 (seal_parts d c t e).1))
      ∙ ap some (unseal_whole d ∙ refl);
  length-hash = λ n k d. length-replicate n 0;
}

abbrev pub lz4 : Lz4
lz4 = record {
  compress = λ data_in.
      if ltb (length data_in) (2 ^ 31)
      then ok (to_le_bytes (length data_in) ++ data_in)
      else err invalid_input;
  bound_positive = λ n. leb n max_input;
  decompress_safe = λ src n. some (take n src);
}

compressed :
    (d z : Bytes) → lz4.compress d ≡ ok z → (z ≡ to_le_bytes (length d) ++ d) × (length d < 2 ^ 31)
compressed d z e = ground (arith, e)

length-compressed : (d : Bytes) → length (to_le_bytes (length d) ++ d) ≡ 4 + length d
unfolding to_le_bytes
length-compressed d = omega arith

safe_le :
    (src out : Bytes) (n : ℕ)
    → ◌≡◌ {A = Option Bytes} (some (take n src)) (some out)
    → length out ≤ n
safe_le src out n e =
    let same : take n src ≡ out = cc in omega (arith, ap length same, length-take n src)

pub lz4-IsLawful : Compress.IsLawful lz4
lz4-IsLawful = record {
  compress-ok =
      λ d z e. (d, (compressed d z e).0, ap some (take-length d (length d) (omega arith)));
  compress-lt = λ d z e.
      omega (arith, ap length (compressed d z e).0, length-compressed d, (compressed d z e).1);
  bound = λ n h. ground (arith, h);
  safe = λ src out n e. safe_le src out n e;
}

-- 32 bytes each
abbrev pub key : Bytes
key =
    1 ∷ 2 ∷ 3 ∷ 4 ∷ 5 ∷ 6 ∷ 7 ∷ 8 ∷ 9 ∷ 10 ∷ 11 ∷ 12 ∷ 13 ∷ 14 ∷ 15 ∷ 16 ∷ 17 ∷ 18 ∷ 19 ∷ 20 ∷ 21
    ∷ 22 ∷ 23 ∷ 24 ∷ 25 ∷ 26 ∷ 27 ∷ 28 ∷ 29 ∷ 30 ∷ 31 ∷ 32 ∷ []

abbrev pub sample_id : ObjectId
sample_id =
    7 ∷ 7 ∷ 7 ∷ 7 ∷ 7 ∷ 7 ∷ 7 ∷ 7 ∷ 7 ∷ 7 ∷ 7 ∷ 7 ∷ 7 ∷ 7 ∷ 7 ∷ 7 ∷ 7 ∷ 7 ∷ 7 ∷ 7 ∷ 7 ∷ 7 ∷ 7 ∷ 7
    ∷ 7 ∷ 7 ∷ 7 ∷ 7 ∷ 7 ∷ 7 ∷ 7 ∷ 7 ∷ []

-- A name that the system opens, resizes and maps.
abbrev pub access : Access
access = record { open_error = none; set_len_error = λ n. none; map_error = λ n. none }

pub access-Granted : (size : ℕ) → Granted access size
access-Granted size = record { opens = refl; resizes = refl; maps = refl }

abbrev pub provider : CryptoProvider
provider = object_operations primitives key

pub provider-IsSound : IsSound provider
provider-IsSound = object_operations-IsSound primitives key primitives-IsLawful refl
