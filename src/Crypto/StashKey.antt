-- ===== src/Crypto/StashKey.antt =====
-- libzerostash/src/crypto.rs, lines 62 to 84: `StashKey`, which derives what a stash needs from a
-- master key.
use zerostash.Prelude.{
  ◌≡◌, refl, sym, ap, ◌∙◌, Option, none, some, [], ◌∷◌, length, get_or, ◌≢◌, Outcome, ok, err,
  panic, arith,
}
use zerostash.Objects.{Bytes, ObjectId, from_bytes, crypto_digest_size}
use zerostash.Crypto.{Key, Primitives, IsLawful, derive_subkey, derive_argon2}
use zerostash.Crypto.Provider.{CryptoProvider, IsSound}
use zerostash.Crypto.Sound.{object_operations, object_operations-IsSound}

pub record StashKey : Type 0 where
  pub master_key : Key

-- b"_0s_root", b"_0s_meta" and b"_0s_obj_"
abbrev pub root_context : Bytes
root_context = 95 ∷ 48 ∷ 115 ∷ 95 ∷ 114 ∷ 111 ∷ 111 ∷ 116 ∷ []

abbrev pub meta_context : Bytes
meta_context = 95 ∷ 48 ∷ 115 ∷ 95 ∷ 109 ∷ 101 ∷ 116 ∷ 97 ∷ []

abbrev pub object_context : Bytes
object_context = 95 ∷ 48 ∷ 115 ∷ 95 ∷ 111 ∷ 98 ∷ 106 ∷ 95 ∷ []

contexts_apart :
    (meta_context ≢ object_context)
    × (root_context ≢ meta_context)
    × (root_context ≢ object_context)
contexts_apart = (
  λ e. omega (arith, ap (λ c. get_or c 4 0) e),
  λ e. omega (arith, ap (λ c. get_or c 4 0) e),
  λ e. omega (arith, ap (λ c. get_or c 4 0) e),
)

module _ (P : Primitives) where
  abbrev pub keyed : Outcome (Unit {0}) Key → Outcome (Unit {0}) StashKey
  keyed (ok k) = ok (record { master_key = k })
  keyed (err e) = err e
  keyed panic = panic

  unfoldable pub open_stash : Bytes → Bytes → Outcome (Unit {0}) StashKey
  unfolding derive_argon2
  open_stash username password = keyed (derive_argon2 P username password)

  unfoldable pub root_object_id : StashKey → Option ObjectId
  unfolding derive_subkey
  root_object_id k = derive_subkey P k.master_key root_context

  -- `.map(ObjectOperations::new)`
  abbrev pub operations : Option Key → Option CryptoProvider
  operations none = none
  operations (some k) = some (object_operations P k)

  unfoldable pub get_meta_crypto : StashKey → Option CryptoProvider
  unfolding derive_subkey
  get_meta_crypto k = operations (derive_subkey P k.master_key meta_context)

  unfoldable pub get_object_crypto : StashKey → Option CryptoProvider
  unfolding derive_subkey
  get_object_crypto k = operations (derive_subkey P k.master_key object_context)

  module _ (L : IsLawful P) where
    subkey_total :
        (k ctx : Bytes)
        → length ctx ≡ 8
        → (derive_subkey P k ctx ≡ some (P.hash crypto_digest_size ctx k))
    unfolding derive_subkey from_bytes
    subkey_total k ctx short = ground (arith, short, L.length-hash crypto_digest_size ctx k)

    subkey_size : (k ctx : Bytes) → length (P.hash crypto_digest_size ctx k) ≡ 32
    subkey_size k ctx = L.length-hash crypto_digest_size ctx k

    -- The keyed hash of the master key does not collide for two contexts.
    abbrev pub Separates : StashKey → Type 0
    Separates k =
        (c d : Bytes)
        → length c ≡ 8
        → length d ≡ 8
        → P.hash crypto_digest_size c k.master_key ≡ P.hash crypto_digest_size d k.master_key
        → c ≡ d

    -- The subkey of a context, with the provider of that key.
    pub record ProviderOf (context : Bytes) (k : StashKey) (made : Option CryptoProvider)
        : Type 1 where
      pub subkey : Key
      pub subkey_hash : subkey ≡ P.hash crypto_digest_size context k.master_key
      pub subkey_size : length subkey ≡ 32
      pub provider : made ≡ some (object_operations P subkey)
      pub provider_IsSound : IsSound (object_operations P subkey)

    provider_of :
        (context : Bytes) (k : StashKey)
        → length context ≡ 8
        → ProviderOf context k (operations (derive_subkey P k.master_key context))
    provider_of context k short = record {
      subkey = P.hash crypto_digest_size context k.master_key;
      subkey_hash = refl;
      subkey_size = subkey_size k.master_key context;
      provider = ap operations (subkey_total k.master_key context short);
      provider_IsSound =
          object_operations-IsSound P (P.hash crypto_digest_size context k.master_key) L
            (subkey_size k.master_key context);
    }

    pub record Derived (k : StashKey) : Type 1 where
      pub root : ObjectId
      pub root_id : root_object_id k ≡ some root
      pub root_hash : root ≡ P.hash crypto_digest_size root_context k.master_key
      pub root_size : length root ≡ 32
      pub meta : ProviderOf meta_context k (get_meta_crypto k)
      pub object : ProviderOf object_context k (get_object_crypto k)
      pub meta_apart : meta.subkey ≢ object.subkey
      pub root_apart : (root ≢ meta.subkey) × (root ≢ object.subkey)

    -- Over primitives that do what they document, a master key yields a root id, a key for metadata
    -- and a key for objects, the keyed hashes of 32 bytes of three contexts, and sound providers under
    -- the two keys. Where the keyed hash of the master key does not collide for two contexts, the root
    -- id and the two keys are pairwise different.
    pub stash_key-Derived : (k : StashKey) → Separates k → Derived k
    unfolding root_object_id get_meta_crypto get_object_crypto
    stash_key-Derived k separates =
        let m = provider_of meta_context k refl in
        let o = provider_of object_context k refl in
        record {
          root = P.hash crypto_digest_size root_context k.master_key;
          root_id = subkey_total k.master_key root_context refl;
          root_hash = refl;
          root_size = subkey_size k.master_key root_context;
          meta = m;
          object = o;
          meta_apart = λ same. contexts_apart.0 (
              separates meta_context object_context refl refl
                (sym m.subkey_hash ∙ same ∙ o.subkey_hash));
          root_apart = (
            λ same.
                contexts_apart.1
                  (separates root_context meta_context refl refl (same ∙ m.subkey_hash)),
            λ same.
                contexts_apart.2
                  (separates root_context object_context refl refl (same ∙ o.subkey_hash)),
          );
        }
