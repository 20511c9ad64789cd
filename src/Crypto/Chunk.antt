-- ===== src/Crypto/Chunk.antt =====
-- `encrypt_chunk` and `decrypt_chunk` of `ObjectOperations`.
use native.Mathlib.Nat.{mod-eq_of_lt}
use zerostash.Prelude.{
  ℕ, ◌+◌, ◌^◌, ◌≤◌, ◌<◌, ◌≡◌, ◌∙◌, sym, ap, ap₂, refl, some, suc, [], ◌∷◌, ◌++◌, true, ◌&&◌,
  append_assoc, length, take, drop, slice, splice, leb, length-append, length-take, take-append,
  length-splice, subst, arith,
}
use zerostash.Objects.{Bytes, CryptoDigest, ObjectId, Tag, Object}
use zerostash.Chunks.Pointer.{ChunkPointer}
use zerostash.Crypto.{
  Key, Primitives, IsLawful, xor_into, derive_chunk_key, get_chunk_nonce, encrypt_chunk,
  decrypt_chunk,
}
use zerostash.Crypto.Provider.{PointsTo}

-- The ciphertext and the tag stand side by side at the front of the target.
gather_front :
    (target c t : Bytes)
    → take (length c + length t) (splice (splice target 0 c) (length c) t) ≡ c ++ t
gather_front target c t =
    ap (λ w. take (length c + length t) (w ++ (t ++ rest)))
      (take-append c (drop (0 + length c) target) (length c) refl)
    ∙ ap (take (length c + length t)) (sym (append_assoc c t rest))
    ∙ take-append (c ++ t) rest (length c + length t) (sym (length-append c t))
  where
    rest : Bytes
    rest = drop (length c + length t) (splice target 0 c)

pub length-xor_into : (a b : Bytes) → length (xor_into a b) ≡ length a
unfolding xor_into
length-xor_into [] b = refl
length-xor_into (x ∷ a) [] = refl
length-xor_into (x ∷ a) (y ∷ b) = ap suc (length-xor_into a b)

module _ (P : Primitives) (L : IsLawful P) (key : Key) where
  pub encrypt_chunk_total :
      (o : Object) (hash : CryptoDigest) (plain : Bytes)
      → length key ≡ 32
      → length o.id ≡ 32
      → length plain ≤ 2 ^ 32
      → (out : Bytes × Tag) × (encrypt_chunk P key o hash plain ≡ some out)
  unfolding encrypt_chunk get_chunk_nonce
  encrypt_chunk_total o hash plain hk ho hp =
      L.seal_total (xor_into key hash) _ plain (length-xor_into key hash ∙ hk)
        (length-xor_into (take 12 o.id) _ ∙ omega (arith, length-take 12 o.id)) hp

  pub encrypt_chunk-length :
      (o : Object) (hash : CryptoDigest) (plain c : Bytes) (t : Tag)
      → encrypt_chunk P key o hash plain ≡ some (c, t)
      → (length c ≡ length plain) × (length t ≡ 16)
  unfolding encrypt_chunk
  encrypt_chunk-length o hash plain c t e = L.length-seal _ _ plain c t e

  unseal_gathered :
      (o : Object) (hash : CryptoDigest) (plain c target : Bytes) (t : Tag)
      → encrypt_chunk P key o hash plain ≡ some (c, t)
      → length plain < 2 ^ 32
      → P.unseal
          (derive_chunk_key key hash)
          (get_chunk_nonce o.id (length c))
          (take (length c + length t) (splice (splice target 0 c) (length c) t))
        ≡ some plain
  unfolding encrypt_chunk
  unseal_gathered o hash plain c target t e small =
      ap₂ (λ n w. P.unseal (derive_chunk_key key hash) (get_chunk_nonce o.id n) w)
        (lengths.0 ∙ sym (mod-eq_of_lt small)) (gather_front target c t)
      ∙ L.unseal-seal _ _ plain c t e
    where
      lengths : (length c ≡ length plain) × (length t ≡ 16)
      lengths = L.length-seal _ _ plain c t e

  opened : Bytes → Bytes → Bytes → Tag → Bytes
  opened plain target c t = splice (splice (splice target 0 c) (length c) t) 0 plain

  decrypt_at :
      (o r : Object) (hash : CryptoDigest) (plain c target : Bytes) (t : Tag) (offs : ℕ)
      (file : ObjectId)
      → encrypt_chunk P key o hash plain ≡ some (c, t)
      → r.id ≡ o.id
      → offs + length c ≤ length r.buffer
      → slice r.buffer offs (offs + length c) ≡ c
      → length plain < 2 ^ 32
      → length plain + 16 ≤ length target
      → decrypt_chunk P key target r
          (record { offs = offs; size = length c; file = file; hash = hash; tag = t })
        ≡ some (length plain, opened plain target c t)
  unfolding decrypt_chunk opened
  decrypt_at o r hash plain c target t offs file e i fits st small room =
      rw (room_test, st, i, unseal_gathered o hash plain c target t e small)
        (ap (λ n. some (n, opened plain target c t)) lengths.0)
    where
      lengths : (length c ≡ length plain) × (length t ≡ 16)
      lengths = encrypt_chunk-length o hash plain c t e

      room_test :
          (leb (length c + length t) (length target) && leb (offs + length c) (length r.buffer))
          ≡ true
      room_test = ground (arith, lengths)

  -- `decrypt_chunk` undoes `encrypt_chunk`, wherever the ciphertext stands in the object read.
  pub decrypt_chunk-encrypt_chunk :
      (o r : Object) (hash : CryptoDigest) (plain c target : Bytes) (t : Tag) (p : ChunkPointer)
      → encrypt_chunk P key o hash plain ≡ some (c, t)
      → r.id ≡ o.id
      → PointsTo r hash c t p
      → length plain < 2 ^ 32
      → length plain + 16 ≤ length target
      → (out : Bytes) × (decrypt_chunk P key target r p ≡ some (length plain, out))
        × (take (length plain) out ≡ plain)
        × (length out ≡ length target)
  unfolding opened
  decrypt_chunk-encrypt_chunk o r hash plain c target t p e i pt small room = (
    opened plain target c t,
    ap (decrypt_chunk P key target r) same
        ∙ decrypt_at o r hash plain c target t p.offs p.file e i
            (subst (λ n. p.offs + n ≤ length r.buffer) pt.sized pt.in_buffer)
            (subst (λ n. slice r.buffer p.offs (p.offs + n) ≡ c) pt.sized pt.stored) small room,
    take-append plain _ (length plain) refl,
    length-splice front 0 plain (omega (arith, lengths, front_size)) ∙ front_size,
  )
    where
      lengths : (length c ≡ length plain) × (length t ≡ 16)
      lengths = encrypt_chunk-length o hash plain c t e

      first : Bytes
      first = splice target 0 c

      first_size : length first ≡ length target
      first_size = length-splice target 0 c (omega (arith, lengths))

      front : Bytes
      front = splice first (length c) t

      front_size : length front ≡ length target
      front_size =
          length-splice first (length c) t (omega (arith, lengths, first_size)) ∙ first_size

      same : p ≡ record { offs = p.offs; size = length c; file = p.file; hash = hash; tag = t }
      same = λ j. record {
        offs = p.offs;
        size = pt.sized j;
        file = p.file;
        hash = pt.same_hash j;
        tag = pt.same_tag j;
      }
