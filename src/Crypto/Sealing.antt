-- ===== src/Crypto/Sealing.antt =====
-- `ObjectOperations` as what the metadata relies on to seal and open its objects.
use zerostash.Prelude.{
  ◌+◌, ◌-◌, ◌≡◌, ◌∙◌, refl, sym, ap, Bool-cases, inl, inr, Option, Option-cases, none, some, take,
  length, leb, splice, arith,
}
use zerostash.Objects.{Bytes, Tag, Object, write_tag, copy_range, block_size, tag_size}
use zerostash.Crypto
use zerostash.Crypto.{
  Key, Primitives, encrypt_object, decrypt_object_into, place_sealed, get_object_nonce,
}
use zerostash.Crypto.Whole.{decrypt_object_into-encrypt_object}
use zerostash.Crypto.Sound.{object_operations}
use zerostash.Crypto.Provider.{CryptoProvider}

-- A buffer of one block, all but the tag's room its capacity.
pub record IsBlock (o : Object) : Type 0 where
  pub id_size : length o.id ≡ 32
  pub room : o.capacity + 16 ≡ length o.buffer
  pub whole : length o.buffer ≡ block_size

-- What the metadata relies on: a block is encrypted under its id, and what holds the ciphertext
-- under that id decrypts to its contents, into any buffer of a block.
pub record IsSealing (C : CryptoProvider) : Type 0 where
  pub sealed :
      (o : Object)
      → IsBlock o
      → (o' : Object) × (C.encrypt_object o ≡ some o')
        × (o'.id ≡ o.id)
        × (length o'.buffer ≡ length o.buffer)
        × (o'.capacity ≡ o.capacity)
  pub opened :
      (o o' out r : Object)
      → IsBlock o
      → C.encrypt_object o ≡ some o'
      → length out.buffer ≡ block_size
      → r.id ≡ o'.id
      → r.buffer ≡ o'.buffer
      → (out' : Object) × (C.decrypt_object_into out r ≡ some out')
        × (take o.capacity out'.buffer ≡ take o.capacity o.buffer)
        × (out'.capacity ≡ block_size - tag_size)

some-injective : (a b : Object) → ◌≡◌ {A = Option Object} (some a) (some b) → a ≡ b
some-injective a b e = cc

module _ (P : Primitives) (key : Key) where
  write_tag-capacity :
      (t : Bytes) (o o' : Object) → write_tag t o ≡ some o' → o'.capacity ≡ o.capacity
  unfolding write_tag
  write_tag-capacity t o o' e =
      elim (Option-cases (copy_range o.buffer o.capacity (length o.buffer) t)) [
        | inl none_left ↦
            let bad : ◌≡◌ {A = Option Object} none (some o') = rw none_left at e in absurd (cc)
        | inr (bs, put) ↦
            let is : ◌≡◌ {A = Option Object} (some (record o { buffer = bs })) (some o') =
              rw put at e in
            ap (λ x. x.capacity) (sym (some-injective (record o { buffer = bs }) o' is))
      ]

  place_sealed-capacity :
      (o o' : Object) (r : Option (Bytes × Tag))
      → place_sealed P key o r ≡ some o'
      → o'.capacity ≡ o.capacity
  place_sealed-capacity o o' none e = absurd (cc)
  place_sealed-capacity o o' (some (c, t)) e =
      write_tag-capacity t (record o { buffer = splice o.buffer 0 c }) o' e

  encrypt_object-capacity :
      (o o' : Object) → encrypt_object P key o ≡ some o' → o'.capacity ≡ o.capacity
  unfolding encrypt_object
  encrypt_object-capacity o o' e = elim (Bool-cases (leb o.capacity (length o.buffer))) [
    | inl inside ↦
        place_sealed-capacity o o' (P.seal key (get_object_nonce o.id) (take o.capacity o.buffer))
          (rw inside at e)
    | inr outside ↦
        let bad : ◌≡◌ {A = Option Object} none (some o') = rw outside at e in absurd (cc)
  ]

pub object_operations-IsSealing :
    (P : Primitives) (key : Key)
    → Crypto.IsLawful P
    → length key ≡ 32
    → IsSealing (object_operations P key)
unfolding decrypt_object_into
object_operations-IsSealing P key L hk = record {
  sealed = λ o v.
      let (o', out', e, id, size, run, same, cap) =
        decrypt_object_into-encrypt_object P L key o o hk v.id_size v.room
          (omega (arith, v.room, v.whole)) refl in
      (o', e, id, size, encrypt_object-capacity P key o o' e);
  opened = λ o o' out r v e size id buffer.
      let (o2, out', e2, id2, size2, run, same, cap) =
        decrypt_object_into-encrypt_object P L key o out hk v.id_size v.room
          (omega (arith, v.room, v.whole)) (size ∙ sym v.whole) in
      let is : o2 ≡ o' = some-injective o2 o' (sym e2 ∙ e) in
      (
        out',
        ap (λ x. decrypt_object_into P key out (record o2 { id = x; buffer = r.buffer }))
              (id ∙ ap (λ x. x.id) (sym is))
            ∙ ap (λ x. decrypt_object_into P key out (record o2 { buffer = x }))
                (buffer ∙ ap (λ x. x.buffer) (sym is))
            ∙ run,
        same,
        cap,
      );
}
