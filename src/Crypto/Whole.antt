-- ===== src/Crypto/Whole.antt =====
-- `encrypt_object` and `decrypt_object_into` of `ObjectOperations`.
use zerostash.Prelude.{
  ◌+◌, ◌-◌, ◌^◌, ◌≤◌, ◌≡◌, ◌∙◌, sym, ap, refl, some, true, ◌++◌, length, take, drop, splice, leb,
  length-append, length-take, take-append, drop-length, length-splice, append-nil, ap₂, arith,
}
use zerostash.Objects.{Bytes, Tag, Object, block_size, tag_size, write_tag, reserve_tag}
use zerostash.Objects.Buffer.{copy_range_lem}
use zerostash.Crypto.{
  Key, Primitives, IsLawful, get_object_nonce, encrypt_object, decrypt_object_into, place_object,
  open_copy,
}

-- The buffer once the tag is written behind a ciphertext that fills the capacity.
splice_tag :
    (o : Object) (c : Bytes) (t : Tag)
    → length c ≡ o.capacity
    → o.capacity + length t ≡ length o.buffer
    → write_tag t (record o { buffer = splice o.buffer 0 c }) ≡ some (record o { buffer = c ++ t })
unfolding write_tag
splice_tag o c t hc ht =
    rw (copy_range_lem xs o.capacity (length xs) t (omega (arith, size)) (omega arith)) (
      ap (λ w. some (record o { buffer = w }))
        (ap₂ (λ u v. u ++ (t ++ v))
            (take-append c (drop (0 + length c) o.buffer) o.capacity (sym hc))
            (drop-length xs (o.capacity + length t) (omega (arith, size)))
          ∙ ap (λ v. c ++ v) (append-nil t)))
  where
    xs : Bytes
    xs = splice o.buffer 0 c

    size : length xs ≡ length o.buffer
    size = length-splice o.buffer 0 c (omega arith)

module _ (P : Primitives) (L : IsLawful P) (key : Key) where
  -- What `encrypt_object` leaves: the ciphertext up to the capacity, the tag in the rest.
  sealed_buffer :
      (o : Object) (c : Bytes) (t : Tag)
      → o.capacity + 16 ≡ length o.buffer
      → P.seal key (get_object_nonce o.id) (take o.capacity o.buffer) ≡ some (c, t)
      → encrypt_object P key o ≡ some (record o { buffer = c ++ t })
  unfolding encrypt_object
  sealed_buffer o c t room e = rw (in_range, e) (splice_tag o c t lengths.0 lengths.1)
    where
      in_range : leb o.capacity (length o.buffer) ≡ true
      in_range = ground arith

      lengths : (length c ≡ o.capacity) × (o.capacity + length t ≡ length o.buffer)
      lengths = omega (
        arith,
        L.length-seal _ _ (take o.capacity o.buffer) c t e,
        length-take o.capacity o.buffer,
      )

  decrypt_sealed :
      (o out : Object) (c : Bytes) (t : Tag)
      → length (c ++ t) ≡ length out.buffer
      → P.seal key (get_object_nonce o.id) (take o.capacity o.buffer) ≡ some (c, t)
      → decrypt_object_into P key out (record o { buffer = c ++ t })
        ≡ some (reserve_tag (record out { buffer = splice (c ++ t) 0 (take o.capacity o.buffer) }))
  unfolding decrypt_object_into
  decrypt_sealed o out c t size e =
      rw (copy_range_lem out.buffer 0 (length out.buffer) (c ++ t) (omega arith) (omega arith)) (
        ap (λ w. open_copy P key out o.id (some w)) whole
        ∙ ap (place_object P key out (c ++ t)) (L.unseal-seal _ _ (take o.capacity o.buffer) c t e))
    where
      whole : splice out.buffer 0 (c ++ t) ≡ c ++ t
      whole =
          ap (λ w. (c ++ t) ++ w) (drop-length out.buffer (0 + length (c ++ t)) (omega arith))
          ∙ append-nil (c ++ t)

  -- An object with room for exactly the tag is encrypted with no panic, its id and size kept, and
  -- `decrypt_object_into` a buffer of its size gives its contents up to the capacity back, whatever
  -- the buffer held; the capacity of the result leaves out the tag.
  pub decrypt_object_into-encrypt_object :
      (o out : Object)
      → length key ≡ 32
      → length o.id ≡ 32
      → o.capacity + 16 ≡ length o.buffer
      → o.capacity ≤ 2 ^ 32
      → length out.buffer ≡ length o.buffer
      → (o' : Object) × (out' : Object) × (encrypt_object P key o ≡ some o')
        × (o'.id ≡ o.id)
        × (length o'.buffer ≡ length o.buffer)
        × (decrypt_object_into P key out o' ≡ some out')
        × (take o.capacity out'.buffer ≡ take o.capacity o.buffer)
        × (out'.capacity ≡ block_size - tag_size)
  unfolding get_object_nonce reserve_tag
  decrypt_object_into-encrypt_object o out hk hi room small same =
      let plain : Bytes = take o.capacity o.buffer in
      let ((c, t), e) =
        L.seal_total key (take 12 o.id) plain hk (omega (arith, length-take 12 o.id))
          (omega (arith, length-take o.capacity o.buffer)) in
      let size : length (c ++ t) ≡ length o.buffer = omega (
        arith,
        length-append c t,
        L.length-seal _ _ plain c t e,
        length-take o.capacity o.buffer,
      ) in
      (
        record o { buffer = c ++ t },
        reserve_tag (record out { buffer = splice (c ++ t) 0 plain }),
        sealed_buffer o c t room e,
        refl,
        size,
        decrypt_sealed o out c t (size ∙ sym same) e,
        take-append plain _ o.capacity (omega (arith, length-take o.capacity o.buffer)),
        refl,
      )
