-- ===== src/Meta/Headed.antt =====
-- libzerostash/src/meta/writer.rs: an object that is padded and given its header, as a block.
use zerostash.Prelude.{
  ℕ, zero, suc, [], ◌∷◌, ◌+◌, ◌-◌, ◌≤◌, ◌<◌, ◌≡◌, ◌∙◌, refl, sym, ap, true, some, ◌++◌, drop, take,
  length, ltb, splice, arith, length-append, length-take, length-splice, drop-past_front, slice,
  slice-congr_prefix, take-take,
}
use zerostash.Objects.{Bytes, Object, finalize_with, write_head}
use zerostash.Objects.Buffer.{copy_range_lem, finalize_keeps}
use zerostash.Crypto.Provider.{CryptoProvider}
use zerostash.Backends.{Backend}
use zerostash.Meta.{header_size}
use zerostash.Meta.Encoding.{Encoder}
use zerostash.Meta.Writer.{Cbor, headed}
use zerostash.Crypto.Sealing.{IsBlock}

pub take-past :
    (n : ℕ) (xs ys : Bytes) → length xs ≤ n → take n (xs ++ ys) ≡ xs ++ take (n - length xs) ys
take-past n [] ys h = ap (λ k. take k ys) (omega arith)
take-past zero (x ∷ xs) ys h = absurd (omega (arith, h))
take-past (suc n) (x ∷ xs) ys h =
    ap (λ zs. x ∷ zs)
      (take-past n xs ys (omega (arith, h)) ∙ ap (λ k. xs ++ take k ys) (omega arith))

module _ (C : CryptoProvider) (B : Backend) (E : Encoder) (S : Cbor) where
  -- The object whose header is written is a block again, that starts with the header.
  pub headed-IsBlock :
      (o : Object) (bs : Bytes)
      → IsBlock o
      → length bs < header_size
      → (o' : Object) × (headed C B E S o (some bs) ≡ some o')
        × IsBlock o'
        × (o'.id ≡ o.id)
        × (o'.buffer ≡ bs ++ drop (length bs) o.buffer)
        × (o'.capacity ≡ o.capacity)
  unfolding write_head
  headed-IsBlock o bs v short =
      let fits : length bs ≤ length o.buffer = omega (arith, v.whole) in
      let fits0 : 0 + length bs ≤ length o.buffer = omega arith in
      let zero_add : 0 + length bs ≡ length bs = omega arith in
      let small : ltb (length bs) header_size ≡ true = ground (arith, short) in
      (
        record o { buffer = splice o.buffer 0 bs },
        rw (small, copy_range_lem o.buffer 0 (length bs) bs zero_add (omega arith)) refl,
        record {
          id_size = v.id_size;
          room = v.room ∙ sym (length-splice o.buffer 0 bs fits0);
          whole = length-splice o.buffer 0 bs fits0 ∙ v.whole;
        },
        refl,
        ap (λ n. bs ++ drop n o.buffer) zero_add,
        refl,
      )

  pub padded-IsBlock :
      (o : Object) (bs : Bytes)
      → IsBlock o
      → o.cursor ≤ length o.buffer
      → length bs ≡ length o.buffer - o.cursor
      → IsBlock (finalize_with bs o)
  unfolding finalize_with
  padded-IsBlock o bs v inside long =
      let same : length (take o.cursor o.buffer ++ bs) ≡ length o.buffer =
        omega (arith, length-append (take o.cursor o.buffer) bs, length-take o.cursor o.buffer) in
      record { id_size = v.id_size; room = v.room ∙ sym same; whole = same ∙ v.whole }

  -- Padding and the header leave the range between them.
  pub slice-headed :
      (o : Object) (bs random : Bytes) (a b : ℕ)
      → length bs < header_size
      → header_size ≤ length o.buffer
      → o.cursor + length random ≡ length o.buffer
      → header_size ≤ a
      → a ≤ b
      → b ≤ o.cursor
      → b ≤ o.capacity
      → slice (take o.capacity (bs ++ drop (length bs) (finalize_with random o).buffer)) a b
        ≡ slice o.buffer a b
  slice-headed o bs random a b short room whole behind ab inside within =
      let padded : Bytes = (finalize_with random o).buffer in
      let (kept, size) = finalize_keeps random o whole in
      slice-congr_prefix (take o.capacity (bs ++ drop (length bs) padded))
        (bs ++ drop (length bs) padded) a b b ab (omega arith)
        (take-take b o.capacity (bs ++ drop (length bs) padded) within)
      ∙ ap (take (b - a)) (drop-past_front bs padded a (omega arith))
      ∙ slice-congr_prefix padded o.buffer a b o.cursor ab inside kept
