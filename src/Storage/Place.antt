-- ===== src/Storage/Place.antt =====
-- The part of `store_chunk` behind the test for room: one encrypted chunk at the cursor.
use native.Mathlib.Nat.{mod-eq_of_lt}
use zerostash.Prelude.{
  ◌+◌, ◌%◌, ◌^◌, ◌≤◌, ◌≡◌, ◌∙◌, refl, sym, ap, ap₂, some, [], ◌∷◌, ◌++◌, length, take, drop, slice,
  splice, take-append-drop, ok, arith,
}
use zerostash.Objects.{Bytes, CryptoDigest, Tag, Object, write}
use zerostash.Objects.Buffer.{write_lem, write-Wrote}
use zerostash.Chunks.Pointer.{ChunkPointer}
use zerostash.Crypto.Provider.{CryptoProvider, IsSound, PointsTo}
use zerostash.Backends.{Backend}
use zerostash.Storage.{Storage, write_all, place, placed, returned, pointer}
use zerostash.Storage.Flush.{IsValid}

-- The object `r` holds, where `p` points, the encryption of `z` under `hash` for the object `p.file`.
pub record Holds (C : CryptoProvider) (r : Object) (p : ChunkPointer) (hash : CryptoDigest)
    (z : Bytes) : Type 0 where
  pub sealer : Object
  pub cipher : Bytes
  pub tag : Tag
  pub sealed : C.encrypt_chunk sealer hash z ≡ some (cipher, tag)
  pub sealed_for : sealer.id ≡ p.file
  pub points : PointsTo r hash cipher tag p

write_all-eq-write :
    (bs : Bytes) (o : Object) → o.cursor + length bs ≤ length o.buffer → write_all bs o ≡ write bs o
unfolding write_all
write_all-eq-write [] o h =
    (λ i. (ok 0, record o { buffer = same i; cursor = stays i })) ∙ sym (write_lem [] o h)
  where
    same : o.buffer ≡ splice o.buffer o.cursor []
    same =
        sym (take-append-drop o.cursor o.buffer)
        ∙ ap (λ n. take o.cursor o.buffer ++ drop n o.buffer) (omega arith)

    stays : o.cursor ≡ o.cursor + 0
    stays = omega arith
write_all-eq-write (b ∷ bs) o h = refl

pub record Placed {C : CryptoProvider} {B : Backend} (hash : CryptoDigest) (z : Bytes)
    (s s' : Storage C B) (p : ChunkPointer) : Type 0 where
  pub held : Holds C s'.object p hash z
  pub same_file : p.file ≡ s.object.id
  pub at_cursor : p.offs ≡ s.object.cursor
  pub sized : p.size ≡ length z
  pub same_hash : p.hash ≡ hash
  pub same_id : s'.object.id ≡ s.object.id
  pub below : take s.object.cursor s'.object.buffer ≡ take s.object.cursor s.object.buffer
  pub advanced : s'.object.cursor ≡ s.object.cursor + length z
  pub size : length s'.object.buffer ≡ length s.object.buffer
  pub same_backend : s'.backend ≡ s.backend
  pub valid : IsValid s'

module _ (C : CryptoProvider) (B : Backend) (K : IsSound C) where
  -- The pointer's 32-bit fields hold the position and the length with no wrap.
  pub place-Placed :
      (hash : CryptoDigest) (z : Bytes) (s : Storage C B)
      → IsValid s
      → s.object.cursor + length z ≤ length s.object.buffer
      → (p : ChunkPointer) × (s' : Storage C B) × (place C B hash z s ≡ (ok p, s'))
        × Placed hash z s s' p
  unfolding place
  place-Placed hash z s v room =
      let ((c, t), e) = K.encrypt_total s.object hash z v.id_size (omega (arith, v.addressable)) in
      let lengths = K.encrypt_length s.object hash z c t e in
      let fits : s.object.cursor + length c ≤ length s.object.buffer = omega (arith, lengths) in
      let (o', w) = write-Wrote c s.object fits in
      let p : ChunkPointer = pointer C B s.object hash z t (length c) in
      let no_wrap : s.object.cursor % 2 ^ 32 ≡ s.object.cursor =
        mod-eq_of_lt (omega (arith, v.addressable)) in
      let no_wrap_size : length z % 2 ^ 32 ≡ length z =
        mod-eq_of_lt (omega (arith, v.addressable)) in
      (
        p,
        record s { object = o' },
        ap (placed C B hash z s) e
            ∙ ap
                (λ out.
                  (returned C B (pointer C B s.object hash z t) out.0, record s { object = out.1 }))
                (write_all-eq-write c s.object fits ∙ w.result),
        record {
          held = record {
            sealer = s.object;
            cipher = c;
            tag = t;
            sealed = e;
            sealed_for = refl;
            points = record {
              in_buffer = omega (arith, no_wrap, no_wrap_size, lengths, w.same_length);
              sized = omega (arith, no_wrap_size, lengths);
              stored =
                  ap₂ (λ a b. slice o'.buffer a (a + b)) no_wrap (no_wrap_size ∙ sym lengths.0)
                  ∙ w.stored;
              same_hash = refl;
              same_tag = refl;
            };
          };
          same_file = refl;
          at_cursor = no_wrap;
          sized = no_wrap_size;
          same_hash = refl;
          same_id = w.same_id;
          below = w.below;
          advanced = omega (arith, w.moved, lengths);
          size = w.same_length;
          same_backend = refl;
          valid = record {
            full = v.full ∙ sym w.same_length;
            whole = w.same_capacity ∙ v.whole ∙ sym w.same_length;
            cursor_in = omega (arith, w.moved, w.same_length);
            id_size = ap length w.same_id ∙ v.id_size;
            addressable = omega (arith, w.same_length, v.addressable);
          };
        },
      )
