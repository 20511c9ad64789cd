-- ===== src/Meta/Writer/Chain.antt =====
-- Where the chain of the metadata objects of a commit ends too early.
use zerostash.Prelude.{
  ℕ, ◌+◌, ◌≤◌, ◌≡◌, ◌∙◌, refl, none, some, List, [], ok, err, panic, Exec, ◌>>=◌, ◌>>◌, and_then,
  le→ltb, Outcome,
}
use zerostash.Objects.{Bytes, Object, IoError, finalize_with, write_head}
use zerostash.Crypto.Provider.{CryptoProvider}
use zerostash.Backends.{Backend}
use zerostash.Meta.{Field}
use zerostash.Meta.Encoding.{Encoder, parked, writer, start_encoding, finish}
use zerostash.Meta.Writer.{
  Cbor, Writer, unwrap_io, on_encoder, register, set_current, write_records, skip_of,
  seal_and_store, finish_field, write_field,
}
use zerostash.Meta.Writer.Sealed.{seal_and_store-Sealed}

module _ (C : CryptoProvider) (B : Backend) (E : Encoder) (S : Cbor) where
  -- `write_field` up to its last record.
  unfoldable pub records_of_field : Field → List Bytes → Exec (Writer C B E) IoError (Unit {0})
  unfolding writer start_encoding
  records_of_field f records = do
    object ← (λ w. (unwrap_io (writer E w.encoder), w))
    register C B E S f object
    on_encoder C B E S (start_encoding E)
    set_current C B E S (some f)
    write_records C B E S records

  -- `write_field` from there on
  abbrev rest_of_field : Exec (Writer C B E) IoError (Unit {0})
  rest_of_field = do
    set_current C B E S none
    last ← (λ w. (unwrap_io (writer E w.encoder), w))
    finish_field C B E S last

  and_then_assoc :
      {X : Type 0} (r : Outcome IoError X) (k : X → Exec (Writer C B E) IoError (Unit {0}))
      (g : Exec (Writer C B E) IoError (Unit {0})) (w : Writer C B E)
      → and_then r (λ a. k a >> g) w ≡ and_then (and_then r k w).0 (λ _. g) (and_then r k w).1
  and_then_assoc (ok a) k g w = refl
  and_then_assoc (err e) k g w = refl
  and_then_assoc panic k g w = refl

  field_of_object :
      (f : Field) (records : List Bytes) (r : Outcome IoError Object) (w : Writer C B E)
      → and_then r
          (λ object.
            register C B E S f object
            >> (on_encoder C B E S (start_encoding E)
                >> (set_current C B E S (some f)
                    >> (write_records C B E S records >> rest_of_field))))
          w
        ≡ and_then
            (and_then r
              (λ object.
                register C B E S f object
                >> (on_encoder C B E S (start_encoding E)
                    >> (set_current C B E S (some f) >> write_records C B E S records)))
              w).0
            (λ _. rest_of_field)
            (and_then r
              (λ object.
                register C B E S f object
                >> (on_encoder C B E S (start_encoding E)
                    >> (set_current C B E S (some f) >> write_records C B E S records)))
              w).1
  field_of_object f records (ok object) w =
      let w1 : Writer C B E = (register C B E S f object w).1 in
      and_then_assoc (on_encoder C B E S (start_encoding E) w1).0
        (λ _. set_current C B E S (some f) >> write_records C B E S records) rest_of_field
        (on_encoder C B E S (start_encoding E) w1).1
  field_of_object f records (err e) w = refl
  field_of_object f records panic w = refl

  write_field_split :
      (f : Field) (records : List Bytes) (w : Writer C B E)
      → write_field C B E S f records w ≡ (records_of_field f records >> rest_of_field) w
  unfolding write_field records_of_field writer start_encoding
  write_field_split f records w = field_of_object f records (unwrap_io (writer E w.encoder)) w

  write_field_end :
      (f : Field) (records : List Bytes) (w w1 : Writer C B E) (last : Object)
      → records_of_field f records w ≡ (ok tt, w1)
      → writer E w1.encoder ≡ ok last
      → write_field C B E S f records w
        ≡ finish_field C B E S last (record w1 { current_field = none })
  write_field_end f records w w1 last wrote at = write_field_split f records w ∙ rw (wrote, at) refl

  pub write_field_breaks_chain :
      (f : Field) (records : List Bytes) (w w1 w' : Writer C B E) (last : Object)
      → records_of_field f records w ≡ (ok tt, w1)
      → writer E w1.encoder ≡ ok last
      → last.capacity ≤ skip_of C B E S last + last.cursor
      → write_field C B E S f records w ≡ (ok tt, w')
      → (object with_header written fresh : Object) × (size : ℕ) × (bytes : Bytes) × ((finish E
            w1.encoder).0
          ≡ ok object)
        × (S.encode_header
              (record { next_object = none; offsets = w1.offsets; end = object.cursor })
            ≡ some bytes)
        × (write_head bytes (finalize_with (C.fill size w1.source).0 object) ≡ some with_header)
        × (C.encrypt_object with_header ≡ some written)
        × (B.write_object written w1.backend ≡ (ok tt, w'.backend))
        × (w'.encoder ≡ parked fresh)
        × (w'.offsets ≡ [])
  unfolding finish_field
  write_field_breaks_chain f records w w1 w' last wrote at full run =
      let w2 : Writer C B E = record w1 { current_field = none } in
      let seals : seal_and_store C B E S w2 ≡ (ok tt, w') =
        rw
          (
            write_field_end f records w w1 last wrote at,
            le→ltb (skip_of C B E S last + last.cursor) last.capacity full,
          )
          at run in
      let s = seal_and_store-Sealed C B E S w2 w' seals in
      (
        s.object, s.with_header, s.written, s.fresh, s.size, s.header_bytes, s.finished, s.encoded,
        s.headed, s.encrypted, s.stored, s.parked_fresh, s.offsets_left,
      )
