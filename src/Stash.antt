-- ===== src/Stash.antt =====
-- libzerostash/src/stash/mod.rs: `Stash::read` and `Stash::commit`, over the records of the two
-- stores as the bytes of their CBOR.
pub mod Checkout
pub mod Adding
pub mod Written
pub mod Contents
pub mod RoundTrip
pub mod Stores
use zerostash.Prelude.{
  ℕ, zero, suc, Option, none, some, List, [], ◌∷◌, ◌++◌, Outcome, ok, err, panic, Exec, ◌>>=◌, ◌>>◌,
  and_then,
}
use zerostash.Objects.{Bytes, ObjectId, IoError}
use zerostash.Crypto.Provider.{CryptoProvider}
use zerostash.Backends.{Backend}
use zerostash.Meta.{Field, chunks, files, MetaObjectHeader, fields}
use zerostash.Meta.Reader.{Reader, ReadError, Codec, open_object, read_into}
use zerostash.Meta.Writer
use zerostash.Meta.Encoding.{Encoder}
use zerostash.Meta.Writer.{Writer, Cbor, ObjectIndex, write_field, seal_and_store}

-- The records read so far, in order, with the field that each came from.
abbrev pub Records : Type 0
Records = List (Field × List Bytes)

module _ (C : CryptoProvider) (B : Backend) (D : Codec) where
  -- The inner loop of `read`.
  unfoldable pub read_fields : List Field → Records → Exec (Reader C B) ReadError Records
  read_fields [] acc r = (ok acc, r)
  read_fields (field ∷ rest) acc r =
      let (out, r') = read_into C B D field r in
      and_then out (λ records. read_fields rest (acc ++ (field, records) ∷ [])) r'

  -- The loop of `read`, with fuel for the objects of the chain; `none` means that it ran out.
  unfoldable pub read_chain :
      ℕ → Option ObjectId → Records → Reader C B → Option (Outcome ReadError Records × Reader C B)
  unfolding read_fields
  read_chain fuel none acc r = some (ok acc, r)
  read_chain zero (some id) acc r = none
  read_chain (suc fuel) (some id) acc r =
      let (out, r1) = open_object C B D id r in
      elim out [
        | ok header ↦
            let (out', r2) = read_fields (fields header) acc r1 in
            elim out' [
              | ok acc' ↦ read_chain fuel header.next_object acc' r2
              | err e ↦ some (err e, r2)
              | panic ↦ some (panic, r2)
            ]
        | err e ↦ some (err e, r1)
        | panic ↦ some (panic, r1)
      ]

module _ (C : CryptoProvider) (B : Backend) (E : Encoder) (S : Cbor) where
  abbrev pub committed :
      Outcome IoError (Writer C B E) → List Bytes → List Bytes → Outcome IoError (Writer C B E)
  committed (ok w) file_records chunk_records =
      let (r, w') =
        (write_field C B E S files file_records
            >> write_field C B E S chunks chunk_records
            >> seal_and_store C B E S)
          w in
      elim r [ ok a ↦ ok w' | err e ↦ err e | panic ↦ panic ]
  committed (err e) file_records chunk_records = err e
  committed panic file_records chunk_records = panic

  -- `commit`, given the root id; the writer that is left has the index in its `objects`.
  unfoldable pub commit :
      ObjectId → C.Source → B.State → List Bytes → List Bytes → Outcome IoError (Writer C B E)
  commit root source b file_records chunk_records =
      committed (Writer.new C B E S root source b) file_records chunk_records
