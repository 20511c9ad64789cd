-- ===== src/Meta/Reader.antt =====
-- libzerostash/src/meta/reader.rs: `Reader`, which opens metadata objects and reads fields out of
-- them. CBOR and the LZ4 frame decoder are the parameter `Codec`.
use zerostash.Prelude.{
  ℕ, ◌&&◌, Option, none, some, List, length, slice, leb, if◌then◌else◌, Outcome, ok, err, panic,
  Exec, ◌>>=◌, ◌>>◌, lift, gets, map_err, unwrap,
}
use zerostash.Objects.{Bytes, ObjectId, Object, IoError, default, reset_cursor, set_id, as_ref}
use zerostash.Crypto.Provider.{CryptoProvider}
use zerostash.Backends.{Backend, BackendError}
use zerostash.Meta.{Field, MetaObjectHeader, get_offset}

pub data ReadError : Type 0 where
  io : IoError → ReadError
  backend : BackendError → ReadError
  invalid_header no_field no_header : ReadError

-- `decode_header` is the first item of the CBOR stream of a buffer: `none` for no item, `some none`
-- for one that is no header. `destream` gives the records of a frame, as their CBOR, up to the first
-- one that cannot be read, or the error of `Decoder::new`.
pub record Codec : Type 0 where
  pub decode_header : Bytes → Option (Option MetaObjectHeader)
  pub destream : Bytes → Outcome IoError (List Bytes)

pub record Reader (C : CryptoProvider) (B : Backend) : Type 0 where
  pub inner : Object
  pub header : Option MetaObjectHeader
  pub backend : B.State

module _ (C : CryptoProvider) (B : Backend) (D : Codec) where
  abbrev pub R : Type 0
  R = Reader C B

  unfoldable pub new : B.State → R
  new b = record { inner = default; header = none; backend = b }

  abbrev pub read_backend : ObjectId → Exec R ReadError Object
  read_backend id r =
      let (out, b) = B.read_object id r.backend in
      (map_err ReadError.backend out, record r { backend = b })

  abbrev pub decrypted : Option Object → Exec R ReadError (Unit {0})
  decrypted none r = (panic, r)
  decrypted (some inner) r = (ok tt, record r { inner = inner })

  -- `self.inner.reset_cursor()`, `set_id`, `decrypt_object_into`
  unfoldable pub decrypt : ObjectId → Object → Exec R ReadError (Unit {0})
  decrypt id obj r = decrypted (C.decrypt_object_into (set_id id (reset_cursor r.inner)) obj) r

  abbrev pub or_no_header : Option MetaObjectHeader → Outcome ReadError MetaObjectHeader
  or_no_header none = err no_header
  or_no_header (some h) = ok h

  abbrev pub take_header : Option (Option MetaObjectHeader) → Exec R ReadError MetaObjectHeader
  take_header none r = (err invalid_header, r)
  take_header (some h) r = (or_no_header h, record r { header = h })

  unfoldable pub open_object : ObjectId → Exec R ReadError MetaObjectHeader
  unfolding decrypt
  open_object id = do
    obj ← read_backend id
    decrypt id obj
    inner ← gets (λ r. r.inner)
    bytes ← lift (unwrap (as_ref inner))
    take_header (D.decode_header bytes)

  -- `&buffer[frame_start..header.end()]`, which panics out of range
  abbrev pub frame : Bytes → ℕ → ℕ → Option Bytes
  frame bytes a b = if leb a b && leb b (length bytes) then some (slice bytes a b) else none

  abbrev pub frame_of :
      Object → MetaObjectHeader → ℕ → Option Bytes → Outcome ReadError (List Bytes)
  frame_of inner h at none = panic
  frame_of inner h at (some bytes) = elim (frame bytes at h.end) [
    | none ↦ panic
    | some f ↦ map_err ReadError.io (D.destream f)
  ]

  abbrev pub at_offset : Object → MetaObjectHeader → Option ℕ → Outcome ReadError (List Bytes)
  at_offset inner h none = err no_field
  at_offset inner h (some at) = frame_of inner h at (as_ref inner)

  abbrev pub with_header : Field → Object → Option MetaObjectHeader → Outcome ReadError (List Bytes)
  with_header field inner none = err no_header
  with_header field inner (some h) = at_offset inner h (get_offset field h)

  -- `read_into`: the records that the store is given
  unfoldable pub read_into : Field → Exec R ReadError (List Bytes)
  read_into field r = (with_header field r.inner r.header, r)
