-- ===== src/Meta/Writer.antt =====
-- libzerostash/src/meta/writer.rs: `Writer`, which packs compressed fields into metadata objects.
-- The LZ4 frame encoder is the parameter `Encoder`, the CBOR of a header the parameter `Cbor`.
-- Records come as the bytes of their CBOR. Each `unwrap`, `expect` and `assert!` is a panic.
pub mod Sealed
pub mod Chain
use zerostash.Prelude.{
  ℕ, ◌+◌, ◌-◌, ◌%◌, ◌^◌, Bool, true, false, Option, none, some, List, [], ◌∷◌, ◌++◌, length, ltb,
  if◌then◌else◌, Outcome, ok, err, panic, Exec, ◌>>=◌, ◌>>◌, and_then, pure, lift, gets, unwrap,
}
use zerostash.Prelude.Equality.{◌=?◌, bytes_eq}
use zerostash.Prelude.Dict
use zerostash.Prelude.Dict.{Dict}
use zerostash.Prelude.Int.{pos}
use zerostash.Objects.{
  Bytes, ObjectId, Object, IoError, other, default, set_id, reserve_tag, clear, seek, start,
  current, finalize_range, finalize_with, write_head, crypto_digest_size,
}
use zerostash.Compress.{stream_block_size}
use zerostash.Crypto.Provider.{CryptoProvider}
use zerostash.Meta.Encoding.{
  Encoder, WriteState, idle, parked, encoding, start_encoding, finish, writer, write_state,
}
use zerostash.Backends.{Backend}
use zerostash.Meta.{
  Field, FieldOffset, MetaObjectHeader, as_field, as_offset, header_size, field_eq,
}

-- `serialize_to_vec(&header)`, `none` where it returns an error
pub record Cbor : Type 0 where
  pub encode_header : MetaObjectHeader → Option Bytes

-- `HashMap<Field, HashSet<ObjectId>>`
abbrev pub ObjectIndex : Type 0
ObjectIndex = Dict Field (List ObjectId)

abbrev pub contains : ObjectId → List ObjectId → Bool
contains id [] = false
contains id (x ∷ xs) = if id =? x then true else contains id xs

abbrev pub add_id : ObjectId → List ObjectId → List ObjectId
add_id id ids = if contains id ids then ids else ids ++ id ∷ []

-- `objects.entry(f).or_default().insert(id)`
unfoldable pub track : Field → ObjectId → ObjectIndex → ObjectIndex
track f id objects = Dict.upsert f [] (add_id id) objects

unfoldable pub track_all : List FieldOffset → ObjectId → ObjectIndex → ObjectIndex
track_all [] id objects = objects
track_all (fo ∷ offsets) id objects = track_all offsets id (track (as_field fo) id objects)

-- `source` and `backend` are the states of the system's randomness and of the shared backend.
pub record Writer (C : CryptoProvider) (B : Backend) (E : Encoder) : Type 0 where
  pub objects : ObjectIndex
  pub offsets : List FieldOffset
  pub encoder : WriteState E
  pub current_field : Option Field
  pub source : C.Source
  pub backend : B.State

-- `usize` subtraction
abbrev pub sub_usize : ℕ → ℕ → ℕ
sub_usize a b = (a + 2 ^ 64 - b) % 2 ^ 64

-- `.unwrap()` of an `io::Result`
abbrev pub unwrap_io : {X : Type 0} → Outcome IoError X → Outcome IoError X
unwrap_io (ok a) = ok a
unwrap_io (err e) = panic
unwrap_io panic = panic

module _ (C : CryptoProvider) (B : Backend) (E : Encoder) (S : Cbor) where
  abbrev pub W : Type 0
  W = Writer C B E

  abbrev pub on_encoder : {X : Type 0} → Exec (WriteState E) IoError X → Exec W IoError X
  on_encoder m w = let (r, s) = m w.encoder in (unwrap_io r, record w { encoder = s })

  -- `Writer::new`
  abbrev pub opened : C.Source → B.State → Outcome IoError ℕ × Object → Outcome IoError W
  opened source b (ok n, object) = ok (record {
    objects = [];
    offsets = [];
    encoder = parked object;
    current_field = none;
    source = source;
    backend = b;
  })
  opened source b (err e, object) = err e
  opened source b (panic, object) = panic

  unfoldable pub new : ObjectId → C.Source → B.State → Outcome IoError W
  new root source b = opened source b (seek (start header_size) (set_id root (reserve_tag default)))

  -- `object.finalize(&self.crypto)`
  abbrev pub padded : Object → Option ℕ → Exec W IoError Object
  padded object none w = (panic, w)
  padded object (some n) w =
      let (bs, source') = C.fill n w.source in
      (ok (finalize_with bs object), record w { source = source' })

  -- `ObjectId::new(&self.crypto)`
  unfoldable pub draw_id : Exec W IoError ObjectId
  draw_id w =
      let (id, source') = C.fill crypto_digest_size w.source in
      (ok id, record w { source = source' })

  abbrev pub next_of : Option Field → ObjectId → Option ObjectId
  next_of none id = none
  next_of (some f) id = some id

  -- The assertion on the header's size, and `write_head`.
  abbrev pub headed : Object → Option Bytes → Option Object
  headed object none = none
  headed object (some bs) = if ltb (length bs) header_size then write_head bs object else none

  unfoldable pub write_object : Object → Exec W IoError (Unit {0})
  write_object object w =
      let (r, b) = B.write_object object w.backend in
      (elim r [ ok a ↦ ok a | err e ↦ panic | panic ↦ panic ], record w { backend = b })

  abbrev pub reoffset : Option Field → List FieldOffset
  reoffset none = []
  reoffset (some f) = as_offset f header_size ∷ []

  -- The object written is tracked under its fields; a cleared object under the next id takes its
  -- place, and the field that is being written is registered in it.
  unfoldable pub restart : Object → ObjectId → Exec W IoError (Unit {0})
  restart object next w =
      let (r, fresh) = seek (start header_size) (clear (set_id next object)) in
      (
        elim r [ ok n ↦ ok tt | err e ↦ panic | panic ↦ panic ],
        record w {
          objects = track_all w.offsets object.id w.objects;
          offsets = reoffset w.current_field;
          encoder = parked fresh;
        },
      )

  unfoldable pub header_of : W → ObjectId → ℕ → MetaObjectHeader
  header_of w next end = record {
    next_object = next_of w.current_field next;
    offsets = w.offsets;
    end = end;
  }

  -- `seal_and_store`, from its end: encrypt and store,
  unfoldable pub store_object : ObjectId → Object → Exec W IoError (Unit {0})
  store_object next with_header = do
    sealed ← lift (unwrap (C.encrypt_object with_header))
    write_object sealed
    restart sealed next

  -- write the header, which names the next object only while a field is being written,
  unfoldable pub head_object : ℕ → Object → ObjectId → Exec W IoError (Unit {0})
  head_object end object next = do
    header ← gets (λ w. header_of w next end)
    with_header ← lift (unwrap (headed object (S.encode_header header)))
    store_object next with_header

  -- fill up with random bytes and draw the next id,
  unfoldable pub pad_object : Object → Exec W IoError (Unit {0})
  pad_object object = do
    padded_object ← padded object (finalize_range object)
    next ← draw_id
    head_object object.cursor padded_object next

  -- all after the encoder has finished.
  unfoldable pub seal_and_store : Exec W IoError (Unit {0})
  unfolding finish draw_id write_object restart header_of store_object head_object pad_object
  seal_and_store = on_encoder (finish E) >>= pad_object

  abbrev pub seal_if : Bool → Exec W IoError (Unit {0})
  seal_if b = if b then seal_and_store else (λ w. (ok tt, w))

  -- `write_next`, given the record's CBOR: both tests use the position from before the first seal.
  unfoldable pub write_next : Bytes → Exec W IoError (Unit {0})
  unfolding writer start_encoding write_state
  write_next bs = do
    object ← (λ w. (unwrap_io (writer E w.encoder), w))
    seal_if (ltb (sub_usize object.capacity object.cursor) stream_block_size)
    seal_if (ltb (sub_usize object.capacity 64) (length bs + object.cursor))
    on_encoder (start_encoding E)
    on_encoder (write_state E bs)

  -- `obj.serialize(self)`: a record for each item
  unfoldable pub write_records : List Bytes → Exec W IoError (Unit {0})
  write_records [] w = (ok tt, w)
  write_records (bs ∷ records) w =
      let (r, w') = write_next bs w in and_then r (λ _. write_records records) w'

  abbrev pub register : Field → Object → Exec W IoError (Unit {0})
  register f object w = (
    ok tt,
    record w {
      offsets = w.offsets ++ as_offset f (object.cursor % 2 ^ 32) ∷ [];
      objects = track f object.id w.objects;
    },
  )

  abbrev pub set_current : Option Field → Exec W IoError (Unit {0})
  set_current f w = (ok tt, record w { current_field = f })

  abbrev pub skip_of : Object → ℕ
  skip_of object = stream_block_size - sub_usize object.cursor header_size % stream_block_size

  abbrev pub park : Outcome IoError ℕ × Object → Exec W IoError (Unit {0})
  park (ok n, object) w = (ok tt, record w { encoder = parked object })
  park (err e, object) w = (panic, w)
  park (panic, object) w = (panic, w)

  -- The end of `write_field`: `object` is the writer's object before the encoder finishes.
  unfoldable pub finish_field : Object → Exec W IoError (Unit {0})
  unfolding finish seal_and_store
  finish_field object =
      if ltb (skip_of object + object.cursor) object.capacity
      then (do
        finished ← on_encoder (finish E)
        park (seek (current (pos (skip_of object))) finished))
      else seal_and_store

  unfoldable pub write_field : Field → List Bytes → Exec W IoError (Unit {0})
  unfolding writer start_encoding finish_field
  write_field f records = do
    object ← (λ w. (unwrap_io (writer E w.encoder), w))
    register f object
    on_encoder (start_encoding E)
    set_current (some f)
    write_records records
    set_current none
    last ← (λ w. (unwrap_io (writer E w.encoder), w))
    finish_field last
