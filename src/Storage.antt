-- ===== src/Storage.antt =====
-- libzerostash/src/objects.rs, lines 30 to 35 and 358 to 451: `Storage`, which packs encrypted
-- chunks into objects, and `NullStorage`.
pub mod Flush
pub mod Place
pub mod Located
pub mod Keeps
pub mod Outcomes
use zerostash.Prelude.{
  ℕ, ◌+◌, ◌%◌, ◌^◌, Bool, Option, none, some, [], ◌∷◌, length, replicate, ltb, if◌then◌else◌,
  Outcome, ok, err, panic, Exec, ◌>>=◌, ◌>>◌, and_then, pure, lift, gets, map_err,
}
use zerostash.Objects.{
  Bytes, CryptoDigest, Tag, Object, IoError, default, set_id, reset_cursor, finalize_range,
  finalize_with, write, default_id, crypto_digest_size, tag_size,
}
use zerostash.Chunks.Pointer.{ChunkPointer}
use zerostash.Crypto.Provider.{CryptoProvider}
use zerostash.Compress.{Lz4, block}
use zerostash.Backends.{Backend, BackendError}

pub data ObjectError : Type 0 where
  io : IoError → ObjectError
  backend : BackendError → ObjectError

-- `Storage<C>`. `source` and `backend` are the states of the system's randomness and of the shared
-- backend at the time of a call.
pub record Storage (C : CryptoProvider) (B : Backend) : Type 0 where
  pub object : Object
  pub capacity : ℕ
  pub source : C.Source
  pub backend : B.State

-- `write_all`: nothing is written for an empty slice, and `write` takes everything else at once.
unfoldable pub write_all : Bytes → Exec Object IoError ℕ
write_all [] o = (ok 0, o)
write_all (b ∷ bs) o = write (b ∷ bs) o

module _ (C : CryptoProvider) (B : Backend) where
  -- `Storage::new`
  unfoldable pub new : C.Source → B.State → Storage C B
  new source b =
      let (id, source') = C.fill crypto_digest_size source in
      record {
        object = set_id id default;
        capacity = default.capacity;
        source = source';
        backend = b;
      }

  -- `Storage::clone`: the buffer and the cursor come along, under a new id.
  unfoldable pub clone : Storage C B → Storage C B × C.Source
  clone s =
      let (id, source') = C.fill crypto_digest_size s.source in
      (record s { object = set_id id s.object; source = source' }, source')

  abbrev pub drawn : Storage C B → Option ℕ → Outcome ObjectError (Unit {0}) × Storage C B
  drawn s none = (panic, s)
  drawn s (some n) =
      let (bs, source') = C.fill n s.source in
      (ok tt, record s { object = finalize_with bs s.object; source = source' })

  -- `self.object.finalize(&self.crypto)`
  unfoldable pub finalize : Exec (Storage C B) ObjectError (Unit {0})
  finalize s = drawn s (finalize_range s.object)

  unfoldable pub write_out : Exec (Storage C B) ObjectError (Unit {0})
  write_out s =
      let (r, b) = B.write_object s.object s.backend in
      (map_err ObjectError.backend r, record s { backend = b })

  unfoldable pub renew : Exec (Storage C B) ObjectError (Unit {0})
  renew s =
      let (id, source') = C.fill crypto_digest_size s.source in
      (ok tt, record s { object = reset_cursor (set_id id s.object); source = source' })

  unfoldable pub flush : Exec (Storage C B) ObjectError (Unit {0})
  unfolding finalize write_out renew
  flush = do finalize; write_out; renew

  abbrev pub pointer : Object → CryptoDigest → Bytes → Tag → ℕ → ChunkPointer
  pointer o hash z tag _ = record {
    offs = o.cursor % 2 ^ 32;
    size = length z % 2 ^ 32;
    file = o.id;
    hash = hash;
    tag = tag;
  }

  abbrev pub returned : (ℕ → ChunkPointer) → Outcome IoError ℕ → Outcome ObjectError ChunkPointer
  returned p (ok n) = ok (p n)
  returned p (err e) = err (ObjectError.io e)
  returned p panic = panic

  abbrev pub placed :
      CryptoDigest
      → Bytes
      → Storage C B
      → Option (Bytes × Tag)
      → Outcome ObjectError ChunkPointer × Storage C B
  placed hash z s none = (panic, s)
  placed hash z s (some (c, tag)) =
      let (r, o) = write_all c s.object in
      (returned (pointer s.object hash z tag) r, record s { object = o })

  -- The rest of `store_chunk`: encrypt at the position where the object stands, and write.
  unfoldable pub place : CryptoDigest → Bytes → Exec (Storage C B) ObjectError ChunkPointer
  place hash z s = placed hash z s (C.encrypt_chunk s.object hash z)

  abbrev pub needs_flush : Bytes → Storage C B → Bool
  needs_flush z s = ltb s.capacity (s.object.cursor + length z)

  unfoldable pub make_room : Bytes → Exec (Storage C B) ObjectError (Unit {0})
  make_room z s = if needs_flush z s then flush s else (ok tt, s)

  unfoldable pub store_chunk :
      Lz4 → CryptoDigest → Bytes → Exec (Storage C B) ObjectError ChunkPointer
  store_chunk Z hash plain = do
    compressed ← lift (map_err ObjectError.io (block Z plain))
    make_room compressed
    place hash compressed

-- `NullStorage` adds up the lengths; its pointer is `Arc::default()`.
unfoldable pub null_store_chunk : CryptoDigest → Bytes → Exec ℕ ObjectError ChunkPointer
null_store_chunk hash plain n = (
  ok (record {
    offs = 0;
    size = 0;
    file = default_id;
    hash = default_id;
    tag = replicate tag_size 0;
  }),
  n + length plain,
)

unfoldable pub null_flush : Exec ℕ ObjectError (Unit {0})
null_flush n = (ok tt, n)
