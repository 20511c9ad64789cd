-- ===== src/Meta/Writer/Sealed.antt =====
-- What a successful `seal_and_store` does.
use zerostash.Prelude.{
  ℕ, ◌<◌, ◌≡◌, ◌∙◌, refl, sym, ap, Option, none, some, length, ltb, Outcome, ok, err, panic, ◌>>=◌,
  ◌>>◌, and_then, and_then-ok, unwrap, unwrap-ok, arith, Bool-cases, inl, inr,
}
use zerostash.Objects.{
  Bytes, ObjectId, Object, IoError, set_id, clear, seek, start, finalize_range, finalize_with,
  write_head, crypto_digest_size,
}
use zerostash.Crypto.Provider.{CryptoProvider}
use zerostash.Backends.{Backend}
use zerostash.Meta.{MetaObjectHeader, header_size}
use zerostash.Meta.Encoding.{Encoder, WriteState, parked, finish}
use zerostash.Meta.Writer.{
  Cbor, Writer, draw_id, header_of, headed, reoffset, next_of, track_all, write_object, restart,
  store_object, head_object, pad_object, seal_and_store, unwrap_io, padded,
}

module _ (C : CryptoProvider) (B : Backend) (E : Encoder) (S : Cbor) where
  -- The finished object was filled up with random bytes, an encoded header of less than 512 bytes
  -- was written over its head, and it was encrypted and written to the backend; the header names
  -- `next`, drawn at random, while a field is being written. A cleared object under `next` stands
  -- ready behind its header's room, with the field that is being written, if any, registered at its
  -- start.
  pub record Sealed (w w' : Writer C B E) : Type 0 where
    pub object : Object
    pub finished : (finish E w.encoder).0 ≡ ok object
    pub size : ℕ
    pub room : finalize_range object ≡ some size
    pub next : ObjectId
    pub drawn : next ≡ (C.fill crypto_digest_size (C.fill size w.source).1).0
    pub header_bytes : Bytes
    pub with_header : Object
    pub written : Object
    pub fresh : Object
    pub encoded :
        S.encode_header (record {
          next_object = next_of C B E S w.current_field next;
          offsets = w.offsets;
          end = object.cursor;
        })
        ≡ some header_bytes
    pub header_fits : length header_bytes < header_size
    pub headed :
        write_head header_bytes (finalize_with (C.fill size w.source).0 object) ≡ some with_header
    pub encrypted : C.encrypt_object with_header ≡ some written
    pub stored : B.write_object written w.backend ≡ (ok tt, w'.backend)
    pub parked_fresh : w'.encoder ≡ parked fresh
    pub fresh_id : fresh.id ≡ next
    pub fresh_cursor : fresh.cursor ≡ header_size
    pub offsets_left : w'.offsets ≡ reoffset C B E S w.current_field
    pub same_field : w'.current_field ≡ w.current_field
    pub tracked : w'.objects ≡ track_all w.offsets written.id w.objects

  -- The same from the encryption on, for an object that has its header.
  record Stored (next : ObjectId) (with_header : Object) (w w' : Writer C B E) : Type 0 where
    written : Object
    fresh : Object
    encrypted : C.encrypt_object with_header ≡ some written
    stored : B.write_object written w.backend ≡ (ok tt, w'.backend)
    parked_fresh : w'.encoder ≡ parked fresh
    fresh_id : fresh.id ≡ next
    fresh_cursor : fresh.cursor ≡ header_size
    offsets_left : w'.offsets ≡ reoffset C B E S w.current_field
    same_field : w'.current_field ≡ w.current_field
    tracked : w'.objects ≡ track_all w.offsets written.id w.objects

  -- The same from the header on, for an object that is filled up.
  record Headed (end : ℕ) (filled : Object) (next : ObjectId) (w w' : Writer C B E) : Type 0 where
    header_bytes : Bytes
    with_header : Object
    encoded : S.encode_header (header_of C B E S w next end) ≡ some header_bytes
    header_fits : length header_bytes < header_size
    headed : write_head header_bytes filled ≡ some with_header
    rest : Stored next with_header w w'

  record Restarted (object : Object) (next : ObjectId) (w w' : Writer C B E) : Type 0 where
    fresh : Object
    parked_fresh : w'.encoder ≡ parked fresh
    fresh_id : fresh.id ≡ next
    fresh_cursor : fresh.cursor ≡ header_size
    offsets_left : w'.offsets ≡ reoffset C B E S w.current_field
    same_field : w'.current_field ≡ w.current_field
    same_backend : w'.backend ≡ w.backend
    tracked : w'.objects ≡ track_all w.offsets object.id w.objects

  restart-ok :
      (object : Object) (next : ObjectId) (w w' : Writer C B E)
      → restart C B E S object next w ≡ (ok tt, w')
      → Restarted object next w w'
  unfolding restart seek clear set_id
  restart-ok object next w w' e = elim (Bool-cases (ltb object.capacity header_size)) [
    | inl small ↦ absurd (ground (arith, small, e))
    | inr room ↦ record {
      fresh = (seek (start header_size) (clear (set_id next object))).1;
      parked_fresh = ground (arith, e);
      fresh_id = ground (arith, room);
      fresh_cursor = ground (arith, room);
      offsets_left = ground (arith, e);
      same_field = ground (arith, e);
      same_backend = ground (arith, e);
      tracked = ground (arith, e);
    }
  ]

  wrote-ok :
      (object : Object) (w w' : Writer C B E)
      → write_object C B E S object w ≡ (ok tt, w')
      → (B.write_object object w.backend ≡ (ok tt, w'.backend))
        × (record w { backend = w'.backend } ≡ w')
  unfolding write_object
  wrote-ok object w w' e = ground (arith, e)

  store_object-Stored :
      (next : ObjectId) (with_header : Object) (w w' : Writer C B E)
      → store_object C B E S next with_header w ≡ (ok tt, w')
      → Stored next with_header w w'
  unfolding store_object write_object
  store_object-Stored next with_header w w' e =
      let (sealed, encrypted, e1) =
        and_then-ok (unwrap (C.encrypt_object with_header))
          (λ sealed. write_object C B E S sealed >> restart C B E S sealed next) w e in
      let (u, took, e2) =
        and_then-ok (write_object C B E S sealed w).0 (λ _. restart C B E S sealed next)
          (write_object C B E S sealed w).1 e1 in
      let w1 : Writer C B E = (write_object C B E S sealed w).1 in
      let (stored, same) = wrote-ok sealed w w1 (ap (λ r. (r, w1)) took) in
      let r = restart-ok sealed next w1 w' e2 in
      record {
        written = sealed;
        fresh = r.fresh;
        encrypted = unwrap-ok (C.encrypt_object with_header) encrypted;
        stored = stored ∙ ap (λ b. (ok tt, b)) (sym r.same_backend);
        parked_fresh = r.parked_fresh;
        fresh_id = r.fresh_id;
        fresh_cursor = r.fresh_cursor;
        offsets_left = r.offsets_left;
        same_field = r.same_field;
        tracked = r.tracked;
      }

  headed-some :
      (object object' : Object) (bytes : Option Bytes)
      → headed C B E S object bytes ≡ some object'
      → (bs : Bytes) × (bytes ≡ some bs)
        × (length bs < header_size)
        × (write_head bs object ≡ some object')
  headed-some object object' none e = absurd (cc)
  headed-some object object' (some bs) e = (bs, refl, ground (arith, e), ground (arith, e))

  head_object-Headed :
      (end : ℕ) (filled : Object) (next : ObjectId) (w w' : Writer C B E)
      → head_object C B E S end filled next w ≡ (ok tt, w')
      → Headed end filled next w w'
  unfolding head_object
  head_object-Headed end filled next w w' e =
      let header : MetaObjectHeader = header_of C B E S w next end in
      let (with_header, made, e1) =
        and_then-ok (unwrap (headed C B E S filled (S.encode_header header)))
          (store_object C B E S next) w e in
      let (bytes, encoded, fits, put) =
        headed-some filled with_header (S.encode_header header)
          (unwrap-ok (headed C B E S filled (S.encode_header header)) made) in
      record {
        header_bytes = bytes;
        with_header = with_header;
        encoded = encoded;
        header_fits = fits;
        headed = put;
        rest = store_object-Stored next with_header w w' e1;
      }

  -- Padding and drawing the id use the randomness alone.
  pad_some-Sealed :
      (object : Object) (n : Option ℕ) (w w' : Writer C B E)
      → (finish E w.encoder).0 ≡ ok object
      → finalize_range object ≡ n
      → (s : WriteState E)
      → (padded C B E S object n >>= λ p. draw_id C B E S >>= head_object C B E S object.cursor p)
          (record w { encoder = s })
        ≡ (ok tt, w')
      → Sealed w w'
  unfolding draw_id header_of
  pad_some-Sealed object none w w' finished room s e = absurd (cc)
  pad_some-Sealed object (some n) w w' finished room s e =
      let h = head_object-Headed object.cursor _ _ _ w' e in
      record {
        object = object;
        finished = finished;
        size = n;
        room = room;
        next = (C.fill crypto_digest_size (C.fill n w.source).1).0;
        drawn = refl;
        header_bytes = h.header_bytes;
        with_header = h.with_header;
        written = h.rest.written;
        fresh = h.rest.fresh;
        encoded = h.encoded;
        header_fits = h.header_fits;
        headed = h.headed;
        encrypted = h.rest.encrypted;
        stored = h.rest.stored;
        parked_fresh = h.rest.parked_fresh;
        fresh_id = h.rest.fresh_id;
        fresh_cursor = h.rest.fresh_cursor;
        offsets_left = h.rest.offsets_left;
        same_field = h.rest.same_field;
        tracked = h.rest.tracked;
      }

  finished-Sealed :
      (r : Outcome IoError Object) (s : WriteState E) (w w' : Writer C B E)
      → (finish E w.encoder).0 ≡ r
      → and_then (unwrap_io r) (pad_object C B E S) (record w { encoder = s }) ≡ (ok tt, w')
      → Sealed w w'
  unfolding pad_object
  finished-Sealed (ok object) s w w' same e =
      pad_some-Sealed object (finalize_range object) w w' same refl s e
  finished-Sealed (err x) s w w' same e = absurd (cc)
  finished-Sealed panic s w w' same e = absurd (cc)

  pub seal_and_store-Sealed :
      (w w' : Writer C B E) → seal_and_store C B E S w ≡ (ok tt, w') → Sealed w w'
  unfolding seal_and_store
  seal_and_store-Sealed w w' e =
      finished-Sealed (finish E w.encoder).0 (finish E w.encoder).1 w w' refl e
