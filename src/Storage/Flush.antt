-- ===== src/Storage/Flush.antt =====
-- `Storage::flush`.
use zerostash.Prelude.{
  ℕ, ◌-◌, ◌^◌, ◌≤◌, ◌<◌, ◌≡◌, ◌≢◌, subst, refl, ap, ◌∙◌, sym, true, length, take, leb, Outcome, ok,
  err, panic, and_then, map_err, arith,
}
use zerostash.Objects.{Object, finalize_range, finalize_with, set_id, reset_cursor}
use zerostash.Objects.Buffer.{finalize_keeps}
use zerostash.Crypto.Provider.{CryptoProvider, IsSound}
use zerostash.Backends
use zerostash.Backends.{Contract, Backend, BackendError}
use zerostash.Storage.{Storage, backend, renew, flush}

-- The object fills its buffer, and so does the capacity; the cursor lies inside.
pub record IsValid {C : CryptoProvider} {B : Backend} (s : Storage C B) : Type 0 where
  pub full : s.capacity ≡ length s.object.buffer
  pub whole : s.object.capacity ≡ length s.object.buffer
  pub cursor_in : s.object.cursor ≤ length s.object.buffer
  pub id_size : length s.object.id ≡ 32
  pub addressable : length s.object.buffer < 2 ^ 32

-- What a successful flush from `s` to `s'` did: `o` was written to the backend, which is the object
-- of `s` with random bytes behind the cursor; `s'` starts over at 0, under the id that was drawn.
pub record Flushed {C : CryptoProvider} {B : Backend} (s s' : Storage C B) (o : Object)
    : Type 0 where
  pub stored : B.write_object o s.backend ≡ (ok tt, s'.backend)
  pub same_id : o.id ≡ s.object.id
  pub kept : take s.object.cursor o.buffer ≡ take s.object.cursor s.object.buffer
  pub size : length o.buffer ≡ length s.object.buffer
  pub same_buffer : s'.object.buffer ≡ o.buffer
  pub rewound : s'.object.cursor ≡ 0
  pub valid : IsValid s'
  pub same_capacity : s'.capacity ≡ s.capacity

module _ (C : CryptoProvider) (B : Backend) (K : IsSound C) where
  abbrev padding : Storage C B → ℕ
  padding s = length s.object.buffer - s.object.cursor

  abbrev padded : Storage C B → Object
  padded s = finalize_with (C.fill (padding s) s.source).0 s.object

  abbrev after : Storage C B → Storage C B
  after s = record s { object = padded s; source = (C.fill (padding s) s.source).1 }

  -- A flush pads, writes, and goes on only if the backend took the object.
  flush_steps :
      (s : Storage C B)
      → IsValid s
      → flush C B s ≡ (
          let (r, b) = B.write_object (padded s) s.backend in
          and_then (map_err backend r) (λ _. renew C B) (record (after s) { backend = b }))
  unfolding flush finalize_range
  flush_steps s v = rw in_buffer refl
    where
      in_buffer : leb s.object.cursor (length s.object.buffer) ≡ true
      in_buffer = ground (arith, v.cursor_in)

  abbrev renewed : Storage C B → B.State → Storage C B
  renewed s b = (renew C B (record (after s) { backend = b })).1

  padded_keeps :
      (s : Storage C B)
      → IsValid s
      → (take s.object.cursor (padded s).buffer ≡ take s.object.cursor s.object.buffer)
        × (length (padded s).buffer ≡ length s.object.buffer)
  padded_keeps s v =
      finalize_keeps (C.fill (padding s) s.source).0 s.object
        (omega (arith, K.length-fill (padding s) s.source, v.cursor_in))

  renewed-IsValid : (s : Storage C B) (b : B.State) → IsValid s → IsValid (renewed s b)
  unfolding renew reset_cursor set_id finalize_with
  renewed-IsValid s b v =
      let size = (padded_keeps s v).1 in
      record {
        full = v.full ∙ sym size;
        whole = v.whole ∙ sym size;
        cursor_in = omega arith;
        id_size = K.length-fill 32 (C.fill (padding s) s.source).1;
        addressable = omega (arith, v.addressable, size);
      }

  after-IsValid :
      (s : Storage C B) (b : B.State) → IsValid s → IsValid (record (after s) { backend = b })
  unfolding finalize_with
  after-IsValid s b v =
      let size = (padded_keeps s v).1 in
      record {
        full = v.full ∙ sym size;
        whole = v.whole ∙ sym size;
        cursor_in = omega (arith, v.cursor_in, size);
        id_size = v.id_size;
        addressable = omega (arith, v.addressable, size);
      }

  resumed :
      (s s' : Storage C B) (r : Outcome BackendError (Unit {0})) (b : B.State)
      → and_then (map_err backend r) (λ _. renew C B) (record (after s) { backend = b })
        ≡ (ok tt, s')
      → (r ≡ ok tt) × (renewed s b ≡ s')
  unfolding renew
  resumed s s' (ok tt) b e = (refl, ap (λ out. out.1) e)
  resumed s s' (err x) b e = (cc, cc)
  resumed s s' panic b e = (cc, cc)

  pub flush-Flushed :
      (s s' : Storage C B) → IsValid s → flush C B s ≡ (ok tt, s') → (o : Object) × Flushed s s' o
  unfolding renew reset_cursor set_id finalize_with
  flush-Flushed s s' v e =
      let (r, b) = B.write_object (padded s) s.backend in
      let (took, final) = resumed s s' r b (sym (flush_steps s v) ∙ e) in
      (
        padded s,
        subst (λ x. Flushed s x (padded s)) final
            (record {
              stored = ap (λ x. (x, b)) took;
              same_id = refl;
              kept = (padded_keeps s v).0;
              size = (padded_keeps s v).1;
              same_buffer = refl;
              rewound = refl;
              valid = renewed-IsValid s b v;
              same_capacity = refl;
            }),
      )

  resumed-IsValid :
      (s : Storage C B) (r : Outcome BackendError (Unit {0})) (b : B.State)
      → IsValid s
      → IsValid (and_then (map_err backend r) (λ _. renew C B) (record (after s) { backend = b })).1
  resumed-IsValid s (ok tt) b v = renewed-IsValid s b v
  resumed-IsValid s (err x) b v = after-IsValid s b v
  resumed-IsValid s panic b v = after-IsValid s b v

  -- Whatever the backend answers, a flush leaves a valid storage.
  pub flush-IsValid : (s : Storage C B) → IsValid s → IsValid (flush C B s).1
  flush-IsValid s v =
      let (r, b) = B.write_object (padded s) s.backend in
      subst (λ out. IsValid out.1) (sym (flush_steps s v)) (resumed-IsValid s r b v)

  resumed_ne_panic :
      (s : Storage C B) (r : Outcome BackendError (Unit {0})) (b : B.State)
      → r ≢ panic
      → (and_then (map_err backend r) (λ _. renew C B) (record (after s) { backend = b })).0 ≢ panic
  unfolding renew
  resumed_ne_panic s (ok tt) b h e = cc
  resumed_ne_panic s (err x) b h e = cc
  resumed_ne_panic s panic b h e = h refl

  -- A flush does not panic over a backend whose writes do not.
  pub flush-ne-panic :
      (D : Contract B)
      → Backends.IsLawful B D
      → (s : Storage C B) → IsValid s
      → (flush C B s).0 ≢ panic
  flush-ne-panic D W s v e =
      let (r, b) = B.write_object (padded s) s.backend in
      resumed_ne_panic s r b (W.write_total (padded s) s.backend)
        (ap (λ out. out.0) (sym (flush_steps s v)) ∙ e)
