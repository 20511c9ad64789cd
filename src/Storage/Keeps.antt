-- ===== src/Storage/Keeps.antt =====
-- Chunks outlast whatever the storage and the other users of the backend do later.
use zerostash.Prelude.{◌≡◌, ◌≢◌, ◌∙◌, ok, subst, sym, ap, true, length}
use zerostash.Objects.{Bytes, CryptoDigest, ObjectId, Object}
use zerostash.Chunks.Pointer.{ChunkPointer}
use zerostash.Compress
use zerostash.Compress.{Lz4, block}
use zerostash.Crypto.Provider.{CryptoProvider, IsSound}
use zerostash.Backends
use zerostash.Backends.{Contract, Backend}
use zerostash.Storage.{Storage, flush, store_chunk, needs_flush}
use zerostash.Storage.Flush.{IsValid, flush-Flushed}
use zerostash.Storage.Outcomes.{Room, stayed, flushed as flushed_first, Stored, store_chunk-Stored}
use zerostash.Storage.Located.{Located, pending, flushed, Placed-keeps, Flushed-keeps}

module _ (C : CryptoProvider) (B : Backend) (Z : Lz4) (D : Contract B)
    (W : Backends.IsLawful B D) where
  -- What may happen between two states of one storage, as far as the object `file` goes: calls that
  -- succeed and do not draw `file` as a new id, and calls of other users of the backend, which write
  -- objects of other ids and of a size that is accepted, and read any.
  pub data Reach (file : ObjectId) (s : Storage C B) : Storage C B → Type 0 where
    here : Reach file s s
    store :
        {t u : Storage C B} (hash : CryptoDigest) (plain z : Bytes) (p : ChunkPointer)
        → Reach file s t
        → block Z plain ≡ ok z
        → store_chunk C B Z hash plain t ≡ (ok p, u)
        → (needs_flush C B z t ≡ true → file ≢ u.object.id)
        → Reach file s u
    finish :
        {t u : Storage C B}
        → Reach file s t
        → flush C B t ≡ (ok tt, u)
        → file ≢ u.object.id
        → Reach file s u
    others_write :
        {t : Storage C B} (o : Object) (b : B.State)
        → Reach file s t
        → B.write_object o t.backend ≡ (ok tt, b)
        → D.Accepts (length o.buffer)
        → file ≢ o.id
        → Reach file s (record t { backend = b })
    others_read :
        {t : Storage C B} (id : ObjectId)
        → Reach file s t
        → Reach file s (record t { backend = (B.read_object id t.backend).1 })

  -- The storage is valid, its backend coherent, and the size of its object accepted.
  pub record IsReady (s : Storage C B) : Type 0 where
    pub valid : IsValid s
    pub coherent : D.Coherent s.backend
    pub accepted : D.Accepts (length s.object.buffer)

  with_backend :
      (s : Storage C B) (b : B.State)
      → IsReady s
      → D.Coherent b
      → IsReady (record s { backend = b })
  with_backend s b v co = record {
    valid = record {
      full = v.valid.full;
      whole = v.valid.whole;
      cursor_in = v.valid.cursor_in;
      id_size = v.valid.id_size;
      addressable = v.valid.addressable;
    };
    coherent = co;
    accepted = v.accepted;
  }

  module _ (K : IsSound C) (L : Compress.IsLawful Z) where
    pub flush-IsReady : (s s' : Storage C B) → IsReady s → flush C B s ≡ (ok tt, s') → IsReady s'
    flush-IsReady s s' v run =
        let (o, f) = flush-Flushed C B K s s' v.valid run in
        record {
          valid = f.valid;
          coherent =
              W.write-Coherent o s.backend s'.backend v.coherent
                (subst D.Accepts (sym f.size) v.accepted) f.stored;
          accepted = subst D.Accepts (sym (ap length f.same_buffer ∙ f.size)) v.accepted;
        }

    pub Room-IsReady : (z : Bytes) (s t : Storage C B) → IsReady s → Room z s t → IsReady t
    Room-IsReady z s t v (stayed free same) = subst IsReady (sym same) v
    Room-IsReady z s t v (flushed_first full run) = flush-IsReady s t v run

    pub Stored-IsReady :
        (hash : CryptoDigest) (plain z : Bytes) (s s' : Storage C B) (p : ChunkPointer)
        → IsReady s
        → Stored C B K Z hash plain z s s' p
        → IsReady s'
    Stored-IsReady hash plain z s s' p v d =
        let before = Room-IsReady z s d.before v d.made in
        record {
          valid = d.placed.valid;
          coherent = subst D.Coherent (sym d.placed.same_backend) before.coherent;
          accepted = subst D.Accepts (sym d.placed.size) before.accepted;
        }

    pub Stored-keeps :
        (hash h : CryptoDigest) (plain z w : Bytes) (s s' : Storage C B) (p q : ChunkPointer)
        → IsReady s
        → Stored C B K Z hash plain z s s' p
        → (needs_flush C B z s ≡ true → q.file ≢ s'.object.id)
        → Located s q h w
        → Located s' q h w
    Stored-keeps hash h plain z w s s' p q v d fresh at =
        Placed-keeps C B K hash h z w d.before s' p q d.placed
          (before d.before d.made d.placed.same_id)
      where
        before : (t : Storage C B) → Room z s t → s'.object.id ≡ t.object.id → Located t q h w
        before t (stayed free same) e = subst (λ (x : Storage C B). Located x q h w) (sym same) at
        before t (flushed_first full run) e =
            let (o, f) = flush-Flushed C B K s t v.valid run in
            Flushed-keeps C B K D W h w s t q o v.coherent v.accepted f
              (λ x. fresh full (x ∙ sym e)) at

    others-keep :
        (h : CryptoDigest) (w : Bytes) (t : Storage C B) (b : B.State) (q : ChunkPointer)
        → ((r : Object)
            → (B.read_object q.file t.backend).0 ≡ ok r
            → (B.read_object q.file b).0 ≡ ok r)
        → Located t q h w
        → Located (record t { backend = b }) q h w
    others-keep h w t b q same (pending file below held) = pending file below held
    others-keep h w t b q same (flushed other r read id held) =
        flushed other r (same r read) id held

    -- A chunk that a storage or its backend holds is still held after every history of stores and
    -- flushes that succeed and draw ids other than its object's, and of writes of accepted objects
    -- under other ids and reads by other users, which starts in a valid storage over a coherent
    -- backend that accepts the storage's objects; the storage and the backend are so again then.
    pub Reach-keeps :
        (h : CryptoDigest) (w : Bytes) (q : ChunkPointer) {s t : Storage C B}
        → Reach q.file s t
        → IsReady s
        → Located s q h w
        → IsReady t × Located t q h w
    Reach-keeps h w q here v at = (v, at)
    Reach-keeps h w q (store {t = t} {u = u} hash plain z p r packed run fresh) v at =
        let (vt, lt) = Reach-keeps h w q r v at in
        let d =
          store_chunk-Stored C B K Z hash plain z t u p vt.valid packed
            (L.compress-lt plain z (unfold block in packed)) run in
        (
          Stored-IsReady hash plain z t u p vt d,
          Stored-keeps hash h plain z w t u p q vt d fresh lt,
        )
    Reach-keeps h w q (finish {t = t} {u = u} r run fresh) v at =
        let (vt, lt) = Reach-keeps h w q r v at in
        let (o, f) = flush-Flushed C B K t u vt.valid run in
        (
          flush-IsReady t u vt run,
          Flushed-keeps C B K D W h w t u q o vt.coherent vt.accepted f fresh lt,
        )
    Reach-keeps h w q (others_write {t = t} o b r run fits other) v at =
        let (vt, lt) = Reach-keeps h w q r v at in
        (
          with_backend t b vt (W.write-Coherent o t.backend b vt.coherent fits run),
          others-keep h w t b q
              (λ x. W.read-write_ne o x q.file t.backend b vt.coherent fits run other) lt,
        )
    Reach-keeps h w q (others_read {t = t} id r) v at =
        let (vt, lt) = Reach-keeps h w q r v at in
        (
          with_backend t (B.read_object id t.backend).1 vt
              (W.read-Coherent id t.backend vt.coherent),
          others-keep h w t (B.read_object id t.backend).1 q
              (λ x. W.read-read id q.file x t.backend vt.coherent) lt,
        )
