-- ===== src/Store/Held.antt =====
-- What the chunk index of a worker points at: every pointer is to the stored chunk of its hash.
use zerostash.Prelude.{
  ◌==◌, ◌>>=◌, take, false, ◌≡◌, ◌≢◌, ◌∙◌, sym, ap, subst, subst₂, Option, some, List, [], ◌∷◌,
  ◌++◌, ok, and_then-ok, true,
}
use zerostash.Prelude.Equality.{bytes_eq}
use zerostash.Prelude.Dict
use zerostash.Prelude.Dict.{lookup-insert_self, lookup-insert_ne}
use zerostash.Objects.{Bytes, CryptoDigest}
use zerostash.Chunks.Pointer.{ChunkPointer}
use zerostash.Compress
use zerostash.Compress.{Lz4, block}
use zerostash.Crypto.Provider.{CryptoProvider, IsSound}
use zerostash.Backends
use zerostash.Backends.{Backend, Contract}
use zerostash.Storage.{Storage, flush, needs_flush}
use zerostash.Storage.Outcomes.{Room, stayed, flushed, Stored, store_chunk-Stored}
use zerostash.Storage.Located.{Located, Placed-Located}
use zerostash.Storage.Keeps.{IsReady, Stored-IsReady, Stored-keeps}
use zerostash.Rollsum.{Rollsum}
use zerostash.Splitter.{Item, split}
use zerostash.Files.{Entry}
use zerostash.Store.{Worker, push_item, push_items, add_entry, store_changed}
use zerostash.Store.Pushed.{PushedItem, known, stored, push_item-PushedItem, store_chunk-block}

-- What the model knows of hashes: `contents` is the chunk of each hash, for hashes that do not
-- collide.
module _ (C : CryptoProvider) (B : Backend) (Z : Lz4) (D : Contract B) (W : Backends.IsLawful B D)
    (contents : CryptoDigest → Bytes) where
  -- The chunk of the hash is held, compressed, where the pointer tells.
  pub record Held (s : Storage C B) (hash : CryptoDigest) (p : ChunkPointer) : Type 0 where
    pub compressed : Bytes
    pub packed : block Z (contents hash) ≡ ok compressed
    pub located : Located s p hash compressed

  pub record IsFaithful (w : Worker C B) : Type 0 where
    pub ready : IsReady C B Z D W w.storage
    pub held :
        (hash : CryptoDigest) (p : ChunkPointer)
        → Dict.lookup hash w.chunks ≡ some p
        → Held w.storage hash p

  -- The id that the next flush draws is that of no object that the index points into.
  abbrev pub Fresh : Worker C B → Type 0
  Fresh w =
      (hash : CryptoDigest) (p : ChunkPointer)
      → Dict.lookup hash w.chunks ≡ some p
      → p.file ≢ (flush C B w.storage).1.object.id

  abbrev pub FreshRun : List Item → Worker C B → Type 0
  FreshRun [] w = Fresh w
  FreshRun (x ∷ items) w = Fresh w × FreshRun items (push_item C B Z x w).1

  -- The hash of each item is that of its chunk.
  abbrev pub Honest : List Item → Type 0
  Honest [] = Unit
  Honest (x ∷ items) = (contents x.hash ≡ x.chunk) × Honest items

  module _ (K : IsSound C) (L : Compress.IsLawful Z) where
    pub flushed_id :
        (hash : CryptoDigest) (plain z : Bytes) (s s' : Storage C B) (p : ChunkPointer)
        (d : Stored C B K Z hash plain z s s' p)
        → needs_flush C B z s ≡ true
        → s'.object.id ≡ (flush C B s).1.object.id
    flushed_id hash plain z s s' p d full = d.placed.same_id ∙ same d.before d.made
      where
        same : (t : Storage C B) → Room z s t → t.object.id ≡ (flush C B s).1.object.id
        same t (stayed free e) = absurd (cc)
        same t (flushed f run) = sym (ap (λ r. r.1.object.id) run)

    pub push_item-IsFaithful :
        (x : Item) (w w' : Worker C B) (p : ChunkPointer)
        → IsFaithful w
        → contents x.hash ≡ x.chunk
        → Fresh w
        → push_item C B Z x w ≡ (ok p, w')
        → IsFaithful w'
    push_item-IsFaithful x w w' p v honest fresh e = go (push_item-PushedItem C B Z x w w' p e)
      where
        after_insert :
            (z : Bytes) (packed : block Z x.chunk ≡ ok z)
            (d : Stored C B K Z x.hash x.chunk z w.storage w'.storage p) (h : CryptoDigest)
            (q : ChunkPointer)
            → Dict.lookup h (Dict.insert x.hash p w.chunks) ≡ some q
            → Held w'.storage h q
        after_insert z packed d h q found = elim (bytes_eq.dec h x.hash) [
          | yes same ↦
              let both : ◌≡◌ {A = Option ChunkPointer} (some p) (some q) =
                sym (lookup-insert_self h x.hash p w.chunks same) ∙ found in
              let here : p ≡ q = cc in
              record {
                compressed = z;
                packed = ap (block Z) (ap contents same ∙ honest) ∙ packed;
                located =
                    subst₂ (λ k y. Located w'.storage k y z) here (sym same)
                      (Placed-Located C B K x.hash z d.before w'.storage p d.placed);
              }
          | no ne ↦
              let old = sym (lookup-insert_ne h x.hash p w.chunks ne) ∙ found in
              let was = v.held h q old in
              record {
                compressed = was.compressed;
                packed = was.packed;
                located =
                    Stored-keeps C B Z D W K L x.hash h x.chunk z was.compressed w.storage
                      w'.storage p q v.ready d
                      (λ full same.
                        fresh h q old
                          (same ∙ flushed_id x.hash x.chunk z w.storage w'.storage p d full))
                      was.located;
              }
        ]

        go : PushedItem C B Z x w w' p → IsFaithful w'
        go (known hit chunks storage) = record {
          ready = subst (IsReady C B Z D W) (sym storage) v.ready;
          held = λ h q found.
              subst (λ s. Held s h q) (sym storage)
                (v.held h q (ap (Dict.lookup h) (sym chunks) ∙ found));
        }
        go (stored chunks run) =
            let (z, packed) = store_chunk-block C B Z x.hash x.chunk w.storage w'.storage p run in
            let d =
              store_chunk-Stored C B K Z x.hash x.chunk z w.storage w'.storage p v.ready.valid
                packed (L.compress-lt x.chunk z (unfold block in packed)) run in
            record {
              ready =
                  Stored-IsReady C B Z D W K L x.hash x.chunk z w.storage w'.storage p v.ready d;
              held = λ h q found.
                  after_insert z packed d h q (ap (Dict.lookup h) (sym chunks) ∙ found);
            }

    -- Pushing the chunks of a file keeps the worker faithful, and every id fresh to the end.
    pub push_items-IsFaithful :
        (items : List Item) (entry entry' : Entry) (w w' : Worker C B)
        → IsFaithful w
        → Honest items
        → FreshRun items w
        → push_items C B Z items entry w ≡ (ok entry', w')
        → IsFaithful w' × Fresh w'
    unfolding push_items
    push_items-IsFaithful [] entry entry' w w' v honest fresh e =
        subst (λ u. IsFaithful u × Fresh u) (ap (λ r. r.1) e) (v, fresh)
    push_items-IsFaithful (x ∷ items) entry entry' w w' v honest fresh e =
        let w1 : Worker C B = (push_item C B Z x w).1 in
        let (p, first, rest) =
          and_then-ok (push_item C B Z x w).0
            (λ ptr.
              push_items C B Z items
                (record entry { chunks = entry.chunks ++ (x.start, ptr) ∷ [] }))
            w1 e in
        push_items-IsFaithful items _ entry' w1 w'
          (push_item-IsFaithful x w w1 p v honest.0 fresh.0 (ap (λ r. (r, w1)) first)) honest.1
          fresh.1 rest

    -- Storing a changed file of a size other than 0 keeps the worker faithful.
    pub store_changed-IsFaithful :
        (digest : Bytes → CryptoDigest) (R : Rollsum) (bytes : Bytes) (entry : Entry)
        (w w' : Worker C B)
        → IsFaithful w
        → Honest (split digest R (take entry.size bytes))
        → FreshRun (split digest R (take entry.size bytes)) w
        → (entry.size == 0) ≡ false
        → store_changed C B Z digest R (some bytes) entry w ≡ (ok tt, w')
        → IsFaithful w' × Fresh w'
    unfolding store_changed
    store_changed-IsFaithful digest R bytes entry w w' v honest fresh some_bytes e =
        let items = split digest R (take entry.size bytes) in
        let w1 : Worker C B = (push_items C B Z items entry w).1 in
        let run : (push_items C B Z items entry >>= add_entry C B Z) w ≡ (ok tt, w') =
          rw some_bytes at e in
        let (entry', pushed_all, rest) =
          and_then-ok (push_items C B Z items entry w).0 (add_entry C B Z) w1 run in
        let (v1, fresh1) =
          push_items-IsFaithful items entry entry' w w1 v honest fresh
            (ap (λ r. (r, w1)) pushed_all) in
        subst (λ u. IsFaithful u × Fresh u) (ap (λ r. r.1) rest)
          (record { ready = v1.ready; held = v1.held }, fresh1)
