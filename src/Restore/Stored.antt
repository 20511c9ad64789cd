-- ===== src/Restore/Stored.antt =====
-- A file that a worker of libzerostash/src/stash/store.rs stored and flushed, restored by a worker
-- of libzerostash/src/stash/restore.rs.
use native.Mathlib.Decide.{dec_lt}
use zerostash.Prelude.{
  ℕ, ◌+◌, ◌-◌, ◌==◌, ◌≤◌, ◌<◌, ◌≡◌, ◌∙◌, refl, sym, ap, ap₂, subst, inl, inr, false, Option, some,
  List, [], ◌∷◌, ◌++◌, get_elem?-slice, length-take, length-drop, length, take, drop, slice,
  get_elem?, ok, arith,
}
use zerostash.Prelude.Equality.{bytes_eq}
use zerostash.Prelude.Dict
use zerostash.Objects.{Bytes, CryptoDigest}
use zerostash.Chunks.{ChunkIndex}
use zerostash.Chunks.Pointer.{ChunkPointer}
use zerostash.Compress
use zerostash.Compress.{Lz4, block, max_input}
use zerostash.Crypto.Provider.{CryptoProvider, IsSound}
use zerostash.Backends
use zerostash.Backends.{Backend, Contract}
use zerostash.Storage.Keeps.{flush-IsReady}
use zerostash.Rollsum
use zerostash.Rollsum.{Rollsum}
use zerostash.Splitter.{Item, split}
use zerostash.Splitter.Chunks.{Tiles, end, item, split-Tiles}
use zerostash.Files.{Entry, entry_eq, has_changed}
use zerostash.Store.{Worker, store_changed, flush_worker}
use zerostash.Store.Files.{Recorded, none_left, recorded, store_changed-Recorded}
use zerostash.Store.Held.{IsFaithful, FreshRun, Honest, store_changed-IsFaithful}
use zerostash.Store.Kept.{Kept, flush-Kept, flush_worker-ok}
use zerostash.Restore.{done, Access, Granted, restore_file}
use zerostash.Restore.Groups.{Chunk, Some, All}
use zerostash.Restore.Rounds.{Available, Covers}
use zerostash.Restore.Whole.{restore_file-content}

module _ (C : CryptoProvider) (B : Backend) (Z : Lz4) (D : Contract B) (W : Backends.IsLawful B D)
    (contents : CryptoDigest → Bytes) (K : IsSound C) (L : Compress.IsLawful Z) where
  -- A chunk of a file is available for its restoration.
  abbrev plain_of : Chunk → Bytes
  plain_of c = contents c.1.hash

  module _ (digest : Bytes → CryptoDigest) (R : Rollsum) (G : Rollsum.IsLawful R) (content : Bytes)
      (b : B.State) (room : ℕ) (index : ChunkIndex) where
    -- Each chunk can be decompressed, and decrypted in the room.
    pub data Fits : List Item → Type 0 where
      all_fit : Fits []
      fits :
          {x : Item} {items : List Item}
          → length x.chunk ≤ max_input
          → ((z : Bytes) → block Z x.chunk ≡ ok z → length z + 16 ≤ room)
          → Fits items
          → Fits (x ∷ items)

    -- A chunk of the file, where the index points at it and the backend keeps it.
    chunk-Available :
        (size : ℕ) (x : Item) (p : ChunkPointer)
        → 0 < size
        → x.start + size ≤ length content
        → x.chunk ≡ slice content x.start (x.start + size)
        → contents x.hash ≡ x.chunk
        → length x.chunk ≤ max_input
        → ((z : Bytes) → block Z x.chunk ≡ ok z → length z + 16 ≤ room)
        → Kept C B Z D W contents K L b x.hash p
        → Available C Z B content b room (contents p.hash) (x.start, p)
    chunk-Available size x p pos inside cut honest small roomy k =
        subst (λ h. Available C Z B content b room (contents h) (x.start, p))
          (sym k.held.points.same_hash)
          (subst (λ plain. Available C Z B content b room plain (x.start, p)) (sym honest)
            (record {
              hash = x.hash;
              compressed = k.compressed;
              object = k.object;
              read = k.read;
              same_id = k.same_id;
              held = k.held;
              packed = packed;
              positive = omega (arith, long);
              small = small;
              decryptable = roomy k.compressed packed;
              part = record {
                inside = omega (arith, long);
                at = λ j h.
                    ap (λ y. get_elem? y j) cut
                    ∙ get_elem?-slice content x.start (x.start + size) j (omega (arith, long));
              };
            }))
      where
        packed : block Z x.chunk ≡ ok k.compressed
        packed = ap (block Z) (sym honest) ∙ k.packed

        long : length x.chunk ≡ size
        long = omega (
          arith,
          ap length cut,
          length-take (x.start + size - x.start) (drop x.start content),
          length-drop x.start content,
        )

    -- The chunks of an entry whose pointers the index has.
    chunks-Available :
        (items : List Item) (pointers : List Chunk) {cur : ℕ}
        → Tiles digest R G content cur items
        → Recorded index items pointers
        → Honest C B Z D W contents items
        → Fits items
        → ((hash : CryptoDigest) (p : ChunkPointer)
            → Dict.lookup hash index ≡ some p
            → Kept C B Z D W contents K L b hash p)
        → All (λ c. Available C Z B content b room (plain_of c) c) pointers
    chunks-Available _ _ (end e) none_left h f k = tt
    chunks-Available _ _ (item size x pos inside start cut digest_of rest) (recorded x' p has more)
          h (fits small roomy f) k =
        let here : x.start + size ≤ length content = omega (arith, start, inside) in
        (
          chunk-Available size x p pos here (cut ∙ ap (λ n. slice content n (n + size)) (sym start))
              h.0 small roomy (k x.hash p has),
          chunks-Available _ _ rest more h.1 f k,
        )

    -- No byte is left out.
    chunks_cover :
        (items : List Item) (pointers : List Chunk) {cur : ℕ} (i : ℕ)
        → Tiles digest R G content cur items
        → Recorded index items pointers
        → Honest C B Z D W contents items
        → ((hash : CryptoDigest) (p : ChunkPointer)
            → Dict.lookup hash index ≡ some p
            → Kept C B Z D W contents K L b hash p)
        → cur ≤ i
        → i < length content
        → Some (Covers plain_of i) pointers
    chunks_cover _ _ i (end e) none_left h k lo hi = absurd (omega arith)
    chunks_cover _ _ i (item {cur = cur} size x pos inside start cut digest_of rest)
          (recorded x' p has more) h k lo hi =
        elim (dec_lt i (cur + size)) [
          | yes near ↦
              let plain : contents p.hash ≡ x.chunk =
                ap contents (k x.hash p has).held.points.same_hash ∙ h.0 in
              inl (
                omega (arith, start),
                omega (
                  arith,
                  start,
                  ap length plain,
                  ap length cut,
                  length-take (cur + size - cur) (drop cur content),
                  length-drop cur content,
                ),
              )
          | no far ↦ inr (chunks_cover _ _ i rest more h.1 k (omega arith) hi)
        ]

  module _ (digest : Bytes → CryptoDigest) (R : Rollsum) (G : Rollsum.IsLawful R) where
    -- A file that has its entry's `size` bytes, of a size other than 0 and an entry without chunks,
    -- which a worker whose index is faithful stores and flushes, where both return, is restored from
    -- the backend with exactly its first `size` bytes, whatever file stood under its name, through the
    -- entry that the file index has of it: where the system opens, resizes and maps the name, no hash collides and no id that is drawn is that of
    -- an object that the index points into, and where its chunks fit the decompressor and the buffer
    -- of the restoring worker.
    pub stored_file-restored :
        (bytes : Bytes) (entry : Entry) (w w1 w2 : Worker C B) (access : Access)
        (old : Option Bytes) (buffer : Bytes)
        → Granted access entry.size
        → IsFaithful C B Z D W contents w
        → Honest C B Z D W contents (split digest R (take entry.size bytes))
        → FreshRun C B Z D W contents (split digest R (take entry.size bytes)) w
        → Fits digest R G
            (take entry.size bytes)
            w2.storage.backend
            (length buffer)
            w1.chunks
            (split digest R (take entry.size bytes))
        → (entry.size == 0) ≡ false
        → entry.size ≤ length bytes
        → entry.chunks ≡ []
        → store_changed C B Z digest R (some bytes) entry w ≡ (ok tt, w1)
        → flush_worker C B Z digest R w1 ≡ (ok tt, w2)
        → (pointers : List Chunk) × (has_changed (record entry { chunks = pointers }) w2.files
            ≡ false)
          × (buffer' : Bytes) × (b : B.State) × (restore_file C Z B entry.size pointers access old
                buffer w2.storage.backend
              ≡ done (some (take entry.size bytes), buffer', b))
    stored_file-restored bytes entry w w1 w2 access old buffer granted v honest fresh fit pos whole
          empty run last =
        let content : Bytes = take entry.size bytes in
        let items = split digest R content in
        let long : length content ≡ entry.size = omega (arith, length-take entry.size bytes) in
        let (flushed_run, files) = flush_worker-ok C B Z digest R w1 w2 last in
        let (v1, fresh1) =
          store_changed-IsFaithful C B Z D W contents K L digest R bytes entry w w1 v honest fresh
            pos run in
        let (pointers, all_recorded, unchanged, keeps) =
          store_changed-Recorded C B Z digest R bytes entry w w1 pos run in
        let kept = flush-Kept C B Z D W contents K L w1 w2.storage v1 fresh1 flushed_run in
        let co =
          (flush-IsReady C B Z D W K L w1.storage w2.storage v1.ready flushed_run).coherent in
        let b0 = w2.storage.backend in
        let tiles = split-Tiles digest R G content in
        let (buffer', b', done_run, size, later) =
          restore_file-content C Z B K D W L content (length buffer) plain_of pointers access old
            buffer b0 co (subst (Granted access) (sym long) granted) (ground (arith, pos, long))
            refl
            (chunks-Available digest R G content b0 (length buffer) w1.chunks items pointers tiles
              all_recorded honest fit kept)
            (λ i hi.
              chunks_cover digest R G content b0 (length buffer) w1.chunks items pointers i tiles
                all_recorded honest kept (omega arith) hi) in
        (
          pointers,
          ap₂ (λ cs fs. has_changed (record entry { chunks = cs }) fs)
                (ap (λ cs. cs ++ pointers) (sym empty)) files
              ∙ unchanged,
          buffer',
          b',
          ap (λ n. restore_file C Z B n pointers access old buffer b0) (sym long) ∙ done_run,
        )
