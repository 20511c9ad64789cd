-- ===== src/Store/Files.antt =====
-- What storing a file leaves in the indices of `ChunkStore` and `FileStore`.
use zerostash.Prelude.{
  ℕ, ◌==◌, ◌>>=◌, subst, ◌≡◌, ◌∙◌, sym, ap, ap₂, some, Option-cases, inl, inr, List, [], ◌∷◌, ◌++◌,
  take, append-nil, append_assoc, Outcome, ok, err, panic, Exec, and_then-ok, false, arith,
}
use zerostash.Prelude.Equality.{bytes_eq}
use zerostash.Prelude.Dict
use zerostash.Objects.{Bytes, CryptoDigest}
use zerostash.Chunks
use zerostash.Chunks.{ChunkIndex}
use zerostash.Chunks.Dedup.{Pushed, entry-Pushed}
use zerostash.Chunks.Pointer.{ChunkPointer}
use zerostash.Compress.{Lz4}
use zerostash.Crypto.Provider.{CryptoProvider}
use zerostash.Backends.{Backend}
use zerostash.Storage.{Storage, ObjectError, store_chunk}
use zerostash.Rollsum.{Rollsum}
use zerostash.Splitter.{Item, split}
use zerostash.Files as FileStore
use zerostash.Files.{Entry, entry_eq, FileIndex, has_changed}
use zerostash.Files.Changed.{has_changed-push}
use zerostash.Store.{Worker, pushed, push_item, push_items, add_entry, store_changed}

-- The chunks of an entry are those of a list of items: each offset is the item's, and each pointer is
-- the one that the index has under the item's hash.
pub data Recorded (index : ChunkIndex) : List Item → List (ℕ × ChunkPointer) → Type 0 where
  none_left : Recorded index [] []
  recorded :
      {items : List Item} {pointers : List (ℕ × ChunkPointer)} (x : Item) (p : ChunkPointer)
      → Dict.lookup x.hash index ≡ some p
      → Recorded index items pointers
      → Recorded index (x ∷ items) ((x.start, p) ∷ pointers)

-- Every pointer of the one index is in the other.
abbrev pub Keeps : ChunkIndex → ChunkIndex → Type 0
Keeps before after =
    (d : CryptoDigest) (q : ChunkPointer)
    → Dict.lookup d before ≡ some q
    → Dict.lookup d after ≡ some q

module _ {S E : Type 0} (digest : CryptoDigest) (store : Exec S E ChunkPointer) where
  push-Pushed :
      (index index' : ChunkIndex) (s s' : S) (p : ChunkPointer)
      → Chunks.push digest store (λ i. i) (index, s) ≡ (ok p, (index', s'))
      → Pushed digest store index index' p
  unfolding Chunks.push Chunks.entry
  push-Pushed index index' s s' p e = elim (Option-cases (Dict.lookup digest index)) [
    | inl miss ↦ entry-Pushed digest store index index' s s' p (rw miss at e)
    | inr (q, hit) ↦ entry-Pushed digest store index index' s s' p (rw hit (rw hit at e))
  ]

-- An entry that was just pushed counts as unchanged.
has_changed-pushed :
    (e : Entry) (index : FileIndex) → has_changed e (FileStore.push e index) ≡ false
has_changed-pushed e index = ground (arith, has_changed-push e e index)

module _ (C : CryptoProvider) (B : Backend) (Z : Lz4) where
  pushed-ok :
      (w w' : Worker C B) (p : ChunkPointer) (r : Outcome ObjectError ChunkPointer)
      (index : ChunkIndex) (s : Storage C B)
      → pushed C B Z w (r, (index, s)) ≡ (ok p, w')
      → (r ≡ ok p) × (index ≡ w'.chunks) × (w'.files ≡ w.files)
  pushed-ok w w' p (ok q) index s e = (cc, ap (λ x. x.1.chunks) e, sym (ap (λ x. x.1.files) e))
  pushed-ok w w' p (err x) index s e = absurd (cc)
  pushed-ok w w' p panic index s e = absurd (cc)

  push_item-Pushed :
      (x : Item) (w w' : Worker C B) (p : ChunkPointer)
      → push_item C B Z x w ≡ (ok p, w')
      → (Dict.lookup x.hash w'.chunks ≡ some p) × Keeps w.chunks w'.chunks × (w'.files ≡ w.files)
  unfolding push_item
  push_item-Pushed x w w' p e =
      let store = store_chunk C B Z x.hash x.chunk in
      let result = Chunks.push x.hash store (λ index. index) (w.chunks, w.storage) in
      let (is_ok, index, files) = pushed-ok w w' p result.0 result.1.0 result.1.1 e in
      let done =
        push-Pushed x.hash store w.chunks w'.chunks w.storage result.1.1 p
          (ap₂ (λ r i. (r, (i, result.1.1))) is_ok index) in
      (done.present, done.others_kept, files)

  Recorded-Keeps :
      (before after : ChunkIndex) (items : List Item) (pointers : List (ℕ × ChunkPointer))
      → Keeps before after
      → Recorded before items pointers
      → Recorded after items pointers
  Recorded-Keeps before after _ _ keeps none_left = none_left
  Recorded-Keeps before after _ _ keeps (recorded x p has rest) =
      recorded x p (keeps x.hash p has) (Recorded-Keeps before after _ _ keeps rest)

  -- The loop over the chunks of a file appends to the entry one pointer for each chunk, in order:
  -- the offset of the chunk, and the pointer that the index has under its hash when the loop ends.
  -- No pointer that was in the index is lost, and the file index is left alone.
  pub push_items-Recorded :
      (items : List Item) (entry entry' : Entry) (w w' : Worker C B)
      → push_items C B Z items entry w ≡ (ok entry', w')
      → (pointers : List (ℕ × ChunkPointer)) × (entry'
          ≡ record entry { chunks = entry.chunks ++ pointers })
        × Recorded w'.chunks items pointers
        × Keeps w.chunks w'.chunks
        × (w'.files ≡ w.files)
  unfolding push_items
  push_items-Recorded [] entry entry' w w' e = (
    [],
    ap (λ r. elim r.0 [ ok a ↦ a | err x ↦ entry' | panic ↦ entry' ]) (sym e)
        ∙ ap (λ c. record entry { chunks = c }) (sym (append-nil entry.chunks)),
    none_left,
    λ d q h. ap (λ r. Dict.lookup d r.1.chunks) (sym e) ∙ h,
    ap (λ r. r.1.files) (sym e),
  )
  push_items-Recorded (x ∷ items) entry entry' w w' e =
      let (p, first, rest) = and_then-ok _ _ _ e in
      let (has, keeps, files) =
        push_item-Pushed x w _ p (ap (λ r. (r, (push_item C B Z x w).1)) first) in
      let (pointers, entry_is, record_rest, keeps_rest, files_rest) =
        push_items-Recorded items _ entry' _ w' rest in
      (
        (x.start, p) ∷ pointers,
        entry_is
            ∙ ap (λ c. record entry { chunks = c })
                (append_assoc entry.chunks ((x.start, p) ∷ []) pointers),
        recorded x p (keeps_rest x.hash p has) record_rest,
        λ d q h. keeps_rest d q (keeps d q h),
        files_rest ∙ files,
      )

  module _ (chunk_hash : Bytes → CryptoDigest) (R : Rollsum) where
    -- A file that has changed and is not empty is stored with an entry that lists, for each chunk of
    -- its first `size` bytes and in order, its offset and the pointer that the chunk index has under
    -- its hash, where the store returns; the file index has this entry then, and the chunk index
    -- every pointer that it had.
    pub store_changed-Recorded :
        (bytes : Bytes) (entry : Entry) (w w' : Worker C B)
        → (entry.size == 0) ≡ false
        → store_changed C B Z chunk_hash R (some bytes) entry w ≡ (ok tt, w')
        → (pointers : List (ℕ × ChunkPointer)) × Recorded w'.chunks
            (split chunk_hash R (take entry.size bytes))
            pointers
          × (has_changed (record entry { chunks = entry.chunks ++ pointers }) w'.files ≡ false)
          × Keeps w.chunks w'.chunks
    unfolding store_changed
    store_changed-Recorded bytes entry w w' some_bytes e =
        let items = split chunk_hash R (take entry.size bytes) in
        let run : (push_items C B Z items entry >>= add_entry C B Z) w ≡ (ok tt, w') =
          rw some_bytes at e in
        let (entry', pushed_all, rest) = and_then-ok _ _ _ run in
        let (pointers, entry_is, all_recorded, keeps, files) =
          push_items-Recorded items entry entry' w _
            (ap (λ r. (r, (push_items C B Z items entry w).1)) pushed_all) in
        let chunks_are = ap (λ r. r.1.chunks) rest in
        (
          pointers,
          subst (λ index. Recorded index items pointers) chunks_are all_recorded,
          ap₂ has_changed (sym entry_is) (sym (ap (λ r. r.1.files) rest))
              ∙ has_changed-pushed entry' _,
          subst (λ index. Keeps w.chunks index) chunks_are keeps,
        )
