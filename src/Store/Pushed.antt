-- ===== src/Store/Pushed.antt =====
-- What `push_item` does where it returns.
use zerostash.Prelude.{
  ◌≡◌, ◌∙◌, refl, sym, ap, ap₂, inl, inr, some, Option-cases, Outcome, ok, err, panic,
}
use zerostash.Prelude.Equality.{bytes_eq}
use zerostash.Prelude.Dict
use zerostash.Prelude.Dict.{lookup-insert_self, lookup-insert_ne}
use zerostash.Objects.{Bytes, CryptoDigest, IoError}
use zerostash.Chunks
use zerostash.Chunks.{ChunkIndex}
use zerostash.Chunks.Pointer.{ChunkPointer}
use zerostash.Compress.{Lz4, block}
use zerostash.Crypto.Provider.{CryptoProvider}
use zerostash.Backends.{Backend}
use zerostash.Storage.{Storage, ObjectError, store_chunk}
use zerostash.Splitter.{Item}
use zerostash.Store.{Worker, pushed, push_item}

module _ (C : CryptoProvider) (B : Backend) (Z : Lz4) where
  -- How the push of a chunk that returns ends: with the pointer of the index and nothing done, or
  -- with the chunk stored and its pointer in the index.
  pub data PushedItem (x : Item) (w w' : Worker C B) (p : ChunkPointer) : Type 0 where
    known :
        Dict.lookup x.hash w.chunks ≡ some p
        → w'.chunks ≡ w.chunks
        → w'.storage ≡ w.storage
        → PushedItem x w w' p
    stored :
        w'.chunks ≡ Dict.insert x.hash p w.chunks
        → store_chunk C B Z x.hash x.chunk w.storage ≡ (ok p, w'.storage)
        → PushedItem x w w' p

  stored-PushedItem :
      (x : Item) (w w' : Worker C B) (p : ChunkPointer) (r : Outcome ObjectError ChunkPointer)
      (s : Storage C B)
      → store_chunk C B Z x.hash x.chunk w.storage ≡ (r, s)
      → pushed C B Z w (Chunks.inserted x.hash w.chunks (r, s)) ≡ (ok p, w')
      → PushedItem x w w' p
  stored-PushedItem x w w' p (ok q) s run e =
      let same : q ≡ p = cc in
      stored (sym (ap (λ r. r.1.chunks) e) ∙ ap (λ k. Dict.insert x.hash k w.chunks) same)
        (run ∙ ap₂ (λ k t. (ok k, t)) same (ap (λ r. r.1.storage) e))
  stored-PushedItem x w w' p (err y) s run e = absurd (cc)
  stored-PushedItem x w w' p panic s run e = absurd (cc)

  known-PushedItem :
      (x : Item) (w w' : Worker C B) (p q : ChunkPointer)
      → Dict.lookup x.hash w.chunks ≡ some q
      → pushed C B Z w (ok q, (w.chunks, w.storage)) ≡ (ok p, w')
      → PushedItem x w w' p
  known-PushedItem x w w' p q hit e =
      let same : q ≡ p = cc in
      known (hit ∙ ap some same) (sym (ap (λ r. r.1.chunks) e)) (sym (ap (λ r. r.1.storage) e))

  pub push_item-PushedItem :
      (x : Item) (w w' : Worker C B) (p : ChunkPointer)
      → push_item C B Z x w ≡ (ok p, w')
      → PushedItem x w w' p
  unfolding push_item Chunks.push Chunks.entry
  push_item-PushedItem x w w' p e = elim (Option-cases (Dict.lookup x.hash w.chunks)) [
    | inl miss ↦
        stored-PushedItem x w w' p (store_chunk C B Z x.hash x.chunk w.storage).0
          (store_chunk C B Z x.hash x.chunk w.storage).1 refl (rw (miss, miss) at e)
    | inr (q, hit) ↦ known-PushedItem x w w' p q hit (rw hit at e)
  ]

  -- A chunk that was stored was compressed.
  pub store_chunk-block :
      (hash : CryptoDigest) (plain : Bytes) (s s' : Storage C B) (p : ChunkPointer)
      → store_chunk C B Z hash plain s ≡ (ok p, s')
      → (z : Bytes) × (block Z plain ≡ ok z)
  unfolding store_chunk
  store_chunk-block hash plain s s' p e = compressed (block Z plain) refl
    where
      compressed :
          (r : Outcome IoError Bytes) → block Z plain ≡ r → (z : Bytes) × (block Z plain ≡ ok z)
      compressed (ok z) h = (z, h)
      compressed (err x) h =
          let bad : ◌≡◌ {A = Outcome ObjectError ChunkPointer × Storage C B}
              (err (ObjectError.io x), s) (ok p, s') =
            rw h at e in
          absurd (cc)
      compressed panic h =
          let bad : ◌≡◌ {A = Outcome ObjectError ChunkPointer × Storage C B} (panic, s) (ok p, s') =
            rw h at e in
          absurd (cc)
