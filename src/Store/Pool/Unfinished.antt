-- ===== src/Store/Pool/Unfinished.antt =====
-- libzerostash/src/stash/store.rs: the steps of a worker that do not end it.
use zerostash.Prelude.{
  ◌≡◌, ◌≢◌, inl, inr, Bool-cases, Option, none, some, List, [], ◌∷◌, ◌==◌, Outcome, ok, err, panic,
}
use zerostash.Objects.{Bytes, CryptoDigest}
use zerostash.Compress.{Lz4}
use zerostash.Crypto.Provider.{CryptoProvider}
use zerostash.Backends.{Backend}
use zerostash.Rollsum.{Rollsum}
use zerostash.Splitter.{Item}
use zerostash.Files.{Entry, Metadata, from_file, has_changed}
use zerostash.Chunks.Pointer.{ChunkPointer}
use zerostash.Storage.{ObjectError}
use zerostash.Store.{Worker, DirEntry, push_item, has_parent, unwrapped}
use zerostash.Store.Pool.{
  waiting, finished, begin_file, next_chunk, after_push, begin_mapped, begin_changed, begin_entry,
  begin_opened,
}

module _ (C : CryptoProvider) (B : Backend) (Z : Lz4) (digest : Bytes → CryptoDigest)
    (R : Rollsum) where
  pub next_chunk-unfinished :
      (entry : Entry) (items : List Item) (w : Worker C B)
      → (next_chunk C B Z digest R entry items w).0 ≢ finished
  unfolding next_chunk
  next_chunk-unfinished entry [] w e = cc
  next_chunk-unfinished entry (x ∷ items) w e = after (push_item C B Z x w).0 e
    where
      after :
          (r : Outcome ObjectError ChunkPointer)
          → after_push C B Z digest R x.start entry items r ≢ finished
      after (ok ptr) e = cc
      after (err x) e = cc
      after panic e = cc

  begin_mapped-unfinished :
      (mapped : Option Bytes) (entry : Entry) (w : Worker C B)
      → (begin_mapped C B Z digest R mapped entry w).0 ≢ finished
  begin_mapped-unfinished none entry w e = cc
  begin_mapped-unfinished (some bytes) entry w e = cc

  begin_changed-unfinished :
      (mapped : Option Bytes) (entry : Entry) (w : Worker C B)
      → (begin_changed C B Z digest R mapped entry w).0 ≢ finished
  begin_changed-unfinished mapped entry w e = elim (Bool-cases (entry.size == 0)) [
    | inl nothing ↦ let bad : waiting ≡ finished = rw nothing at e in cc
    | inr some_bytes ↦ begin_mapped-unfinished mapped entry w (rw some_bytes at e)
  ]

  begin_entry-unfinished :
      (mapped : Option Bytes) (r : Outcome ObjectError Entry) (w : Worker C B)
      → (begin_entry C B Z digest R mapped r w).0 ≢ finished
  begin_entry-unfinished mapped (ok entry) w e = elim (Bool-cases (has_changed entry w.files)) [
    | inl changed ↦ begin_changed-unfinished mapped entry w (rw changed at e)
    | inr known ↦ let bad : waiting ≡ finished = rw known at e in cc
  ]
  begin_entry-unfinished mapped (err x) w e = cc
  begin_entry-unfinished mapped panic w e = cc

  begin_opened-unfinished :
      (name : Option Bytes) (opened : Option (Metadata × Option Bytes)) (w : Worker C B)
      → (begin_opened C B Z digest R name opened w).0 ≢ finished
  begin_opened-unfinished name none w e = cc
  begin_opened-unfinished name (some (m, mapped)) w e =
      begin_entry-unfinished mapped (unwrapped (from_file m name)) w e

  pub begin_file-unfinished :
      (file : DirEntry) (w : Worker C B) → (begin_file C B Z digest R file w).0 ≢ finished
  unfolding begin_file
  begin_file-unfinished file w e = elim (Bool-cases (has_parent file.path)) [
    | inl up ↦ let bad : waiting ≡ finished = rw up at e in cc
    | inr down ↦ begin_opened-unfinished file.name file.opened w (rw down at e)
  ]
