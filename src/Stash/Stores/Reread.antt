-- ===== src/Stash/Stores/Reread.antt =====
-- libzerostash/src/stash/mod.rs: the stores, committed and read again.
use zerostash.Prelude.{◌≡◌, ◌∙◌, refl, ap, Option, some, List, [], ◌∷◌, map, ok, length}
use zerostash.Prelude.Equality.{bytes_eq}
use zerostash.Prelude.Dict
use zerostash.Objects.{Bytes, CryptoDigest, ObjectId, block_size}
use zerostash.Chunks.{serialize, deserialize}
use zerostash.Chunks.Dedup.{HasUniqueKeys, deserialize-serialize}
use zerostash.Files
use zerostash.Files.{Entry, entry_eq, has_changed}
use zerostash.Files.Changed.{deserialize-serialize_files}
use zerostash.Crypto.Provider.{CryptoProvider, IsSound}
use zerostash.Crypto.Sealing.{IsSealing}
use zerostash.Backends
use zerostash.Backends.{Backend, Contract}
use zerostash.Meta.{files, chunks}
use zerostash.Meta.Encoding.{Encoder}
use zerostash.Meta.Reader.{Codec}
use zerostash.Meta.Writer.{Cbor, Writer}
use zerostash.Meta.Frames.{Each, IsFrame}
use zerostash.Meta.Reopened.{Decodes}
use zerostash.Stash.Written.{Fit, first_object}
use zerostash.Stash.RoundTrip.{Encodes, Takes, commit-read_chain}
use zerostash.Stash.Stores.{Items, Stores, items_of, load, load_field, read, commit_stores}

-- Each item has a record for its CBOR, which is decoded to the item.
abbrev pub Coded :
    {A : Type 0} → (Bytes → Type 0) → (A → Bytes) → (Bytes → Option A) → List A → Type 0
Coded P encode decode [] = Unit
Coded P encode decode (a ∷ items) =
    (P (encode a) × (decode (encode a) ≡ some a)) × Coded P encode decode items

module _ {A : Type 0} (P : Bytes → Type 0) (encode : A → Bytes) (decode : Bytes → Option A) where
  Coded-Each : (items : List A) → Coded P encode decode items → Each P (map encode items)
  Coded-Each [] h = tt
  Coded-Each (a ∷ items) ((good, e), h) = (good, Coded-Each items h)

  items_of-map :
      (items : List A) → Coded P encode decode items → items_of decode (map encode items) ≡ items
  unfolding items_of
  items_of-map [] h = refl
  items_of-map (a ∷ items) ((good, e), h) = rw (e, items_of-map items h) refl

-- The stores hold the same pointers and the same entries.
pub record Same (s s' : Stores) : Type 0 where
  pub pointers : (d : CryptoDigest) → Dict.lookup d s'.chunk_store ≡ Dict.lookup d s.chunk_store
  pub entries : (e : Entry) → has_changed e s'.file_store ≡ has_changed e s.file_store

abbrev pub empty : Stores
empty = record { chunk_store = []; file_store = [] }

module _ (I : Items) (P : Bytes → Type 0) where
  load-Same :
      (s : Stores)
      → HasUniqueKeys s.chunk_store
      → Coded P I.encode_file I.decode_file (Files.serialize s.file_store)
      → Coded P I.encode_chunk I.decode_chunk (serialize s.chunk_store)
      → Same s (
          load I
            ((files, map I.encode_file (Files.serialize s.file_store))
              ∷ (chunks, map I.encode_chunk (serialize s.chunk_store))
              ∷ [])
            empty)
  unfolding load load_field
  load-Same s unique file_codes chunk_codes = record {
    pointers = λ d.
        ap (λ items. Dict.lookup d (deserialize items []))
          (items_of-map P I.encode_chunk I.decode_chunk (serialize s.chunk_store) chunk_codes)
        ∙ deserialize-serialize s.chunk_store d unique;
    entries = λ e.
        ap (λ items. has_changed e (Files.deserialize items []))
          (items_of-map P I.encode_file I.decode_file (Files.serialize s.file_store) file_codes)
        ∙ deserialize-serialize_files s.file_store e;
  }

module _ (C : CryptoProvider) (B : Backend) (E : Encoder) (S : Cbor) (K : IsSound C)
    (Q : IsSealing C) (D : Contract B) (W : Backends.IsLawful B D) (X : Codec) (F : IsFrame E X)
    (I : Items) where
  -- A stash commits its stores, and a stash with empty stores that reads from the same root id then
  -- holds the same pointers and entries, where both fields fit into the root object with the gaps
  -- behind them: for a coherent backend that takes blocks, headers that are encoded in less than 512
  -- bytes and decoded again, a frame encoder that keeps its bound and whose frames are decoded, items
  -- whose CBOR is decoded to them, and a chunk index that has each digest once.
  pub read-commit_stores :
      (root : ObjectId) (source : C.Source) (b : B.State) (s : Stores)
      → Decodes C B E S K Q D W X
      → Encodes C B E S K Q D W X
      → D.Coherent b
      → D.Accepts block_size
      → Takes C B E S K Q D W X b
      → length root ≡ 32
      → HasUniqueKeys s.chunk_store
      → Coded F.IsRecord I.encode_file I.decode_file (Files.serialize s.file_store)
      → Coded F.IsRecord I.encode_chunk I.decode_chunk (serialize s.chunk_store)
      → Fit C B E S X F
          (map I.encode_file (Files.serialize s.file_store))
          (map I.encode_chunk (serialize s.chunk_store))
          (first_object C B E S X F root)
      → (w : Writer C B E) × (s' : Stores) × (commit_stores I C B E S root source b s ≡ ok w)
        × (read I C B X 1 root w.backend empty ≡ some (ok s'))
        × Same s s'
  unfolding commit_stores read
  read-commit_stores root source b s decodes encodes co accepts takes long unique file_codes
        chunk_codes fit =
      let file_records = map I.encode_file (Files.serialize s.file_store) in
      let chunk_records = map I.encode_chunk (serialize s.chunk_store) in
      let (w, commits, r, reads) =
        commit-read_chain C B E S K Q D W X F root source b file_records chunk_records decodes
          encodes co accepts takes long fit
          (Coded-Each F.IsRecord I.encode_file I.decode_file (Files.serialize s.file_store)
            file_codes)
          (Coded-Each F.IsRecord I.encode_chunk I.decode_chunk (serialize s.chunk_store)
            chunk_codes) in
      (
        w,
        load I ((files, file_records) ∷ (chunks, chunk_records) ∷ []) empty,
        commits,
        rw reads refl,
        load-Same I F.IsRecord s unique file_codes chunk_codes,
      )
