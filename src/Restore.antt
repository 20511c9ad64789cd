-- ===== src/Restore.antt =====
-- libzerostash/src/stash/restore.rs: how a worker of a checkout puts a file together
-- again.
pub mod Extract
pub mod Content
pub mod Groups
pub mod Rounds
pub mod Whole
pub mod Stored
pub mod Queue
use zerostash.Prelude.{
  ℕ, zero, suc, ◌+◌, ◌-◌, ◌≡◌, Bool, Option, none, some, List, [], ◌∷◌, ◌++◌, length, take, drop,
  replicate, splice, leb, ◌==◌, if◌then◌else◌, Outcome, ok, err, panic,
}
use zerostash.Prelude.Equality.{bytes_eq}
use zerostash.Prelude.Dict
use zerostash.Prelude.Dict.{Dict}
use zerostash.Objects.{Bytes, ObjectId, Object, IoError}
use zerostash.Chunks.Pointer.{ChunkPointer}
use zerostash.Compress.{Lz4, Decompressed, in_bounds, overrun, decompress_into}
use zerostash.Crypto.Provider.{CryptoProvider}
use zerostash.Backends.{Backend, BackendError}

-- What a step of a worker ends in: a value, a panic (each `unwrap` and `expect`), or the undefined
-- behaviour of a write past the end of a mapping.
pub data Step {ℓ} (A : Type ℓ) : Type ℓ where
  done : A → Step A
  panicked undefined : Step A

infixl 5 ◌>>=◌
abbrev pub ◌>>=◌ {ℓ} : {A B : Type ℓ} → Step A → (A → Step B) → Step B
done a >>= f = f a
panicked >>= f = panicked
undefined >>= f = undefined

abbrev pub expect {ℓ} : {E A : Type ℓ} → Outcome E A → Step A
expect (ok a) = done a
expect (err e) = panicked
expect panic = panicked

abbrev pub expect_some {ℓ} : {A : Type ℓ} → Option A → Step A
expect_some (some a) = done a
expect_some none = panicked

-- The buffer that a worker decrypts into, kept from chunk to chunk, and the mapped file.
pub record Target : Type 0 where
  pub buffer : Bytes
  pub mmap : Bytes

abbrev pub landed : Bytes → ℕ → Bytes → Decompressed → Step Target
landed buffer start mmap (in_bounds tail) =
    done (record { buffer = buffer; mmap = take start mmap ++ tail })
landed buffer start mmap (overrun out) = undefined

module _ (C : CryptoProvider) (Z : Lz4) where
  -- One round of the innermost loop; `mmap[start..]` panics past the end.
  unfoldable pub extract : Object → ℕ × ChunkPointer → Target → Step Target
  extract object (start, cp) t = do
    (len, buffer) ← expect_some (C.decrypt_chunk t.buffer object cp)
    tail ← expect_some (if leb start (length t.mmap) then some (drop start t.mmap) else none)
    out ← expect (decompress_into Z tail (take len buffer))
    landed buffer start t.mmap out

  unfoldable pub extract_all : Object → List (ℕ × ChunkPointer) → Target → Step Target
  extract_all object [] t = done t
  extract_all object (c ∷ cs) t = extract object c t >>= extract_all object cs

-- `metadata.chunks.iter().fold(…)`: the chunks of each object, in the order of the file
unfoldable pub push_chunk :
    ℕ × ChunkPointer
    → Dict ObjectId (List (ℕ × ChunkPointer))
    → Dict ObjectId (List (ℕ × ChunkPointer))
push_chunk (start, cp) a = Dict.upsert cp.file [] (λ cs. cs ++ (start, cp) ∷ []) a

unfoldable pub object_ordered :
    List (ℕ × ChunkPointer)
    → Dict ObjectId (List (ℕ × ChunkPointer))
    → Dict ObjectId (List (ℕ × ChunkPointer))
object_ordered [] a = a
object_ordered (c ∷ cs) a = object_ordered cs (push_chunk c a)

-- What the system answers for a name: the error, if any, of `open`, of `set_len` and of `mmap`.
pub record Access : Type 0 where
  pub open_error : Option IoError
  pub set_len_error : ℕ → Option IoError
  pub map_error : ℕ → Option IoError

-- The name is opened, resized and mapped.
pub record Granted (a : Access) (size : ℕ) : Type 0 where
  pub opens : a.open_error ≡ none
  pub resizes : a.set_len_error size ≡ none
  pub maps : a.map_error size ≡ none

-- `unwrap` and `expect` of those
abbrev pub unfailing : Option IoError → Step (Unit {0})
unfailing none = done tt
unfailing (some e) = panicked

-- `set_len`: cut, or extended by zeros
unfoldable pub set_len : ℕ → Bytes → Bytes
set_len n file = take n file ++ replicate (n - length file) 0

module _ (C : CryptoProvider) (Z : Lz4) (B : Backend) where
  -- The loop over the objects of one file.
  unfoldable pub restore_objects :
      List (ObjectId × List (ℕ × ChunkPointer)) → Target × B.State → Step (Target × B.State)
  restore_objects [] (t, b) = done (t, b)
  restore_objects ((objectid, cs) ∷ rest) (t, b) =
      let (r, b') = B.read_object objectid b in
      expect r >>= λ object. extract_all C Z object cs t >>= λ t'. restore_objects rest (t', b')

  -- The body of the loop over the files: `old` is the file that stands under the name, if any. An
  -- empty file is skipped before it is created.
  unfoldable pub restore_file :
      ℕ
      → List (ℕ × ChunkPointer)
      → Access
      → Option Bytes
      → Bytes
      → B.State
      → Step (Option Bytes × Bytes × B.State)
  restore_file size chunks access old buffer b =
      let start : Target = record {
        buffer = buffer;
        mmap = set_len size (elim old [ none ↦ [] | some f ↦ f ]);
      } in
      if size == 0
      then done (old, buffer, b)
      else unfailing access.open_error >>= λ _. unfailing (access.set_len_error size) >>= λ _.
          unfailing (access.map_error size) >>= λ _.
          restore_objects (object_ordered chunks []) (start, b) >>= λ out.
          done (some out.0.mmap, out.0.buffer, out.1)

-- The components of a path, as `std::path` splits it.
pub data Component : Type 0 where
  root_dir cur_dir parent_dir : Component
  normal : Bytes → Component

-- `get_path`: the path without a leading root
unfoldable pub get_path : List Component → List Component
get_path (root_dir ∷ cs) = cs
get_path cs = cs
