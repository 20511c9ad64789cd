-- ===== src/Backends/Directory/Documented.antt =====
-- What `Directory` relies on: the file system and the cache, and the states that it keeps.
use zerostash.Prelude.{ℕ, ◌-◌, ◌<◌, ◌≡◌, ◌≢◌, ◌⊎◌, inr, Option, some, ◌++◌, length, take, replicate}
use zerostash.Objects.{Bytes, ObjectId, to_string}
use zerostash.Backends.{Contract}
use zerostash.Backends.Directory.{Disk, Lru, Directory, directory}

-- What the file system documents, for calls that succeed: `file` is the contents of a file.
pub record IsFileSystem (D : Disk) : Type 0 where
  pub file : Bytes → D.State → Option Bytes
  pub create-file :
      (n : Bytes) (s : D.State)
      → (D.create n s).0 ≡ inr tt
      → (bs : Bytes) × (file n (D.create n s).1 ≡ some bs)
  pub create_other : (n j : Bytes) (s : D.State) → j ≢ n → file j (D.create n s).1 ≡ file j s
  pub set_len-file :
      (n : Bytes) (k : ℕ) (s : D.State) (bs : Bytes)
      → (D.set_len n k s).0 ≡ inr tt
      → file n s ≡ some bs
      → file n (D.set_len n k s).1 ≡ some (take k bs ++ replicate (k - length bs) 0)
  pub set_len_other :
      (n j : Bytes) (k : ℕ) (s : D.State) → j ≢ n → file j (D.set_len n k s).1 ≡ file j s
  pub map_mut-file : (n j : Bytes) (k : ℕ) (s : D.State) → file j (D.map_mut n k s).1 ≡ file j s
  pub store-file :
      (n bs old : Bytes) (s : D.State)
      → file n s ≡ some old
      → length old ≡ length bs
      → file n (D.store n bs s) ≡ some bs
  pub store_other : (n j bs : Bytes) (s : D.State) → j ≢ n → file j (D.store n bs s) ≡ file j s
  pub sync-file : (n j : Bytes) (s : D.State) → file j (D.sync n s).1 ≡ file j s
  pub open_read-ok :
      (n bs : Bytes) (s : D.State) → file n s ≡ some bs → (D.open_read n s).0 ≡ inr tt
  pub open_read-file : (n j : Bytes) (s : D.State) → file j (D.open_read n s).1 ≡ file j s
  pub map-ok :
      (n bs : Bytes) (s : D.State)
      → file n s ≡ some bs
      → 0 < length bs
      → (D.map n s).0 ≡ inr (length bs)
  pub map-some :
      (n : Bytes) (k : ℕ) (s : D.State)
      → (D.map n s).0 ≡ inr k
      → (bs : Bytes) × (file n s ≡ some bs) × (k ≡ length bs)
  pub map-file : (n j : Bytes) (s : D.State) → file j (D.map n s).1 ≡ file j s
  pub view-file : (n bs : Bytes) (s : D.State) → file n s ≡ some bs → D.view n (length bs) s ≡ bs

-- What the cache documents: it has what was put in, until it is put anew or evicted.
pub record IsCache (L : Lru) : Type 1 where
  pub Has : L.State → ObjectId → ℕ → Type 0
  pub get-Has : (id : ObjectId) (n : ℕ) (s : L.State) → (L.get id s).0 ≡ some n → Has s id n
  pub get_keeps : (id j : ObjectId) (n : ℕ) (s : L.State) → Has (L.get id s).1 j n → Has s j n
  pub put-Has :
      (id j : ObjectId) (n m : ℕ) (s : L.State)
      → Has (L.put id n s) j m
      → ((j ≡ id) × (m ≡ n)) ⊎ Has s j m
  pub fresh-Has : (k : ℕ) (id : ObjectId) (n : ℕ) → Has (L.fresh k) id n → ⊥

module _ (D : Disk) (L : Lru) (F : IsFileSystem D) (H : IsCache L) (size : ℕ) where
  -- All objects have one size, and each mapping in the cache is as long as its file.
  pub record IsCoherent (d : Directory D L) : Type 0 where
    pub cached : (id : ObjectId) (n : ℕ) → H.Has d.read_lru id n → n ≡ size
    pub backed :
        (id : ObjectId) (n : ℕ)
        → H.Has d.read_lru id n
        → (bs : Bytes) × (F.file (to_string id) d.disk ≡ some bs)
    pub sized :
        (id : ObjectId) (bs : Bytes) → F.file (to_string id) d.disk ≡ some bs → length bs ≡ size

  -- Objects of that size.
  abbrev pub fixed_size : Contract (directory D L)
  fixed_size = record { Coherent = IsCoherent; Accepts = λ n. n ≡ size }
