-- ===== src/Backends/Directory.antt =====
-- libzerostash/src/backends.rs: `Directory`, one file for each object, mapped into memory, and a
-- cache of the mappings that were read. The file system is the parameter `Disk`, the lru crate the
-- parameter `Lru`. A file's name is the text of its object's id, inside the target directory.
pub mod Documented
pub mod Access
pub mod Laws
use zerostash.Prelude.{
  ℕ, ◌⊎◌, inl, inr, Option, none, some, length, Outcome, ok, err, Exec, ◌>>=◌, ◌>>◌,
}
use zerostash.Objects.{Bytes, ObjectId, Object, IoError, to_string, with_id}
use zerostash.Backends.{Backend, BackendError, io}

-- `create_dir` is `create_dir_all` of the target; `create` opens a file for writing and creates it if
-- it is missing; `map_mut` maps a file of the length told for writing and `store` copies bytes over
-- such a mapping; `open_read` opens a file that exists; `map` maps the whole file and tells the
-- length; `view` is what a mapping of that length of the file shows at the time of the state, since
-- mappings share the file's pages.
pub record Disk : Type 1 where
  pub State : Type 0
  pub create_dir : State → (IoError ⊎ Unit {0}) × State
  pub create : Bytes → State → (IoError ⊎ Unit {0}) × State
  pub set_len : Bytes → ℕ → State → (IoError ⊎ Unit {0}) × State
  pub map_mut : Bytes → ℕ → State → (IoError ⊎ Unit {0}) × State
  pub store : Bytes → Bytes → State → State
  pub sync : Bytes → State → (IoError ⊎ Unit {0}) × State
  pub open_read : Bytes → State → (IoError ⊎ Unit {0}) × State
  pub map : Bytes → State → (IoError ⊎ ℕ) × State
  pub view : Bytes → ℕ → State → Bytes

-- `LruCache<ObjectId, Arc<ReadObject>>`; a cached object is its id and the length of its mapping.
pub record Lru : Type 1 where
  pub State : Type 0
  pub fresh : ℕ → State
  pub get : ObjectId → State → Option ℕ × State
  pub put : ObjectId → ℕ → State → State

module _ (D : Disk) (L : Lru) where
  pub record Directory : Type 0 where
    pub disk : D.State
    pub read_lru : L.State

  -- `?` on a call of the file system
  abbrev pub lifted : {A : Type 0} → IoError ⊎ A → Outcome BackendError A
  lifted (inl e) = err (io e)
  lifted (inr a) = ok a

  abbrev pub on_disk :
      {A : Type 0} → (D.State → (IoError ⊎ A) × D.State) → Exec Directory BackendError A
  on_disk m d = let (r, s) = m d.disk in (lifted r, record d { disk = s })

  -- `mmap.copy_from_slice`: the mapping has the length of the buffer.
  abbrev pub copy_in : Bytes → Bytes → Exec Directory BackendError (Unit {0})
  copy_in name bs d = (ok tt, record d { disk = D.store name bs d.disk })

  -- `Directory::new`
  unfoldable pub new : D.State → Outcome BackendError (Unit {0}) × Directory
  new s = let (r, s') = D.create_dir s in (lifted r, record { disk = s'; read_lru = L.fresh 100 })

  unfoldable pub directory_write : Object → Exec Directory BackendError (Unit {0})
  directory_write object = do
    on_disk (D.create (to_string object.id))
    on_disk (D.set_len (to_string object.id) (length object.buffer))
    on_disk (D.map_mut (to_string object.id) (length object.buffer))
    copy_in (to_string object.id) object.buffer
    on_disk (D.sync (to_string object.id))

  abbrev pub shown : ObjectId → ℕ → Directory → Object
  shown id n d = with_id id (D.view (to_string id) n d.disk)

  abbrev pub cache : ObjectId → ℕ → Exec Directory BackendError Object
  cache id n d = (ok (shown id n d), record d { read_lru = L.put id n d.read_lru })

  -- A miss: open the file, map it, and keep the mapping.
  unfoldable pub load : ObjectId → Exec Directory BackendError Object
  load id = do on_disk (D.open_read (to_string id)); n ← on_disk (D.map (to_string id)); cache id n

  abbrev pub answered : ObjectId → Option ℕ → Exec Directory BackendError Object
  answered id (some n) d = (ok (shown id n d), d)
  answered id none d = load id d

  unfoldable pub directory_read : ObjectId → Exec Directory BackendError Object
  unfolding load
  directory_read id d =
      let (hit, lru) = L.get id d.read_lru in answered id hit (record d { read_lru = lru })

  abbrev pub directory : Backend
  directory = record {
    State = Directory;
    write_object = directory_write;
    read_object = directory_read;
  }
