-- ===== src/Backends/Directory/Access.antt =====
-- What `Directory` does to the files and to the cache.
use zerostash.Prelude.{
  ℕ, ◌-◌, ◌<◌, ◌≡◌, ◌≢◌, ◌∙◌, refl, sym, ap, ◌⊎◌, inl, inr, Option, none, some, ◌++◌, length, take,
  replicate, length-append, length-take, length-replicate, ok, Exec, ◌>>◌, ◌>>=◌, and_then,
  and_then-ok, arith,
}
use zerostash.Objects.{Bytes, ObjectId, Object, IoError, to_string, with_id}
use zerostash.Backends.{BackendError}
use zerostash.Backends.Directory.{
  Disk, Lru, Directory, lifted, on_disk, copy_in, directory_write, directory_read, load, answered,
  cache,
}
use zerostash.Backends.Directory.Documented.{IsFileSystem, IsCache, IsCoherent}

module _ (D : Disk) (L : Lru) (F : IsFileSystem D) (H : IsCache L) (size : ℕ) where
  lifted-ok : {A : Type 0} (r : IoError ⊎ A) {a : A} → lifted D L r ≡ ok a → r ≡ inr a
  lifted-ok (inl e) h = absurd (cc)
  lifted-ok (inr x) h = cc

  pub record Wrote (o : Object) (d d' : Directory D L) : Type 0 where
    pub own : F.file (to_string o.id) d'.disk ≡ some o.buffer
    pub other : (j : Bytes) → j ≢ to_string o.id → F.file j d'.disk ≡ F.file j d.disk
    pub same_cache : d'.read_lru ≡ d.read_lru

  length-cut : (k : ℕ) (bs : Bytes) → length (take k bs ++ replicate (k - length bs) 0) ≡ k
  length-cut k bs = omega (
    arith,
    length-append (take k bs) (replicate (k - length bs) 0),
    length-take k bs,
    length-replicate {A = ℕ} (k - length bs) 0,
  )

  pub step :
      {A X : Type 0} (m : D.State → (IoError ⊎ A) × D.State)
      (f : A → Exec (Directory D L) BackendError X) (d d' : Directory D L) {x : X}
      → (on_disk D L m >>= f) d ≡ (ok x, d')
      → (a : A) × ((m d.disk).0 ≡ inr a) × (f a (record d { disk = (m d.disk).1 }) ≡ (ok x, d'))
  step m f d d' e =
      let (a, r, run) =
        and_then-ok (lifted D L (m d.disk).0) f (record d { disk = (m d.disk).1 }) e in
      (a, lifted-ok (m d.disk).0 r, run)

  pub write-Wrote :
      (o : Object) (d d' : Directory D L) → directory_write D L o d ≡ (ok tt, d') → Wrote o d d'
  unfolding directory_write
  write-Wrote o d d' e =
      let name = to_string o.id in
      let k = length o.buffer in
      let sync = on_disk D L (D.sync name) in
      let put = copy_in D L name o.buffer >> sync in
      let map = on_disk D L (D.map_mut name k) >> put in
      let (u1, c1, e1) = step (D.create name) (λ _. on_disk D L (D.set_len name k) >> map) d d' e in
      let d1 : Directory D L = record d { disk = (D.create name d.disk).1 } in
      let (u2, c2, e2) = step (D.set_len name k) (λ _. map) d1 d' e1 in
      let d2 : Directory D L = record d { disk = (D.set_len name k d1.disk).1 } in
      let (u3, c3, e3) = step (D.map_mut name k) (λ _. put) d2 d' e2 in
      let d3 : Directory D L = record d { disk = (D.map_mut name k d2.disk).1 } in
      let d4 : Directory D L = record d { disk = D.store name o.buffer d3.disk } in
      let last : (D.sync name d4.disk).1 ≡ d'.disk = ap (λ r. r.1.disk) e3 in
      let (bs, made) = F.create-file name d.disk c1 in
      let cut = F.set_len-file name k d1.disk bs c2 made in
      record {
        own =
            ap (F.file name) (sym last)
            ∙ F.sync-file name name d4.disk
            ∙ F.store-file name o.buffer (take k bs ++ replicate (k - length bs) 0) d3.disk
                (F.map_mut-file name name k d2.disk ∙ cut) (length-cut k bs);
        other = λ j ne.
            ap (F.file j) (sym last)
            ∙ F.sync-file name j d4.disk
            ∙ F.store_other name j o.buffer d3.disk ne
            ∙ F.map_mut-file name j k d2.disk
            ∙ F.set_len_other name j k d1.disk ne
            ∙ F.create_other name j d.disk ne;
        same_cache = sym (ap (λ r. r.1.read_lru) e3);
      }

  -- A file that is there can be read, from the cache or not.
  answered_ok :
      (id : ObjectId) (bs : Bytes) (hit : Option ℕ) (d : Directory D L)
      → 0 < length bs
      → ((n : ℕ) → hit ≡ some n → n ≡ length bs)
      → F.file (to_string id) d.disk ≡ some bs
      → (answered D L id hit d).0 ≡ ok (with_id id bs)
  unfolding load
  answered_ok id bs (some n) d pos long found =
      ap (λ x. ok (with_id id x))
        (ap (λ m. D.view (to_string id) m d.disk) (long n refl)
          ∙ F.view-file (to_string id) bs d.disk found)
  answered_ok id bs none d pos long found =
      let name = to_string id in
      let opened = F.open_read-file name name d.disk ∙ found in
      let mapped = F.map-file name name (D.open_read name d.disk).1 ∙ opened in
      rw
        (
          F.open_read-ok name bs d.disk found,
          F.map-ok name bs (D.open_read name d.disk).1 opened pos,
          F.view-file name bs (D.map name (D.open_read name d.disk).1).1 mapped,
        )
        refl

  pub read_ok :
      (id : ObjectId) (bs : Bytes) (d : Directory D L)
      → 0 < size
      → IsCoherent D L F H size d
      → F.file (to_string id) d.disk ≡ some bs
      → (directory_read D L id d).0 ≡ ok (with_id id bs)
  unfolding directory_read
  read_ok id bs d pos co found =
      answered_ok id bs (L.get id d.read_lru).0 (record d { read_lru = (L.get id d.read_lru).1 })
        (omega (arith, co.sized id bs found))
        (λ n e. co.cached id n (H.get-Has id n d.read_lru e) ∙ sym (co.sized id bs found)) found

  -- What a read does to the directory: the files stay, and the cache gains the file read at most.
  pub record Looked (id : ObjectId) (d d' : Directory D L) : Type 0 where
    pub same_files : (j : Bytes) → F.file j d'.disk ≡ F.file j d.disk
    pub gained :
        (j : ObjectId) (n : ℕ)
        → H.Has d'.read_lru j n
        → H.Has d.read_lru j n
          ⊎ ((j ≡ id) × ((bs : Bytes) × (F.file (to_string id) d.disk ≡ some bs) × (n ≡ length bs)))

  unchanged :
      (id : ObjectId) (d d' : Directory D L)
      → ((j : Bytes) → F.file j d'.disk ≡ F.file j d.disk)
      → ((j : ObjectId) (n : ℕ) → H.Has d'.read_lru j n → H.Has d.read_lru j n)
      → Looked id d d'
  unchanged id d d' files cache_of = record {
    same_files = files;
    gained = λ j n h. inl (cache_of j n h);
  }

  cached-Looked :
      (id : ObjectId) (r : IoError ⊎ ℕ) (d d2 : Directory D L)
      → ((j : Bytes) → F.file j d2.disk ≡ F.file j d.disk)
      → ((j : ObjectId) (n : ℕ) → H.Has d2.read_lru j n → H.Has d.read_lru j n)
      → ((k : ℕ)
          → r ≡ inr k
          → (bs : Bytes) × (F.file (to_string id) d.disk ≡ some bs) × (k ≡ length bs))
      → Looked id d (and_then (lifted D L r) (cache D L id) d2).1
  cached-Looked id (inl e) d d2 files lru found = unchanged id d d2 files lru
  cached-Looked id (inr k) d d2 files lru found = record {
    same_files = files;
    gained = λ j n h. elim (H.put-Has id j k n d2.read_lru h) [
      | inl (same, long) ↦
          let (bs, there, size_of) = found k refl in inr (same, (bs, there, long ∙ size_of))
      | inr old ↦ inl (lru j n old)
    ];
  }

  opened-Looked :
      (id : ObjectId) (r : IoError ⊎ Unit {0}) (d d1 : Directory D L)
      → ((j : Bytes) → F.file j d1.disk ≡ F.file j d.disk)
      → ((j : ObjectId) (n : ℕ) → H.Has d1.read_lru j n → H.Has d.read_lru j n)
      → Looked id d
          (and_then (lifted D L r) (λ _. on_disk D L (D.map (to_string id)) >>= cache D L id) d1).1
  opened-Looked id (inl e) d d1 files lru = unchanged id d d1 files lru
  opened-Looked id (inr u) d d1 files lru =
      cached-Looked id (D.map (to_string id) d1.disk).0 d
        (record d1 { disk = (D.map (to_string id) d1.disk).1 })
        (λ j. F.map-file (to_string id) j d1.disk ∙ files j) lru
        (λ k e.
          let (bs, there, long) = F.map-some (to_string id) k d1.disk e in
          (bs, sym (files (to_string id)) ∙ there, long))

  answered-Looked :
      (id : ObjectId) (hit : Option ℕ) (d d0 : Directory D L)
      → ((j : Bytes) → F.file j d0.disk ≡ F.file j d.disk)
      → ((j : ObjectId) (n : ℕ) → H.Has d0.read_lru j n → H.Has d.read_lru j n)
      → Looked id d (answered D L id hit d0).1
  unfolding load
  answered-Looked id (some n) d d0 files lru = unchanged id d d0 files lru
  answered-Looked id none d d0 files lru =
      opened-Looked id (D.open_read (to_string id) d0.disk).0 d
        (record d0 { disk = (D.open_read (to_string id) d0.disk).1 })
        (λ j. F.open_read-file (to_string id) j d0.disk ∙ files j) lru

  pub read-Looked : (id : ObjectId) (d : Directory D L) → Looked id d (directory_read D L id d).1
  unfolding directory_read
  read-Looked id d =
      answered-Looked id (L.get id d.read_lru).0 d (record d { read_lru = (L.get id d.read_lru).1 })
        (λ j. refl) (λ j n. H.get_keeps id j n d.read_lru)
