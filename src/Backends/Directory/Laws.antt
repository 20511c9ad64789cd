-- ===== src/Backends/Directory/Laws.antt =====
-- `Directory` keeps what users of a backend rely on.
use zerostash.Prelude.{
  ℕ, ◌<◌, ◌≡◌, ◌≢◌, ◌∙◌, refl, sym, ap, ◌⊎◌, inl, inr, Option, none, some, length, Outcome, ok,
  panic, Exec, ◌>>◌, ◌>>=◌, and_then, subst,
}
use zerostash.Objects.{Bytes, ObjectId, Object, IoError, to_string, with_id}
use zerostash.Prelude.Equality.{bytes_eq}
use zerostash.Objects.Hex.{to_string-injective}
use zerostash.Backends
use zerostash.Backends.{Backend, BackendError, Contract}
use zerostash.Backends.Directory.{
  Disk, Lru, Directory, lifted, on_disk, copy_in, directory_write, directory_read, load, answered,
  cache, directory,
}
use zerostash.Backends.Directory.Documented.{IsFileSystem, IsCache, IsCoherent, fixed_size}
use zerostash.Backends.Directory.Access.{step, Wrote, write-Wrote, read_ok, read-Looked}

module _ (D : Disk) (L : Lru) (F : IsFileSystem D) (H : IsCache L) (size : ℕ) where
  read-IsCoherent :
      (id : ObjectId) (d : Directory D L)
      → IsCoherent D L F H size d
      → IsCoherent D L F H size (directory_read D L id d).1
  read-IsCoherent id d co =
      let look = read-Looked D L F H size id d in
      record {
        cached = λ j n h. elim (look.gained j n h) [
          | inl old ↦ co.cached j n old
          | inr (same, (bs, there, long)) ↦ long ∙ co.sized id bs there
        ];
        backed = λ j n h. elim (look.gained j n h) [
          | inl old ↦
              let (bs, there) = co.backed j n old in (bs, look.same_files (to_string j) ∙ there)
          | inr (same, (bs, there, long)) ↦ (
            bs,
            look.same_files (to_string j) ∙ ap (λ x. F.file (to_string x) d.disk) same ∙ there,
          )
        ];
        sized = λ j bs there. co.sized j bs (sym (look.same_files (to_string j)) ∙ there);
      }

  ok-injective : (a c : Object) → ◌≡◌ {A = Outcome BackendError Object} (ok a) (ok c) → a ≡ c
  ok-injective a c e = cc

  answered-file :
      (id : ObjectId) (hit : Option ℕ) (d d0 : Directory D L) (r : Object)
      → ((j : Bytes) → F.file j d0.disk ≡ F.file j d.disk)
      → ((n : ℕ) → hit ≡ some n → (bs : Bytes) × (F.file (to_string id) d.disk ≡ some bs))
      → (answered D L id hit d0).0 ≡ ok r
      → (bs : Bytes) × (F.file (to_string id) d.disk ≡ some bs)
  unfolding load
  answered-file id (some n) d d0 r files has e = has n refl
  answered-file id none d d0 r files has e =
      let name = to_string id in
      let d1 : Directory D L = record d0 { disk = (D.open_read name d0.disk).1 } in
      let end = (load D L id d0).1 in
      let (u, c1, e1) =
        step D L F H size (D.open_read name) (λ _. on_disk D L (D.map name) >>= cache D L id) d0 end
          (ap (λ x. (x, end)) e) in
      let (k, c2, e2) = step D L F H size (D.map name) (cache D L id) d1 end e1 in
      let (bs, there, long) = F.map-some name k d1.disk c2 in
      (bs, sym (F.open_read-file name name d0.disk ∙ files name) ∙ there)

  -- Where a read succeeds, the file is there.
  read-found :
      (id : ObjectId) (d : Directory D L) (r : Object)
      → 0 < size
      → IsCoherent D L F H size d
      → (directory_read D L id d).0 ≡ ok r
      → (bs : Bytes) × (F.file (to_string id) d.disk ≡ some bs) × (with_id id bs ≡ r)
  unfolding directory_read
  read-found id d r pos co e =
      let (bs, there) =
        answered-file id (L.get id d.read_lru).0 d (record d { read_lru = (L.get id d.read_lru).1 })
          r (λ j. refl) (λ n hit. co.backed id n (H.get-Has id n d.read_lru hit)) e in
      (
        bs,
        there,
        ok-injective (with_id id bs) r (sym (read_ok D L F H size id bs d pos co there) ∙ e),
      )

  name-ne : (i j : ObjectId) → i ≢ j → to_string i ≢ to_string j
  name-ne i j ne e = ne (to_string-injective i j e)

  some-length : (a b : Bytes) → ◌≡◌ {A = Option Bytes} (some a) (some b) → length a ≡ length b
  some-length a b e = cc

  module _ (o : Object) (d d' : Directory D L) (w : Wrote D L F H size o d d') where
    still_backed :
        (id : ObjectId)
        → (bs : Bytes) × (F.file (to_string id) d.disk ≡ some bs)
        → (bs : Bytes) × (F.file (to_string id) d'.disk ≡ some bs)
    still_backed id (bs, there) = elim (bytes_eq.dec id o.id) [
      | yes same ↦ (o.buffer, ap (λ x. F.file (to_string x) d'.disk) same ∙ w.own)
      | no ne ↦ (bs, w.other (to_string id) (name-ne id o.id ne) ∙ there)
    ]

    still_sized :
        (id : ObjectId) (bs : Bytes)
        → length o.buffer ≡ size
        → ((old : Bytes) → F.file (to_string id) d.disk ≡ some old → length old ≡ size)
        → F.file (to_string id) d'.disk ≡ some bs
        → length bs ≡ size
    still_sized id bs fits sized there = elim (bytes_eq.dec id o.id) [
      | yes same ↦
          some-length bs o.buffer (sym there ∙ ap (λ x. F.file (to_string x) d'.disk) same ∙ w.own)
          ∙ fits
      | no ne ↦ sized bs (sym (w.other (to_string id) (name-ne id o.id ne)) ∙ there)
    ]

  write-IsCoherent :
      (o : Object) (d d' : Directory D L)
      → IsCoherent D L F H size d
      → length o.buffer ≡ size
      → directory_write D L o d ≡ (ok tt, d')
      → IsCoherent D L F H size d'
  write-IsCoherent o d d' co fits e =
      let w = write-Wrote D L F H size o d d' e in
      record {
        cached = λ id n h. co.cached id n (subst (λ lru. H.Has lru id n) w.same_cache h);
        backed = λ id n h.
            still_backed o d d' w id
              (co.backed id n (subst (λ lru. H.Has lru id n) w.same_cache h));
        sized = λ id bs there. still_sized o d d' w id bs fits (co.sized id) there;
      }

  lifted-ne-panic : {A : Type 0} (r : IoError ⊎ A) → lifted D L r ≢ panic
  lifted-ne-panic (inl e) p = cc
  lifted-ne-panic (inr a) p = cc

  NeverPanics : Exec (Directory D L) BackendError (Unit {0}) → Type 0
  NeverPanics m = (d : Directory D L) → (m d).0 ≢ panic

  no_panic :
      (r : IoError ⊎ Unit {0}) (m : Exec (Directory D L) BackendError (Unit {0}))
      (d : Directory D L)
      → NeverPanics m
      → (and_then (lifted D L r) (λ _. m) d).0 ≢ panic
  unfolding NeverPanics
  no_panic (inl e) m d h p = cc
  no_panic (inr a) m d h p = h d p

  then_no_panic :
      (m : D.State → (IoError ⊎ Unit {0}) × D.State)
      (k : Exec (Directory D L) BackendError (Unit {0}))
      → NeverPanics k
      → NeverPanics (on_disk D L m >> k)
  unfolding NeverPanics
  then_no_panic m k h d = no_panic (m d.disk).0 k (record d { disk = (m d.disk).1 }) (h)

  write-NeverPanics : (o : Object) → NeverPanics (directory_write D L o)
  unfolding directory_write NeverPanics
  write-NeverPanics o =
      let name = to_string o.id in
      let k = length o.buffer in
      let put = copy_in D L name o.buffer >> on_disk D L (D.sync name) in
      let map = on_disk D L (D.map_mut name k) >> put in
      then_no_panic (D.create name) (on_disk D L (D.set_len name k) >> map) (
        then_no_panic (D.set_len name k) map
          (then_no_panic (D.map_mut name k) put (λ d. lifted-ne-panic (D.sync name _).0)))

  -- `Directory` keeps what users of a backend rely on, for objects of one size that is not 0, from
  -- every state where the files of objects have that size and so do the mappings in the cache: over
  -- a file system and a cache that do what they document, what was written is read back, from the
  -- file or through a mapping that was made before.
  pub directory-IsLawful : 0 < size → Backends.IsLawful (directory D L) (fixed_size D L F H size)
  unfolding NeverPanics
  directory-IsLawful pos = record {
    write-Coherent = write-IsCoherent;
    read-Coherent = read-IsCoherent;
    read-write = λ o d d' co fits e.
        read_ok D L F H size o.id o.buffer d' pos (write-IsCoherent o d d' co fits e)
          (write-Wrote D L F H size o d d' e).own;
    read-write_ne = λ o r id d d' co fits e ne read.
        let (bs, there, same) = read-found id d r pos co read in
        read_ok D L F H size id bs d' pos (write-IsCoherent o d d' co fits e)
          ((write-Wrote D L F H size o d d' e).other (to_string id) (name-ne id o.id ne) ∙ there)
        ∙ ap ok same;
    read-read = λ i j r d co read.
        let (bs, there, same) = read-found j d r pos co read in
        read_ok D L F H size j bs (directory_read D L i d).1 pos (read-IsCoherent i d co)
          ((read-Looked D L F H size i d).same_files (to_string j) ∙ there)
        ∙ ap ok same;
    write_total = write-NeverPanics;
  }
