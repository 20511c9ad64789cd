-- ===== src/Tests/Directory.antt =====
-- `Directory` over files in a dictionary, with a cache of one mapping.
use zerostash.Prelude.{
  ℕ, ◌-◌, ◌≡◌, ◌∙◌, refl, ap, ◌⊎◌, inl, inr, Option, none, some, [], ◌++◌, length, take, replicate,
  take-length, if◌then◌else◌, arith,
}
use zerostash.Prelude.Equality.{◌=?◌, bytes_eq}
use zerostash.Prelude.Dict
use zerostash.Prelude.Dict.{Dict, lookup-insert_self, lookup-insert_ne}
use zerostash.Objects.{Bytes, ObjectId, IoError, invalid_input}
use zerostash.Backends
use zerostash.Backends.Directory.{Disk, Lru, directory}
use zerostash.Backends.Directory.Documented.{IsFileSystem, IsCache, fixed_size}
use zerostash.Backends.Directory.Laws.{directory-IsLawful}

abbrev Files : Type 0
Files = Dict Bytes Bytes

abbrev contents : Option Bytes → Bytes
contents none = []
contents (some bs) = bs

abbrev mapped : Option Bytes → IoError ⊎ ℕ
mapped none = inl invalid_input
mapped (some bs) = inr (length bs)

abbrev opened : Option Bytes → IoError ⊎ Unit {0}
opened none = inl invalid_input
opened (some bs) = inr tt

abbrev cut : ℕ → Bytes → Bytes
cut k bs = take k bs ++ replicate (k - length bs) 0

abbrev disk : Disk
disk = record {
  State = Files;
  create_dir = λ s. (inr tt, s);
  create = λ n s. (inr tt, Dict.insert n (contents (Dict.lookup n s)) s);
  set_len = λ n k s. (inr tt, Dict.insert n (cut k (contents (Dict.lookup n s))) s);
  map_mut = λ n k s. (inr tt, s);
  store = λ n bs s. Dict.insert n bs s;
  sync = λ n s. (inr tt, s);
  open_read = λ n s. (opened (Dict.lookup n s), s);
  map = λ n s. (mapped (Dict.lookup n s), s);
  view = λ n k s. take k (contents (Dict.lookup n s));
}

mapped-some :
    (f : Option Bytes) (k : ℕ) → mapped f ≡ inr k → (bs : Bytes) × (f ≡ some bs) × (k ≡ length bs)
mapped-some none k e = absurd (cc)
mapped-some (some bs) k e = (bs, refl, cc)

disk-IsFileSystem : IsFileSystem disk
disk-IsFileSystem = record {
  file = λ n s. Dict.lookup n s;
  create-file = λ n s e. (contents (Dict.lookup n s), lookup-insert_self n n _ s refl);
  create_other = λ n j s ne. lookup-insert_ne j n _ s ne;
  set_len-file = λ n k s bs e there.
      lookup-insert_self n n _ s refl ∙ ap (λ f. some (cut k (contents f))) there;
  set_len_other = λ n j k s ne. lookup-insert_ne j n _ s ne;
  map_mut-file = λ n j k s. refl;
  store-file = λ n bs old s there same. lookup-insert_self n n bs s refl;
  store_other = λ n j bs s ne. lookup-insert_ne j n bs s ne;
  sync-file = λ n j s. refl;
  open_read-ok = λ n bs s there. ap opened there;
  open_read-file = λ n j s. refl;
  map-ok = λ n bs s there pos. ap mapped there;
  map-some = λ n k s e. mapped-some (Dict.lookup n s) k e;
  map-file = λ n j s. refl;
  view-file = λ n bs s there.
      ap (λ f. take (length bs) (contents f)) there ∙ take-length bs (length bs) (omega arith);
}

abbrev Slot : Type 0
Slot = Option (ObjectId × ℕ)

abbrev hit : ObjectId → Slot → Option ℕ
hit id none = none
hit id (some (j, n)) = if id =? j then some n else none

abbrev lru : Lru
lru = record {
  State = Slot;
  fresh = λ k. none;
  get = λ id s. (hit id s, s);
  put = λ id n s. some (id, n);
}

hit-some : (id : ObjectId) (n : ℕ) (s : Slot) → hit id s ≡ some n → s ≡ some (id, n)
hit-some id n none e = absurd (cc)
hit-some id n (some (j, m)) e = ground (arith, e)

put-some :
    (id j : ObjectId) (n m : ℕ) (s : Slot)
    → ◌≡◌ {A = Slot} (some (id, n)) (some (j, m))
    → ((j ≡ id) × (m ≡ n)) ⊎ (s ≡ some (j, m))
put-some id j n m s e = inl (cc, cc)

lru-IsCache : IsCache lru
lru-IsCache = record {
  Has = λ s id n. s ≡ some (id, n);
  get-Has = λ id n s e. hit-some id n s e;
  get_keeps = λ id j n s h. h;
  put-Has = λ id j n m s h. put-some id j n m s h;
  fresh-Has = λ k id n h. cc;
}

directory-IsLawful_example :
    Backends.IsLawful (directory disk lru) (fixed_size disk lru disk-IsFileSystem lru-IsCache 2)
directory-IsLawful_example =
    directory-IsLawful disk lru disk-IsFileSystem lru-IsCache 2 (omega arith)
