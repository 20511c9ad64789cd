-- ===== src/Restore/Rounds.antt =====
-- The loops over the objects of a file and over the chunks of an object.
use zerostash.Prelude.{
  ℕ, ◌+◌, ◌≤◌, ◌<◌, ◌≡◌, ◌∙◌, ◌⊎◌, inl, inr, refl, sym, ap, List, [], ◌∷◌, length, place_at,
  length-place_at, Outcome, ok, arith,
}
use zerostash.Objects.{Bytes, CryptoDigest, ObjectId, Object}
use zerostash.Compress
use zerostash.Compress.{Lz4, block, max_input}
use zerostash.Crypto.Provider.{CryptoProvider, IsSound}
use zerostash.Backends
use zerostash.Backends.{Contract, Backend}
use zerostash.Storage.Place.{Holds}
use zerostash.Restore.{done, ◌>>=◌, Target, extract, extract_all, restore_objects}
use zerostash.Restore.Extract.{extract-Holds}
use zerostash.Restore.Content.{IsPart, Right, place_at-part, place_at-Right}
use zerostash.Restore.Groups.{Chunk, Group, Some, SomeGroup, All, Grouped, Keys}

ok-injective : (a c : Object) → ◌≡◌ {A = Outcome Backends.BackendError Object} (ok a) (ok c) → a ≡ c
ok-injective a c e = cc

-- The chunk takes byte `i` in.
abbrev pub Covers : (Chunk → Bytes) → ℕ → Chunk → Type 0
Covers plain_of i c = (c.0 ≤ i) × (i < c.0 + length (plain_of c))

-- One chunk's extraction, or several: no byte becomes wrong, those that `P` tells become right.
pub record Restored (content : Bytes) (room : ℕ) (P : ℕ → Type 0) (t t' : Target) : Type 0 where
  pub file_size : length t'.mmap ≡ length content
  pub buffer_size : length t'.buffer ≡ room
  pub stays : (i : ℕ) → Right content t.mmap i → Right content t'.mmap i
  pub becomes : (i : ℕ) → P i → Right content t'.mmap i

pub record Sized (content : Bytes) (room : ℕ) (t : Target) : Type 0 where
  pub file_size : length t.mmap ≡ length content
  pub buffer_size : length t.buffer ≡ room

module _ (B : Backend) (D : Contract B) where
  -- The backend after some reads: what could be read still can.
  pub record Later (b b' : B.State) : Type 0 where
    pub coherent : D.Coherent b'
    pub still :
        (id : ObjectId) (o : Object)
        → (B.read_object id b).0 ≡ ok o
        → (B.read_object id b').0 ≡ ok o

module _ (C : CryptoProvider) (Z : Lz4) (B : Backend) where
  -- A chunk of a file with `content`: reading its object from the backend `b` gives one that holds
  -- the chunk, which is a part of the content at the chunk's start; `room` is the size of the
  -- worker's buffer.
  pub record Available (content : Bytes) (b : B.State) (room : ℕ) (plain : Bytes) (c : Chunk)
      : Type 0 where
    pub hash : CryptoDigest
    pub compressed : Bytes
    pub object : Object
    pub read : (B.read_object c.1.file b).0 ≡ ok object
    pub same_id : object.id ≡ c.1.file
    pub held : Holds C object c.1 hash compressed
    pub packed : block Z plain ≡ ok compressed
    pub positive : 0 < length plain
    pub small : length plain ≤ max_input
    pub decryptable : length compressed + 16 ≤ room
    pub part : IsPart content c.0 plain

  module _ (K : IsSound C) (D : Contract B) (W : Backends.IsLawful B D) (L : Compress.IsLawful Z)
      (content : Bytes) (room : ℕ) (plain_of : Chunk → Bytes) where
    one :
        (b : B.State) (c : Chunk) (t : Target) (g : Available content b room (plain_of c) c)
        → Sized content room t
        → (t' : Target) × (extract C Z g.object c t ≡ done t')
          × Restored content room (λ i. Covers plain_of i c) t t'
    one b c t g sized =
        let fits : c.0 + length (plain_of c) ≤ length t.mmap =
          omega (arith, g.part.inside, sized.file_size) in
        let (buffer, run, size) =
          extract-Holds C Z K L g.object c.1 g.hash (plain_of c) g.compressed c.0 t g.held g.same_id
            g.packed g.positive g.small (omega (arith, g.decryptable, sized.buffer_size)) fits in
        (
          record { buffer = buffer; mmap = place_at t.mmap c.0 (plain_of c) },
          run,
          record {
            file_size = length-place_at t.mmap c.0 (plain_of c) fits ∙ sized.file_size;
            buffer_size = size ∙ sized.buffer_size;
            stays = λ i. place_at-Right content t.mmap (plain_of c) c.0 i fits g.part;
            becomes = λ i h. place_at-part content t.mmap (plain_of c) c.0 i fits g.part h.0 h.1;
          },
        )

    both :
        (P Q R : ℕ → Type 0) (t t1 t2 : Target)
        → ((i : ℕ) → R i → P i ⊎ Q i)
        → Restored content room P t t1
        → Restored content room Q t1 t2
        → Restored content room R t t2
    both P Q R t t1 t2 split a c = record {
      file_size = c.file_size;
      buffer_size = c.buffer_size;
      stays = λ i h. c.stays i (a.stays i h);
      becomes =
          λ i h. elim (split i h) [ inl p ↦ c.stays i (a.becomes i p) | inr q ↦ c.becomes i q ];
    }

    none-Restored :
        (P : ℕ → Type 0) (t : Target)
        → ((i : ℕ) → P i → ⊥)
        → Sized content room t
        → Restored content room P t t
    none-Restored P t empty sized = record {
      file_size = sized.file_size;
      buffer_size = sized.buffer_size;
      stays = λ i h. h;
      becomes = λ i h. absurd (empty i h);
    }

    Sized-after :
        (P : ℕ → Type 0) (t t' : Target) → Restored content room P t t' → Sized content room t'
    Sized-after P t t' r = record { file_size = r.file_size; buffer_size = r.buffer_size }

    read-Later :
        (b b' : B.State) (id : ObjectId)
        → D.Coherent b
        → Later B D (B.read_object id b).1 b'
        → Later B D b b'
    read-Later b b' id co l = record {
      coherent = l.coherent;
      still = λ j o h. l.still j o (W.read-read id j o b co h);
    }

    abbrev pub Good : B.State → Chunk → Type 0
    Good b c = Available content b room (plain_of c) c

    extract_all-Restored :
        (b : B.State) (id : ObjectId) (object : Object) (cs : List Chunk) (t : Target)
        → (B.read_object id b).0 ≡ ok object
        → All (λ c. (c.1.file ≡ id) × Good b c) cs
        → Sized content room t
        → (t' : Target) × (extract_all C Z object cs t ≡ done t')
          × Restored content room (λ i. Some (Covers plain_of i) cs) t t'
    unfolding extract_all
    extract_all-Restored b id object [] t r g sized =
        (t, refl, none-Restored (λ i. Some (Covers plain_of i) []) t (λ i h. h) sized)
    extract_all-Restored b id object (c ∷ cs) t r g sized =
        let good = g.0.1 in
        let same : good.object ≡ object =
          ok-injective good.object object
            (sym good.read ∙ ap (λ k. (B.read_object k b).0) g.0.0 ∙ r) in
        let (t1, run, first) = one b c t good sized in
        let (t2, runs, rest) =
          extract_all-Restored b id object cs t1 r g.1
            (Sized-after (λ i. Covers plain_of i c) t t1 first) in
        (
          t2,
          ap (λ out. out >>= extract_all C Z object cs)
                (ap (λ o. extract C Z o c t) (sym same) ∙ run)
              ∙ runs,
          both (λ i. Covers plain_of i c) (λ i. Some (Covers plain_of i) cs)
              (λ i. Some (Covers plain_of i) (c ∷ cs)) t t1 t2 (λ i h. h) first rest,
        )

    later :
        (b : B.State) (id : ObjectId) (c : Chunk)
        → D.Coherent b
        → Good b c
        → Good (B.read_object id b).1 c
    later b id c co g = record {
      hash = g.hash;
      compressed = g.compressed;
      object = g.object;
      read = W.read-read id c.1.file g.object b co g.read;
      same_id = g.same_id;
      held = g.held;
      packed = g.packed;
      positive = g.positive;
      small = g.small;
      decryptable = g.decryptable;
      part = g.part;
    }

    All-later :
        (b : B.State) (id k : ObjectId) (cs : List Chunk)
        → D.Coherent b
        → All (λ c. (c.1.file ≡ k) × Good b c) cs
        → All (λ c. (c.1.file ≡ k) × Good (B.read_object id b).1 c) cs
    All-later b id k [] co g = tt
    All-later b id k (c ∷ cs) co g = ((g.0.0, later b id c co g.0.1), All-later b id k cs co g.1)

    groups_later :
        (b : B.State) (id : ObjectId) (gs : List Group)
        → D.Coherent b
        → Grouped (Good b) gs
        → Grouped (Good (B.read_object id b).1) gs
    groups_later b id [] co g = tt
    groups_later b id ((k, cs) ∷ gs) co g =
        (All-later b id k cs co g.0, groups_later b id gs co g.1)

    abbrev pub Readable : B.State → ObjectId → Type 0
    Readable b id = (o : Object) × ((B.read_object id b).0 ≡ ok o)

    Readable-later :
        (b : B.State) (id : ObjectId) (gs : List Group)
        → D.Coherent b
        → Keys (Readable b) gs
        → Keys (Readable (B.read_object id b).1) gs
    Readable-later b id [] co g = tt
    Readable-later b id ((k, cs) ∷ gs) co g =
        ((g.0.0, W.read-read id k g.0.0 b co g.0.1), Readable-later b id gs co g.1)

    pub restore_objects-Restored :
        (gs : List Group) (t : Target) (b : B.State)
        → D.Coherent b
        → Grouped (Good b) gs
        → Keys (Readable b) gs
        → Sized content room t
        → (t' : Target) × (b' : B.State) × (restore_objects C Z B gs (t, b) ≡ done (t', b'))
          × Restored content room (λ i. SomeGroup (Covers plain_of i) gs) t t'
          × Later B D b b'
    unfolding restore_objects
    restore_objects-Restored [] t b co g h sized = (
      t,
      b,
      refl,
      none-Restored (λ i. SomeGroup (Covers plain_of i) []) t (λ i x. x) sized,
      record { coherent = co; still = λ id o x. x },
    )
    restore_objects-Restored ((id, cs) ∷ gs) t b co g h sized =
        let (object, read) = h.0 in
        let (t1, run, first) = extract_all-Restored b id object cs t read g.0 sized in
        let (t2, b2, runs, rest, later_on) =
          restore_objects-Restored gs t1 (B.read_object id b).1 (W.read-Coherent id b co)
            (groups_later b id gs co g.1) (Readable-later b id gs co h.1)
            (Sized-after (λ i. Some (Covers plain_of i) cs) t t1 first) in
        (
          t2,
          b2,
          rw (read, run) runs,
          both (λ i. Some (Covers plain_of i) cs) (λ i. SomeGroup (Covers plain_of i) gs)
              (λ i. SomeGroup (Covers plain_of i) ((id, cs) ∷ gs)) t t1 t2 (λ i x. x) first rest,
          read-Later b b2 id co later_on,
        )
