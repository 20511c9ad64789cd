-- ===== src/Restore/Whole.antt =====
-- A whole file, restored by one worker.
use zerostash.Prelude.{
  ℕ, ◌-◌, ◌<◌, ◌≡◌, inr, refl, ap, Option, some, none, List, [], ◌∷◌, length, take, replicate,
  get_elem?-ext, length-append, length-take, length-replicate, ok, ◌==◌, false, arith,
}
use zerostash.Objects.{Bytes, ObjectId, Object}
use zerostash.Compress
use zerostash.Compress.{Lz4, block, max_input}
use zerostash.Crypto.Provider.{CryptoProvider, IsSound}
use zerostash.Backends
use zerostash.Backends.{Contract, Backend}
use zerostash.Restore.{done, Target, object_ordered, set_len, Access, Granted, restore_file}
use zerostash.Restore.Groups.{
  Chunk, Some, All, object_ordered-Some, object_ordered-Grouped, object_ordered-Keys,
}
use zerostash.Restore.Rounds.{Available, Covers, Sized, Later, restore_objects-Restored}

module _ (C : CryptoProvider) (Z : Lz4) (B : Backend) where
  module _ (K : IsSound C) (D : Contract B) (W : Backends.IsLawful B D) (L : Compress.IsLawful Z)
      (content : Bytes) (room : ℕ) (plain_of : Chunk → Bytes) where
    abbrev Usable : B.State → Chunk → Type 0
    Usable b c = Available C Z B content b room (plain_of c) c

    abbrev Found : B.State → ObjectId → Type 0
    Found b id = (o : Object) × ((B.read_object id b).0 ≡ ok o)

    readable : (b : B.State) (cs : List Chunk) → All (Usable b) cs → All (λ c. Found b c.1.file) cs
    readable b [] g = tt
    readable b (c ∷ cs) g = ((g.0.object, g.0.read), readable b cs g.1)

    length-set_len : (n : ℕ) (old : Bytes) → length (set_len n old) ≡ n
    unfolding set_len
    length-set_len n old = omega (
      arith,
      length-append (take n old) (replicate (n - length old) 0),
      length-take n old,
      length-replicate {A = ℕ} (n - length old) 0,
    )

    -- Restoring a file that is not empty from a coherent backend, all of whose bytes are covered by
    -- available chunks, under a name that the system opens, resizes and maps, ends with no panic and
    -- with exactly its content under the name, whatever file stood there and whatever was in the
    -- worker's buffer, which keeps its size; what the backend could read it still can.
    pub restore_file-content :
        (chunks : List Chunk) (access : Access) (old : Option Bytes) (buffer : Bytes) (b : B.State)
        → D.Coherent b
        → Granted access (length content)
        → 0 < length content
        → length buffer ≡ room
        → All (λ c. Available C Z B content b room (plain_of c) c) chunks
        → ((i : ℕ) → i < length content → Some (Covers plain_of i) chunks)
        → (buffer' : Bytes) × (b' : B.State) × (restore_file C Z B
              (length content)
              chunks
              access
              old
              buffer
              b
            ≡ done (some content, buffer', b'))
          × (length buffer' ≡ room)
          × Later B D b b'
    unfolding restore_file
    restore_file-content chunks access old buffer b co granted pos size good covered =
        let groups = object_ordered chunks [] in
        let (t', b', run, r, later) =
          restore_objects-Restored C Z B K D W L content room plain_of groups start b co
            (object_ordered-Grouped (Usable b) chunks [] tt good)
            (object_ordered-Keys (Found b) chunks [] tt (readable b chunks good)) sized in
        (
          t'.buffer,
          b',
          rw (not_empty, granted.opens, granted.resizes, granted.maps, run)
              (ap (λ m. done (some m, t'.buffer, b'))
                (get_elem?-ext t'.mmap content r.file_size (λ i lt. r.becomes i (
                  object_ordered-Some (Covers plain_of i) chunks []
                    (inr (covered i (omega (arith, r.file_size)))))))),
          r.buffer_size,
          later,
        )
      where
        start : Target
        start = record {
          buffer = buffer;
          mmap = set_len (length content) (elim old [ none ↦ [] | some f ↦ f ]);
        }

        sized : Sized content room start
        sized = record {
          file_size = length-set_len (length content) (elim old [ none ↦ [] | some f ↦ f ]);
          buffer_size = size;
        }

        not_empty : (length content == 0) ≡ false
        not_empty = ground (arith, pos)

  -- A file of size 0 is not created, nor is one that stands there cut.
  pub restore_file-empty :
      (chunks : List Chunk) (access : Access) (old : Option Bytes) (buffer : Bytes) (b : B.State)
      → restore_file C Z B 0 chunks access old buffer b ≡ done (old, buffer, b)
  unfolding restore_file
  restore_file-empty chunks access old buffer b = refl
