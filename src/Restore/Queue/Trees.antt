-- ===== src/Restore/Queue/Trees.antt =====
-- What a worker leaves under the names of the files that it receives.
use zerostash.Prelude.{
  ℕ, ◌<◌, ◌==◌, ◌≡◌, ◌≢◌, ◌∙◌, inl, inr, refl, sym, ap, subst, true, false, Bool-cases,
  Option-cases, Option, some, List, [], ◌∷◌, length, if◌then◌else◌, arith,
}
use zerostash.Prelude.Dict
use zerostash.Prelude.Dict.{lookup-insert_self, lookup-insert_ne, insert-same}
use zerostash.Objects.{Bytes, default}
use zerostash.Compress
use zerostash.Compress.{Lz4}
use zerostash.Crypto.Provider.{CryptoProvider, IsSound}
use zerostash.Backends
use zerostash.Backends.{Contract, Backend}
use zerostash.Files.{Entry}
use zerostash.Restore.{done, Access, Granted, restore_file}
use zerostash.Restore.Groups.{Chunk, Some, All}
use zerostash.Restore.Rounds.{Available, Covers, Later}
use zerostash.Restore.Whole.{restore_file-content}
use zerostash.Restore.Queue.{
  PathBuf, Names, path_eq, ThreadWork, FileTree, put, process_packets, process_packet_loop,
}

module _ (resolve : PathBuf → PathBuf) where
  -- No name of a queue leads to `place`.
  abbrev pub Apart : PathBuf → List ThreadWork → Type 0
  Apart place [] = Unit
  Apart place ((name, md) ∷ rest) = (place ≢ resolve name) × Apart place rest

  -- The names of a queue lead to different files.
  abbrev pub Distinct : List ThreadWork → Type 0
  Distinct [] = Unit
  Distinct ((name, md) ∷ rest) = Apart (resolve name) rest × Distinct rest

module _ (resolve : PathBuf → PathBuf) (content_of : Entry → Bytes) where
  -- The tree after a queue: each file that is not empty stands under its name with its content.
  unfoldable pub restored : List ThreadWork → FileTree → FileTree
  restored [] files = files
  restored ((name, md) ∷ rest) files =
      restored rest
        (if md.size == 0 then files else Dict.insert (resolve name) (content_of md) files)

  restored_other :
      (work : List ThreadWork) (files : FileTree) (name : PathBuf)
      → Apart resolve name work
      → Dict.lookup name (restored work files) ≡ Dict.lookup name files
  unfolding restored
  restored_other [] files name h = refl
  restored_other ((other, md) ∷ rest) files name (ne, more) =
      restored_other rest
        (if md.size == 0 then files else Dict.insert (resolve other) (content_of md) files) name
        more
      ∙ (elim (Bool-cases (md.size == 0)) [
        | inl empty ↦ rw empty refl
        | inr full ↦ rw full (lookup-insert_ne name (resolve other) (content_of md) files ne)
      ])

  -- Each file of the queue that is not empty stands under its name.
  abbrev pub AllThere : List ThreadWork → FileTree → Type 0
  AllThere [] files = Unit
  AllThere ((name, md) ∷ rest) files =
      ((md.size == 0) ≡ false → Dict.lookup (resolve name) files ≡ some (content_of md))
      × AllThere rest files

  restored-AllThere :
      (work : List ThreadWork) (files : FileTree)
      → Distinct resolve work
      → AllThere work (restored work files)
  unfolding restored
  restored-AllThere [] files d = tt
  restored-AllThere ((name, md) ∷ rest) files (apart, d) =
      let now = if md.size == 0 then files else Dict.insert (resolve name) (content_of md) files in
      (
        λ full.
            restored_other rest now (resolve name) apart
            ∙ (rw full
                (lookup-insert_self (resolve name) (resolve name) (content_of md) files refl)),
        restored-AllThere rest now d,
      )

module _ (C : CryptoProvider) (Z : Lz4) (B : Backend) (K : IsSound C) (D : Contract B)
    (W : Backends.IsLawful B D) (L : Compress.IsLawful Z) (content_of : Entry → Bytes)
    (plain_of : Chunk → Bytes) (room : ℕ) (N : Names) where
  -- A file whose bytes all lie in chunks that can be read from the backend.
  pub record Restorable (b : B.State) (md : Entry) : Type 0 where
    pub sized : length (content_of md) ≡ md.size
    pub good : All (λ c. Available C Z B (content_of md) b room (plain_of c) c) md.chunks
    pub covered : (i : ℕ) → i < length (content_of md) → Some (Covers plain_of i) md.chunks

  -- Each file of a queue is restorable, and one that is not empty has a name that the system opens,
  -- resizes and maps.
  abbrev pub AllRestorable : B.State → List ThreadWork → Type 0
  AllRestorable b [] = Unit
  AllRestorable b ((name, md) ∷ rest) =
      Restorable b md
      × ((md.size == 0) ≡ false → Granted (N.access name) md.size)
      × AllRestorable b rest

  All-Later :
      (b b' : B.State) (content : Bytes) (cs : List Chunk)
      → Later B D b b'
      → All (λ c. Available C Z B content b room (plain_of c) c) cs
      → All (λ c. Available C Z B content b' room (plain_of c) c) cs
  All-Later b b' content [] l g = tt
  All-Later b b' content (c ∷ cs) l (g, gs) = (
    record {
      hash = g.hash;
      compressed = g.compressed;
      object = g.object;
      read = l.still c.1.file g.object g.read;
      same_id = g.same_id;
      held = g.held;
      packed = g.packed;
      positive = g.positive;
      small = g.small;
      decryptable = g.decryptable;
      part = g.part;
    },
    All-Later b b' content cs l gs,
  )

  AllRestorable-Later :
      (b b' : B.State) (work : List ThreadWork)
      → Later B D b b'
      → AllRestorable b work
      → AllRestorable b' work
  AllRestorable-Later b b' [] l h = tt
  AllRestorable-Later b b' ((name, md) ∷ rest) l (r, g, rs) = (
    record {
      sized = r.sized;
      good = All-Later b b' (content_of md) md.chunks l r.good;
      covered = r.covered;
    },
    g,
    AllRestorable-Later b b' rest l rs,
  )

  skipped :
      (size : ℕ) (chunks : List Chunk) (access : Access) (old : Option Bytes) (buffer : Bytes)
      (b : B.State)
      → (size == 0) ≡ true
      → restore_file C Z B size chunks access old buffer b ≡ done (old, buffer, b)
  unfolding restore_file
  skipped size chunks access old buffer b empty = rw empty refl

  put-same :
      (name : PathBuf) (files : FileTree) → put C Z B N name (Dict.lookup name files) files ≡ files
  put-same name files = elim (Option-cases (Dict.lookup name files)) [
    | inl missing ↦ rw missing refl
    | inr (bytes, there) ↦ rw there (insert-same name bytes files there)
  ]

  process_packets-restored :
      (work : List ThreadWork) (files : FileTree) (buffer : Bytes) (b : B.State)
      → D.Coherent b
      → length buffer ≡ room
      → AllRestorable b work
      → (buffer' : Bytes) × (b' : B.State) × (process_packets C Z B N work files buffer b
          ≡ done (restored N.resolve content_of work files, buffer', b'))
        × Later B D b b'
  unfolding process_packets restored
  process_packets-restored [] files buffer b co size h =
      (buffer, b, refl, record { coherent = co; still = λ id o r. r })
  process_packets-restored ((name, md) ∷ rest) files buffer b co size (r, g, rs) =
      elim (Bool-cases (md.size == 0)) [
        | inl empty ↦
            let (buffer1, b1, run, later) =
              process_packets-restored rest files buffer b co size rs in
            (
              buffer1,
              b1,
              rw
                  (
                    empty,
                    skipped md.size md.chunks (N.access name) (Dict.lookup (N.resolve name) files)
                        buffer b empty,
                    put-same (N.resolve name) files,
                  )
                  run,
              later,
            )
        | inr full ↦
            let (buffer1, b1, run, size1, later) =
              restore_file-content C Z B K D W L (content_of md) room plain_of md.chunks
                (N.access name) (Dict.lookup (N.resolve name) files) buffer b co
                (subst (Granted (N.access name)) (sym r.sized) (g full))
                (ground (arith, r.sized, full)) size r.good r.covered in
            let (buffer2, b2, run2, later2) =
              process_packets-restored rest (Dict.insert (N.resolve name) (content_of md) files)
                buffer1 b1 later.coherent size1 (AllRestorable-Later b b1 rest later rs) in
            (
              buffer2,
              b2,
              rw
                  (
                    full,
                    ap
                          (λ n.
                            restore_file C Z B n md.chunks (N.access name)
                              (Dict.lookup (N.resolve name) files) buffer b)
                          (sym r.sized)
                        ∙ run,
                  )
                  run2,
              record {
                coherent = later2.coherent;
                still = λ id o x. later2.still id o (later.still id o x);
              },
            )
      ]

  -- A worker that receives files whose names lead to different files, each byte of which lies in a
  -- chunk that can be read, decrypted in its buffer and decompressed, and whose names the system
  -- opens, resizes and maps where they are not empty, ends with no panic: every file it received that
  -- is not empty stands under its name with its content, whatever file stood there, and all other
  -- files are as they were.
  pub process_packet_loop-AllThere :
      (work : List ThreadWork) (files : FileTree) (b : B.State)
      → D.Coherent b
      → length default.buffer ≡ room
      → AllRestorable b work
      → Distinct N.resolve work
      → (files' : FileTree) × (buffer : Bytes) × (b' : B.State) × (process_packet_loop C Z B N work
            files b
          ≡ done (files', buffer, b'))
        × AllThere N.resolve content_of work files'
        × ((name : PathBuf)
            → Apart N.resolve name work
            → Dict.lookup name files' ≡ Dict.lookup name files)
  unfolding process_packet_loop
  process_packet_loop-AllThere work files b co size h d =
      let (buffer, b', run, later) =
        process_packets-restored work files default.buffer b co size h in
      (
        restored N.resolve content_of work files,
        buffer,
        b',
        run,
        restored-AllThere N.resolve content_of work files d,
        λ name apart. restored_other N.resolve content_of work files name apart,
      )
