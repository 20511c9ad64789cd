-- ===== src/Restore/Queue.antt =====
-- libzerostash/src/stash/restore.rs: `send_all`, the loop of `from_iter` that sends the files, and
-- `process_packet_loop`, which restores the files that a worker receives. `create_dir_all` is the
-- parameter `Host`, how `std::path` splits a name the parameter `components`, and what the system
-- says of a name the parameter `Names`.
pub mod Sending
pub mod Trees
use zerostash.Prelude.{
  ℕ, Bool, ◌⊎◌, inl, inr, Option, none, some, List, [], ◌∷◌, ◌++◌, Outcome, ok, err, panic, Exec,
  and_then, pure, ℕ_discrete,
}
use zerostash.Prelude.Equality.{Eq}
use zerostash.Prelude.Dict
use zerostash.Prelude.Dict.{Dict}
use zerostash.Objects.{Bytes, IoError, default}
use zerostash.Compress.{Lz4}
use zerostash.Crypto.Provider.{CryptoProvider}
use zerostash.Backends.{Backend}
use zerostash.Files.{Entry}
use zerostash.Restore.{Step, Component, root_dir, done, ◌>>=◌, get_path, Access, restore_file}

abbrev pub PathBuf : Type 0
PathBuf = List Component

path_dec : Discrete PathBuf
path_dec = hlevel ℕ_discrete

instance unfoldable pub path_eq : Eq PathBuf
unfolding path_dec ℕ_discrete
path_eq = record { dec = path_dec }

-- `ThreadWork`
abbrev pub ThreadWork : Type 0
ThreadWork = PathBuf × Entry

-- The files, by the name that every name of theirs resolves to.
abbrev pub FileTree : Type 0
FileTree = Dict PathBuf Bytes

-- Which file a name leads to, as `.` and links make several names one, and whether it can be written.
pub record Names : Type 0 where
  pub resolve : PathBuf → PathBuf
  pub access : PathBuf → Access

pub record Host : Type 1 where
  pub State : Type 0
  pub create_dir_all : PathBuf → State → (IoError ⊎ Unit {0}) × State

-- `Path::parent`: all but the last component, of a path that has one besides the root
unfoldable pub parent : PathBuf → Option PathBuf
parent [] = none
parent (root_dir ∷ []) = none
parent (c ∷ []) = some []
parent (c ∷ d ∷ cs) = elim (parent (d ∷ cs)) [ none ↦ some (c ∷ []) | some p ↦ some (c ∷ p) ]

module _ (H : Host) (components : Bytes → PathBuf) where
  abbrev pub unwrapped : (IoError ⊎ Unit {0}) × H.State → Outcome IoError (Unit {0}) × H.State
  unwrapped (inl e, h) = (panic, h)
  unwrapped (inr u, h) = (ok tt, h)

  abbrev pub create_parent : PathBuf → Option PathBuf → Exec H.State IoError (Unit {0})
  create_parent target none h = (ok tt, h)
  create_parent target (some p) h = unwrapped (H.create_dir_all (target ++ p) h)

  -- `create_dir_all(…).unwrap()` of the parent, and `sender.send`
  abbrev pub send_file : PathBuf → Entry → Exec (H.State × List ThreadWork) IoError (Unit {0})
  send_file target md (h, sent) =
      let path = get_path (components md.name) in
      let (r, h') = create_parent target (parent path) h in
      and_then r (λ _ s. (ok tt, (s.0, s.1 ++ (target ++ path, md) ∷ []))) (h', sent)

  -- The loop of `from_iter` over the files, and what it has sent, also where it panics. A path
  -- without its root is joined to the target.
  unfoldable pub send_all :
      PathBuf → List Entry → Exec (H.State × List ThreadWork) IoError (Unit {0})
  unfolding parent get_path
  send_all target [] s = (ok tt, s)
  send_all target (md ∷ rest) s =
      let (r, s') = send_file target md s in and_then r (λ _. send_all target rest) s'

module _ (C : CryptoProvider) (Z : Lz4) (B : Backend) (N : Names) where
  abbrev pub put : PathBuf → Option Bytes → FileTree → FileTree
  put filename none files = files
  put filename (some bytes) files = Dict.insert filename bytes files

  -- The loop over what a worker receives, with its buffer.
  unfoldable pub process_packets :
      List ThreadWork → FileTree → Bytes → B.State → Step (FileTree × Bytes × B.State)
  process_packets [] files buffer b = done (files, buffer, b)
  process_packets ((filename, md) ∷ rest) files buffer b =
      restore_file C Z B md.size md.chunks (N.access filename)
        (Dict.lookup (N.resolve filename) files) buffer b
      >>= λ out. process_packets rest (put (N.resolve filename) out.0 files) out.1 out.2

  unfoldable pub process_packet_loop :
      List ThreadWork → FileTree → B.State → Step (FileTree × Bytes × B.State)
  unfolding process_packets
  process_packet_loop work files b = process_packets work files default.buffer b
