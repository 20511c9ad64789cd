-- ===== src/Files.antt =====
-- libzerostash/src/files.rs: `Entry`, the record of a file, and `FileStore`, the set of them. The
-- metadata of the operating system is the parameter `Metadata`.
pub mod Changed
use mathlib.Core.Bool.{Bool-discrete}
use zerostash.Prelude.{
  ℕ, Bool, true, false, not, Option, none, some, List, [], ◌∷◌, Outcome, ok, err, panic, ℕ_discrete,
}
use zerostash.Prelude.Equality.{Eq, ◌=?◌}
use zerostash.Prelude.Dict
use zerostash.Prelude.Dict.{Dict}
use zerostash.Objects.{Bytes, IoError}
use zerostash.Chunks.Pointer.{ChunkPointer}

-- `Entry`; a name is the bytes of a `String`.
pub record Entry : Type 0 where
  pub unix_secs : ℕ
  pub unix_nanos : ℕ
  pub unix_perm : ℕ
  pub unix_uid : ℕ
  pub unix_gid : ℕ
  pub size : ℕ
  pub readonly : Bool
  pub name : Bytes
  pub chunks : List (ℕ × ChunkPointer)

entry_dec : Discrete Entry
entry_dec = hlevel ℕ_discrete

-- The derived `Eq` compares every field, the chunks too.
instance unfoldable pub entry_eq : Eq Entry
unfolding entry_dec ℕ_discrete
entry_eq = record { dec = entry_dec }

-- What `fs::Metadata` tells: `mtime` is the time since the epoch in seconds and nanoseconds, `none`
-- for a time before it, where `duration_since` returns an error.
pub record Metadata : Type 0 where
  pub mtime : Option (ℕ × ℕ)
  pub mode : ℕ
  pub uid : ℕ
  pub gid : ℕ
  pub len : ℕ
  pub readonly : Bool

pub data FileError : Type 0 where
  io : IoError → FileError
  before_epoch : FileError

unfoldable pub to_unix_mtime : Metadata → Outcome FileError (ℕ × ℕ)
to_unix_mtime m = elim m.mtime [ none ↦ err before_epoch | some t ↦ ok t ]

abbrev pub described : Metadata → Option Bytes → ℕ × ℕ → Outcome FileError Entry
described m none t = panic
described m (some name) (secs, nanos) = ok (record {
  unix_secs = secs;
  unix_nanos = nanos;
  unix_perm = m.mode;
  unix_uid = m.uid;
  unix_gid = m.gid;
  size = m.len;
  readonly = m.readonly;
  name = name;
  chunks = [];
})

abbrev pub and_describe :
    Metadata → Option Bytes → Outcome FileError (ℕ × ℕ) → Outcome FileError Entry
and_describe m path (ok t) = described m path t
and_describe m path (err e) = err e
and_describe m path panic = panic

-- `Entry::from_file` on unix, once `file.metadata()` has succeeded; `path` is `none` where it is not
-- UTF-8, which panics.
unfoldable pub from_file : Metadata → Option Bytes → Outcome FileError Entry
unfolding to_unix_mtime
from_file m path = and_describe m path (to_unix_mtime m)

-- `DashSet<Arc<Entry>>`
abbrev pub FileIndex : Type 0
FileIndex = Dict Entry (Unit {0})

abbrev pub is_some {ℓ} : {A : Type ℓ} → Option A → Bool
is_some none = false
is_some (some a) = true

unfoldable pub has_changed : Entry → FileIndex → Bool
has_changed file index = not (is_some (Dict.lookup file index))

unfoldable pub push : Entry → FileIndex → FileIndex
push file index = Dict.insert file tt index

unfoldable pub serialize : FileIndex → List Entry
serialize [] = []
serialize ((e, _) ∷ index) = e ∷ serialize index

-- The items that `read_next` returns before its first error.
unfoldable pub deserialize : List Entry → FileIndex → FileIndex
deserialize [] index = index
deserialize (file ∷ items) index = deserialize items (Dict.insert file tt index)
