-- ===== src/Stash/Checkout.antt =====
-- libzerostash/src/stash/mod.rs: `Stash`, and `list`, the files that match a glob. The patterns of
-- the glob crate are the parameter `Glob`.
use zerostash.Prelude.{Bool, false, ◌||◌, if◌then◌else◌, Option, none, some, List, [], ◌∷◌}
use zerostash.Objects.{Bytes}
use zerostash.Chunks.{ChunkIndex}
use zerostash.Crypto.StashKey.{StashKey}
use zerostash.Backends.{Backend}
use zerostash.Files as FileStore
use zerostash.Files.{Entry, FileIndex}

pub record Stash (B : Backend) : Type 0 where
  pub backend : B.State
  pub chunks : ChunkIndex
  pub files : FileIndex
  pub master_key : StashKey

unfoldable pub new : (B : Backend) → B.State → StashKey → Stash B
new B b key = record { backend = b; chunks = []; files = []; master_key = key }

-- `pattern` is `Pattern::new`.
pub record Glob : Type 1 where
  pub Pattern : Type 0
  pub pattern : Bytes → Option Pattern
  pub matches : Pattern → Bytes → Bool

module _ (G : Glob) where
  abbrev pub add_pattern : Option G.Pattern → Option (List G.Pattern) → Option (List G.Pattern)
  add_pattern none rest = none
  add_pattern (some m) none = none
  add_pattern (some m) (some ms) = some (m ∷ ms)

  -- `Pattern::new(…).unwrap()` of each; `none` is a panic.
  unfoldable pub matchers : List Bytes → Option (List G.Pattern)
  matchers [] = some []
  matchers (g ∷ glob) = add_pattern (G.pattern g) (matchers glob)

  unfoldable pub any_matches : List G.Pattern → Bytes → Bool
  any_matches [] name = false
  any_matches (m ∷ ms) name = G.matches m name || any_matches ms name

  unfoldable pub keep_matching : List G.Pattern → List Entry → List Entry
  unfolding any_matches
  keep_matching ms [] = []
  keep_matching ms (f ∷ fs) =
      let rest = keep_matching ms fs in if any_matches ms f.name then f ∷ rest else rest

  -- With no pattern all files are listed.
  abbrev pub listed : Option (List G.Pattern) → List Entry → Option (List Entry)
  listed none fs = none
  listed (some []) fs = some fs
  listed (some (m ∷ ms)) fs = some (keep_matching (m ∷ ms) fs)

  unfoldable pub list : List Bytes → FileIndex → Option (List Entry)
  unfolding matchers
  list glob files = listed (matchers glob) (FileStore.serialize files)
