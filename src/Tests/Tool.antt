-- ===== src/Tests/Tool.antt =====
-- A stash that is opened under an alias.
use zerostash.Prelude.{ℕ, ◌+◌, ◌≡◌, refl, inr, [], ◌∷◌, ok, replicate}
use zerostash.Prelude.Equality.{bytes_eq}
use zerostash.Prelude.Dict
use zerostash.Objects.{Bytes, from_bytes}
use zerostash.Crypto.{derive_argon2}
use zerostash.Crypto.StashKey
use zerostash.Crypto.StashKey.{StashKey}
use zerostash.Tool.Config.{
  ZerostashConfig, World, Library, plaintext, filesystem, resolve_stash, open_directory, try_open,
}
use zerostash.Tool.Application.{open_stash}
use zerostash.Tool.Commands.{removed, wipe}
use zerostash.Tool.Targets.{OpenedAt, open_stash-wipe}
use zerostash.Tests.Samples.{primitives}

-- It counts the directories that are created.
abbrev world : World
world = record {
  State = ℕ;
  prompt_username = λ w. (inr [], w);
  prompt_password = λ w. (inr [], w);
  create_dir_all = λ path w. (inr tt, w + 1);
  remove_dir_all = λ path w. (inr tt, w);
}

abbrev library : Library world
library = record {
  Stash = Bytes × StashKey;
  new = λ path key. (path, key);
  read = λ s. (ok tt, s);
  list = λ glob s. ok [];
  restore_by_glob = λ threads glob target s. (ok tt, s);
  add_recursive = λ threads path s. (ok tt, s);
  commit = λ s. (ok tt, s);
}

abbrev config : ZerostashConfig
config = record {
  stashes =
      (1 ∷ [], record { key = plaintext (5 ∷ []) (6 ∷ []); backend = filesystem (2 ∷ []) }) ∷ [];
}

abbrev stash : library.Stash
stash = (2 ∷ [], record { master_key = replicate 32 0 })

opened : open_stash primitives world library config (1 ∷ []) 0 ≡ (ok stash, 1)
unfolding open_stash resolve_stash Dict.lookup try_open open_directory StashKey.open_stash
    derive_argon2 from_bytes bytes_eq replicate
opened = refl

open_stash-wipe_example :
    (target : Bytes) × OpenedAt primitives world library target stash 1
    × ((v : ℕ) → wipe world config (1 ∷ []) v ≡ removed world (world.remove_dir_all target v))
open_stash-wipe_example = open_stash-wipe primitives world library config (1 ∷ []) 0 1 stash opened
