-- ===== src/Tool/Config.antt =====
-- zerostash/src/config.rs: the configured stashes and how one is opened. The terminal and the file
-- system are the parameter `World`, the library's `Stash` the parameter `Library`.
use zerostash.Prelude.{
  ℕ, ◌⊎◌, inl, inr, Option, panic, List, [], Outcome, ok, err, Exec, ◌>>=◌, ◌>>◌, pure, lift,
}
use zerostash.Prelude.Equality.{bytes_eq}
use zerostash.Prelude.Dict
use zerostash.Prelude.Dict.{Dict}
use zerostash.Objects.{Bytes, IoError}
use zerostash.Crypto.{Primitives}
use zerostash.Crypto.StashKey.{StashKey, open_stash}

-- `None`, renamed to "ask" in the file, is `ask`.
pub data Key : Type 0 where
  plaintext : (user password : Bytes) → Key
  ask : Key

pub data Backend : Type 0 where
  filesystem : (path : Bytes) → Backend

pub record Stash : Type 0 where
  pub key : Key
  pub backend : Backend

pub record ZerostashConfig : Type 0 where
  pub stashes : Dict Bytes Stash

unfoldable pub default : ZerostashConfig
default = record { stashes = [] }

unfoldable pub resolve_stash : ZerostashConfig → Bytes → Option Stash
resolve_stash config alias = Dict.lookup alias config.stashes

-- `anyhow::Error`, by what it wraps
pub data Error : Type 0 where
  io : IoError → Error
  crypto library : Error

pub record World : Type 1 where
  pub State : Type 0
  pub prompt_username : State → (IoError ⊎ Bytes) × State
  pub prompt_password : State → (IoError ⊎ Bytes) × State
  pub create_dir_all : Bytes → State → (IoError ⊎ Unit {0}) × State
  pub remove_dir_all : Bytes → State → (IoError ⊎ Unit {0}) × State

-- libzerostash's `Stash`, as the commands use it: `new` is `Stash::new` of the `Directory` at a path.
pub record Library (W : World) : Type 1 where
  pub Stash : Type 0
  pub new : Bytes → StashKey → Stash
  pub read : Exec (Stash × W.State) Error (Unit {0})
  pub list : List Bytes → Stash → Outcome Error (List Bytes)
  pub restore_by_glob : ℕ → List Bytes → Bytes → Exec (Stash × W.State) Error (Unit {0})
  pub add_recursive : ℕ → Bytes → Exec (Stash × W.State) Error (Unit {0})
  pub commit : Exec (Stash × W.State) Error (Unit {0})

module _ (P : Primitives) (W : World) where
  abbrev pub lifted : {A : Type 0} → (IoError ⊎ A) × W.State → Outcome Error A × W.State
  lifted (inl e, w) = (err (io e), w)
  lifted (inr a, w) = (ok a, w)

  abbrev pub key_or_error : Outcome (Unit {0}) StashKey → Outcome Error StashKey
  key_or_error (ok key) = ok key
  key_or_error (err e) = err crypto
  key_or_error panic = panic

  unfoldable pub ask_credentials : Exec W.State Error StashKey
  ask_credentials = do
    username ← (λ w. lifted (W.prompt_username w))
    password ← (λ w. lifted (W.prompt_password w))
    lift (key_or_error (open_stash P username password))

  abbrev pub key_of : Key → Exec W.State Error StashKey
  key_of ask = ask_credentials
  key_of (plaintext user password) = lift (key_or_error (open_stash P user password))

  module _ (L : Library W) where
    -- `Stash::new(Arc::new(Directory::new(path)?), key)`
    unfoldable pub open_directory : Bytes → StashKey → Exec W.State Error L.Stash
    open_directory path key = do (λ w. lifted (W.create_dir_all path w)); pure (L.new path key)

    abbrev pub open_backend : Backend → StashKey → Exec W.State Error L.Stash
    open_backend (filesystem path) key = open_directory path key

    unfoldable pub try_open : Stash → Exec W.State Error L.Stash
    unfolding ask_credentials open_directory
    try_open cfg = do key ← key_of cfg.key; open_backend cfg.backend key
