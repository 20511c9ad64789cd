-- ===== src/Tool/Application.antt =====
-- zerostash/src/application.rs: how the tool opens a stash. `fatal_error` prints and exits with 1.
use zerostash.Prelude.{ℕ, ◌+◌, Option, none, some, Outcome, ok, err, panic, Exec, ◌>>=◌, and_then}
use zerostash.Objects.{Bytes}
use zerostash.Crypto.{Primitives}
use zerostash.Tool.Config.{
  Stash, ZerostashConfig, Error, World, Library, resolve_stash, ask_credentials, open_directory,
  try_open,
}

-- How the process ends before its command does.
pub data Exit : Type 0 where
  fatal : Error → Exit

-- `.unwrap_or_else(|e| fatal_error(e))`
abbrev pub or_fatal : {A : Type 0} → Outcome Error A → Outcome Exit A
or_fatal (ok a) = ok a
or_fatal (err e) = err (fatal e)
or_fatal panic = panic

-- `num_cpus` is `num_cpus::get()`.
unfoldable pub get_worker_threads : ℕ → ℕ
get_worker_threads num_cpus = num_cpus + 1

module _ (P : Primitives) (W : World) (L : Library W) where
  abbrev pub fatally : {A : Type 0} → Exec W.State Error A → Exec W.State Exit A
  fatally m w = let (r, w') = m w in (or_fatal r, w')

  abbrev pub open_resolved : Bytes → Option Stash → Exec W.State Exit L.Stash
  open_resolved pathy none = do
    key ← fatally (ask_credentials P W)
    fatally (open_directory P W L pathy key)
  open_resolved pathy (some cfg) = fatally (try_open P W L cfg)

  unfoldable pub open_stash : ZerostashConfig → Bytes → Exec W.State Exit L.Stash
  unfolding resolve_stash
  open_stash config pathy = open_resolved pathy (resolve_stash config pathy)

  -- A call of the library on the stash, and what becomes of its error.
  abbrev pub on_stash :
      {A : Type 0}
      → (Outcome Error A → Outcome Exit A)
      → Exec (L.Stash × W.State) Error A
      → L.Stash
      → Exec W.State Exit (A × L.Stash)
  on_stash f m stash w =
      let (r, (stash', w')) = m (stash, w) in and_then (f r) (λ a w. (ok (a, stash'), w)) w'

  unfoldable pub stash_exists : ZerostashConfig → Bytes → Exec W.State Exit L.Stash
  unfolding open_stash
  stash_exists config pathy = do
    stash ← open_stash config pathy
    out ← on_stash or_fatal L.read stash
    (λ w. (ok out.1, w))
