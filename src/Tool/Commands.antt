-- ===== src/Tool/Commands.antt =====
-- zerostash/src/commands/: what the subcommands that act on a stash run. Their `expect` panics.
use zerostash.Prelude.{
  ℕ, ◌⊎◌, inl, inr, Option, none, some, List, [], ◌∷◌, Outcome, ok, err, panic, Exec, ◌>>=◌, ◌>>◌,
  and_then, lift,
}
use zerostash.Objects.{Bytes, IoError}
use zerostash.Crypto.{Primitives}
use zerostash.Tool.Config.{Stash, ZerostashConfig, Error, World, Library, filesystem, resolve_stash}
use zerostash.Tool.Application.{Exit, get_worker_threads, on_stash, open_stash, stash_exists}

abbrev pub expect : {A : Type 0} → Outcome Error A → Outcome Exit A
expect (ok a) = ok a
expect (err e) = panic
expect panic = panic

module _ (P : Primitives) (W : World) (L : Library W) (num_cpus : ℕ) where
  unfoldable pub checkout :
      ZerostashConfig → Bytes → Bytes → List Bytes → Exec W.State Exit (Unit {0})
  unfolding stash_exists get_worker_threads
  checkout config stash target paths = do
    opened ← stash_exists P W L config stash
    on_stash P W L expect (L.restore_by_glob (get_worker_threads num_cpus) paths target) opened
    (λ w. (ok tt, w))

  -- The loop over the paths
  unfoldable pub add_paths : List Bytes → L.Stash → Exec W.State Exit L.Stash
  unfolding get_worker_threads
  add_paths [] stash w = (ok stash, w)
  add_paths (path ∷ paths) stash w =
      let (r, w') =
        on_stash P W L expect (L.add_recursive (get_worker_threads num_cpus) path) stash w in
      and_then r (λ out. add_paths paths out.1) w'

  unfoldable pub commit : ZerostashConfig → Bytes → List Bytes → Exec W.State Exit (Unit {0})
  unfolding open_stash add_paths
  commit config stash paths = do
    opened ← open_stash P W L config stash
    added ← add_paths paths opened
    on_stash P W L expect L.commit added
    (λ w. (ok tt, w))

  -- The lines that it prints.
  unfoldable pub ls : ZerostashConfig → Bytes → List Bytes → Exec W.State Exit (List Bytes)
  unfolding stash_exists
  ls config stash paths = do
    opened ← stash_exists P W L config stash
    lift (expect (L.list paths opened))

module _ (W : World) where
  abbrev pub path_of : Bytes → Option Stash → Bytes
  path_of stash none = stash
  path_of stash (some cfg) = elim cfg.backend [ filesystem path ↦ path ]

  abbrev pub removed : (IoError ⊎ Unit {0}) × W.State → Outcome Exit (Unit {0}) × W.State
  removed (inl e, w) = (panic, w)
  removed (inr u, w) = (ok tt, w)

  unfoldable pub wipe : ZerostashConfig → Bytes → Exec W.State Exit (Unit {0})
  unfolding resolve_stash
  wipe config stash w = removed (W.remove_dir_all (path_of stash (resolve_stash config stash)) w)
