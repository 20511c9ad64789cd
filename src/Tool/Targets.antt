-- ===== src/Tool/Targets.antt =====
-- Which directory a name stands for, in the commands that open a stash and in `wipe`.
use zerostash.Prelude.{
  ◌≡◌, ◌∙◌, refl, ap, ◌⊎◌, inl, inr, Option, none, some, Outcome, ok, err, panic, Exec, and_then,
  and_then-ok,
}
use zerostash.Objects.{Bytes, IoError}
use zerostash.Crypto.{Primitives}
use zerostash.Crypto.StashKey.{StashKey}
use zerostash.Tool.Config.{
  Stash, ZerostashConfig, Error, World, Library, Backend, filesystem, resolve_stash, lifted, key_of,
  ask_credentials, open_directory, open_backend, try_open,
}
use zerostash.Tool.Application.{Exit, or_fatal, fatally, open_resolved, open_stash}
use zerostash.Tool.Commands.{path_of, removed, wipe}

module _ (P : Primitives) (W : World) (L : Library W) where
  -- The stash was opened at the directory, which was created where it was missing.
  pub record OpenedAt (target : Bytes) (stash : L.Stash) (w' : W.State) : Type 0 where
    pub key : StashKey
    pub opened : stash ≡ L.new target key
    pub before : W.State
    pub created : W.create_dir_all target before ≡ (inr tt, w')

  or_fatal-ok :
      {A : Type 0} (r : Outcome Error A) {a : A}
      → ◌≡◌ {A = Outcome Exit A} (or_fatal r) (ok a)
      → r ≡ ok a
  or_fatal-ok (ok x) e = cc
  or_fatal-ok (err x) e = absurd (cc)
  or_fatal-ok panic e = absurd (cc)

  fatally-ok :
      {A : Type 0} (m : Exec W.State Error A) (w w' : W.State) (a : A)
      → fatally P W L m w ≡ (ok a, w')
      → m w ≡ (ok a, w')
  fatally-ok m w w' a e =
      ap (λ r. (r, (m w).1)) (or_fatal-ok (m w).0 (ap (λ r. r.0) e)) ∙ ap (λ r. (ok a, r.1)) e

  created-OpenedAt :
      (path : Bytes) (key : StashKey) (w w' v : W.State) (stash : L.Stash) (r : IoError ⊎ Unit {0})
      → W.create_dir_all path w ≡ (r, v)
      → and_then (lifted P W (r, v)).0 (λ _ x. (ok (L.new path key), x)) (lifted P W (r, v)).1
        ≡ (ok stash, w')
      → OpenedAt path stash w'
  created-OpenedAt path key w w' v stash (inl x) made e = absurd (cc)
  created-OpenedAt path key w w' v stash (inr u) made e = record {
    key = key;
    opened = cc;
    before = w;
    created = made ∙ ap (λ x. (inr tt, x)) (cc);
  }

  open_directory-OpenedAt :
      (path : Bytes) (key : StashKey) (w w' : W.State) (stash : L.Stash)
      → open_directory P W L path key w ≡ (ok stash, w')
      → OpenedAt path stash w'
  unfolding open_directory
  open_directory-OpenedAt path key w w' stash e =
      created-OpenedAt path key w w' (W.create_dir_all path w).1 stash (W.create_dir_all path w).0
        refl e

  open_resolved-OpenedAt :
      (name : Bytes) (cfg : Option Stash) (w w' : W.State) (stash : L.Stash)
      → open_resolved P W L name cfg w ≡ (ok stash, w')
      → OpenedAt (path_of W name cfg) stash w'
  unfolding try_open
  open_resolved-OpenedAt name none w w' stash e =
      let (key, asked, rest) =
        and_then-ok (or_fatal (ask_credentials P W w).0)
          (λ key. fatally P W L (open_directory P W L name key)) (ask_credentials P W w).1 e in
      open_directory-OpenedAt name key (ask_credentials P W w).1 w' stash
        (fatally-ok (open_directory P W L name key) (ask_credentials P W w).1 w' stash rest)
  open_resolved-OpenedAt name (some cfg) w w' stash e =
      let run = fatally-ok (try_open P W L cfg) w w' stash e in
      let (key, asked, rest) =
        and_then-ok (key_of P W cfg.key w).0 (open_backend P W L cfg.backend)
          (key_of P W cfg.key w).1 run in
      at cfg.backend key (key_of P W cfg.key w).1 rest
    where
      at :
          (backend : Backend) (key : StashKey) (v : W.State)
          → open_backend P W L backend key v ≡ (ok stash, w')
          → OpenedAt (path_of W name (some (record { key = cfg.key; backend = backend }))) stash w'
      at (filesystem path) key v rest = open_directory-OpenedAt path key v w' stash rest

  -- The directory that a stash is opened at under a name, an alias of the configuration or a path, is
  -- the one that `wipe` removes under that name.
  pub open_stash-wipe :
      (config : ZerostashConfig) (name : Bytes) (w w' : W.State) (stash : L.Stash)
      → open_stash P W L config name w ≡ (ok stash, w')
      → (target : Bytes) × OpenedAt target stash w'
        × ((v : W.State) → wipe W config name v ≡ removed W (W.remove_dir_all target v))
  unfolding open_stash wipe
  open_stash-wipe config name w w' stash e = (
    path_of W name (resolve_stash config name),
    open_resolved-OpenedAt name (resolve_stash config name) w w' stash e,
    λ v. refl,
  )
