-- ===== src/Store/Pool/Stuck.antt =====
-- libzerostash/src/stash/store.rs: `recursive` with one thread.
use zerostash.Prelude.{
  ℕ, ◌+◌, ◌≤◌, ◌≡◌, ◌≢◌, refl, ap, subst, false, Bool-cases, inl, inr, Option, none, some, List, [],
  ◌∷◌, length, ltb, arith, length-append,
}
use zerostash.Objects.{Bytes, CryptoDigest}
use zerostash.Compress.{Lz4}
use zerostash.Crypto.Provider.{CryptoProvider}
use zerostash.Backends.{Backend}
use zerostash.Rollsum.{Rollsum}
use zerostash.Store.{Worker, DirEntry}
use zerostash.Store.Pool.{
  Pool, Move, send, worker, move, Run, here, step, send_next, start, workers_of,
}

module _ (C : CryptoProvider) (B : Backend) (Z : Lz4) (digest : Bytes → CryptoDigest)
    (R : Rollsum) where
  -- What a state without workers keeps: the indices and the backend, and all the files.
  record Untouched (p q : Pool C B) : Type 0 where
    no_workers : q.slots ≡ []
    same_chunks : q.chunks ≡ p.chunks
    same_files : q.files ≡ p.files
    same_backend : q.backend ≡ p.backend
    same_bound : q.bound ≡ p.bound
    in_bound : length q.channel ≤ q.bound
    all_left : length q.channel + length q.to_send ≡ length p.channel + length p.to_send

  send_next-Untouched :
      (p q r : Pool C B) (files : List DirEntry)
      → Untouched p q
      → q.to_send ≡ files
      → send_next C B Z digest R files q ≡ some r
      → Untouched p r
  send_next-Untouched p q r [] v left e = absurd (cc)
  send_next-Untouched p q r (file ∷ rest) v left e =
      elim (Bool-cases (ltb (length q.channel) q.bound)) [
        | inl room ↦ subst (Untouched p) (injective _ r (rw room at e)) (record {
          no_workers = v.no_workers;
          same_chunks = v.same_chunks;
          same_files = v.same_files;
          same_backend = v.same_backend;
          same_bound = v.same_bound;
          in_bound = ground (arith, room, length-append q.channel (file ∷ []));
          all_left = omega (arith, v.all_left, length-append q.channel (file ∷ []), ap length left);
        })
        | inr full ↦
            let bad : ◌≡◌ {A = Option (Pool C B)} none (some r) = rw full at e in absurd (cc)
      ]
    where
      injective : (a b : Pool C B) → ◌≡◌ {A = Option (Pool C B)} (some a) (some b) → a ≡ b
      injective a b e = cc

  no_turn : (p q r : Pool C B) (i : ℕ) → Untouched p q → move C B Z digest R (worker i) q ≢ some r
  unfolding move
  no_turn p q r i v e =
      let bad : ◌≡◌ {A = Option (Pool C B)} none (some r) = rw v.no_workers at e in absurd (cc)

  Run-Untouched :
      (p q : Pool C B) (n : ℕ)
      → p.slots ≡ []
      → length p.channel ≤ p.bound
      → Run C B Z digest R p n q
      → Untouched p q
  unfolding move
  Run-Untouched p q n nobody fits here = record {
    no_workers = nobody;
    same_chunks = refl;
    same_files = refl;
    same_backend = refl;
    same_bound = refl;
    in_bound = fits;
    all_left = refl;
  }
  Run-Untouched p q n nobody fits (step {n = k} {q = r} {r = t} send run e) =
      send_next-Untouched p r t r.to_send (Run-Untouched p r k nobody fits run) refl e
  Run-Untouched p q n nobody fits (step {n = k} {q = r} {r = t} (worker i) run e) =
      absurd (no_turn p r t i (Run-Untouched p r k nobody fits run) e)

  -- With one thread `recursive` has no worker: whatever steps it makes, nothing is stored, neither in
  -- the indices nor in the backend; at most 16 files are in the channel, and the others are never
  -- sent; and once there are 16, no thread can make a step.
  pub recursive_one_thread :
      (files : List DirEntry) (w : Worker C B) (n : ℕ) (q : Pool C B)
      → Run C B Z digest R (start C B Z digest R 1 files w) n q
      → (q.chunks ≡ w.chunks)
        × (q.files ≡ w.files)
        × (q.backend ≡ w.storage.backend)
        × (length q.channel ≤ 16)
        × (length q.channel + length q.to_send ≡ length files)
        × (length q.channel ≡ 16 → (m : Move) (r : Pool C B) → move C B Z digest R m q ≢ some r)
  unfolding start workers_of move
  recursive_one_thread files w n q run =
      let v = Run-Untouched (start C B Z digest R 1 files w) q n refl (omega arith) run in
      (
        v.same_chunks,
        v.same_files,
        v.same_backend,
        omega (arith, v.in_bound, v.same_bound),
        omega (arith, v.all_left),
        λ full m r. blocked q r v full m,
      )
    where
      no_room :
          (q r : Pool C B) (left : List DirEntry)
          → ltb (length q.channel) q.bound ≡ false
          → send_next C B Z digest R left q ≢ some r
      no_room q r [] full e = cc
      no_room q r (file ∷ rest) full e =
          let bad : ◌≡◌ {A = Option (Pool C B)} none (some r) = rw full at e in cc

      blocked :
          (q r : Pool C B)
          → Untouched (start C B Z digest R 1 files w) q
          → length q.channel ≡ 16
          → (m : Move) → move C B Z digest R m q ≢ some r
      blocked q r v full send e = no_room q r q.to_send (ground (arith, full, v.same_bound)) e
      blocked q r v full (worker i) e = no_turn (start C B Z digest R 1 files w) q r i v e
