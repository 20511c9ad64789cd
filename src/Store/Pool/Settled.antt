-- ===== src/Store/Pool/Settled.antt =====
-- libzerostash/src/stash/store.rs: after `recursive` with threads that interleave, where the chunks
-- are that the shared index points at.
use zerostash.Prelude.{
  ℕ, ◌≡◌, ◌≢◌, ◌∙◌, refl, sym, ap, subst, inl, inr, Bool-cases, Option, none, some, List, [], ◌∷◌,
  ◌++◌, get_elem?, set, length, ltb,
}
use zerostash.Prelude.Equality.{bytes_eq}
use zerostash.Objects.{Bytes, CryptoDigest}
use zerostash.Chunks.Pointer.{ChunkPointer}
use zerostash.Compress
use zerostash.Compress.{Lz4}
use zerostash.Crypto.Provider.{CryptoProvider, IsSound}
use zerostash.Backends
use zerostash.Backends.{Backend, Contract}
use zerostash.Rollsum.{Rollsum}
use zerostash.Files.{entry_eq}
use zerostash.Store.{Worker, DirEntry}
use zerostash.Store.Pool.{
  Pool, Slot, Task, waiting, finished, crashed, storing, Move, send, worker, move, Run, here, step,
  begin_file, next_chunk, end_loop, as_worker, as_slot, put_back, receive, turn, turn_of, send_next,
}
use zerostash.Store.Pool.Unfinished.{next_chunk-unfinished, begin_file-unfinished}
use zerostash.Store.Pool.Sound.{Somewhere, inside, outside, IsCoherent, Advance}
use zerostash.Store.Pool.Advance.{Advance-IsCoherent}
use zerostash.Store.Pool.Steps.{IsFresh, still-Advance, push-Advance, flush-Advance}
use zerostash.Store.Pool.Moves.{
  NoCrash, begin_file-IsStill, end_loop-ok, next_chunk-ok, put_back-NoCrash, next_chunk-IsStill,
}

module _ (C : CryptoProvider) (B : Backend) (Z : Lz4) (D : Contract B) (W : Backends.IsLawful B D)
    (contents : CryptoDigest → Bytes) (K : IsSound C) (L : Compress.IsLawful Z)
    (digest : Bytes → CryptoDigest) (R : Rollsum) where
  -- The hash of the chunk that a worker pushes next is that of no other chunk.
  abbrev pub HonestTask : Task → Type 0
  HonestTask waiting = Unit
  HonestTask finished = Unit
  HonestTask crashed = Unit
  HonestTask (storing entry []) = Unit
  HonestTask (storing entry (x ∷ items)) = contents x.hash ≡ x.chunk

  -- A step of a worker draws no id that is in use, and stores no chunk whose hash collides.
  abbrev pub Allowed : Move → Pool C B → Type 0
  Allowed send p = Unit
  Allowed (worker i) p =
      (slot : Slot)
      → get_elem? p.slots i ≡ some slot
      → IsFresh C B Z D W contents K L digest R p slot × HonestTask slot.task

  -- What a step without a panic does.
  record Through (m : Move) (p q : Pool C B) : Type 0 where
    before : NoCrash C B Z digest R p
    coherent :
        IsCoherent C B Z D W contents K L digest R p
        → Allowed m p
        → IsCoherent C B Z D W contents K L digest R q

  took :
      (p p' q : Pool C B) (i : ℕ) (slot : Slot) (r : Task × Worker C B)
      → get_elem? p.slots i ≡ some slot
      → slot.task ≢ crashed
      → p'.slots ≡ p.slots
      → ◌≡◌ {A = Option (Pool C B)} (some (put_back C B Z digest R i r p')) (some q)
      → NoCrash C B Z digest R q
      → (r.0 ≢ crashed
          → IsCoherent C B Z D W contents K L digest R p
          → Allowed (worker i) p
          → Advance C B Z D W contents K L digest R p i slot r.0 r.1)
      → Through (worker i) p q
  took p p' q i slot (task, w) at alive same e none_crashed advance =
      let is : put_back C B Z digest R i (task, w) p' ≡ q = cc in
      let (before, goes) =
        put_back-NoCrash C B Z digest R p p' q i slot (task, w) at alive same is none_crashed in
      record {
        before = before;
        coherent = λ v allowed.
            Advance-IsCoherent C B Z D W contents K L digest R p q i slot task w v
              (advance goes v allowed)
              (record {
                slots =
                    ap (λ (x : Pool C B). x.slots) (sym is)
                    ∙ ap (λ s. set s i (as_slot C B Z digest R task w)) same;
                chunks = ap (λ (x : Pool C B). x.chunks) (sym is);
                backend = ap (λ (x : Pool C B). x.backend) (sym is);
              });
      }

  receive-Through :
      (p q : Pool C B) (i : ℕ) (slot : Slot) (channel rest : List DirEntry)
      → get_elem? p.slots i ≡ some slot
      → slot.task ≡ waiting
      → receive C B Z digest R i slot channel rest p ≡ some q
      → NoCrash C B Z digest R q
      → Through (worker i) p q
  receive-Through p q i slot (file ∷ channel) rest at is e none_crashed =
      let w : Worker C B = as_worker C B Z digest R slot p in
      took p (record p { channel = channel }) q i slot (begin_file C B Z digest R file w) at
        (λ c. let bad : waiting ≡ crashed = sym is ∙ c in cc) refl e none_crashed
        (λ goes v allowed.
          let still = begin_file-IsStill C B Z digest R file w in
          still-Advance C B Z D W contents K L digest R p i slot v at
            (begin_file C B Z digest R file w).0 (begin_file C B Z digest R file w).1
            still.same_chunks still.same_storage (begin_file-unfinished C B Z digest R file w))
  receive-Through p q i slot [] [] at is e none_crashed =
      let w : Worker C B = as_worker C B Z digest R slot p in
      took p p q i slot (end_loop C B Z digest R w) at
        (λ c. let bad : waiting ≡ crashed = sym is ∙ c in cc) refl e none_crashed
        (λ goes v allowed.
          flush-Advance C B Z D W contents K L digest R p i slot v at (allowed slot at).0
            (end_loop C B Z digest R w).0 (end_loop C B Z digest R w).1
            (end_loop-ok C B Z digest R w goes))
  receive-Through p q i slot [] (file ∷ rest) at is e none_crashed = absurd (cc)

  turn-Through :
      (p q : Pool C B) (i : ℕ) (slot : Slot) (task : Task)
      → get_elem? p.slots i ≡ some slot
      → slot.task ≡ task
      → turn C B Z digest R i slot task p ≡ some q
      → NoCrash C B Z digest R q
      → Through (worker i) p q
  turn-Through p q i slot waiting at is e none_crashed =
      receive-Through p q i slot p.channel p.to_send at is e none_crashed
  turn-Through p q i slot (storing entry []) at is e none_crashed =
      let w : Worker C B = as_worker C B Z digest R slot p in
      let r = next_chunk C B Z digest R entry [] w in
      took p p q i slot r at (λ c. let bad : storing entry [] ≡ crashed = sym is ∙ c in cc) refl e
        none_crashed
        (λ goes v allowed.
          let still = next_chunk-IsStill C B Z digest R entry w in
          still-Advance C B Z D W contents K L digest R p i slot v at r.0 r.1 still.same_chunks
            still.same_storage (next_chunk-unfinished C B Z digest R entry [] w))
  turn-Through p q i slot (storing entry (x ∷ items)) at is e none_crashed =
      let w : Worker C B = as_worker C B Z digest R slot p in
      let r = next_chunk C B Z digest R entry (x ∷ items) w in
      took p p q i slot r at (λ c. let bad : storing entry (x ∷ items) ≡ crashed = sym is ∙ c in cc)
        refl e none_crashed
        (λ goes v allowed.
          let (fresh, honest) = allowed slot at in
          let (ptr, run) = next_chunk-ok C B Z digest R entry x items w goes in
          push-Advance C B Z D W contents K L digest R p i slot v at fresh x ptr r.0 r.1
            (subst HonestTask is honest) run
            (next_chunk-unfinished C B Z digest R entry (x ∷ items) w))
  turn-Through p q i slot finished at is e none_crashed = absurd (cc)
  turn-Through p q i slot crashed at is e none_crashed = absurd (cc)

  turn_of-Through :
      (p q : Pool C B) (i : ℕ) (slot : Option Slot)
      → get_elem? p.slots i ≡ slot
      → turn_of C B Z digest R i slot p ≡ some q
      → NoCrash C B Z digest R q
      → Through (worker i) p q
  turn_of-Through p q i none at e none_crashed = absurd (cc)
  turn_of-Through p q i (some slot) at e none_crashed =
      turn-Through p q i slot slot.task at refl e none_crashed

  sent-Through :
      (p q : Pool C B) (to_send channel : List DirEntry)
      → ◌≡◌ {A = Option (Pool C B)}
          (some (record p { to_send = to_send; channel = channel }))
          (some q)
      → NoCrash C B Z digest R q
      → Through send p q
  sent-Through p q to_send channel e none_crashed =
      let is : record p { to_send = to_send; channel = channel } ≡ q = cc in
      record {
        before = subst (NoCrash C B Z digest R) (sym is) none_crashed;
        coherent = λ v allowed. subst (IsCoherent C B Z D W contents K L digest R) is (record {
          ready = v.ready;
          apart = v.apart;
          held = λ hash r found. moved hash r (v.held hash r found);
          settled = v.settled;
        });
      }
    where
      moved :
          (hash : CryptoDigest) (r : ChunkPointer)
          → Somewhere C B Z D W contents K L digest R p hash r
          → Somewhere C B Z D W contents K L digest R
              (record p { to_send = to_send; channel = channel })
              hash
              r
      moved hash r (inside i slot at file h) = inside i slot at file h
      moved hash r (outside away k) = outside away k

  send_next-Through :
      (p q : Pool C B) (files : List DirEntry)
      → send_next C B Z digest R files p ≡ some q
      → NoCrash C B Z digest R q
      → Through send p q
  send_next-Through p q [] e none_crashed = absurd (cc)
  send_next-Through p q (file ∷ rest) e none_crashed =
      elim (Bool-cases (ltb (length p.channel) p.bound)) [
        | inl room ↦ sent-Through p q rest (p.channel ++ file ∷ []) (rw room at e) none_crashed
        | inr full ↦
            let bad : ◌≡◌ {A = Option (Pool C B)} none (some q) = rw full at e in absurd (cc)
      ]

  move-Through :
      (m : Move) (p q : Pool C B)
      → move C B Z digest R m p ≡ some q
      → NoCrash C B Z digest R q
      → Through m p q
  unfolding move
  move-Through send p q e none_crashed = send_next-Through p q p.to_send e none_crashed
  move-Through (worker i) p q e none_crashed =
      turn_of-Through p q i (get_elem? p.slots i) refl e none_crashed

  -- Each step of a run is allowed.
  abbrev pub AllAllowed : {p : Pool C B} {n : ℕ} {q : Pool C B} → Run C B Z digest R p n q → Type 0
  AllAllowed here = Unit
  AllAllowed (step {q = q} m run e) = AllAllowed run × Allowed m q

  pub Run-IsCoherent :
      (p q : Pool C B) (n : ℕ) (run : Run C B Z digest R p n q)
      → AllAllowed run
      → IsCoherent C B Z D W contents K L digest R p
      → NoCrash C B Z digest R q
      → IsCoherent C B Z D W contents K L digest R q
  Run-IsCoherent p q n here allowed v none_crashed = v
  Run-IsCoherent p q n (step {n = k} {q = r} {r = t} m run e) (earlier, now) v none_crashed =
      let t = move-Through m r t e none_crashed in
      t.coherent (Run-IsCoherent p r k run earlier v t.before) now
