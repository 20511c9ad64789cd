-- ===== src/Store/Pool/Weight.antt =====
-- libzerostash/src/stash/store.rs: the steps that the threads of `recursive` have left.
use zerostash.Prelude.{
  ℕ, ◌+◌, ◌≤◌, ◌<◌, ◌≡◌, refl, ap, subst, Bool-cases, inl, inr, Option, none, some, List, [], ◌∷◌,
  ◌++◌, length, get_elem?, ltb, arith,
}
use zerostash.Objects.{Bytes, CryptoDigest}
use zerostash.Compress.{Lz4}
use zerostash.Crypto.Provider.{CryptoProvider}
use zerostash.Backends.{Backend}
use zerostash.Rollsum.{Rollsum}
use zerostash.Store.{Worker, DirEntry}
use zerostash.Store.Pool.Costs.{
  costs, task_weight, weight, costs-append, slots_weight-set, begin_file-weight, next_chunk-weight,
  end_loop-weight,
}
use zerostash.Store.Pool.{
  Pool, Slot, Task, waiting, finished, crashed, storing, Move, send, worker, move, Run, here, step,
  begin_file, next_chunk, end_loop, as_worker, as_slot, put_back, turn, receive, turn_of, send_next,
}

module _ (C : CryptoProvider) (B : Backend) (Z : Lz4) (digest : Bytes → CryptoDigest)
    (R : Rollsum) where
  put_back-weight :
      (i : ℕ) (slot : Slot) (r : Task × Worker C B) (p : Pool C B)
      → get_elem? p.slots i ≡ some slot
      → weight C B Z digest R (put_back C B Z digest R i r p) + task_weight C B Z digest R slot.task
        ≡ weight C B Z digest R p + task_weight C B Z digest R r.0
  put_back-weight i slot (task, w) p has =
      omega
        (arith, slots_weight-set C B Z digest R p.slots i slot (as_slot C B Z digest R task w) has)

  -- What a step makes of a lighter state.
  lighter :
      (r p q : Pool C B)
      → weight C B Z digest R r < weight C B Z digest R p
      → ◌≡◌ {A = Option (Pool C B)} (some r) (some q)
      → weight C B Z digest R q < weight C B Z digest R p
  lighter r p q h e =
      let same : r ≡ q = cc in
      subst (λ (x : Pool C B). weight C B Z digest R x < weight C B Z digest R p) same h

  receive-weight :
      (i : ℕ) (slot : Slot) (channel rest : List DirEntry) (p q : Pool C B)
      → p.channel ≡ channel
      → get_elem? p.slots i ≡ some slot
      → slot.task ≡ waiting
      → receive C B Z digest R i slot channel rest p ≡ some q
      → weight C B Z digest R q < weight C B Z digest R p
  receive-weight i slot (file ∷ channel) rest p q at has waits e =
      let p' : Pool C B = record p { channel = channel } in
      let r = begin_file C B Z digest R file (as_worker C B Z digest R slot p) in
      lighter (put_back C B Z digest R i r p') p q
        (omega (
          arith,
          put_back-weight i slot r p' has,
          begin_file-weight C B Z digest R file (as_worker C B Z digest R slot p),
          ap (task_weight C B Z digest R) waits,
          ap (costs C B Z digest R 3) at,
        ))
        e
  receive-weight i slot [] [] p q at has waits e =
      let r = end_loop C B Z digest R (as_worker C B Z digest R slot p) in
      lighter (put_back C B Z digest R i r p) p q
        (omega (
          arith,
          put_back-weight i slot r p has,
          end_loop-weight C B Z digest R (as_worker C B Z digest R slot p),
          ap (task_weight C B Z digest R) waits,
        ))
        e
  receive-weight i slot [] (file ∷ rest) p q at has waits e = absurd (cc)

  turn-weight :
      (i : ℕ) (slot : Slot) (task : Task) (p q : Pool C B)
      → get_elem? p.slots i ≡ some slot
      → slot.task ≡ task
      → turn C B Z digest R i slot task p ≡ some q
      → weight C B Z digest R q < weight C B Z digest R p
  turn-weight i slot waiting p q has is e =
      receive-weight i slot p.channel p.to_send p q refl has is e
  turn-weight i slot (storing entry items) p q has is e =
      let r = next_chunk C B Z digest R entry items (as_worker C B Z digest R slot p) in
      lighter (put_back C B Z digest R i r p) p q
        (omega (
          arith,
          put_back-weight i slot r p has,
          next_chunk-weight C B Z digest R entry items (as_worker C B Z digest R slot p),
          ap (task_weight C B Z digest R) is,
        ))
        e
  turn-weight i slot finished p q has is e = absurd (cc)
  turn-weight i slot crashed p q has is e = absurd (cc)

  turn_of-weight :
      (i : ℕ) (slot : Option Slot) (p q : Pool C B)
      → get_elem? p.slots i ≡ slot
      → turn_of C B Z digest R i slot p ≡ some q
      → weight C B Z digest R q < weight C B Z digest R p
  turn_of-weight i none p q has e = absurd (cc)
  turn_of-weight i (some slot) p q has e = turn-weight i slot slot.task p q has refl e

  send_next-weight :
      (files : List DirEntry) (p q : Pool C B)
      → p.to_send ≡ files
      → send_next C B Z digest R files p ≡ some q
      → weight C B Z digest R q < weight C B Z digest R p
  send_next-weight [] p q at e = absurd (cc)
  send_next-weight (file ∷ rest) p q at e = elim (Bool-cases (ltb (length p.channel) p.bound)) [
    | inl room ↦
        let sent : ◌≡◌ {A = Option (Pool C B)}
            (some (record p { to_send = rest; channel = p.channel ++ file ∷ [] })) (some q) =
          rw room at e in
        lighter (record p { to_send = rest; channel = p.channel ++ file ∷ [] }) p q
          (omega (
            arith,
            costs-append C B Z digest R 3 p.channel (file ∷ []),
            ap (costs C B Z digest R 4) at,
          ))
          sent
    | inr full ↦ let bad : ◌≡◌ {A = Option (Pool C B)} none (some q) = rw full at e in absurd (cc)
  ]

  move-weight :
      (m : Move) (p q : Pool C B)
      → move C B Z digest R m p ≡ some q
      → weight C B Z digest R q < weight C B Z digest R p
  unfolding move
  move-weight send p q e = send_next-weight p.to_send p q refl e
  move-weight (worker i) p q e = turn_of-weight i (get_elem? p.slots i) p q refl e

  -- However the threads interleave, and whether or not workers panic, a run has at most as many steps
  -- as the state it starts in has weight: 4 for each file to send and a step for each of its chunks,
  -- and 1 for each worker.
  pub Run-weight :
      (p q : Pool C B) (n : ℕ)
      → Run C B Z digest R p n q
      → n + weight C B Z digest R q ≤ weight C B Z digest R p
  Run-weight p q n here = omega arith
  Run-weight p q n (step {n = k} {q = r} {r = t} m run e) =
      omega (arith, Run-weight p r k run, move-weight m r t e)
