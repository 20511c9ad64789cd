-- ===== src/Store/Pool/Orderly.antt =====
-- libzerostash/src/stash/store.rs: when a worker of `recursive` ends.
use zerostash.Prelude.{
  ℕ, zero, suc, ◌-◌, ◌≤◌, ◌<◌, ◌≡◌, ◌∙◌, refl, sym, ap, subst, ◌⊎◌, inl, inr, Bool-cases, Option,
  none, some, List, [], ◌∷◌, ◌++◌, length, get_elem?, set, ltb, arith,
}
use zerostash.Objects.{Bytes, CryptoDigest}
use zerostash.Compress.{Lz4}
use zerostash.Crypto.Provider.{CryptoProvider}
use zerostash.Backends.{Backend}
use zerostash.Rollsum.{Rollsum}
use zerostash.Storage.{Storage, clone}
use zerostash.Store.{Worker, DirEntry}
use zerostash.Store.Pool.Unfinished.{next_chunk-unfinished, begin_file-unfinished}
use zerostash.Store.Pool.{
  Pool, Slot, Task, waiting, finished, crashed, storing, Move, send, worker, move, Run, here, step,
  begin_file, next_chunk, end_loop, as_worker, as_slot, put_back, turn, receive, turn_of, send_next,
  start, workers_of,
}

-- A slot of the list after a `set` is the new one or was there.
get_elem?-set :
    (slots : List Slot) (i j : ℕ) (new slot : Slot)
    → get_elem? (set slots i new) j ≡ some slot
    → (slot ≡ new) ⊎ (get_elem? slots j ≡ some slot)
get_elem?-set [] i j new slot e = inr e
get_elem?-set (s ∷ slots) zero zero new slot e = inl (let same : new ≡ slot = cc in sym same)
get_elem?-set (s ∷ slots) zero (suc j) new slot e = inr e
get_elem?-set (s ∷ slots) (suc i) zero new slot e = inr e
get_elem?-set (s ∷ slots) (suc i) (suc j) new slot e = get_elem?-set slots i j new slot e

module _ (C : CryptoProvider) (B : Backend) (Z : Lz4) (digest : Bytes → CryptoDigest)
    (R : Rollsum) where
  -- A worker that finished found nothing left.
  pub record IsOrderly (p : Pool C B) : Type 0 where
    pub some_room : 0 < p.bound
    pub at_end :
        (i : ℕ) (slot : Slot)
        → get_elem? p.slots i ≡ some slot
        → slot.task ≡ finished
        → (p.to_send ≡ []) × (p.channel ≡ [])

  -- A step of worker `i` that leaves the channel's files behind, and finishes only where none is left.
  put_back-IsOrderly :
      (p q : Pool C B) (i : ℕ) (r : Task × Worker C B)
      → IsOrderly p
      → (r.0 ≡ finished → (q.to_send ≡ []) × (q.channel ≡ []))
      → (p.to_send ≡ [] → p.channel ≡ [] → (q.to_send ≡ []) × (q.channel ≡ []))
      → q.bound ≡ p.bound
      → q.slots ≡ p.slots
      → IsOrderly (put_back C B Z digest R i r q)
  put_back-IsOrderly p q i (task, w) v ends stays bound slots = record {
    some_room = subst (λ n. 0 < n) (sym bound) v.some_room;
    at_end = λ j slot at is.
        elim (get_elem?-set q.slots i j (as_slot C B Z digest R task w) slot at) [
          | inl new ↦ ends (sym (ap (λ (s : Slot). s.task) new) ∙ is)
          | inr old ↦
              let (sent, received) =
                v.at_end j slot (ap (λ s. get_elem? s j) (sym slots) ∙ old) is in
              stays sent received
        ];
  }

  same-IsOrderly :
      (p q : Pool C B) → IsOrderly p → ◌≡◌ {A = Option (Pool C B)} (some p) (some q) → IsOrderly q
  same-IsOrderly p q v e = let same : p ≡ q = cc in subst IsOrderly same v

  receive-IsOrderly :
      (p q : Pool C B) (i : ℕ) (slot : Slot) (channel rest : List DirEntry)
      → IsOrderly p
      → p.channel ≡ channel
      → p.to_send ≡ rest
      → receive C B Z digest R i slot channel rest p ≡ some q
      → IsOrderly q
  receive-IsOrderly p q i slot (file ∷ channel) rest v received left e =
      let r = begin_file C B Z digest R file (as_worker C B Z digest R slot p) in
      same-IsOrderly (put_back C B Z digest R i r (record p { channel = channel })) q
        (put_back-IsOrderly p (record p { channel = channel }) i r v
          (λ done.
            absurd
              (begin_file-unfinished C B Z digest R file (as_worker C B Z digest R slot p) done))
          (λ sent none_left.
            let bad : ◌≡◌ {A = List DirEntry} (file ∷ channel) [] = sym received ∙ none_left in
            absurd (cc))
          refl refl)
        e
  receive-IsOrderly p q i slot [] [] v received left e =
      let r = end_loop C B Z digest R (as_worker C B Z digest R slot p) in
      same-IsOrderly (put_back C B Z digest R i r p) q
        (put_back-IsOrderly p p i r v (λ done. (left, received)) (λ s c. (s, c)) refl refl) e
  receive-IsOrderly p q i slot [] (file ∷ rest) v received left e = absurd (cc)

  turn-IsOrderly :
      (p q : Pool C B) (i : ℕ) (slot : Slot) (task : Task)
      → IsOrderly p
      → turn C B Z digest R i slot task p ≡ some q
      → IsOrderly q
  turn-IsOrderly p q i slot waiting v e =
      receive-IsOrderly p q i slot p.channel p.to_send v refl refl e
  turn-IsOrderly p q i slot (storing entry items) v e =
      let r = next_chunk C B Z digest R entry items (as_worker C B Z digest R slot p) in
      same-IsOrderly (put_back C B Z digest R i r p) q
        (put_back-IsOrderly p p i r v
          (λ done. absurd (
            next_chunk-unfinished C B Z digest R entry items (as_worker C B Z digest R slot p)
              done))
          (λ s c. (s, c)) refl refl)
        e
  turn-IsOrderly p q i slot finished v e = absurd (cc)
  turn-IsOrderly p q i slot crashed v e = absurd (cc)

  turn_of-IsOrderly :
      (p q : Pool C B) (i : ℕ) (slot : Option Slot)
      → IsOrderly p
      → turn_of C B Z digest R i slot p ≡ some q
      → IsOrderly q
  turn_of-IsOrderly p q i none v e = absurd (cc)
  turn_of-IsOrderly p q i (some slot) v e = turn-IsOrderly p q i slot slot.task v e

  send_next-IsOrderly :
      (p q : Pool C B) (rest : List DirEntry)
      → IsOrderly p
      → p.to_send ≡ rest
      → send_next C B Z digest R rest p ≡ some q
      → IsOrderly q
  send_next-IsOrderly p q [] v left e = absurd (cc)
  send_next-IsOrderly p q (file ∷ rest) v left e =
      elim (Bool-cases (ltb (length p.channel) p.bound)) [
        | inl room ↦
            same-IsOrderly (record p { to_send = rest; channel = p.channel ++ file ∷ [] }) q
              (record {
                some_room = v.some_room;
                at_end = λ j slot at is.
                    let bad : ◌≡◌ {A = List DirEntry} (file ∷ rest) [] =
                      sym left ∙ (v.at_end j slot at is).0 in
                    absurd (cc);
              })
              (rw room at e)
        | inr full ↦
            let bad : ◌≡◌ {A = Option (Pool C B)} none (some q) = rw full at e in absurd (cc)
      ]

  move-IsOrderly :
      (m : Move) (p q : Pool C B) → IsOrderly p → move C B Z digest R m p ≡ some q → IsOrderly q
  unfolding move
  move-IsOrderly send p q v e = send_next-IsOrderly p q p.to_send v refl e
  move-IsOrderly (worker i) p q v e = turn_of-IsOrderly p q i (get_elem? p.slots i) v e

  pub Run-IsOrderly :
      (p q : Pool C B) (n : ℕ) → IsOrderly p → Run C B Z digest R p n q → IsOrderly q
  Run-IsOrderly p q n v here = v
  Run-IsOrderly p q n v (step {n = k} {q = r} {r = t} m run e) =
      move-IsOrderly m r t (Run-IsOrderly p r k v run) e

  pub some-injective : (a b : Slot) → ◌≡◌ {A = Option Slot} (some a) (some b) → a ≡ b
  some-injective a b e = cc

  workers-waiting :
      (n : ℕ) (s : Storage C B) (i : ℕ) (slot : Slot)
      → get_elem? (workers_of C B Z digest R n s).0 i ≡ some slot
      → slot.task ≡ waiting
  unfolding workers_of
  workers-waiting zero s i slot e = absurd (cc)
  workers-waiting (suc n) s zero slot e =
      let first : Slot = record {
        task = waiting;
        object = (clone C B s).0.object;
        capacity = (clone C B s).0.capacity;
      } in
      let same : first ≡ slot = some-injective first slot e in ap (λ (x : Slot). x.task) (sym same)
  workers-waiting (suc n) s (suc i) slot e =
      workers-waiting n (record s { source = (clone C B s).1 }) i slot e

  pub start-IsOrderly :
      (threads : ℕ) (files : List DirEntry) (w : Worker C B)
      → 1 ≤ threads
      → IsOrderly (start C B Z digest R threads files w)
  unfolding start
  start-IsOrderly threads files w some_thread = record {
    some_room = omega (arith, some_thread);
    at_end = λ i slot at is.
        let bad : waiting ≡ finished =
          sym (workers-waiting (threads - 1) w.storage i slot at) ∙ is in
        absurd (cc);
  }
