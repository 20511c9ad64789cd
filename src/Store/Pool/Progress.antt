-- ===== src/Store/Pool/Progress.antt =====
-- libzerostash/src/stash/store.rs: which thread of `recursive` can make a step.
use zerostash.Prelude.{
  ℕ, zero, suc, ◌≤◌, ◌<◌, ◌≡◌, ◌≢◌, ◌∙◌, refl, ap, ap₂, subst, true, ◌⊎◌, inl, inr, some, List, [],
  ◌∷◌, ◌++◌, length, get_elem?, ltb, arith,
}
use zerostash.Objects.{Bytes, CryptoDigest}
use zerostash.Compress.{Lz4}
use zerostash.Crypto.Provider.{CryptoProvider}
use zerostash.Backends.{Backend}
use zerostash.Rollsum.{Rollsum}
use zerostash.Store.{Worker, DirEntry}
use zerostash.Store.Pool.Orderly.{IsOrderly, start-IsOrderly, Run-IsOrderly}
use zerostash.Store.Pool.{
  Pool, Slot, Task, waiting, finished, crashed, storing, Move, send, worker, move, Run, turn,
  receive, turn_of, send_next, start,
}

abbrev pub HasEnded : Task → Type 0
HasEnded waiting = ⊥
HasEnded finished = Unit
HasEnded crashed = Unit
HasEnded (storing entry items) = ⊥

abbrev pub AllEnded : List Slot → Type 0
AllEnded [] = Unit
AllEnded (slot ∷ slots) = HasEnded slot.task × AllEnded slots

-- A worker that has not ended, if there is one.
record Busy (slots : List Slot) : Type 0 where
  index : ℕ
  slot : Slot
  at : get_elem? slots index ≡ some slot
  busy : ¬ (HasEnded slot.task)

has_ended : (t : Task) → HasEnded t ⊎ (¬ (HasEnded t))
has_ended waiting = inr (λ h. h)
has_ended finished = inl tt
has_ended crashed = inl tt
has_ended (storing entry items) = inr (λ h. h)

search_slots : (slots : List Slot) → AllEnded slots ⊎ Busy slots
search_slots [] = inl tt
search_slots (slot ∷ slots) = elim (has_ended slot.task) [
  | inl h ↦ elim (search_slots slots) [
    | inl all ↦ inl (h, all)
    | inr b ↦ inr (record { index = suc b.index; slot = b.slot; at = b.at; busy = b.busy })
  ]
  | inr h ↦ inr (record { index = 0; slot = slot; at = refl; busy = h })
]

pub AllEnded-get :
    (slots : List Slot) (i : ℕ) (slot : Slot)
    → AllEnded slots
    → get_elem? slots i ≡ some slot
    → HasEnded slot.task
AllEnded-get [] i slot h e = absurd (cc)
AllEnded-get (s ∷ slots) zero slot h e =
    let same : s ≡ slot = cc in subst (λ (x : Slot). HasEnded x.task) same h.0
AllEnded-get (s ∷ slots) (suc i) slot h e = AllEnded-get slots i slot h.1 e

module _ (C : CryptoProvider) (B : Backend) (Z : Lz4) (digest : Bytes → CryptoDigest)
    (R : Rollsum) where
  -- All files were sent and received, and every worker has ended.
  pub record Done (p : Pool C B) : Type 0 where
    pub all_sent : p.to_send ≡ []
    pub all_received : p.channel ≡ []
    pub all_ended : AllEnded p.slots

  -- Some thread can make a step.
  abbrev pub CanMove : Pool C B → Type 0
  CanMove p = (m : Move) × (q : Pool C B) × (move C B Z digest R m p ≡ some q)

  worker-moves :
      (p q : Pool C B) (i : ℕ) (slot : Slot) (task : Task)
      → get_elem? p.slots i ≡ some slot
      → slot.task ≡ task
      → turn C B Z digest R i slot task p ≡ some q
      → CanMove p
  unfolding move
  worker-moves p q i slot task at is e = (
    worker i,
    q,
    ap (λ s. turn_of C B Z digest R i s p) at ∙ ap (λ t. turn C B Z digest R i slot t p) is ∙ e,
  )

  -- A worker that waits finds a file or the end of the channel, or else a file can be sent.
  waiting-moves :
      (p : Pool C B) (i : ℕ) (slot : Slot) (channel rest : List DirEntry)
      → get_elem? p.slots i ≡ some slot
      → slot.task ≡ waiting
      → p.channel ≡ channel
      → p.to_send ≡ rest
      → 0 < p.bound
      → CanMove p
  unfolding move
  waiting-moves p i slot (file ∷ channel) rest at is received left room =
      worker-moves p _ i slot waiting at is
        (ap (λ c. receive C B Z digest R i slot c p.to_send p) received)
  waiting-moves p i slot [] [] at is received left room =
      worker-moves p _ i slot waiting at is
        (ap₂ (λ c s. receive C B Z digest R i slot c s p) received left)
  waiting-moves p i slot [] (file ∷ rest) at is received left room =
      let free : ltb (length p.channel) p.bound ≡ true = ground (arith, ap length received, room) in
      (
        send,
        record p { to_send = rest; channel = p.channel ++ file ∷ [] },
        ap (λ s. send_next C B Z digest R s p) left ∙ rw free refl,
      )

  busy-moves :
      (p : Pool C B) (i : ℕ) (slot : Slot) (task : Task)
      → get_elem? p.slots i ≡ some slot
      → slot.task ≡ task
      → ¬ (HasEnded task)
      → 0 < p.bound
      → CanMove p
  busy-moves p i slot waiting at is busy room =
      waiting-moves p i slot p.channel p.to_send at is refl refl room
  busy-moves p i slot (storing entry items) at is busy room =
      worker-moves p _ i slot (storing entry items) at is refl
  busy-moves p i slot finished at is busy room = absurd (busy tt)
  busy-moves p i slot crashed at is busy room = absurd (busy tt)

  pub ended-finished : (t : Task) → HasEnded t → t ≢ crashed → t ≡ finished
  ended-finished waiting h ne = absurd h
  ended-finished finished h ne = refl
  ended-finished crashed h ne = absurd (ne refl)
  ended-finished (storing entry items) h ne = absurd h

  IsOrderly-progress :
      (p : Pool C B) (i : ℕ) (slot : Slot)
      → IsOrderly C B Z digest R p
      → get_elem? p.slots i ≡ some slot
      → slot.task ≢ crashed
      → Done p ⊎ CanMove p
  IsOrderly-progress p i slot v at alive = elim (search_slots p.slots) [
    | inl all ↦
        let (sent, received) =
          v.at_end i slot at
            (ended-finished slot.task (AllEnded-get p.slots i slot all at) alive) in
        inl (record { all_sent = sent; all_received = received; all_ended = all })
    | inr b ↦ inr (busy-moves p b.index b.slot b.slot.task b.at refl b.busy v.some_room)
  ]

  -- From `recursive` with at least one thread on, however its threads interleave: as long as some
  -- worker has not panicked, either a thread can make a step, or every file was sent and received and
  -- every worker has ended.
  pub recursive-progress :
      (threads n : ℕ) (files : List DirEntry) (w : Worker C B) (p : Pool C B) (i : ℕ) (slot : Slot)
      → 1 ≤ threads
      → Run C B Z digest R (start C B Z digest R threads files w) n p
      → get_elem? p.slots i ≡ some slot
      → slot.task ≢ crashed
      → Done p ⊎ CanMove p
  recursive-progress threads n files w p i slot some_thread run at alive =
      IsOrderly-progress p i slot
        (Run-IsOrderly C B Z digest R (start C B Z digest R threads files w) p n
          (start-IsOrderly C B Z digest R threads files w some_thread) run)
        at alive
