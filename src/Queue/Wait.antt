-- ===== src/Queue/Wait.antt =====
-- Waiting and waking: goroutines that block in `Receive` or `ReceiveBatch`, and the calls of
-- `Signal` and `Broadcast`, which come after the mutex is released (`Close` makes its own under the
-- mutex). Any goroutine may take any step at any time.
use dvactor.Base.{
  ℕ, ◌+◌, ◌-◌, ◌<◌, ◌≤◌, ◌≡◌, ◌⊎◌, inl, inr, refl, Bool, true, false, Option, none, some, List, [],
  arith, ◌==◌, Bool-cases, ◌&&◌, returns,
}
use dvactor.Ring
use dvactor.Ring.Inv.{count-push, count-push_batch, count-pop, count-pop_all}
use dvactor.Queue.{
  Queue, Wake, nobody, signal, broadcast, send, batch_send, receive, receive_batch, try_receive,
  try_receive_batch, close, close_channel, must_wait,
}

-- The queue, the goroutines asleep in `Wait`, those woken that have not taken the mutex again, and
-- the calls of `Signal` and `Broadcast` that are still to be made.
pub record Shared {ℓ} (A : Type ℓ) : Type ℓ where
  pub queue : Queue A
  pub sleeping : ℕ
  pub woken : ℕ
  pub signals : ℕ
  pub broadcasts : ℕ

module _ {ℓ} {A : Type ℓ} where
  -- A sender owes the wake-up that its critical section returned.
  abbrev owe : Wake → Shared A → Shared A
  owe nobody s = s
  owe signal s = record s { signals = s.signals + 1 }
  owe broadcast s = record s { broadcasts = s.broadcasts + 1 }

  -- A `Receive` that holds the mutex: it goes to sleep, or it leaves with its result.
  abbrev received : {B : Type ℓ} → Shared A → Option (B × Bool × Queue A) → Shared A
  received s none = record s { sleeping = s.sleeping + 1 }
  received s (some (b, ok, q)) = record s { queue = q }

  pub data Step : Shared A → Shared A → Type ℓ where
    sent :
        (s : Shared A) (x : A)
        → Step s (owe (send s.queue x).1 (record s { queue = (send s.queue x).2 }))
    batch_sent :
        (s : Shared A) (xs : List A)
        → Step s (owe (batch_send s.queue xs).1 (record s { queue = (batch_send s.queue xs).2 }))
    signalled :
        (s : Shared A)
        → 0 < s.signals
        → 0 < s.sleeping
        → Step s
            (record s { signals = s.signals - 1; sleeping = s.sleeping - 1; woken = s.woken + 1 })
    signalled_nobody :
        (s : Shared A)
        → 0 < s.signals
        → s.sleeping ≡ 0
        → Step s (record s { signals = s.signals - 1 })
    broadcasted :
        (s : Shared A)
        → 0 < s.broadcasts
        → Step s
            (record s { broadcasts = s.broadcasts - 1; sleeping = 0; woken = s.woken + s.sleeping })
    received_one : (s : Shared A) → Step s (received s (receive s.queue))
    received_batch : (s : Shared A) → Step s (received s (receive_batch s.queue))
    resumed_one :
        (s : Shared A)
        → 0 < s.woken
        → Step s (received (record s { woken = s.woken - 1 }) (receive s.queue))
    resumed_batch :
        (s : Shared A)
        → 0 < s.woken
        → Step s (received (record s { woken = s.woken - 1 }) (receive_batch s.queue))
    tried : (s : Shared A) → Step s (record s { queue = (try_receive s.queue).2 })
    tried_batch : (s : Shared A) → Step s (record s { queue = (try_receive_batch s.queue).2 })
    closed :
        (s : Shared A) (w : Wake) (q : Queue A)
        → close s.queue ≡ returns (w, q)
        → Step s (elim w [
          | broadcast ↦ record s { queue = q; sleeping = 0; woken = s.woken + s.sleeping }
          | _ ↦ record s { queue = q }
        ])

  pub data Reach (s : Shared A) : Shared A → Type ℓ where
    here : Reach s s
    further : {t u : Shared A} → Reach s t → Step t u → Reach s u

  -- No lost wake-up: while a goroutine sleeps, the queue is open, and a broadcast is owed or the
  -- elements are no more than the goroutines woken and the signals owed.
  pub record IsAlert (s : Shared A) : Type 0 where
    pub opened : (s.sleeping ≡ 0) ⊎ (s.queue.closed ≡ false)
    pub served :
        (s.sleeping ≡ 0) ⊎ ((0 < s.broadcasts) ⊎ (s.queue.buffer.count ≤ s.woken + s.signals))

  send-counts :
      (q : Queue A) (x : A)
      → ((send q x).1 ≡ nobody) × ((send q x).2 ≡ q)
        ⊎ (((send q x).1 ≡ signal)
            × ((send q x).2.buffer.count ≡ q.buffer.count + 1)
            × ((send q x).2.closed ≡ q.closed))
  unfolding send
  send-counts q x = ground (arith, count-push q.buffer x)

  batch_send-counts :
      (q : Queue A) (xs : List A)
      → (((batch_send q xs).1 ≡ nobody)
          × ((batch_send q xs).2.buffer.count ≡ q.buffer.count)
          × ((batch_send q xs).2.closed ≡ q.closed))
        ⊎ ((((batch_send q xs).1 ≡ signal)
              × ((batch_send q xs).2.buffer.count ≡ q.buffer.count + 1)
              × ((batch_send q xs).2.closed ≡ q.closed))
            ⊎ (((batch_send q xs).1 ≡ broadcast) × ((batch_send q xs).2.closed ≡ q.closed)))
  unfolding batch_send
  batch_send-counts q xs = ground (arith, count-push_batch q.buffer xs)

  -- What a `Receive` that holds the mutex comes to.
  data Takes {B : Type ℓ} (q : Queue A) (r : Option (B × Bool × Queue A)) : Type ℓ where
    sleeps : r ≡ none → q.buffer.count ≡ 0 → q.closed ≡ false → Takes q r
    leaves :
        (b : B) (ok : Bool) (q' : Queue A)
        → r ≡ some (b, ok, q')
        → q'.buffer.count ≤ q.buffer.count - 1
        → q'.closed ≡ q.closed
        → Takes q r

  receive-Takes : (q : Queue A) → Takes q (receive q)
  unfolding receive
  receive-Takes q = elim (Bool-cases (must_wait q)) [
    | inl e ↦ sleeps (rw e) (ground arith) (ground arith)
    | inr e ↦ elim (Bool-cases (q.buffer.count == 0 && q.closed)) [
      | inl c ↦ leaves q.zero_value false q (rw (e, c)) (ground arith) refl
      | inr c ↦
          leaves (Ring.pop q.buffer).0 true (record q { buffer = (Ring.pop q.buffer).2 })
            (rw (e, c)) (omega (arith, count-pop q.buffer)) refl
    ]
  ]

  receive_batch-Takes : (q : Queue A) → Takes q (receive_batch q)
  unfolding receive_batch
  receive_batch-Takes q = elim (Bool-cases (must_wait q)) [
    | inl e ↦ sleeps (rw e) (ground arith) (ground arith)
    | inr e ↦ elim (Bool-cases (q.buffer.count == 0 && q.closed)) [
      | inl c ↦ leaves [] false q (rw (e, c)) (ground arith) refl
      | inr c ↦
          leaves (Ring.pop_all q.buffer).0 true (record q { buffer = (Ring.pop_all q.buffer).1 })
            (rw (e, c)) (omega (arith, count-pop_all q.buffer)) refl
    ]
  ]

  received-IsAlert :
      {B : Type ℓ} (s : Shared A) (r : Option (B × Bool × Queue A))
      → Takes s.queue r
      → IsAlert s
      → IsAlert (received s r)
  received-IsAlert s r (sleeps e n c) a =
      rw e (record { opened = inr c; served = inr (inr (omega arith)) })
  received-IsAlert s r (leaves b ok q e n c) a = rw e (ground arith)

  resumed-IsAlert :
      {B : Type ℓ} (s : Shared A) (r : Option (B × Bool × Queue A))
      → 0 < s.woken
      → Takes s.queue r
      → IsAlert s
      → IsAlert (received (record s { woken = s.woken - 1 }) r)
  resumed-IsAlert s r w (sleeps e n c) a =
      rw e (record { opened = inr c; served = inr (inr (omega arith)) })
  resumed-IsAlert s r w (leaves b ok q e n c) a = rw e (ground arith)

  try_receive-counts :
      (q : Queue A)
      → ((try_receive q).2.buffer.count ≤ q.buffer.count) × ((try_receive q).2.closed ≡ q.closed)
  unfolding try_receive
  try_receive-counts q = ground (arith, count-pop q.buffer)

  try_receive_batch-counts :
      (q : Queue A)
      → ((try_receive_batch q).2.buffer.count ≤ q.buffer.count)
        × ((try_receive_batch q).2.closed ≡ q.closed)
  unfolding try_receive_batch
  try_receive_batch-counts q = ground (arith, count-pop_all q.buffer)

  close-wakes :
      (q q' : Queue A) (w : Wake)
      → close q ≡ returns (w, q')
      → ((w ≡ nobody) × (q' ≡ q)) ⊎ ((w ≡ broadcast) × (q'.closed ≡ true))
  unfolding close close_channel
  close-wakes q q' w e = ground arith

  Step-IsAlert : {s t : Shared A} → Step s t → IsAlert s → IsAlert t
  Step-IsAlert (sent s x) a = ground (arith, send-counts s.queue x)
  Step-IsAlert (batch_sent s xs) a = ground (arith, batch_send-counts s.queue xs)
  Step-IsAlert (signalled s p h) a = ground arith
  Step-IsAlert (signalled_nobody s p h) a = ground arith
  Step-IsAlert (broadcasted s p) a = ground arith
  Step-IsAlert (received_one s) a = received-IsAlert s _ (receive-Takes s.queue) a
  Step-IsAlert (received_batch s) a = received-IsAlert s _ (receive_batch-Takes s.queue) a
  Step-IsAlert (resumed_one s h) a = resumed-IsAlert s _ h (receive-Takes s.queue) a
  Step-IsAlert (resumed_batch s h) a = resumed-IsAlert s _ h (receive_batch-Takes s.queue) a
  Step-IsAlert (tried s) a = ground (arith, try_receive-counts s.queue)
  Step-IsAlert (tried_batch s) a = ground (arith, try_receive_batch-counts s.queue)
  Step-IsAlert (closed s w q e) a = ground (arith, close-wakes s.queue q w e)

  Reach-IsAlert : {s t : Shared A} → IsAlert s → Reach s t → IsAlert t
  Reach-IsAlert a here = a
  Reach-IsAlert a (further r st) = Step-IsAlert st (Reach-IsAlert a r)

  -- No wake-up is lost: in every state that any interleaving of senders, receivers and closers
  -- reaches from a queue on which nobody sleeps, if goroutines sleep while no wake-up is owed and
  -- no woken goroutine is about to look again, then the queue is open and holds nothing.
  pub sleeper_has_nothing :
      {s t : Shared A}
      → s.sleeping ≡ 0
      → Reach s t
      → 0 < t.sleeping
      → t.woken ≡ 0
      → t.signals ≡ 0
      → t.broadcasts ≡ 0
      → (t.queue.buffer.count ≡ 0) × (t.queue.closed ≡ false)
  sleeper_has_nothing e r p w g b =
      let a = Reach-IsAlert (record { opened = inl e; served = inl e }) r in
      ground (arith, a.opened, a.served)
