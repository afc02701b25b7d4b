-- ===== src/Queue/Laws.antt =====
-- What a client of the queue relies on: the calls of `QQueue` in terms of the elements.
use dvactor.Base.{
  ◌∙◌, ℕ, suc, ◌≡◌, ap, sym, subst, returns-injective, inl, inr, refl, true, false, none, some,
  List, [], ◌∷◌, ◌++◌, Bool-cases, returns,
}
use dvactor.Ring
use dvactor.Ring.{pos, ℤ}
use dvactor.Ring.Inv.{pop-IsValid, new_ring_buffer-IsValid}
use dvactor.Ring.Contents.{contents}
use dvactor.Ring.Refine.{push_refines, contents-empty}
use dvactor.Queue.{
  Queue, Wake, nobody, signal, broadcast, new_queue, send, receive, close, close_channel, enqueue,
  dequeue, closed_error, is_close, is_closed,
}
use dvactor.Queue.Refine.{IsQueue, replace, empty, holds, Holds-cases}

module _ {ℓ} {A : Type ℓ} (z : A) where
  -- An element goes in behind the others, or the queue is closed and stays as it is.
  pub data Enqueues (q : Queue A) (x : A) : Type ℓ where
    refused : q.closed ≡ true → enqueue q x ≡ (some closed_error, nobody, q) → Enqueues q x
    entered :
        (q' : Queue A)
        → q.closed ≡ false
        → enqueue q x ≡ (none, signal, q')
        → contents q'.buffer ≡ contents q.buffer ++ (x ∷ [])
        → q'.closed ≡ false
        → IsQueue z q'
        → Enqueues q x

  pub enqueue-Enqueues : {q : Queue A} → IsQueue z q → (x : A) → Enqueues q x
  unfolding enqueue send
  enqueue-Enqueues {q} v x = elim (Bool-cases q.closed) [
    | inl e ↦ refused e (rw e)
    | inr e ↦
        let pushed = push_refines x v.ring in
        entered (record q { buffer = Ring.push q.buffer x }) e (rw e) pushed.1 e
          (replace _ v pushed.0)
  ]

  -- A receiver waits, or ends on a closed queue with nothing left, or takes the oldest element.
  pub data Dequeues (q : Queue A) : Type ℓ where
    waits : dequeue q ≡ none → contents q.buffer ≡ [] → q.closed ≡ false → Dequeues q
    ends : dequeue q ≡ some (z, false, q) → contents q.buffer ≡ [] → q.closed ≡ true → Dequeues q
    takes :
        (x : A) (xs : List A) (q' : Queue A)
        → dequeue q ≡ some (x, true, q')
        → contents q.buffer ≡ x ∷ xs
        → contents q'.buffer ≡ xs
        → q'.closed ≡ q.closed
        → IsQueue z q'
        → Dequeues q

  pub dequeue-Dequeues : {q : Queue A} → IsQueue z q → Dequeues q
  unfolding dequeue receive
  dequeue-Dequeues {q} v = elim (Holds-cases v.ring) [
    | empty n e ↦ elim (Bool-cases q.closed) [
      | inl c ↦ ends (rw (n, c, v.blank)) e c
      | inr c ↦ waits (rw (n, c)) e c
    ]
    | holds x xs n e a b ↦
        takes x xs (record q { buffer = (Ring.pop q.buffer).2 }) (rw (n, a)) e b refl
          (replace _ v (pop-IsValid v.ring))
  ]

  -- Closing keeps the elements.
  pub record Closes (q q' : Queue A) : Type ℓ where
    pub same : contents q'.buffer ≡ contents q.buffer
    pub shut : q'.closed ≡ true
    pub sound : IsQueue z q'

  pub close_total :
      {q : Queue A}
      → IsQueue z q
      → (w : Wake) × (q' : Queue A) × (close q ≡ returns (w, q')) × Closes q q'
  unfolding close close_channel
  close_total {q} v = elim (Bool-cases q.closed) [
    | inl c ↦ (nobody, q, rw c, record { same = refl; shut = c; sound = v })
    | inr c ↦ (
      broadcast,
      record q { closed = true; notified = true },
      rw (c, v.notifies, c),
      record {
        same = refl;
        shut = refl;
        sound = record { ring = v.ring; notifies = refl; blank = v.blank };
      },
    )
  ]

  pub close-Closes :
      {q q' : Queue A} {w : Wake} → IsQueue z q → close q ≡ returns (w, q') → Closes q q'
  close-Closes {q} {q'} {w} v e =
      let (x, r, f, law) = close_total v in
      subst (λ k. Closes q k) (ap (λ (t : Wake × Queue A). t.1) (returns-injective (sym f ∙ e))) law

  -- A new queue is open and empty.
  pub record IsFresh (q : Queue A) : Type ℓ where
    pub nothing : contents q.buffer ≡ []
    pub opened : q.closed ≡ false
    pub sound : IsQueue z q

  pub new_queue-IsFresh :
      (n : ℕ) → (q : Queue A) × (new_queue z (pos (suc n)) ≡ returns q) × IsFresh q
  unfolding new_queue
  new_queue-IsFresh n =
      let (rb, e, v, c) = new_ring_buffer-IsValid z n in
      (
        record { buffer = rb; notified = false; closed = false; zero_value = z },
        rw e,
        record {
          nothing = contents-empty rb c;
          opened = refl;
          sound = record { ring = v; notifies = refl; blank = refl };
        },
      )

  pub is_close-closed : (q : Queue A) → is_close q ≡ q.closed
  unfolding is_close is_closed
  is_close-closed q = refl
