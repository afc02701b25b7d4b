-- ===== src/Queue/Refine.antt =====
-- The queue implements the channel: no sequence of calls tells them apart.
use dvactor.Base.{
  ℕ, suc, ◌≡◌, inl, inr, refl, ap, sym, ◌∙◌, Bool, true, false, Option, none, some, List, [], ◌∷◌,
  length, arith, ◌==◌, Bool-cases, Outcome, returns, ◌>>=◌,
}
use dvactor.Ring.{RingBuffer, pos, negsuc, ℤ}
use dvactor.Ring
use dvactor.Ring.Inv.{IsValid, new_ring_buffer-IsValid, pop-IsValid}
use dvactor.Ring.Contents.{contents, length-contents}
use dvactor.Ring.Refine.{dequeue, push_refines, pop_refines, contents-empty}
use dvactor.Ring.Batch.{push_batch_refines, pop_all_refines}
use dvactor.Queue.{
  Queue, new_queue, send, batch_send, receive, receive_batch, try_receive, try_receive_batch, close,
  close_channel, len, is_closed,
}
use dvactor.Queue.Channel.{
  Channel, Call, sends, batch_sends, receives, receives_batch, tries, tries_batch, closes, asks_len,
  asks_closed, Reply, accepted, value, values, waits, done, number, answer, call, run,
}

-- The ring is valid, and `notifyClose` is closed exactly when the queue is.
pub record IsQueue {ℓ} {A : Type ℓ} (z : A) (q : Queue A) : Type ℓ where
  pub ring : IsValid q.buffer
  pub notifies : q.notified ≡ q.closed
  pub blank : q.zero_value ≡ z

module _ {ℓ} {A : Type ℓ} where
  abbrev pub view : Queue A → Channel A
  view q = record { items = contents q.buffer; closed = q.closed }

  or_waits :
      {B : Type ℓ}
      → Queue A
      → (B → Bool → Reply A)
      → Option (B × Bool × Queue A)
      → Reply A × Queue A
  or_waits q reply none = (waits, q)
  or_waits q reply (some (b, ok, q')) = (reply b ok, q')

  -- A call on the queue, with its reply.
  pub serve : Queue A → Call A → Outcome (Reply A × Queue A)
  unfolding or_waits
  serve q (sends x) = let (b, _, q') = send q x in returns (accepted b, q')
  serve q (batch_sends xs) = let (b, _, q') = batch_send q xs in returns (accepted b, q')
  serve q receives = returns (or_waits q value (receive q))
  serve q receives_batch = returns (or_waits q values (receive_batch q))
  serve q tries = let (a, ok, q') = try_receive q in returns (value a ok, q')
  serve q tries_batch = let (xs, ok, q') = try_receive_batch q in returns (values xs ok, q')
  serve q closes = close q >>= λ r. returns (done, r.1)
  serve q asks_len = returns (number (len q), q)
  serve q asks_closed = returns (answer (is_closed q), q)

  pub serve_all : Queue A → List (Call A) → Outcome (List (Reply A))
  serve_all q [] = returns []
  serve_all q (op ∷ ops) = serve q op >>= λ r. serve_all r.1 ops >>= λ rs. returns (r.0 ∷ rs)

  -- What it is for a call of the queue to do what the channel does.
  data Serves (z : A) (q : Queue A) (op : Call A) : Type ℓ where
    served :
        (r : Reply A) (q' : Queue A)
        → serve q op ≡ returns (r, q')
        → call z (view q) op ≡ (r, view q')
        → IsQueue z q'
        → Serves z q op

  pub replace :
      {z : A} {q : Queue A} (rb : RingBuffer A)
      → IsQueue z q
      → IsValid rb
      → IsQueue z (record q { buffer = rb })
  replace rb v w = record { ring = w; notifies = v.notifies; blank = v.blank }

  -- The two states of the ring under the tests of the code.
  pub data Holds (rb : RingBuffer A) : Type ℓ where
    empty : rb.count ≡ 0 → contents rb ≡ [] → Holds rb
    holds :
        (x : A) (xs : List A)
        → (rb.count == 0) ≡ false
        → contents rb ≡ x ∷ xs
        → (Ring.pop rb).0 ≡ x
        → contents (Ring.pop rb).2 ≡ xs
        → Holds rb

  pub Holds-cases : {rb : RingBuffer A} → IsValid rb → Holds rb
  unfolding dequeue
  Holds-cases {rb} v = go (contents rb) refl
    where
      go : (l : List A) → contents rb ≡ l → Holds rb
      go [] e = empty (sym (length-contents rb) ∙ ap length e) e
      go (x ∷ xs) e =
          let n : rb.count ≡ suc (length xs) = sym (length-contents rb) ∙ ap length e in
          let popped = rw e at (pop_refines v) in
          holds x xs (ground (arith, n)) e (ap (λ (t : A × Bool × List A). t.0) popped)
            (ap (λ (t : A × Bool × List A). t.2) popped)

  module _ (z : A) {q : Queue A} (v : IsQueue z q) where
    send-Serves : (x : A) → Serves z q (sends x)
    unfolding serve send call
    send-Serves x = elim (Bool-cases q.closed) [
      | inl e ↦ served (accepted false) q (rw e) (rw e) v
      | inr e ↦
          let pushed = push_refines x v.ring in
          served (accepted true) (record q { buffer = Ring.push q.buffer x }) (rw e)
            (rw (e, pushed.1)) (replace _ v pushed.0)
    ]

    batch_send-Serves : (xs : List A) → Serves z q (batch_sends xs)
    unfolding serve batch_send call
    batch_send-Serves xs = elim (Bool-cases q.closed) [
      | inl e ↦ served (accepted false) q (rw e) (rw e) v
      | inr e ↦
          let pushed = push_batch_refines xs v.ring in
          served (accepted true) (record q { buffer = Ring.push_batch q.buffer xs }) (rw e)
            (rw (e, pushed.1)) (replace _ v pushed.0)
    ]

    receive-Serves : Serves z q receives
    unfolding serve receive call
    receive-Serves = elim (Holds-cases v.ring) [
      | empty n e ↦ elim (Bool-cases q.closed) [
        | inl c ↦ served (value z false) q (rw (n, c, v.blank)) (rw (e, c)) v
        | inr c ↦ served waits q (rw (n, c)) (rw (e, c)) v
      ]
      | holds x xs n e a b ↦
          served (value x true) (record q { buffer = (Ring.pop q.buffer).2 }) (rw (n, a))
            (rw (e, b)) (replace _ v (pop-IsValid v.ring))
    ]

    receive_batch-Serves : Serves z q receives_batch
    unfolding serve receive_batch call
    receive_batch-Serves =
        let (all, left, valid) = pop_all_refines v.ring in
        elim (Holds-cases v.ring) [
          | empty n e ↦ elim (Bool-cases q.closed) [
            | inl c ↦ served (values [] false) q (rw (n, c)) (rw (e, c)) v
            | inr c ↦ served waits q (rw (n, c)) (rw (e, c)) v
          ]
          | holds x xs n e a b ↦
              served (values (x ∷ xs) true) (record q { buffer = (Ring.pop_all q.buffer).1 })
                (rw (n, all, e)) (rw (e, left)) (replace _ v valid)
        ]

    try_receive-Serves : Serves z q tries
    unfolding serve try_receive call
    try_receive-Serves = elim (Holds-cases v.ring) [
      | empty n e ↦ served (value z false) q (rw (n, v.blank)) (rw e) v
      | holds x xs n e a b ↦
          served (value x true) (record q { buffer = (Ring.pop q.buffer).2 }) (rw (n, a))
            (rw (e, b)) (replace _ v (pop-IsValid v.ring))
    ]

    try_receive_batch-Serves : Serves z q tries_batch
    unfolding serve try_receive_batch call
    try_receive_batch-Serves =
        let (all, left, valid) = pop_all_refines v.ring in
        elim (Holds-cases v.ring) [
          | empty n e ↦ elim (Bool-cases q.closed) [
            | inl c ↦ served (values [] false) q (rw (n, c)) (rw (e, c)) v
            | inr c ↦ served (values [] true) q (rw (n, c)) (rw (e, c)) v
          ]
          | holds x xs n e a b ↦
              served (values (x ∷ xs) true) (record q { buffer = (Ring.pop_all q.buffer).1 })
                (rw (n, all, e)) (rw (e, left)) (replace _ v valid)
        ]

    -- `close(ch.notifyClose)` runs once at most, so it does not panic.
    close-Serves : Serves z q closes
    unfolding serve close close_channel call
    close-Serves = elim (Bool-cases q.closed) [
      | inl c ↦ served done q (rw c) (rw c) v
      | inr c ↦
          served done (record q { closed = true; notified = true }) (rw (c, v.notifies, c)) refl
            (record { ring = v.ring; notifies = refl; blank = v.blank })
    ]

    asks_len-Serves : Serves z q asks_len
    unfolding serve len call
    asks_len-Serves = served (number q.buffer.count) q refl (rw (length-contents q.buffer)) v

    asks_closed-Serves : Serves z q asks_closed
    unfolding serve is_closed call
    asks_closed-Serves = served (answer q.closed) q refl refl v

    serve-Serves : (op : Call A) → Serves z q op
    serve-Serves (sends x) = send-Serves x
    serve-Serves (batch_sends xs) = batch_send-Serves xs
    serve-Serves receives = receive-Serves
    serve-Serves receives_batch = receive_batch-Serves
    serve-Serves tries = try_receive-Serves
    serve-Serves tries_batch = try_receive_batch-Serves
    serve-Serves closes = close-Serves
    serve-Serves asks_len = asks_len-Serves
    serve-Serves asks_closed = asks_closed-Serves

  serve_all-run :
      (z : A) (ops : List (Call A)) {q : Queue A}
      → IsQueue z q
      → serve_all q ops ≡ returns (run z (view q) ops)
  unfolding serve_all run
  serve_all-run z [] v = refl
  serve_all-run z (op ∷ ops) v = elim (serve-Serves z v op) [
    | served r q' e f w ↦ rw (e, f, serve_all-run z ops w)
  ]

  -- A new queue of a positive size, used by any sequence of calls (one for each time that the
  -- mutex is taken), never panics, and each call returns what the unbounded closable FIFO channel
  -- returns; `Receive` and `ReceiveBatch` wait exactly where the channel is open and empty.
  pub serve_all_refines :
      (z : A) (n : ℕ) (ops : List (Call A))
      → (new_queue z (pos (suc n)) >>= λ q. serve_all q ops)
        ≡ returns (run z (record { items = []; closed = false }) ops)
  unfolding new_queue
  serve_all_refines z n ops =
      let (rb, e, v, c) = new_ring_buffer-IsValid z n in
      rw e (
        serve_all-run z ops (record { ring = v; notifies = refl; blank = refl })
        ∙ ap (λ l. returns (run z (record { items = l; closed = false }) ops))
            (contents-empty rb c))
