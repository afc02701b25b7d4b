-- ===== src/Conn/Sound.antt =====
-- What holds of a connection at every moment.
use mathlib.Core.List.{flatten}
use dvactor.Base.{
  ℕ, ◌+◌, ◌≤◌, ◌≡◌, refl, ap, sym, subst, ◌∙◌, Bool, true, false, some, List, [], ◌∷◌, ◌++◌,
  append_assoc, returns, arith, returns-of->>=, returns-injective, some-injective,
}
use dvactor.Ring.Contents.{contents}
use dvactor.Packet.{Bytes}
use dvactor.Packet.Prefix.{flatten-snoc}
use dvactor.Queue.{Queue, close, dequeue, is_close}
use dvactor.Queue.Refine.{IsQueue}
use dvactor.Queue.Laws.{
  refused, entered, enqueue-Enqueues, waits, ends, takes, dequeue-Dequeues, close-Closes,
  new_queue-IsFresh,
}
use dvactor.Conn.{
  Conn, Receiver, reading, handling, failed, telling, finished, Sender, taking, writing, ended,
  new_conn, send_data, disconnect, dequeued, checked, Step, sent, disconnected, took, wrote,
  write_failed, wrote_all, read, read_failed, handled, handle_failed, looked, closed, tells, Reach,
  here, further,
}

-- What the sender holds of the message that it took last.
abbrev pub unwritten : Sender → Bytes
unwritten taking = []
unwritten (writing bytes) = bytes
unwritten (ended bytes) = bytes

-- Accepted data that the socket has not taken yet.
abbrev pub pending : Conn → Bytes
pending c = unwritten c.sender ++ flatten (contents c.queue.buffer)

-- Calls of `onDisconnectFunc` that a receiver can still make.
abbrev pub left_to_tell : Receiver → ℕ
left_to_tell finished = 0
left_to_tell _ = 1

-- Every accepted byte is written or pending, in order; the callback runs once at most; the socket
-- is closed by the sender only, when nothing is pending and nothing can come.
pub record IsSound (c : Conn) : Type 0 where
  pub queue : IsQueue [] c.queue
  pub stream : flatten c.accepted ≡ c.written ++ pending c
  pub once : c.told + left_to_tell c.receiver ≤ 1
  pub flushed :
      c.shut ≡ true
      → (contents c.queue.buffer ≡ []) × (c.queue.closed ≡ true) × (c.sender ≡ ended [])

send_data-IsSound : (c : Conn) (bytes : Bytes) → IsSound c → IsSound (send_data c bytes).1
unfolding send_data
send_data-IsSound c bytes s = elim (enqueue-Enqueues [] s.queue bytes) [
  | refused e f ↦ rw f s
  | entered q e f g h v ↦ rw f (record {
    queue = v;
    stream = simp (flatten-snoc, g, s.stream, append_assoc);
    once = s.once;
    flushed = λ k. cc ((s.flushed k).1);
  })
]

disconnect-IsSound : {c d : Conn} → disconnect c ≡ returns d → IsSound c → IsSound d
unfolding disconnect
disconnect-IsSound {c} {d} e s =
    let (r, f, k) = returns-of->>= (close c.queue) _ e in
    let law = close-Closes [] s.queue f in
    subst IsSound (returns-injective k) (record {
      queue = law.sound;
      stream = rw law.same s.stream;
      once = s.once;
      flushed = λ h. let (a, b, t) = s.flushed h in (law.same ∙ a, law.shut, t);
    })

dequeued-IsSound :
    (c : Conn) (r : Bytes × Bool × Queue Bytes)
    → c.sender ≡ taking
    → dequeue c.queue ≡ some r
    → IsSound c
    → IsSound (dequeued c r)
unfolding dequeued flatten
dequeued-IsSound c r h e s = elim (dequeue-Dequeues [] s.queue) [
  | waits f n k ↦ cc
  | ends f n k ↦
      subst (λ t. IsSound (dequeued c t)) (some-injective (sym f ∙ e))
        (record {
          queue = s.queue;
          stream = rw h at s.stream;
          once = s.once;
          flushed = λ _. (n, k, refl);
        })
  | takes x xs q f a b k v ↦
      subst (λ t. IsSound (dequeued c t)) (some-injective (sym f ∙ e))
        (record {
          queue = v;
          stream = rw b (rw a at (rw h at s.stream));
          once = s.once;
          flushed = λ t. cc ((s.flushed t).0);
        })
]

-- `Disconnect` changes the queue only.
pub disconnect_keeps :
    (c : Conn) {d : Conn} → disconnect c ≡ returns d → d ≡ record c { queue = d.queue }
unfolding disconnect
disconnect_keeps c e =
    let (r, f, k) = returns-of->>= (close c.queue) _ e in
    let same = returns-injective k in
    sym same ∙ ap (λ (t : Conn). record c { queue = t.queue }) same

-- The socket takes the bytes `a`; the sender is left with `b`.
wrote-IsSound :
    (c : Conn) (a b : Bytes) (next : Sender)
    → c.sender ≡ writing (a ++ b)
    → unwritten next ≡ b
    → IsSound c
    → IsSound (record c { sender = next; written = c.written ++ a })
wrote-IsSound c a b next h n s = record {
  queue = s.queue;
  stream = (rw h at s.stream) ∙ simp (n, append_assoc);
  once = s.once;
  flushed = λ k. cc ((s.flushed k).2);
}

checked-IsSound : (c : Conn) (b : Bool) → c.receiver ≡ failed → IsSound c → IsSound (checked c b)
unfolding checked
checked-IsSound c true h s = record {
  queue = s.queue;
  stream = s.stream;
  once = ground arith;
  flushed = s.flushed;
}
checked-IsSound c false h s = record {
  queue = s.queue;
  stream = s.stream;
  once = ground arith;
  flushed = s.flushed;
}

-- A receiver that goes on, or tells for the last time.
receiver-IsSound :
    (c : Conn) (r : Receiver) (rs : List Bytes) (n : ℕ)
    → n + left_to_tell r ≤ c.told + left_to_tell c.receiver
    → IsSound c
    → IsSound (record c { receiver = r; received = rs; told = n })
receiver-IsSound c r rs n h s = record {
  queue = s.queue;
  stream = s.stream;
  once = omega (arith, s.once);
  flushed = s.flushed;
}

pub Step-IsSound : {c d : Conn} → Step c d → IsSound c → IsSound d
Step-IsSound {c} (sent bytes) s = send_data-IsSound c bytes s
Step-IsSound (disconnected e) s = disconnect-IsSound e s
Step-IsSound {c} (took {r} h e) s = dequeued-IsSound c r h e s
Step-IsSound {c} (wrote a b h n) s = wrote-IsSound c a b (writing b) h refl s
Step-IsSound {c} (write_failed a b h) s = wrote-IsSound c a b (ended b) h refl s
Step-IsSound {c} (wrote_all h) s = record {
  queue = s.queue;
  stream = rw h at s.stream;
  once = s.once;
  flushed = λ k. cc ((s.flushed k).2);
}
Step-IsSound {c} (read bytes h) s =
    receiver-IsSound c handling (c.received ++ (bytes ∷ [])) c.told (ground arith) s
Step-IsSound {c} (read_failed h) s = receiver-IsSound c failed c.received c.told (ground arith) s
Step-IsSound {c} (handled h) s = receiver-IsSound c reading c.received c.told (ground arith) s
Step-IsSound {c} (handle_failed h) s = receiver-IsSound c failed c.received c.told (ground arith) s
Step-IsSound {c} (looked h) s = checked-IsSound c (is_close c.queue) h s
Step-IsSound {c} (closed {d} h e) s =
    let kept = disconnect_keeps c e in
    receiver-IsSound d telling d.received d.told
      (omega (arith, ap (λ (t : Conn). left_to_tell t.receiver) kept, ap left_to_tell h))
      (disconnect-IsSound e s)
Step-IsSound {c} (tells h) s = receiver-IsSound c finished c.received (c.told + 1) (ground arith) s

pub Reach-IsSound : {c d : Conn} → IsSound c → Reach c d → IsSound d
Reach-IsSound s here = s
Reach-IsSound s (further r st) = Step-IsSound st (Reach-IsSound s r)

pub new_conn-IsSound :
    (c : Conn) × (new_conn ≡ returns c)
    × IsSound c
    × (c.accepted ≡ [])
    × (contents c.queue.buffer ≡ [])
unfolding new_conn flatten
new_conn-IsSound =
    let (q, e, v) = new_queue-IsFresh [] 31 in
    (
      record {
        queue = q;
        receiver = reading;
        sender = taking;
        shut = false;
        accepted = [];
        written = [];
        received = [];
        told = 0;
      },
      rw e,
      record { queue = v.sound; stream = rw v.nothing; once = omega arith; flushed = λ k. cc },
      refl,
      v.nothing,
    )

pub new_conn_lem : {c : Conn} → new_conn ≡ returns c → IsSound c
new_conn_lem e =
    let (c, f, s, a, n) = new_conn-IsSound in subst IsSound (returns-injective (sym f ∙ e)) s
