-- ===== src/Conn/Flush.antt =====
-- A closed connection can always be brought to its end: what was accepted is written first.
use mathlib.Core.List.{flatten}
use dvactor.Base.{◌≡◌, ◌≢◌, refl, ap, ◌∙◌, true, false, List, [], ◌∷◌, ◌++◌, append-nil, returns}
use dvactor.Ring.Contents.{contents}
use dvactor.Packet.{Bytes}
use dvactor.Queue.Refine.{IsQueue}
use dvactor.Queue.Laws.{waits, ends, takes, dequeue-Dequeues}
use dvactor.Conn.{
  Conn, Sender, taking, writing, ended, dequeued, Step, took, wrote, wrote_all, Reach, here,
  further, new_conn,
}
use dvactor.Conn.Sound.{Reach-IsSound, new_conn_lem}
use dvactor.Conn.Deliver.{shut-written}

earlier : {c d e : Conn} → Step c d → Reach d e → Reach c e
earlier st here = further here st
earlier st (further r t) = further (earlier st r) t

-- Steps of the sender alone that end with the socket closed.
pub record Ends (c : Conn) : Type 0 where
  pub last : Conn
  pub path : Reach c last
  pub shut : last.shut ≡ true
  pub kept : last.accepted ≡ c.accepted

Step-Ends : {c d : Conn} → Step c d → d.accepted ≡ c.accepted → Ends d → Ends c
Step-Ends st e d = record {
  last = d.last;
  path = earlier st d.path;
  shut = d.shut;
  kept = d.kept ∙ e;
}

-- A message is written in one call, without an error.
write-Ends :
    (c : Conn) (bytes : Bytes)
    → c.sender ≡ writing bytes
    → ((w : Bytes) → Ends (record c { sender = taking; written = w }))
    → Ends c
write-Ends c [] h k = Step-Ends (wrote_all h) refl (k c.written)
write-Ends c (x ∷ xs) h k =
    Step-Ends (wrote (x ∷ xs) [] (rw (append-nil (x ∷ xs)) h) (λ e. cc)) refl
      (Step-Ends (wrote_all refl) refl (k (c.written ++ (x ∷ xs))))

taking-Ends :
    (xs : List Bytes) (c : Conn)
    → contents c.queue.buffer ≡ xs
    → IsQueue [] c.queue
    → c.queue.closed ≡ true
    → c.sender ≡ taking
    → Ends c
unfolding dequeued
taking-Ends [] c e v k h = elim (dequeue-Dequeues [] v) [
  | waits f n o ↦ cc
  | ends f n o ↦ record {
    last = dequeued c ([], false, c.queue);
    path = further here (took h f);
    shut = refl;
    kept = refl;
  }
  | takes x xs q f a b m w ↦ cc
]
taking-Ends (y ∷ ys) c e v k h = elim (dequeue-Dequeues [] v) [
  | waits f n o ↦ cc
  | ends f n o ↦ cc
  | takes x xs q f a b m w ↦ Step-Ends (took h f) refl (
      write-Ends (dequeued c (x, true, q)) x refl (λ bytes.
        taking-Ends ys (record c { queue = q; sender = taking; written = bytes }) (b ∙ cc) w (m ∙ k)
          refl))
]

sender-Ends :
    (c : Conn) (s : Sender)
    → c.sender ≡ s
    → IsQueue [] c.queue
    → c.queue.closed ≡ true
    → ((rest : Bytes) → s ≢ ended rest)
    → Ends c
sender-Ends c taking h v k n = taking-Ends (contents c.queue.buffer) c refl v k h
sender-Ends c (writing bytes) h v k n = write-Ends c bytes h (λ w.
    taking-Ends (contents c.queue.buffer) (record c { sender = taking; written = w }) refl v k refl)
sender-Ends c (ended rest) h v k n = absurd (n rest refl)

-- `Disconnect` does not lose what was accepted before: in every state that a connection reaches with
-- its queue closed, unless the sender has already returned, there are further steps that write all
-- accepted data, in order, and then close the socket.
pub closed_can_end :
    {c d : Conn}
    → new_conn ≡ returns c
    → Reach c d
    → d.queue.closed ≡ true
    → ((rest : Bytes) → d.sender ≢ ended rest)
    → (e : Conn) × Reach d e
      × (e.shut ≡ true)
      × (e.accepted ≡ d.accepted)
      × (e.written ≡ flatten d.accepted)
closed_can_end {d} e r k n =
    let s = Reach-IsSound (new_conn_lem e) r in
    let f = sender-Ends d d.sender refl s.queue k n in
    (
      f.last,
      f.path,
      f.shut,
      f.kept,
      shut-written (Reach-IsSound s f.path) f.shut ∙ ap flatten f.kept,
    )
