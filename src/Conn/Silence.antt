-- ===== src/Conn/Silence.antt =====
-- When the callback of a connection runs, and when it never does.
use dvactor.Base.{
  ◌≤◌, ◌<◌, ◌≡◌, refl, ap, sym, subst, ◌∙◌, Bool, true, false, some, [], returns, arith,
  returns-of->>=, returns-injective, some-injective,
}
use dvactor.Packet.{Bytes}
use dvactor.Queue.{Queue, close, dequeue}
use dvactor.Queue.Laws.{
  refused, entered, enqueue-Enqueues, waits, ends, takes, dequeue-Dequeues, close-Closes,
  is_close-closed,
}
use dvactor.Conn.{
  Conn, Receiver, closing, telling, new_conn, send_data, disconnect, dequeued, checked, Step, sent,
  disconnected, took, wrote, write_failed, wrote_all, read, read_failed, handled, handle_failed,
  looked, closed, tells, Reach, here, further,
}
use dvactor.Conn.Sound.{
  IsSound, Step-IsSound, Reach-IsSound, disconnect_keeps, left_to_tell, new_conn_lem,
}

-- The receiver has seen an open queue after an error, and goes on to the callback.
abbrev pub on_its_way : Receiver → Bool
on_its_way closing = true
on_its_way telling = true
on_its_way _ = false

-- A closed queue, before the receiver has looked at it.
pub record IsHushed (c : Conn) : Type 0 where
  pub sound : IsSound c
  pub shut : c.queue.closed ≡ true
  pub quiet : on_its_way c.receiver ≡ false

send_data-closed :
    (c : Conn) (bytes : Bytes)
    → IsSound c
    → c.queue.closed ≡ true
    → (send_data c bytes).1.queue.closed ≡ true
unfolding send_data
send_data-closed c bytes s h = elim (enqueue-Enqueues [] s.queue bytes) [
  | refused e f ↦ rw f h
  | entered q e f g k v ↦ cc
]

dequeued-closed :
    (c : Conn) (r : Bytes × Bool × Queue Bytes)
    → IsSound c
    → dequeue c.queue ≡ some r
    → c.queue.closed ≡ true
    → ((dequeued c r).queue.closed ≡ true)
      × ((dequeued c r).receiver ≡ c.receiver)
      × ((dequeued c r).told ≡ c.told)
unfolding dequeued
dequeued-closed c r s e h = elim (dequeue-Dequeues [] s.queue) [
  | waits f n k ↦ cc
  | ends f n k ↦ rw (some-injective (sym e ∙ f)) (h, refl, refl)
  | takes x xs q f a b k v ↦ rw (some-injective (sym e ∙ f)) (k ∙ h, refl, refl)
]

disconnect-closed : {c d : Conn} → IsSound c → disconnect c ≡ returns d → d.queue.closed ≡ true
unfolding disconnect
disconnect-closed {c} s e =
    let (r, f, k) = returns-of->>= (close c.queue) _ e in
    subst (λ (t : Conn). t.queue.closed ≡ true) (returns-injective k)
      (close-Closes [] s.queue f).shut

-- What a step leaves of a closed queue before which the receiver has not looked.
record Stays (c d : Conn) : Type 0 where
  shut : d.queue.closed ≡ true
  quiet : on_its_way d.receiver ≡ false
  same : d.told ≡ c.told

Step-Stays : {c d : Conn} → Step c d → IsHushed c → Stays c d
unfolding checked send_data
Step-Stays {c} (sent bytes) h = record {
  shut = send_data-closed c bytes h.sound h.shut;
  quiet = h.quiet;
  same = refl;
}
Step-Stays {c} (disconnected e) h = record {
  shut = disconnect-closed h.sound e;
  quiet = ap (λ (t : Conn). on_its_way t.receiver) (disconnect_keeps c e) ∙ h.quiet;
  same = ap (λ (t : Conn). t.told) (disconnect_keeps c e);
}
Step-Stays {c} (took {r} k e) h =
    let (a, b, t) = dequeued-closed c r h.sound e h.shut in
    record { shut = a; quiet = ap on_its_way b ∙ h.quiet; same = t }
Step-Stays (wrote a b k n) h = record { shut = h.shut; quiet = h.quiet; same = refl }
Step-Stays (write_failed a b k) h = record { shut = h.shut; quiet = h.quiet; same = refl }
Step-Stays (wrote_all k) h = record { shut = h.shut; quiet = h.quiet; same = refl }
Step-Stays (read bytes k) h = record { shut = h.shut; quiet = refl; same = refl }
Step-Stays (read_failed k) h = record { shut = h.shut; quiet = refl; same = refl }
Step-Stays (handled k) h = record { shut = h.shut; quiet = refl; same = refl }
Step-Stays (handle_failed k) h = record { shut = h.shut; quiet = refl; same = refl }
Step-Stays {c} (looked k) h =
    rw (is_close-closed [] c.queue, h.shut) (record { shut = refl; quiet = refl; same = refl })
Step-Stays (closed k e) h = cc (h.quiet, ap on_its_way k)
Step-Stays (tells k) h = cc (h.quiet, ap on_its_way k)

-- A connection that this side closes is never reported: once the queue is closed (by `Disconnect`,
-- from anywhere) before the receiver has looked at it, `onDisconnectFunc` is not called any more, in
-- whatever order the goroutines go on.
pub IsHushed-never_told : {c d : Conn} → IsHushed c → Reach c d → IsHushed d × (d.told ≡ c.told)
IsHushed-never_told h here = (h, refl)
IsHushed-never_told h (further r st) =
    let (k, e) = IsHushed-never_told h r in
    let stays = Step-Stays st k in
    (
      record { sound = Step-IsSound st k.sound; shut = stays.shut; quiet = stays.quiet },
      stays.same ∙ e,
    )

-- From the start of a connection, `onDisconnectFunc` is called once at most, and the receiver ends
-- with the call.
told_once :
    {c d : Conn}
    → new_conn ≡ returns c
    → Reach c d
    → (d.told ≤ 1) × (0 < d.told → left_to_tell d.receiver ≡ 0)
told_once e r =
    let s = Reach-IsSound (new_conn_lem e) r in (omega (arith, s.once), λ h. omega (arith, s.once))
