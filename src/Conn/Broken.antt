-- ===== src/Conn/Broken.antt =====
-- What a write error leaves behind.
use dvactor.Base.{◌≡◌, refl, ap, ◌∙◌, Bool, true, false}
use dvactor.Packet.{Bytes}
use dvactor.Queue.{is_close}
use dvactor.Conn.{
  Conn, ended, send_data, checked, Step, sent, disconnected, took, wrote, write_failed, wrote_all,
  read, read_failed, handled, handle_failed, looked, closed, tells, Reach, here, further,
}
use dvactor.Conn.Sound.{disconnect_keeps}

-- The sender has returned, and the socket is open.
record IsBroken (rest : Bytes) (c : Conn) : Type 0 where
  returned : c.sender ≡ ended rest
  left_open : c.shut ≡ false

checked_keeps :
    (c : Conn) (b : Bool)
    → ((checked c b).sender ≡ c.sender)
      × ((checked c b).shut ≡ c.shut)
      × ((checked c b).written ≡ c.written)
unfolding checked
checked_keeps c true = (refl, refl, refl)
checked_keeps c false = (refl, refl, refl)

-- A step that leaves the sender's side alone.
same-IsBroken :
    {rest : Bytes} {c d : Conn}
    → d.sender ≡ c.sender
    → d.shut ≡ c.shut
    → d.written ≡ c.written
    → IsBroken rest c
    → IsBroken rest d × (d.written ≡ c.written)
same-IsBroken e f g b = (record { returned = e ∙ b.returned; left_open = f ∙ b.left_open }, g)

Step-IsBroken :
    {rest : Bytes} {c d : Conn}
    → Step c d
    → IsBroken rest c
    → IsBroken rest d × (d.written ≡ c.written)
unfolding send_data
Step-IsBroken (sent bytes) b = same-IsBroken refl refl refl b
Step-IsBroken {c} (disconnected e) b =
    let k = disconnect_keeps c e in
    same-IsBroken (ap (λ (t : Conn). t.sender) k) (ap (λ (t : Conn). t.shut) k)
      (ap (λ (t : Conn). t.written) k) b
Step-IsBroken (took h e) b = cc (h, b.returned)
Step-IsBroken (wrote x y h n) b = cc (h, b.returned)
Step-IsBroken (write_failed x y h) b = cc (h, b.returned)
Step-IsBroken (wrote_all h) b = cc (h, b.returned)
Step-IsBroken (read bytes h) b = same-IsBroken refl refl refl b
Step-IsBroken (read_failed h) b = same-IsBroken refl refl refl b
Step-IsBroken (handled h) b = same-IsBroken refl refl refl b
Step-IsBroken (handle_failed h) b = same-IsBroken refl refl refl b
Step-IsBroken {c} (looked h) b =
    let (e, f, g) = checked_keeps c (is_close c.queue) in same-IsBroken e f g b
Step-IsBroken {c} (closed h e) b =
    let k = disconnect_keeps c e in
    same-IsBroken (ap (λ (t : Conn). t.sender) k) (ap (λ (t : Conn). t.shut) k)
      (ap (λ (t : Conn). t.written) k) b
Step-IsBroken (tells h) b = same-IsBroken refl refl refl b

-- After a write error the connection is dead but open: once the sender has returned and has not
-- closed the socket, then whatever the other goroutines do, `Disconnect` and `SendData` included,
-- the socket is not closed and nothing more is written to it.
pub broken_stays_open :
    {c d : Conn} (rest : Bytes)
    → c.sender ≡ ended rest
    → c.shut ≡ false
    → Reach c d
    → (d.shut ≡ false) × (d.written ≡ c.written)
broken_stays_open {c} rest e f r = let (b, w) = stays r in (b.left_open, w)
  where
    stays : {d : Conn} → Reach c d → IsBroken rest d × (d.written ≡ c.written)
    stays here = (record { returned = e; left_open = f }, refl)
    stays (further r st) = let (b, w) = stays r in let (b', w') = Step-IsBroken st b in (b', w' ∙ w)
