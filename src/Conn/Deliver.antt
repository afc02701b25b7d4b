-- ===== src/Conn/Deliver.antt =====
-- From `SendData` on one side of a connection to the receiving loop on the other.
use mathlib.Core.List.{flatten}
use dvactor.Base.{◌<◌, ◌^◌, ◌≡◌, ap, sym, ◌∙◌, true, List, [], ◌++◌, length, append-nil, returns}
use dvactor.Packet.{Bytes, Frame, waiting, connected, receive}
use dvactor.Packet.Stream.{Packed, receive-Packed}
use dvactor.Packet.Prefix.{Begins, receive-Begins}
use dvactor.Conn.{Conn, new_conn, Reach}
use dvactor.Conn.Sound.{IsSound, Reach-IsSound, new_conn_lem, pending}

-- A socket that the sender closed has taken every byte that was accepted.
pub shut-written : {c : Conn} → IsSound c → c.shut ≡ true → c.written ≡ flatten c.accepted
unfolding flatten
shut-written {c} s h =
    let (a, b, e) = s.flushed h in sym (append-nil c.written) ∙ sym (rw (a, e) at s.stream)

-- In every state that a connection reaches, if the data accepted by `SendData` are packed messages,
-- fewer than 2^32 bytes, and the peer has read what the socket took, in reads of any sizes, then the
-- peer's loop has handed over the first of the messages, in order, unchanged, and waits for more;
-- once the sender has closed the socket it has handed over all of them.
pub sent-received :
    {c d : Conn} {fs : List Frame} (chunks : List Bytes)
    → new_conn ≡ returns c
    → Reach c d
    → Packed fs d.accepted
    → length (flatten d.accepted) < 2 ^ 32
    → flatten chunks ≡ d.written
    → Begins fs (receive connected chunks)
      × (d.shut ≡ true → receive connected chunks ≡ record { frames = fs; stop = waiting [] })
sent-received {d} chunks e r p h k =
    let s = Reach-IsSound (new_conn_lem e) r in
    (
      receive-Begins chunks (pending d) p (ap (λ (b : Bytes). b ++ pending d) k ∙ sym s.stream) h,
      λ g. let all = k ∙ shut-written s g in receive-Packed chunks p all (rw all h),
    )
