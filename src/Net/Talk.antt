-- ===== src/Net/Talk.antt =====
-- Messages from `SendMessage` to the peer's loop.
use mathlib.Core.List.{flatten}
use dvactor.Base.{
  ℕ, ◌^◌, ◌<◌, ◌≡◌, refl, sym, subst, ◌∙◌, true, Option, none, some, List, [], ◌∷◌, ◌++◌, length,
  returns, returns-injective,
}
use dvactor.Packet.{Bytes, Frame, pack_message, waiting, connected, receive}
use dvactor.Packet.Stream.{Packed, nothing, then_pack}
use dvactor.Packet.Prefix.{Begins}
use dvactor.Queue.{enqueue}
use dvactor.Conn.{Conn, new_conn, send_data, note, Step, sent, Reach, here, further}
use dvactor.Conn.Sound.{new_conn-IsSound}
use dvactor.Conn.Deliver.{sent-received}
use dvactor.Net.{Unsent, unsent, send_packed, send_message}

-- The messages for which `SendMessage` returned no error.
abbrev pub kept : Option Unsent → Frame → List Frame → List Frame
kept none f fs = fs ++ (f ∷ [])
kept (some error) f fs = fs

-- A connection on which data are sent by `SendMessage` only: the messages sent so far.
pub data Talk (c : Conn) : List Frame → Conn → Type 0 where
  quiet : Talk c [] c
  says :
      {fs : List Frame} {d : Conn} (msg_id : ℕ) (bytes : Bytes)
      → Talk c fs d
      → Talk c
          (kept (send_message d msg_id bytes).0 (msg_id, bytes) fs)
          (send_message d msg_id bytes).1
  moves :
      {fs : List Frame} {d e : Conn}
      → Talk c fs d
      → Step d e
      → e.accepted ≡ d.accepted
      → Talk c fs e

Packed-snoc :
    {fs : List Frame} {pkts : List Bytes} (msg_id : ℕ) (bytes pkt : Bytes)
    → pack_message msg_id bytes ≡ some pkt
    → Packed fs pkts
    → Packed (fs ++ ((msg_id, bytes) ∷ [])) (pkts ++ (pkt ∷ []))
Packed-snoc msg_id bytes pkt e nothing = then_pack e nothing
Packed-snoc msg_id bytes pkt e (then_pack f p) = then_pack f (Packed-snoc msg_id bytes pkt e p)

note-Packed :
    {fs : List Frame} {pkts : List Bytes} (error : Option _) (msg_id : ℕ) (bytes pkt : Bytes)
    → pack_message msg_id bytes ≡ some pkt
    → Packed fs pkts
    → Packed (kept (unsent error) (msg_id, bytes) fs) (note error pkt pkts)
note-Packed none msg_id bytes pkt e p = Packed-snoc msg_id bytes pkt e p
note-Packed (some error) msg_id bytes pkt e p = p

-- Sending keeps what was accepted packed, and is a step if the id fits.
says-Packed :
    {c d : Conn} {fs : List Frame} (msg_id : ℕ) (bytes : Bytes) (pkt : Option Bytes)
    → pack_message msg_id bytes ≡ pkt
    → Reach c d
    → Packed fs d.accepted
    → Reach c (send_packed d pkt).1
      × Packed (kept (send_packed d pkt).0 (msg_id, bytes) fs) (send_packed d pkt).1.accepted
unfolding send_data
says-Packed msg_id bytes none e r p = (r, p)
says-Packed {d} msg_id bytes (some pkt) e r p =
    (further r (sent pkt), note-Packed (enqueue d.queue pkt).0 msg_id bytes pkt e p)

Talk-Packed :
    {c d : Conn} {fs : List Frame}
    → c.accepted ≡ []
    → Talk c fs d
    → Reach c d × Packed fs d.accepted
unfolding send_message
Talk-Packed {fs} h quiet = (here, subst (λ (l : List Bytes). Packed fs l) (sym h) nothing)
Talk-Packed h (says msg_id bytes t) =
    let (r, p) = Talk-Packed h t in says-Packed msg_id bytes (pack_message msg_id bytes) refl r p
Talk-Packed {fs} h (moves t st e) =
    let (r, p) = Talk-Packed h t in
    (further r st, subst (λ (l : List Bytes). Packed fs l) (sym e) p)

-- On a new connection on which data are sent by `SendMessage` only, fewer than 2^32 bytes in all,
-- if the peer has read what the socket took, in reads of any sizes, then the peer's loop has handed
-- over the first of the messages for which `SendMessage` returned no error, in order, unchanged, and
-- waits for more; once the sender has closed the socket it has handed over all of them.
pub sent_messages_arrive :
    {c d : Conn} {fs : List Frame} (chunks : List Bytes)
    → new_conn ≡ returns c
    → Talk c fs d
    → length (flatten d.accepted) < 2 ^ 32
    → flatten chunks ≡ d.written
    → Begins fs (receive connected chunks)
      × (d.shut ≡ true → receive connected chunks ≡ record { frames = fs; stop = waiting [] })
sent_messages_arrive chunks e t h k =
    let (b, f, s, a, n) = new_conn-IsSound in
    let none_yet = subst (λ (x : Conn). x.accepted ≡ []) (returns-injective (sym f ∙ e)) a in
    let (r, p) = Talk-Packed none_yet t in sent-received chunks e r p h k
