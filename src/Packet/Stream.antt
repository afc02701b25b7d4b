-- ===== src/Packet/Stream.antt =====
-- Sending and receiving together: packed messages over a byte stream.
use dvactor.Base.{
  ℕ, ◌+◌, ◌-◌, ◌^◌, ◌≤◌, ◌<◌, ◌≡◌, refl, ap, ◌∙◌, none, some, List, [], ◌∷◌, ◌++◌, length, returns,
  arith, length-append, append-nil, append_assoc,
}
use mathlib.Core.List.{flatten}
use dvactor.Packet.{
  Bytes, Frame, uint32, pack_message, next, waiting, crashed, deliver, cut, connected, receive,
}
use dvactor.Packet.Header.{next-pack_message, next_panics}
use dvactor.Packet.Cut.{cut-some, cut-none, cut-panics, receive-flatten}

-- The bytes that a sender puts on the wire for these messages, one `PackMessage` each.
pub data Packed : List Frame → List Bytes → Type 0 where
  nothing : Packed [] []
  then_pack :
      {msg_id : ℕ} {bytes pkt : Bytes} {fs : List Frame} {pkts : List Bytes}
      → pack_message msg_id bytes ≡ some pkt
      → Packed fs pkts
      → Packed ((msg_id, bytes) ∷ fs) (pkt ∷ pkts)

cut-Packed :
    {fs : List Frame} {pkts : List Bytes} (tail : Bytes)
    → Packed fs pkts
    → length (flatten pkts ++ tail) < 2 ^ 32
    → cut (flatten pkts ++ tail) ≡ deliver fs (cut tail)
unfolding flatten
cut-Packed tail nothing h = refl
cut-Packed tail (then_pack {msg_id} {bytes} {pkt} {fs} {pkts} e p) h =
    rw (append_assoc pkt (flatten pkts) tail) (
      cut-some (pkt ++ (flatten pkts ++ tail))
        (next-pack_message msg_id bytes (flatten pkts ++ tail) pkt e whole)
      ∙ ap (deliver ((msg_id, bytes) ∷ []))
          (cut-Packed tail p (omega (arith, whole, length-append pkt (flatten pkts ++ tail)))))
  where
    whole : length (pkt ++ (flatten pkts ++ tail)) < 2 ^ 32
    whole = rw (append_assoc pkt (flatten pkts) tail) at h

next-nil : next [] ≡ returns (none, [])
unfolding next
next-nil = refl

-- What is packed and sent arrives: whatever reads the stream of these packets is split into, the
-- loop hands over exactly the messages sent, with their ids, in order, and waits with an empty
-- buffer, as long as the stream is shorter than 2^32 bytes.
pub receive-Packed :
    {fs : List Frame} {pkts : List Bytes} (chunks : List Bytes)
    → Packed fs pkts
    → flatten chunks ≡ flatten pkts
    → length (flatten chunks) < 2 ^ 32
    → receive connected chunks ≡ record { frames = fs; stop = waiting [] }
receive-Packed {pkts} chunks p e h =
    receive-flatten chunks h
    ∙ rw (e, ← append-nil (flatten pkts))
        (cut-Packed [] p (rw (append-nil, ← e) h) ∙ rw (cut-none [] next-nil, append-nil))

-- A peer can crash the process: in a stream of fewer than 2^32 bytes, in reads of any sizes, a
-- header whose length field is 2^32 - 5 or more, after any messages, makes the loop panic, once it
-- has handed over the messages before it.
pub receive_crash :
    {fs : List Frame} {pkts : List Bytes} (chunks : List Bytes) (bad : Bytes)
    → Packed fs pkts
    → flatten chunks ≡ flatten pkts ++ bad
    → length (flatten chunks) < 2 ^ 32
    → 5 ≤ length bad
    → 2 ^ 32 - 5 ≤ uint32 bad
    → uint32 bad < 2 ^ 32
    → receive connected chunks ≡ record { frames = fs; stop = crashed }
receive_crash {fs} {pkts} chunks bad p e h k lo hi =
    receive-flatten chunks h
    ∙ rw e (
        cut-Packed bad p whole
        ∙ rw (cut-panics bad (next_panics bad k (omega (arith, whole, sum)) lo hi), append-nil))
  where
    whole : length (flatten pkts ++ bad) < 2 ^ 32
    whole = rw e at h

    sum : length (flatten pkts ++ bad) ≡ length (flatten pkts) + length bad
    sum = length-append (flatten pkts) bad
