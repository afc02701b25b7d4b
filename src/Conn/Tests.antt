-- ===== src/Conn/Tests.antt =====
-- A connection at work: a frame is sent, the connection is closed from this side, and the sender
-- writes the frame in two parts and closes the socket.
use mathlib.Core.List.{flatten}
use dvactor.Base.{false, none, ◌≡◌, refl, true, [], ◌∷◌, arith}
use dvactor.Packet.{pack_message, waiting, connected, receive}
use dvactor.Packet.Stream.{Packed, nothing, then_pack}
use dvactor.Packet.Prefix.{Begins}
use dvactor.Ring.{push, write_tail, pop}
use dvactor.Queue.{enqueue, dequeue, close, is_close}
use dvactor.Conn.{
  Conn, ended, finished, send_data, disconnect, dequeued, checked, sent, disconnected, took, wrote,
  read_failed, looked, Reach, here, further,
}
use dvactor.Conn.Sound.{Reach-IsSound, new_conn_lem}
use dvactor.Conn.Silence.{IsHushed, IsHushed-never_told}
use dvactor.Conn.Broken.{broken_stays_open}
use dvactor.Conn.Deliver.{sent-received}
use dvactor.Conn.Flush.{closed_can_end}
use dvactor.Conn.Samples.{hi_frame, start, starts, hung_up, half_written}

hangs_up : Reach start hung_up
unfolding send_data enqueue push write_tail disconnect close
hangs_up = further (further here (sent hi_frame)) (disconnected refl)

writes_half : Reach start half_written
unfolding dequeued dequeue pop
writes_half =
    further (further hangs_up (took refl refl))
      (wrote (0 ∷ 0 ∷ 0 ∷ []) (2 ∷ 1 ∷ b'h' ∷ b'i' ∷ []) refl (λ e. cc))

hi-Packed : Packed ((1, b'h' ∷ b'i' ∷ []) ∷ []) (hi_frame ∷ [])
unfolding pack_message
hi-Packed = then_pack refl nothing

sent-received_example :
    Begins ((1, b'h' ∷ b'i' ∷ []) ∷ []) (receive connected ((0 ∷ 0 ∷ []) ∷ (0 ∷ []) ∷ []))
    × (half_written.shut ≡ true
        → receive connected ((0 ∷ 0 ∷ []) ∷ (0 ∷ []) ∷ [])
          ≡ record { frames = (1, b'h' ∷ b'i' ∷ []) ∷ []; stop = waiting [] })
unfolding flatten
sent-received_example =
    sent-received ((0 ∷ 0 ∷ []) ∷ (0 ∷ []) ∷ []) starts writes_half hi-Packed (omega arith) refl

closed_can_end_example :
    (e : Conn) × Reach half_written e
    × (e.shut ≡ true)
    × (e.accepted ≡ half_written.accepted)
    × (e.written ≡ flatten half_written.accepted)
closed_can_end_example = closed_can_end starts writes_half refl (λ rest e. cc)

-- The read fails then, and the receiver returns.
abbrev unheard : Conn
unheard = record half_written { receiver = finished }

returns_silently : Reach half_written unheard
unfolding checked is_close
returns_silently = further (further here (read_failed refl)) (looked refl)

half_written-IsHushed : IsHushed half_written
half_written-IsHushed = record {
  sound = Reach-IsSound (new_conn_lem starts) writes_half;
  shut = refl;
  quiet = refl;
}

IsHushed-never_told_example : IsHushed unheard × (unheard.told ≡ 0)
IsHushed-never_told_example = IsHushed-never_told half_written-IsHushed returns_silently

-- A write has failed on the open connection, and `SendData` still takes data.
abbrev cut_off : Conn
cut_off = record start { sender = ended (2 ∷ []) }

broken_stays_open_example :
    ((send_data cut_off hi_frame).1.shut ≡ false)
    × ((send_data cut_off hi_frame).1.written ≡ cut_off.written)
broken_stays_open_example = broken_stays_open (2 ∷ []) refl refl (further here (sent hi_frame))

still_accepts : (send_data cut_off hi_frame).0 ≡ none
unfolding send_data enqueue push write_tail
still_accepts = refl
