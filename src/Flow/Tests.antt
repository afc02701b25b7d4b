-- ===== src/Flow/Tests.antt =====
-- A client registers and sends an envelope, and all of it is written.
use mathlib.Core.List.{flatten, map}
use dvactor.Base.{◌≡◌, refl, true, false, List, [], ◌∷◌, ◌++◌, replicate, Outcome, arith}
use dvactor.Packet.{Bytes, pack_message, waiting, connected, receive}
use dvactor.Ring.{push, write_tail, pop}
use dvactor.Queue.{enqueue, dequeue}
use dvactor.Fixtures.{types, numbers, blank}
use dvactor.Wire.{actor_ref_to_proto}
use dvactor.Wire.Encode.{to_pkg}
use dvactor.Wire.Link.{send_envelope, send_pkg, send_bytes, do_send, over_link, Handled}
use dvactor.Wire.Samples.{blank-IsConsistent, watching, codec, encode, linked, watching-IsFull}
use dvactor.Conn.{Conn, writing, send_data, dequeued, took, wrote, wrote_all}
use dvactor.Conn.Samples.{start, starts}
use dvactor.Net.{send_message}
use dvactor.Flow.{Flow, silent, registers, sends, moves, send_on, handled}
use dvactor.Flow.Carry.{arrives}
use dvactor.Flow.Arrive.{envelopes_arrive}

abbrev registration : Bytes
registration = 0 ∷ 0 ∷ 0 ∷ 1 ∷ 10 ∷ 1 ∷ []

abbrev watch_frame : Bytes
watch_frame = 0 ∷ 0 ∷ 0 ∷ 9 ∷ 7 ∷ 1 ∷ 1 ∷ 22 ∷ 2 ∷ 1 ∷ 22 ∷ 7 ∷ 1 ∷ 0 ∷ []

-- The reads of the peer split the second frame.
abbrev two_reads : List Bytes
two_reads =
    (registration ++ (0 ∷ [])) ∷ (0 ∷ 0 ∷ 9 ∷ 7 ∷ 1 ∷ 1 ∷ 22 ∷ 2 ∷ 1 ∷ 22 ∷ 7 ∷ 1 ∷ 0 ∷ []) ∷ []

abbrev all_written : Conn
all_written = record start {
  queue = record {
    buffer = record {
      buffer = replicate 32 [];
      size = 32;
      head = 2;
      tail = 2;
      count = 0;
      zero_value = [];
    };
    notified = false;
    closed = false;
    zero_value = [];
  };
  accepted = registration ∷ watch_frame ∷ [];
  sender = writing [];
  written = registration ++ watch_frame;
}

goes_out : Flow types numbers codec blank 40 start (watching ∷ []) all_written
unfolding send_on send_message pack_message send_data enqueue push write_tail dequeued dequeue pop
    send_envelope send_pkg send_bytes do_send over_link to_pkg actor_ref_to_proto encode
goes_out =
    moves
      (moves
        (moves
          (moves
            (moves (sends linked 2 _ watching (registers 10 (1 ∷ []) silent refl) refl refl refl)
              (took refl refl) refl)
            (wrote registration [] refl (λ e. cc)) refl)
          (wrote_all refl) refl)
        (took refl refl) refl)
      (wrote watch_frame [] refl (λ e. cc)) refl

envelopes_arrive_example :
    ((rest : Bytes) × ((receive connected two_reads).stop ≡ waiting rest))
    × ((left : List (Outcome (Handled types numbers codec blank))) × (handled types numbers codec
              blank
              (receive connected two_reads).frames
            ++ left
          ≡ map (arrives types numbers codec blank blank blank-IsConsistent) (watching ∷ [])))
    × (all_written.shut ≡ true
        → handled types numbers codec blank (receive connected two_reads).frames
          ≡ map (arrives types numbers codec blank blank blank-IsConsistent) (watching ∷ []))
unfolding flatten
envelopes_arrive_example =
    envelopes_arrive types numbers codec blank blank blank-IsConsistent 40 (watching ∷ []) two_reads
      starts goes_out
      (
        (
          (omega arith, omega arith, omega arith),
          (omega arith, omega arith, omega arith),
          omega arith,
        ),
        tt,
      )
      (watching-IsFull, tt) (omega arith) refl
