-- ===== src/Net/Tests.antt =====
-- Two clients of one server, and a message from `SendMessage` on.
use mathlib.Core.List.{flatten}
use dvactor.Base.{
  ℕ, ◌≡◌, refl, Bool, true, false, none, some, List, [], ◌∷◌, returns, if◌then◌else◌, ◌==◌, arith,
}
use dvactor.Packet.{pack_message, waiting, connected, receive, on_data, next, drain, cut, append}
use dvactor.Packet.Prefix.{Begins}
use dvactor.Ring.{push, write_tail, pop}
use dvactor.Queue.{enqueue, dequeue, close}
use dvactor.Conn.{send_data, disconnect, dequeued, disconnected, took, wrote}
use dvactor.Conn.Samples.{start, starts, hung_up, half_written}
use dvactor.Net.Talk.{Talk, quiet, says, moves, sent_messages_arrive}
use dvactor.Net.{
  NetServer, new_net_server, Call, accepts, reads, loses, Event, connects, hands, disconnects, put,
  on_accept, handed, send_message, on_lost, call, run,
}
use dvactor.Net.Own.{messages, chunks_of}
use dvactor.Net.Apart.{calls_of, sessions_apart}
use dvactor.Net.Found.{session_found}
use dvactor.Session.{
  new_session_mgr, new_session, next_id, add_session, remove_session, get_session,
}

-- Connection 7 reads a frame in two parts, and connection 8 one with another message in between.
abbrev mixed : List Call
mixed =
    reads 7 (0 ∷ 0 ∷ 0 ∷ 2 ∷ [])
    ∷ reads 8 (0 ∷ 0 ∷ 0 ∷ 1 ∷ 3 ∷ b'!' ∷ [])
    ∷ reads 7 (1 ∷ b'h' ∷ b'i' ∷ [])
    ∷ loses 8
    ∷ []

abbrev first_up : NetServer
first_up = (on_accept 7 new_net_server).1

-- The calls of connection j, if `a` says whether j is 7, and `b` whether it is 8.
abbrev calls_with : Bool → Bool → List Call
calls_with a b =
    let last = if b then loses 8 ∷ [] else [] in
    let rest = if a then reads 7 (1 ∷ b'h' ∷ b'i' ∷ []) ∷ last else last in
    let from_8 = if b then reads 8 (0 ∷ 0 ∷ 0 ∷ 1 ∷ 3 ∷ b'!' ∷ []) ∷ rest else rest in
    if a then reads 7 (0 ∷ 0 ∷ 0 ∷ 2 ∷ []) ∷ from_8 else from_8

alone_with :
    (a b : Bool)
    → (r : List Event × NetServer) × (run (calls_with a b) (on_accept 7 new_net_server).1
        ≡ returns r)
unfolding run call on_accept handed on_lost on_data cut append next drain new_net_server
alone_with true true = (_, refl)
alone_with true false = (_, refl)
alone_with false true = (_, refl)
alone_with false false = (_, refl)

mixed_alone :
    (j : ℕ)
    → (r : List Event × NetServer) × (run (calls_of j mixed) (on_accept 7 new_net_server).1
        ≡ returns r)
mixed_alone j = alone_with (7 == j) (8 == j)

sessions_apart_example :
    (r : List Event × NetServer) × (run mixed (on_accept 7 new_net_server).1 ≡ returns r)
    × (receive connected (chunks_of 7 mixed)
        ≡ record { frames = messages 7 r.0; stop = waiting (r.1.splitters 7) })
sessions_apart_example = sessions_apart 7 mixed new_net_server refl mixed_alone

-- Connection 8 is there first, and ends while connection 7 goes on.
abbrev one_before : List Event × NetServer
one_before = (connects 8 ∷ [], (on_accept 8 new_net_server).1)

abbrev after_mixed : NetServer
after_mixed = record {
  manager = record { sessions = (2, 7) ∷ []; gen_uid = 2 };
  ids = (on_accept 7 one_before.1).1.ids;
  splitters = put 7 [] (put 8 [] (put 7 (0 ∷ 0 ∷ 0 ∷ 2 ∷ []) (put 7 [] (put 8 [] (λ k. [])))));
}

one_before-run : run (accepts 8 ∷ []) new_net_server ≡ returns one_before
unfolding run call
one_before-run = refl

mixed-run :
    run mixed (on_accept 7 one_before.1).1
    ≡ returns
        (hands 8 (3, b'!' ∷ []) ∷ hands 7 (1, b'h' ∷ b'i' ∷ []) ∷ disconnects 8 ∷ [], after_mixed)
unfolding run call on_accept handed on_lost on_data cut append next drain new_net_server
    new_session_mgr new_session next_id add_session remove_session
mixed-run = refl

session_found_example :
    (get_session (after_mixed.ids 7) after_mixed.manager ≡ some 7)
    × (get_session (after_mixed.ids 7) (on_lost 7 after_mixed).1.manager ≡ none)
session_found_example =
    session_found 7 (accepts 8 ∷ []) mixed one_before-run mixed-run refl (omega arith)

-- The message is sent, the connection is closed, and three bytes are written.
half_said : Talk start ((1, b'h' ∷ b'i' ∷ []) ∷ []) half_written
unfolding send_message pack_message send_data enqueue push write_tail disconnect close dequeued
    dequeue pop
half_said =
    moves
      (moves (moves (says 1 (b'h' ∷ b'i' ∷ []) quiet) (disconnected {d = hung_up} refl) refl)
        (took refl refl) refl)
      (wrote (0 ∷ 0 ∷ 0 ∷ []) (2 ∷ 1 ∷ b'h' ∷ b'i' ∷ []) refl (λ e. cc)) refl

sent_messages_arrive_example :
    Begins ((1, b'h' ∷ b'i' ∷ []) ∷ []) (receive connected ((0 ∷ 0 ∷ []) ∷ (0 ∷ []) ∷ []))
    × (half_written.shut ≡ true
        → receive connected ((0 ∷ 0 ∷ []) ∷ (0 ∷ []) ∷ [])
          ≡ record { frames = (1, b'h' ∷ b'i' ∷ []) ∷ []; stop = waiting [] })
unfolding flatten
sent_messages_arrive_example =
    sent_messages_arrive ((0 ∷ 0 ∷ []) ∷ (0 ∷ []) ∷ []) starts half_said (omega arith) refl
