-- ===== src/Accept/Tests.antt =====
-- An acceptor with one connection, from `Listen` on.
use dvactor.Base.{◌≡◌, ◌≢◌, refl, true, none, some, [], ◌∷◌, ◌++◌, arith}
use dvactor.Packet.{on_data, cut, append, next, drain}
use dvactor.Session.{get_session, new_session, next_id, add_session, new_session_mgr}
use dvactor.Net.{new_net_server, accepts, reads, hands, connects, on_accept, handed, call, put}
use dvactor.Accept.{
  sending, Acceptor, new_acceptor, listened, got_conn, accepted, go_receiver, times, listens, takes,
  calls_back, starts_receiver, receives, Reach, here, further,
}
use dvactor.Accept.Phases.{wrong, up, phase}
use dvactor.Accept.Steps.{called_in_order}
use dvactor.Accept.Serving.{receiver_has_session}

-- Connection 7 has read a message before its sender is started.
abbrev reading : Acceptor
reading = record {
  place = sending 7;
  listener = some true;
  receivers = 7 ∷ [];
  senders = [];
  server = record {
    manager = record { sessions = (1, 7) ∷ []; gen_uid = 1 };
    ids = put 7 1 (λ k. 0);
    splitters = put 7 [] (put 7 [] (λ k. []));
  };
  made = 7 ∷ [];
  calls = accepts 7 ∷ reads 7 (0 ∷ 0 ∷ 0 ∷ 1 ∷ 3 ∷ b'!' ∷ []) ∷ [];
  events = connects 7 ∷ hands 7 (3, b'!' ∷ []) ∷ [];
}

gets_there : Reach new_acceptor reading
unfolding listened got_conn accepted go_receiver call on_accept handed on_data cut append next drain
    new_net_server new_session_mgr new_session next_id add_session
gets_there =
    further
      (further
        (further (further (further here (listens none refl)) (takes 7 refl refl refl))
          (calls_back 7 refl refl))
        (starts_receiver 7 refl))
      (receives [] [] 7 (0 ∷ 0 ∷ 0 ∷ 1 ∷ 3 ∷ b'!' ∷ []) refl refl)

called_in_order_example : phase 7 reading.calls ≢ wrong
called_in_order_example = called_in_order 7 gets_there

receiver_has_session_example :
    (phase 7 reading.calls ≡ up)
    × (get_session (reading.server.ids 7) reading.server.manager ≡ some 7)
    × (times 7 ([] ++ []) ≡ 0)
receiver_has_session_example = receiver_has_session [] [] 7 gets_there refl (omega arith)
