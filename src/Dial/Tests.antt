-- ===== src/Dial/Tests.antt =====
-- A client that reads a message before `onConnect` is called.
use dvactor.Base.{◌≤◌, ◌≡◌, refl, true, none, [], ◌∷◌}
use dvactor.Packet.{connected, waiting, receive, on_data, cut, append, next, drain}
use dvactor.Dial.{
  NetClient, new_net_client, set_on_connect, set_on_disconnect, set_on_message, connects, hands,
  handed, received, returned, Connector, new_connector, dialed, go_receiver, go_sender, call_back,
  dials, starts_receiver, starts_sender, calls_back, receives, Reach, here, further,
}
use dvactor.Dial
use dvactor.Dial.Events.{begun, ended}
use dvactor.Dial.Hands.{client_hands}

abbrev listening : NetClient
listening = record { on_connect = true; on_disconnect = true; on_message = true; splitter = [] }

set_up : set_on_connect (set_on_disconnect (set_on_message new_net_client)) ≡ listening
unfolding set_on_connect set_on_disconnect set_on_message new_net_client
set_up = refl

abbrev online : Connector
online = record {
  place = returned none;
  receiver = true;
  sender = true;
  client = listening;
  reads = (0 ∷ 0 ∷ 0 ∷ 1 ∷ 3 ∷ b'!' ∷ []) ∷ [];
  events = hands (3, b'!' ∷ []) ∷ connects ∷ [];
}

gets_there : Reach (new_connector listening) online
unfolding dialed go_receiver go_sender call_back Dial.connected received handed on_data cut append
    next drain
gets_there =
    further
      (further
        (further (further (further here (dials none refl)) (starts_receiver refl))
          (receives (0 ∷ 0 ∷ 0 ∷ 1 ∷ 3 ∷ b'!' ∷ []) refl refl))
        (starts_sender refl))
      (calls_back refl)

client_hands_example :
    (receive connected online.reads ≡ record { frames = (3, b'!' ∷ []) ∷ []; stop = waiting [] })
    × (begun online.events ≤ 1)
    × (ended online.events ≤ 1)
client_hands_example = client_hands listening refl gets_there
