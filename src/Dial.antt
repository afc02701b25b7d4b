-- ===== src/Dial.antt =====
-- engine/net/client/client.go and engine/net/connect/socket/connector.go: `Connect`, the goroutines
-- that it starts, and what they call on the client.
pub mod Events
pub mod Hands
mod Tests
use mathlib.Core.List.{map}
use dvactor.Base.{
  ℕ, ◌≡◌, Bool, true, false, ◌||◌, Option, none, some, List, [], ◌∷◌, ◌++◌, if◌then◌else◌, Outcome,
  returns, panics,
}
use dvactor.Packet.{Bytes, Frame, Drained, Stop, waiting, crashed, out_of_fuel, on_data}

-- `netClient`: which of its three functions are set, and its splitter.
pub record NetClient : Type 0 where
  pub on_connect : Bool
  pub on_disconnect : Bool
  pub on_message : Bool
  pub splitter : Bytes

unfoldable pub new_net_client : NetClient
new_net_client = record {
  on_connect = false;
  on_disconnect = false;
  on_message = false;
  splitter = [];
}

unfoldable pub set_on_connect : NetClient → NetClient
set_on_connect cl = record cl { on_connect = true }

unfoldable pub set_on_disconnect : NetClient → NetClient
set_on_disconnect cl = record cl { on_disconnect = true }

unfoldable pub set_on_message : NetClient → NetClient
set_on_message cl = record cl { on_message = true }

-- The client calls the functions that are set.
pub data Event : Type 0 where
  connects : Event
  disconnects : Event
  hands : Frame → Event

-- The three functions that `Connect` gives to the connector. The error of `onMessage` is dropped; a
-- call of it panics if it is not set.
unfoldable pub connected : NetClient → List Event
connected cl = if cl.on_connect then connects ∷ [] else []

unfoldable pub disconnected : NetClient → List Event
disconnected cl = if cl.on_disconnect then disconnects ∷ [] else []

abbrev pub is_nil : List Frame → Bool
is_nil [] = true
is_nil (f ∷ fs) = false

unfoldable pub handed : NetClient → List Frame → Stop → Outcome (List Event × NetClient)
handed cl fs (waiting rest) =
    if cl.on_message || is_nil fs
    then returns (map hands fs, record cl { splitter = rest })
    else panics
handed cl fs crashed = panics
handed cl fs out_of_fuel = panics

unfoldable pub received : NetClient → Bytes → Outcome (List Event × NetClient)
received cl bytes = let d = on_data cl.splitter bytes in handed cl d.frames d.stop

-- Where `Connect` of the connector stands.
pub data Place : Type 0 where
  dialing : Place  -- before `net.Dial`
  receiving : Place  -- before `go this.receiverRun()`
  sending : Place  -- before `go this.senderRun()`
  calling : Place  -- before `onConnectFunc`
  returned : Option ℕ → Place

-- `ConnectorSocket`, its two goroutines, if they run, and the client. The last two fields are for
-- the record: what was read, and what the client called.
pub record Connector : Type 0 where
  pub place : Place
  pub receiver : Bool
  pub sender : Bool
  pub client : NetClient
  pub reads : List Bytes
  pub events : List Event

-- `NewConnector`, and the call of `Connect` of a client.
abbrev pub new_connector : NetClient → Connector
new_connector cl = record {
  place = dialing;
  receiver = false;
  sender = false;
  client = cl;
  reads = [];
  events = [];
}

-- `net.Dial`: an error, or none.
unfoldable pub dialed : Connector → Option ℕ → Connector
dialed c (some err) = record c { place = returned (some err) }
dialed c none = record c { place = receiving }

unfoldable pub go_receiver : Connector → Connector
go_receiver c = record c { place = sending; receiver = true }

unfoldable pub go_sender : Connector → Connector
go_sender c = record c { place = calling; sender = true }

unfoldable pub call_back : Connector → Connector
unfolding connected
call_back c = record c { place = returned none; events = c.events ++ connected c.client }

-- Any goroutine may take any step at any time; the receiver may already read before `onConnectFunc`
-- is called. At its end it may call `onDisconnectFunc`, or not: `Conn` says when.
pub data Step (c : Connector) : Connector → Type 0 where
  dials : (err : Option ℕ) → c.place ≡ dialing → Step c (dialed c err)
  starts_receiver : c.place ≡ receiving → Step c (go_receiver c)
  starts_sender : c.place ≡ sending → Step c (go_sender c)
  calls_back : c.place ≡ calling → Step c (call_back c)
  receives :
      (bytes : Bytes) {r : List Event × NetClient}
      → c.receiver ≡ true
      → received c.client bytes ≡ returns r
      → Step c
          (record c { client = r.1; reads = c.reads ++ (bytes ∷ []); events = c.events ++ r.0 })
  ends_told :
      c.receiver ≡ true
      → Step c (record c { receiver = false; events = c.events ++ disconnected c.client })
  ends_silently : c.receiver ≡ true → Step c (record c { receiver = false })
  sender_ends : c.sender ≡ true → Step c (record c { sender = false })

pub data Reach (c : Connector) : Connector → Type 0 where
  here : Reach c c
  further : {d e : Connector} → Reach c d → Step d e → Reach c e
