-- ===== src/Accept.antt =====
-- engine/net/connect/socket/acceptor.go in front of engine/net/server/server.go: the goroutine that
-- accepts connections, the goroutines that it starts for each of them, and what they call on the
-- server. A connection is told by its address.
pub mod Phases
pub mod Order
pub mod Steps
pub mod Serving
mod Tests
use dvactor.Base.{
  ℕ, ◌+◌, ◌≡◌, Bool, true, false, Option, none, some, List, [], ◌∷◌, ◌++◌, if◌then◌else◌, ◌==◌,
  returns,
}
use dvactor.Packet.{Bytes}
use dvactor.Net.{NetServer, new_net_server, Call, accepts, reads, loses, Event, call}

-- Where `Start` stands.
pub data Place : Type 0 where
  opening : Place  -- before `Listen`
  accepting : Place  -- before `Accept`
  calling : ℕ → Place  -- before `onAcceptFunc`
  receiving : ℕ → Place  -- before `go c.receiverRun()`
  sending : ℕ → Place  -- before `go c.senderRun()`
  returned : ℕ → Place  -- with an error

-- `AcceptorSocket`, whose listener is nil, open or closed, and the server behind it; the goroutines
-- that were started and have not returned. The last three fields are for the record: the connections
-- made, and what the server was called with and what it called.
pub record Acceptor : Type 0 where
  pub place : Place
  pub listener : Option Bool
  pub receivers : List ℕ
  pub senders : List ℕ
  pub server : NetServer
  pub made : List ℕ
  pub calls : List Call
  pub events : List Event

-- `NewAcceptor`, and the call of `Start`.
abbrev pub new_acceptor : Acceptor
new_acceptor = record {
  place = opening;
  listener = none;
  receivers = [];
  senders = [];
  server = new_net_server;
  made = [];
  calls = [];
  events = [];
}

-- `net.Listen`: an error, or none.
unfoldable pub listened : Acceptor → Option ℕ → Acceptor
listened a (some err) = record a { place = returned err }
listened a none = record a { place = accepting; listener = some true }

-- `Accept`: a new connection, which `newConn` wraps.
unfoldable pub got_conn : Acceptor → ℕ → Acceptor
got_conn a k = record a { place = calling k; made = k ∷ a.made }

-- What the server makes of a call by one of the goroutines.
abbrev pub served : Acceptor → Call → List Event × NetServer → Acceptor
served a c (es, server) = record a {
  server = server;
  calls = a.calls ++ (c ∷ []);
  events = a.events ++ es;
}

-- `onAcceptFunc`, and the two `go` statements after it.
unfoldable pub accepted : Acceptor → ℕ → List Event × NetServer → Acceptor
accepted a k r = record (served a (accepts k) r) { place = receiving k }

unfoldable pub go_receiver : Acceptor → ℕ → Acceptor
go_receiver a k = record a { place = sending k; receivers = k ∷ a.receivers }

unfoldable pub go_sender : Acceptor → ℕ → Acceptor
go_sender a k = record a { place = accepting; senders = k ∷ a.senders }

-- `Stop`
abbrev closed : Option Bool → Option Bool
closed none = none
closed (some up) = some false

unfoldable pub stop : Acceptor → Acceptor
stop a = record a { listener = closed a.listener }

-- How often a connection is in a list.
abbrev pub times : ℕ → List ℕ → ℕ
times k [] = 0
times k (j ∷ js) = (if j == k then 1 else 0) + times k js

-- Any goroutine may take any step at any time. A receiver reads and hands over, and at its end may
-- call `onDisconnectFunc`, or not: `Conn` says when. A closed listener gives errors only.
pub data Step (a : Acceptor) : Acceptor → Type 0 where
  listens : (err : Option ℕ) → a.place ≡ opening → Step a (listened a err)
  takes :
      (k : ℕ)
      → a.place ≡ accepting
      → a.listener ≡ some true
      → times k a.made ≡ 0
      → Step a (got_conn a k)
  fails : (err : ℕ) → a.place ≡ accepting → Step a (record a { place = returned err })
  calls_back :
      (k : ℕ) {r : List Event × NetServer}
      → a.place ≡ calling k
      → call (accepts k) a.server ≡ returns r
      → Step a (accepted a k r)
  starts_receiver : (k : ℕ) → a.place ≡ receiving k → Step a (go_receiver a k)
  starts_sender : (k : ℕ) → a.place ≡ sending k → Step a (go_sender a k)
  receives :
      (before after : List ℕ) (k : ℕ) (bytes : Bytes) {r : List Event × NetServer}
      → a.receivers ≡ before ++ (k ∷ after)
      → call (reads k bytes) a.server ≡ returns r
      → Step a (served a (reads k bytes) r)
  ends_told :
      (before after : List ℕ) (k : ℕ) {r : List Event × NetServer}
      → a.receivers ≡ before ++ (k ∷ after)
      → call (loses k) a.server ≡ returns r
      → Step a (record (served a (loses k) r) { receivers = before ++ after })
  ends_silently :
      (before after : List ℕ) (k : ℕ)
      → a.receivers ≡ before ++ (k ∷ after)
      → Step a (record a { receivers = before ++ after })
  sender_ends :
      (before after : List ℕ) (k : ℕ)
      → a.senders ≡ before ++ (k ∷ after)
      → Step a (record a { senders = before ++ after })
  stops : Step a (stop a)

pub data Reach (a : Acceptor) : Acceptor → Type 0 where
  here : Reach a a
  further : {b c : Acceptor} → Reach a b → Step b c → Reach a c
