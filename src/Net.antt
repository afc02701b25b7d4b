-- ===== src/Net.antt =====
-- engine/net/server/server.go and engine/net/client/client.go: the callbacks that `Start` sets on
-- the connections of a server, and `SendMessage`. A session and its connection are told by the
-- address of the connection.
pub mod Own
pub mod Apart
pub mod Found
pub mod Talk
mod Tests
use dvactor.Base.{
  ℕ, Bool, Option, none, some, List, [], ◌∷◌, ◌++◌, map, if◌then◌else◌, ◌==◌, Outcome, returns,
  panics, ◌>>=◌,
}
use dvactor.Packet.{
  Bytes, Frame, pack_message, Drained, Stop, waiting, crashed, out_of_fuel, on_data,
}
use dvactor.Queue.{Error}
use dvactor.Conn.{Conn, send_data}
use dvactor.Session.{SessionMgr, new_session_mgr, new_session, remove_session}

-- `netServer`: the manager, and what the callbacks of each connection hold: the id of its session
-- and its splitter.
pub record NetServer : Type 0 where
  pub manager : SessionMgr
  pub ids : ℕ → ℕ
  pub splitters : ℕ → Bytes

unfoldable pub new_net_server : NetServer
new_net_server = record { manager = new_session_mgr; ids = λ k. 0; splitters = λ k. [] }

-- The connections call: the acceptor has one, one has read bytes, one is lost.
pub data Call : Type 0 where
  accepts : ℕ → Call
  reads : ℕ → Bytes → Call
  loses : ℕ → Call

-- The server calls `onConnect`, `onMessage` and `onDisconnect` with a session.
pub data Event : Type 0 where
  connects : ℕ → Event
  hands : ℕ → Frame → Event
  disconnects : ℕ → Event

abbrev pub put {ℓ} : {A : Type ℓ} → ℕ → A → (ℕ → A) → ℕ → A
put k a f j = if j == k then a else f j

-- `SetOnAccept`
unfoldable pub on_accept : ℕ → NetServer → List Event × NetServer
on_accept k st =
    let (id, manager) = new_session k st.manager in
    (
      connects k ∷ [],
      record { manager = manager; ids = put k id st.ids; splitters = put k [] st.splitters },
    )

-- `SetOnData`; the error of `onMessage` is dropped.
unfoldable pub handed : ℕ → List Frame → Stop → NetServer → Outcome (List Event × NetServer)
handed k fs (waiting rest) st =
    returns (map (hands k) fs, record st { splitters = put k rest st.splitters })
handed k fs crashed st = panics
handed k fs out_of_fuel st = panics

-- `SetOnDisconnect`
unfoldable pub on_lost : ℕ → NetServer → List Event × NetServer
on_lost k st = (disconnects k ∷ [], record st { manager = remove_session (st.ids k) st.manager })

unfoldable pub call : Call → NetServer → Outcome (List Event × NetServer)
unfolding on_accept handed on_lost
call (accepts k) st = returns (on_accept k st)
call (reads k bytes) st = let d = on_data (st.splitters k) bytes in handed k d.frames d.stop st
call (loses k) st = returns (on_lost k st)

-- The calls of all connections, in any order.
unfoldable pub run : List Call → NetServer → Outcome (List Event × NetServer)
unfolding call
run [] st = returns ([], st)
run (c ∷ cs) st = call c st >>= λ r. run cs r.1 >>= λ t. returns (r.0 ++ t.0, t.1)

-- Why a message is not sent.
pub data Unsent : Type 0 where
  bad_id : Unsent
  refused : Error → Unsent

abbrev pub unsent : Option Error → Option Unsent
unsent none = none
unsent (some error) = some (refused error)

abbrev send_packed : Conn → Option Bytes → Option Unsent × Conn
send_packed c none = (some bad_id, c)
send_packed c (some pkt) = let (error, d) = send_data c pkt in (unsent error, d)

-- `SendMessage`
unfoldable pub send_message : Conn → ℕ → Bytes → Option Unsent × Conn
send_message c msg_id bytes = send_packed c (pack_message msg_id bytes)
