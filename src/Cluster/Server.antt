-- ===== src/Cluster/Server.antt =====
-- cluster_server.go, with the callbacks of engine/net/server/server.go: a connection is accepted, a
-- system registers over it, and the connection ends. A session is told by its address.
pub mod World
pub mod Keeps
pub mod Count
pub mod Tally
pub mod Held
mod Tests
use dvactor.Base.{
  ℕ, Bool, true, false, Option, none, some, List, [], ◌∷◌, if◌then◌else◌, ◌==◌, Outcome, returns,
  panics,
}
use dvactor.Base.Maps.{lookup, insert, delete, nat_eq}
use dvactor.Packet.{Bytes}
use dvactor.Vactor.{Vactor, Envelope, Protobuf}
use dvactor.System.{System}
use dvactor.Wire.{register_system_req, register_system_rsp, to_bits}
use dvactor.Wire.Link.{
  SystemInfo, Infos, Codec, Sent, Handled, ignored, failed, routed, on_message as net_message,
}
use dvactor.Cluster.{Registration, add_one, sub_one}

-- What the server shares with `clusterNet`: the table of systems and `connectedSystemCount`; and the
-- bind objects of the sessions, `*systemInfo` told by the id of its system.
pub record Server : Type 0 where
  pub infos : Infos
  pub bound : List (ℕ × ℕ)
  pub connected : ℕ

-- What a message comes to: whether `OnMessage` returns an error, the state after it, what
-- `SendMessage` is called with, and what is routed locally.
pub record Done (P : Type 0) : Type 0 where
  pub failed : Bool
  pub server : Server
  pub sends : List Sent
  pub routes : Option (Envelope P)

abbrev pub bind : ℕ → ℕ → SystemInfo → Server → Server
bind session id info st = record {
  infos = insert id (record info { session = some session }) st.infos;
  bound = insert session id st.bound;
  connected = add_one st.connected;
}

module _ {P : Type 0} where
  abbrev pub refuse : Server → Done P
  refuse st = record { failed = true; server = st; sends = []; routes = none }

  -- The reply. The state has changed before it is marshalled.
  abbrev pub reply : ℕ → Option Bytes → Server → Done P
  reply session none st = refuse st
  reply session (some bytes) st = record {
    failed = false;
    server = st;
    sends = record { link = session; msg_id = register_system_rsp; body = bytes } ∷ [];
    routes = none;
  }

  -- The info of a system that has no session yet takes this one.
  unfoldable pub claim : Option Bytes → ℕ → ℕ → SystemInfo → Option ℕ → Server → Done P
  claim rsp session id info none st = reply session rsp (bind session id info st)
  claim rsp session id info (some other) st = refuse st

  -- A request that was unpacked; `rsp` is the marshalled reply.
  unfoldable pub register : Option Bytes → ℕ → ℕ → Server → Done P
  unfolding claim
  register rsp session id st = elim (lookup id st.infos) [
    | none ↦ refuse st
    | some info ↦ if info.passive then refuse st else claim rsp session id info info.session st
  ]

-- `info.session != s`, on an interface that may be nil.
abbrev pub is_session : Option ℕ → ℕ → Bool
is_session none session = false
is_session (some other) session = other == session

abbrev pub unbind : ℕ → ℕ → SystemInfo → Server → Server
unbind session id info st = record {
  infos = insert id (record info { session = none }) st.infos;
  bound = delete session st.bound;
  connected = sub_one st.connected;
}

-- `OnDisconnect`; the bind object is a pointer into the table.
unfoldable pub on_disconnect : ℕ → Server → Server
on_disconnect session st = elim (lookup session st.bound) [
  | none ↦ st
  | some id ↦ elim (lookup id st.infos) [
    | none ↦ st
    | some info ↦ if is_session info.session session then unbind session id info st else st
  ]
]

module _ (v : Vactor) (pb : Protobuf) (c : Codec) (g : Registration) (s : System v pb) where
  open pb use {P}

  pass : Server → Option (Envelope P) → Done P
  pass st e = record { failed = false; server = st; sends = []; routes = e }

  -- Messages of any other type go to `clusterNet.OnMessage`.
  unfoldable pub forwarded : Server → Outcome (Handled v pb c s) → Outcome (Done P)
  unfolding pass
  forwarded st panics = panics
  forwarded st (returns failed) = returns (refuse st)
  forwarded st (returns ignored) = returns (pass st none)
  forwarded st (returns (routed e)) = returns (pass st (some e))

  unfoldable pub request : ℕ → Option ℕ → Server → Done P
  unfolding register
  request session none st = refuse st
  request session (some id) st = register (g.marshal_rsp 0) session (to_bits v.system_id_bits id) st

  unfoldable pub on_message : ℕ → ℕ → Bytes → Server → Outcome (Done P)
  unfolding forwarded request
  on_message session msg_id bytes st =
      if msg_id == register_system_req
      then returns (request session (g.unmarshal_req bytes) st)
      else forwarded st (net_message v pb c s msg_id bytes)
