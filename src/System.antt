-- ===== src/System.antt =====
-- system.go: the registry of message types, and the wrapping of messages for the wire.
pub mod Registry
mod Tests
use dvactor.Base.{
  ℕ, ◌+◌, Bool, Option, none, some, List, [], ◌∷◌, ◌++◌, length, drop, ltb, if◌then◌else◌, Outcome,
  returns, panics,
}
use dvactor.Base.Maps.{lookup, insert, nat_eq}
use dvactor.Packet.{Bytes, put_uint32}
use dvactor.Vactor.{Vactor, Value, nil, proto, Protobuf}
use dvactor.Errors.{
  Result, ok, fails, message_cannot_serialize, message_not_register, message_serialize_fail,
}

-- `protocol.Message`
pub record Message : Type 0 where
  pub msg_type : ℕ
  pub body : Bytes

module _ (v : Vactor) where
  abbrev pub actor_type_start : ℕ
  actor_type_start = v.actor_type_start + 10

  -- The types of the two proxies, which `NewSystem` registers past the check below.
  abbrev pub request_proxy_actor_type : ℕ
  request_proxy_actor_type = v.actor_type_start + 1

  abbrev pub watch_proxy_actor_type : ℕ
  watch_proxy_actor_type = v.actor_type_start + 2

module _ (v : Vactor) (pb : Protobuf) where
  open pb use {P, type_of, marshal, unmarshal}

  -- The two maps of the registry and the actor types registered. A creator is the fresh message
  -- that it returns.
  pub record System : Type 0 where
    pub msg_type_ids : List (ℕ × ℕ)
    pub msg_creators : List (ℕ × P)
    pub actor_types : List ℕ

  pub new_system : System
  new_system = record {
    msg_type_ids = [];
    msg_creators = [];
    actor_types = watch_proxy_actor_type v ∷ request_proxy_actor_type v ∷ [];
  }

  pub register_actor_type : System → ℕ → Outcome System
  register_actor_type s actor_type =
      if ltb actor_type (actor_type_start v)
      then panics
      else returns (record s { actor_types = s.actor_types ++ (actor_type ∷ []) })

  -- A second registration only logs a warning, and overwrites.
  pub register_message_type : System → ℕ → P → System
  register_message_type s msg_type msg = record s {
    msg_type_ids = insert (type_of msg) msg_type s.msg_type_ids;
    msg_creators = insert msg_type msg s.msg_creators;
  }

  serialize : ℕ → Option Bytes → Result Message
  serialize msg_type none = fails (message_serialize_fail v)
  serialize msg_type (some bytes) =
      ok (record { msg_type = msg_type; body = put_uint32 msg_type ++ bytes })

  marshal_proto : P → Option ℕ → Result Message
  unfolding serialize
  marshal_proto msg none = fails (message_not_register v)
  marshal_proto msg (some msg_type) = serialize msg_type (marshal msg)

  pub marshal_message : System → Value P → Result Message
  unfolding marshal_proto
  marshal_message s (proto msg) = marshal_proto msg (lookup (type_of msg) s.msg_type_ids)
  marshal_message s other = fails (message_cannot_serialize v)

  fill : Bytes → Option P → Option (Value P)
  fill body none = none
  fill body (some msg) = elim (unmarshal (drop 4 body) msg) [
    | none ↦ none
    | some m ↦ some (proto m)
  ]

  -- The argument is a pointer: reading a field of nil panics. `none` is an error.
  pub unmarshal_message : System → Option Message → Outcome (Option (Value P))
  unfolding fill
  unmarshal_message s none = panics
  unmarshal_message s (some m) =
      if ltb (length m.body) 4
      then returns none
      else returns (fill m.body (lookup m.msg_type s.msg_creators))
