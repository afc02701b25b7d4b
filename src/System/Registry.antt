-- ===== src/System/Registry.antt =====
-- The registry and the wrapping: what one node wraps, a node with the same types unwraps.
use dvactor.Base.{
  ℕ, ◌≡◌, inl, inr, refl, false, Option, none, some, List, [], ◌++◌, length, arith, ◌==◌,
  if◌then◌else◌, Bool-cases, le→ltb, subst, returns,
}
use dvactor.Base.Maps.{lookup, lookup-insert, nat_eq}
use dvactor.Packet.{put_uint32}
use dvactor.Vactor.{Vactor, Value, nil, proto, Protobuf}
use dvactor.Errors.{ok, fails, ok-injective, message_cannot_serialize}
use dvactor.System.{
  Message, System, register_message_type, serialize, marshal_proto, marshal_message, fill,
  unmarshal_message,
}

module _ (v : Vactor) (pb : Protobuf) where
  open pb use {P, type_of, marshal, unmarshal, unmarshal-marshal}

  -- Each registered type leads to an id whose creator makes messages of that type.
  pub IsConsistent : System v pb → System v pb → Type 0
  IsConsistent s r =
      (t id : ℕ)
      → lookup t s.msg_type_ids ≡ some id
      → (fresh : P) × (lookup id r.msg_creators ≡ some fresh) × (type_of fresh ≡ t)

  -- Registering a type keeps the registry consistent, if no other type has its id.
  pub register-IsConsistent :
      (s : System v pb) (msg_type : ℕ) (msg : P)
      → IsConsistent s s
      → ((t : ℕ) → lookup t s.msg_type_ids ≡ some msg_type → t ≡ type_of msg)
      → IsConsistent
          (register_message_type v pb s msg_type msg)
          (register_message_type v pb s msg_type msg)
  unfolding register_message_type IsConsistent
  register-IsConsistent s msg_type msg c only t id h =
      rw (lookup-insert msg_type id msg s.msg_creators) (elim (Bool-cases (type_of msg == t)) [
        | inl e ↦ (msg, ground (arith, found), ground arith)
        | inr e ↦ older e (rw e at found)
      ])
    where
      found : (if type_of msg == t then some msg_type else lookup t s.msg_type_ids) ≡ some id
      found = rw (lookup-insert (type_of msg) t msg_type s.msg_type_ids) at h

      older :
          (type_of msg == t) ≡ false
          → lookup t s.msg_type_ids ≡ some id
          → (fresh : P) × ((if msg_type == id then some msg else lookup id s.msg_creators)
              ≡ some fresh)
            × (type_of fresh ≡ t)
      older e k = let (fresh, a, b) = c t id k in (fresh, ground (arith, only t), b)

  -- What a message was wrapped from.
  abbrev Wrapped : System v pb → P → Message → Type 0
  Wrapped s p m =
      (id : ℕ) × (bytes : List ℕ) × (lookup (type_of p) s.msg_type_ids ≡ some id)
      × (marshal p ≡ some bytes)
      × (record { msg_type = id; body = put_uint32 id ++ bytes } ≡ m)

  marshal_parts :
      (s : System v pb) (p : P) {m : Message}
      → marshal_message v pb s (proto p) ≡ ok m
      → Wrapped s p m
  unfolding marshal_message
  marshal_parts s p {m} h = registered (lookup (type_of p) s.msg_type_ids) refl h
    where
      serialized :
          (id : ℕ) (o : Option (List ℕ))
          → lookup (type_of p) s.msg_type_ids ≡ some id
          → marshal p ≡ o
          → serialize v pb id o ≡ ok m
          → Wrapped s p m
      serialized id none e f k = cc
      serialized id (some bytes) e f k = (id, bytes, e, f, ok-injective k)

      registered :
          (o : Option ℕ)
          → lookup (type_of p) s.msg_type_ids ≡ o
          → marshal_proto v pb p o ≡ ok m
          → Wrapped s p m
      registered none e k = cc
      registered (some id) e k = serialized id (marshal p) e refl k

  -- What `MarshalMessage` wraps on a node, `UnmarshalMessage` gives back unchanged on every node
  -- whose registry agrees with the first one's.
  pub unmarshal_message-marshal_message :
      (s r : System v pb) (x : Value P) {m : Message}
      → IsConsistent s r
      → marshal_message v pb s x ≡ ok m
      → unmarshal_message v pb r (some m) ≡ returns (some x)
  unfolding marshal_message unmarshal_message IsConsistent
  unmarshal_message-marshal_message s r (proto p) {m} c h =
      let (id, bytes, reg, mar, is) = marshal_parts s p h in
      let (fresh, made, typed) = c (type_of p) id reg in
      subst (λ k. unmarshal_message v pb r (some k) ≡ returns (some (proto p))) is
        (rw (
          made,
          unmarshal-marshal p fresh bytes typed mar,
          fill,
          le→ltb (length (put_uint32 id ++ bytes)) 4 (omega arith),
        ))
  unmarshal_message-marshal_message s r nil c h = cc
  unmarshal_message-marshal_message s r (Value.plain n) c h = cc
  unmarshal_message-marshal_message s r (Value.on_start) c h = cc
  unmarshal_message-marshal_message s r (Value.inner_watch w b) c h = cc
  unmarshal_message-marshal_message s r (Value.outer_watch w b q) c h = cc
  unmarshal_message-marshal_message s r (Value.outer_request a m q) c h = cc
  unmarshal_message-marshal_message s r (Value.on_watch_msg a w m) c h = cc
  unmarshal_message-marshal_message s r (Value.on_event_msg i m) c h = cc

  -- A node with no types agrees with every node.
  pub no_types-IsConsistent : (s r : System v pb) → s.msg_type_ids ≡ [] → IsConsistent s r
  unfolding IsConsistent
  no_types-IsConsistent s r e t id h = cc (rw e at h)

  pub marshal_message-nil :
      (s : System v pb) → marshal_message v pb s nil ≡ fails (message_cannot_serialize v)
  unfolding marshal_message
  marshal_message-nil s = refl
