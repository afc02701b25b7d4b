-- ===== src/Vactor.antt =====
-- The types of the actor library github.com/kofplayer/vactor, which dvactor is built on: the
-- fields that dvactor reads and writes, and nothing of how the library works.
use dvactor.Base.{ℕ, ◌≡◌, ◌↔◌, Bool, true, ◌&&◌, ◌==◌, Option, some, List, arith}
use dvactor.Base.Maps.{Eq, bytes_beq, bytes_beq_iff}

-- Constants and the widths of the library's id types, unsigned and of 32 bits at most, so that a
-- conversion to the `uint32` of a packet and back loses nothing.
pub record Vactor : Type 0 where
  pub error_code_custom_start : ℕ
  pub actor_type_start : ℕ
  pub system_id_bits : ℕ
  pub group_slot_bits : ℕ
  pub actor_type_bits : ℕ
  pub watch_type_bits : ℕ
  pub notify_type_bits : ℕ
  pub callback_id_bits : ℕ
  pub error_code_bits : ℕ

-- `ActorRefImpl`; an actor id is a Go string, its bytes.
pub record ActorRef : Type 0 where
  pub system_id : ℕ
  pub group_slot : ℕ
  pub actor_type : ℕ
  pub actor_id : List ℕ

-- An interface or a pointer that may be nil.
abbrev pub Ref : Type 0
Ref = Option ActorRef

-- A Go value in an `interface{}`. `P` is the type of the protobuf messages; a queue and a response
-- channel are told by their addresses.
pub data Value (P : Type 0) : Type 0 where
  nil : Value P
  proto : P → Value P
  plain : ℕ → Value P
  on_start : Value P
  inner_watch : ℕ → Bool → Value P
  outer_watch : ℕ → Bool → ℕ → Value P
  outer_request : Ref → Value P → ℕ → Value P
  on_watch_msg : Ref → ℕ → Value P → Value P
  on_event_msg : ℕ → Value P → Value P

-- A response: the error code, if there is an error, and the message.
pub record Response (P : Type 0) : Type 0 where
  pub error : Option ℕ
  pub message : Value P

pub data Envelope (P : Type 0) : Type 0 where
  send : Ref → Ref → Value P → Envelope P
  batch_send : Ref → List Ref → List (Value P) → Envelope P
  request_async : Ref → Ref → Value P → ℕ → ℕ → Envelope P
  response_async : Ref → Ref → Response P → ℕ → ℕ → Envelope P
  request : Ref → Ref → Value P → ℕ → Envelope P
  response : Ref → Ref → Response P → ℕ → Envelope P
  watch : Ref → Ref → ℕ → Bool → Envelope P
  notify : Ref → List Ref → ℕ → Ref → ℕ → Value P → Envelope P
  fire_notify : Ref → Ref → ℕ → ℕ → Value P → Envelope P
  outer_watch : Ref → ℕ → Bool → ℕ → Envelope P
  outer_request : Ref → Value P → ℕ → Envelope P
  internal : Ref → ℕ → Envelope P

-- The protobuf library: `proto.Marshal`, `proto.Unmarshal` into a fresh message, and
-- `reflect.TypeOf`, its types numbered.
pub record Protobuf : Type 1 where
  pub P : Type 0
  pub type_of : P → ℕ
  pub marshal : P → Option (List ℕ)
  pub unmarshal : List ℕ → P → Option P
  pub unmarshal-marshal :
      (m fresh : P) (bytes : List ℕ)
      → type_of fresh ≡ type_of m
      → marshal m ≡ some bytes
      → unmarshal bytes fresh ≡ some m

abbrev pub ref_beq : ActorRef → ActorRef → Bool
ref_beq a b =
    a.system_id == b.system_id
    && (a.group_slot == b.group_slot
        && (a.actor_type == b.actor_type && bytes_beq a.actor_id b.actor_id))

pub ref_beq_iff : (a b : ActorRef) → (ref_beq a b ≡ true) ↔ (a ≡ b)
ref_beq_iff a b = ground (arith, bytes_beq_iff a.actor_id b.actor_id)

-- References are compared by value: Go compares the structs field by field.
instance abbrev pub ref_eq : Eq ActorRef
ref_eq = record { beq = ref_beq; beq_iff = ref_beq_iff }
