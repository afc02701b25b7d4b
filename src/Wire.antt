-- ===== src/Wire.antt =====
-- protocol/cluster.pb.go and the conversions of cluster_net.go: the packages that carry envelopes
-- between systems.
pub mod Encode
pub mod Decode
pub mod RoundTrip
pub mod Link
pub mod Silent
pub mod Sending
pub mod Samples
pub mod Passive
mod Tests
use dvactor.Base.{
  ℕ, ◌+◌, ◌%◌, ◌^◌, ◌<◌, ◌≡◌, Bool, true, false, Option, none, some, List, [], ◌∷◌, map, All,
}
use dvactor.Packet.{Bytes}
use dvactor.Vactor.{Vactor, ActorRef, Ref}
use dvactor.System.{Message}

-- `protocol.ActorRef`
pub record ProtoRef : Type 0 where
  pub system_id : ℕ
  pub group_slot : ℕ
  pub actor_type : ℕ
  pub actor_id : Bytes

-- `protocol.Response`
pub record ProtoResponse : Type 0 where
  pub error_code : ℕ
  pub message : Option Message

-- The packages `PkgEnvelope…`; a field that is a pointer may be nil.
pub data Pkg : Type 0 where
  pkg_send : Option ProtoRef → Option ProtoRef → Option Message → Pkg
  pkg_batch_send : Option ProtoRef → List (Option ProtoRef) → List (Option Message) → Pkg
  pkg_request_async : Option ProtoRef → Option ProtoRef → Option Message → ℕ → ℕ → Pkg
  pkg_response_async : Option ProtoRef → Option ProtoRef → Option ProtoResponse → ℕ → ℕ → Pkg
  pkg_request : Option ProtoRef → Option ProtoRef → Option Message → ℕ → Pkg
  pkg_response : Option ProtoRef → Option ProtoRef → Option ProtoResponse → ℕ → Pkg
  pkg_watch : Option ProtoRef → Option ProtoRef → ℕ → Bool → Pkg
  pkg_notify :
      Option ProtoRef → List (Option ProtoRef) → ℕ → Option ProtoRef → ℕ → Option Message → Pkg
  pkg_fire_notify : Option ProtoRef → Option ProtoRef → ℕ → ℕ → Option Message → Pkg

-- The values of `PkgType`.
abbrev pub pkg_type : Pkg → ℕ
pkg_type (pkg_send f t m) = 1
pkg_type (pkg_batch_send f ts ms) = 2
pkg_type (pkg_request_async f t m c a) = 3
pkg_type (pkg_response_async f t r c a) = 4
pkg_type (pkg_request f t m c) = 5
pkg_type (pkg_response f t r c) = 6
pkg_type (pkg_watch f t w b) = 7
pkg_type (pkg_notify f ts n r w m) = 8
pkg_type (pkg_fire_notify f t n w m) = 9

abbrev pub register_system_req : ℕ
register_system_req = 10

abbrev pub register_system_rsp : ℕ
register_system_rsp = 11

-- A conversion to an unsigned type of `bits` bits.
abbrev pub to_bits : ℕ → ℕ → ℕ
to_bits bits x = x % 2 ^ bits

abbrev pub to_u32 : ℕ → ℕ
to_u32 = to_bits 32

unfoldable pub actor_ref_to_proto : Ref → Option ProtoRef
actor_ref_to_proto none = none
actor_ref_to_proto (some ref) = some (record {
  system_id = to_u32 ref.system_id;
  group_slot = to_u32 ref.group_slot;
  actor_type = to_u32 ref.actor_type;
  actor_id = ref.actor_id;
})

pub actor_ref_from_proto : Vactor → Option ProtoRef → Ref
actor_ref_from_proto v none = none
actor_ref_from_proto v (some ref) = some (record {
  system_id = to_bits v.system_id_bits ref.system_id;
  group_slot = to_bits v.group_slot_bits ref.group_slot;
  actor_type = to_bits v.actor_type_bits ref.actor_type;
  actor_id = ref.actor_id;
})

-- A value of an id type that also fits the `uint32` of a package.
abbrev pub Fits : ℕ → ℕ → Type 0
Fits bits x = (x < 2 ^ bits) × (x < 2 ^ 32)

abbrev pub RefFits : Vactor → Ref → Type 0
RefFits v none = Unit {0}
RefFits v (some ref) =
    Fits v.system_id_bits ref.system_id
    × Fits v.group_slot_bits ref.group_slot
    × Fits v.actor_type_bits ref.actor_type
