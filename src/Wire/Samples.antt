-- ===== src/Wire/Samples.antt =====
-- An envelope, a codec of packages and a table of systems for the tests. A message is a number and
-- has no registered type; the packages of watches are encoded as their fields, and no other is.
use dvactor.Base.{
  ℕ, ◌≡◌, refl, sym, subst, Bool, true, false, Option, none, some, [], ◌∷◌, length, ◌++◌, take,
  drop, ◌==◌, if◌then◌else◌, ◌∙◌, some-injective, take_append, drop_append,
}
use dvactor.Packet.{Bytes}
use dvactor.Vactor.{Ref, Envelope, watch}
use dvactor.Errors.{ok, ok-injective}
use dvactor.System.Registry.{IsConsistent, no_types-IsConsistent}
use dvactor.Fixtures.{types, numbers, blank}
use dvactor.Wire.{Pkg, ProtoRef, pkg_type, pkg_watch, actor_ref_to_proto}
use dvactor.Wire.Encode.{to_pkg}
use dvactor.Wire.Link.{IsFull, Codec, Infos, Sent}
use dvactor.Base.Maps.{nat_eq}

pub blank-IsConsistent : IsConsistent types numbers blank blank
blank-IsConsistent = no_types-IsConsistent types numbers blank blank refl

abbrev pub actor : ℕ → Ref
actor n = some (record { system_id = n; group_slot = 1; actor_type = 22; actor_id = [] })

abbrev pub proto_actor : ℕ → Option ProtoRef
proto_actor n = some (record { system_id = n; group_slot = 1; actor_type = 22; actor_id = [] })

abbrev pub watching : Envelope ℕ
watching = watch (actor 1) (actor 2) 7 true

abbrev pub watching_pkg : Pkg
watching_pkg = pkg_watch (proto_actor 1) (proto_actor 2) 7 true

pub packed : to_pkg types numbers blank watching ≡ ok watching_pkg
unfolding to_pkg actor_ref_to_proto
packed = refl

abbrev pub bit : Bool → ℕ
bit true = 1
bit false = 0

unfoldable pub encode : Pkg → Option Bytes
encode (pkg_watch (some f) (some t) w b) = some (
    f.system_id
    ∷ f.group_slot
    ∷ f.actor_type
    ∷ t.system_id
    ∷ t.group_slot
    ∷ t.actor_type
    ∷ w
    ∷ bit b
    ∷ length f.actor_id
    ∷ (f.actor_id ++ t.actor_id))
encode _ = none

unfoldable pub decode_watch : Bytes → Option Pkg
decode_watch (fs ∷ fg ∷ fa ∷ ts ∷ tg ∷ ta ∷ w ∷ b ∷ n ∷ ids) = some (
    pkg_watch
      (some (record { system_id = fs; group_slot = fg; actor_type = fa; actor_id = take n ids }))
      (some (record { system_id = ts; group_slot = tg; actor_type = ta; actor_id = drop n ids })) w
      (b == 1))
decode_watch _ = none

unfoldable pub decode : ℕ → Bytes → Option Pkg
unfolding decode_watch
decode id bytes = if id == 7 then decode_watch bytes else none

pub bit-is_one : (b : Bool) → (bit b == 1) ≡ b
bit-is_one true = refl
bit-is_one false = refl

pub decode-encode :
    (p : Pkg) (bytes : Bytes)
    → IsFull p
    → encode p ≡ some bytes
    → decode (pkg_type p) bytes ≡ some p
unfolding decode encode
decode-encode (pkg_watch (some f) (some t) w b) bytes full h =
    subst (λ y. decode 7 y ≡ some (pkg_watch (some f) (some t) w b)) (some-injective h)
      (rw (take_append f.actor_id t.actor_id, drop_append f.actor_id t.actor_id, bit-is_one b))
decode-encode _ bytes full h = cc

abbrev pub codec : Codec
codec = record {
  marshal_pkg = encode;
  unmarshal_pkg = decode;
  unmarshal_pkg-marshal_pkg = decode-encode;
}

abbrev pub linked : Infos
linked = (2, record { passive = false; session = some 40; cli = none }) ∷ []

abbrev pub watching_sent : Sent
watching_sent = record { link = 40; msg_id = 7; body = 1 ∷ 1 ∷ 22 ∷ 2 ∷ 1 ∷ 22 ∷ 7 ∷ 1 ∷ 0 ∷ [] }

pub watching-IsFull : (p : Pkg) → to_pkg types numbers blank watching ≡ ok p → IsFull p
watching-IsFull p h = subst IsFull (ok-injective (sym packed ∙ h)) tt
