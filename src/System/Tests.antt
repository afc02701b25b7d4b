-- ===== src/System/Tests.antt =====
-- The registry at concrete inputs. A message is a type number and a payload; it is marshalled as
-- its payload, and unmarshalling keeps the type of the fresh message.
use dvactor.Base.{ℕ, ◌≡◌, refl, some, List, [], ◌∷◌, returns}
use dvactor.Base.Maps.{lookup, nat_eq}
use dvactor.Fixtures.{types}
use dvactor.Vactor.{proto, Protobuf}
use dvactor.Errors.{ok}
use dvactor.System.{System, register_message_type, marshal_message, unmarshal_message}
use dvactor.System.Registry.{
  IsConsistent, register-IsConsistent, unmarshal_message-marshal_message, no_types-IsConsistent,
}

fill_example :
    (m fresh : ℕ × List ℕ) (bytes : List ℕ)
    → fresh.0 ≡ m.0
    → some m.1 ≡ some bytes
    → some (fresh.0, bytes) ≡ some m
fill_example m fresh bytes e h = cc

abbrev tagged : Protobuf
tagged = record {
  P = ℕ × List ℕ;
  type_of = λ m. m.0;
  marshal = λ m. some m.1;
  unmarshal = λ bytes fresh. some (fresh.0, bytes);
  unmarshal-marshal = fill_example;
}

abbrev blank : System types tagged
blank = record { msg_type_ids = []; msg_creators = []; actor_types = [] }

blank-IsConsistent : IsConsistent types tagged blank blank
blank-IsConsistent = no_types-IsConsistent types tagged blank blank refl

no_types_registered : (t : ℕ) → lookup t blank.msg_type_ids ≡ some 5 → t ≡ 3
no_types_registered t h = cc

abbrev one_type : System types tagged
one_type = record { msg_type_ids = (3, 5) ∷ []; msg_creators = (5, (3, [])) ∷ []; actor_types = [] }

register_one : register_message_type types tagged blank 5 (3, []) ≡ one_type
unfolding register_message_type
register_one = refl

register-IsConsistent_example :
    IsConsistent types tagged
      (register_message_type types tagged blank 5 (3, []))
      (register_message_type types tagged blank 5 (3, []))
register-IsConsistent_example =
    register-IsConsistent types tagged blank 5 (3, []) blank-IsConsistent no_types_registered

one_type-IsConsistent : IsConsistent types tagged one_type one_type
one_type-IsConsistent = rw register_one at register-IsConsistent_example

wrapped :
    marshal_message types tagged one_type (proto (3, 7 ∷ []))
    ≡ ok (record { msg_type = 5; body = 0 ∷ 0 ∷ 0 ∷ 5 ∷ 7 ∷ [] })
unfolding marshal_message
wrapped = refl

unmarshal_message-marshal_message_example :
    unmarshal_message types tagged one_type
      (some (record { msg_type = 5; body = 0 ∷ 0 ∷ 0 ∷ 5 ∷ 7 ∷ [] }))
    ≡ returns (some (proto (3, 7 ∷ [])))
unmarshal_message-marshal_message_example =
    unmarshal_message-marshal_message types tagged one_type one_type (proto (3, 7 ∷ []))
      one_type-IsConsistent wrapped
