-- ===== src/Fixtures.antt =====
-- Concrete parameters for the tests: widths of ids, messages that are numbers, a codec of packages
-- that knows none, and one of registrations that writes them as one byte.
use dvactor.Base.{ℕ, ◌≡◌, ap, Option, none, some, List, [], ◌∷◌}
use dvactor.Packet.{Bytes}
use dvactor.Vactor.{Vactor, Protobuf}
use dvactor.System.{System}
use dvactor.Wire.{Pkg}
use dvactor.Wire.Link.{IsFull, Codec}
use dvactor.Cluster.{Registration}

abbrev pub types : Vactor
types = record {
  error_code_custom_start = 100;
  actor_type_start = 10;
  system_id_bits = 16;
  group_slot_bits = 16;
  actor_type_bits = 32;
  watch_type_bits = 32;
  notify_type_bits = 8;
  callback_id_bits = 32;
  error_code_bits = 32;
}

pub numbers_law :
    (m fresh : ℕ) (bytes : List ℕ) → fresh ≡ m → some (m ∷ []) ≡ some bytes → some fresh ≡ some m
numbers_law m fresh bytes e h = ap some e

abbrev pub numbers : Protobuf
numbers = record {
  P = ℕ;
  type_of = λ m. m;
  marshal = λ m. some (m ∷ []);
  unmarshal = λ bytes fresh. some fresh;
  unmarshal-marshal = numbers_law;
}

abbrev pub blank : System types numbers
blank = record { msg_type_ids = []; msg_creators = []; actor_types = [] }

pub no_pkg_law :
    (p : Pkg) (bytes : Bytes)
    → IsFull p
    → ◌≡◌ {A = Option Bytes} none (some bytes)
    → ◌≡◌ {A = Option Pkg} none (some p)
no_pkg_law p bytes full h = cc

abbrev pub no_pkgs : Codec
no_pkgs = record {
  marshal_pkg = λ p. none;
  unmarshal_pkg = λ id bytes. none;
  unmarshal_pkg-marshal_pkg = no_pkg_law;
}

abbrev read_one : Bytes → Option ℕ
read_one (n ∷ []) = some n
read_one _ = none

abbrev pub one_byte : Registration
one_byte = record {
  marshal_req = λ n. some (n ∷ []);
  unmarshal_req = read_one;
  marshal_rsp = λ n. some (n ∷ []);
  unmarshal_rsp = read_one;
}
