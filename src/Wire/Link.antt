-- ===== src/Wire/Link.antt =====
-- `clusterNet`: the table of systems, `Send` and `doSend` over the links to them, `OnMessage`.
use dvactor.Base.{
  ℕ, ◌≤◌, ◌≡◌, ◌≢◌, inl, inr, refl, ap, sym, Bool, false, not, ◌||◌, ◌&&◌, Option, none, some, List,
  [], ◌∷◌, All, arith, ◌==◌, leb, if◌then◌else◌, Outcome, returns, panics, Option-cases,
  returns-injective, le→leb,
}
use dvactor.Base.Maps.{lookup, insert, nat_eq}
use dvactor.Packet.{Bytes}
use dvactor.Vactor.{Vactor, Envelope, Protobuf}
use dvactor.Errors.{Result, ok, fails, message_serialize_fail, message_send_fail}
use dvactor.System.{System}
use dvactor.System.Registry.{IsConsistent}
use dvactor.Wire.{Pkg, pkg_batch_send, pkg_notify, pkg_type}
use dvactor.Wire.Encode.{to_pkg}
use dvactor.Wire.Decode.{deliver, Delivery}
use dvactor.Wire.RoundTrip.{EnvelopeFits, as_sent, deliver-to_pkg}

-- Protobuf drops a nil element of a repeated field: such a package is not one that it keeps.
abbrev pub IsFull : Pkg → Type 0
IsFull (pkg_batch_send f ts ms) = All (λ t. t ≢ none) ts × All (λ m. m ≢ none) ms
IsFull (pkg_notify f ts n r w m) = All (λ t. t ≢ none) ts
IsFull p = Unit {0}

-- `proto.Marshal` and `proto.Unmarshal` of the packages, the latter into the package of a type.
pub record Codec : Type 0 where
  pub marshal_pkg : Pkg → Option Bytes
  pub unmarshal_pkg : ℕ → Bytes → Option Pkg
  pub unmarshal_pkg-marshal_pkg :
      (p : Pkg) (bytes : Bytes)
      → IsFull p
      → marshal_pkg p ≡ some bytes
      → unmarshal_pkg (pkg_type p) bytes ≡ some p

-- `systemInfo`: who connects, and the links there are, told by their addresses. Its `config`, the
-- host and port, is read only when connecting.
pub record SystemInfo : Type 0 where
  pub passive : Bool
  pub session : Option ℕ
  pub cli : Option ℕ

abbrev pub Infos : Type 0
Infos = List (ℕ × SystemInfo)

-- `NewClusterNet`: the systems before the local one in the list are passive, all others are not.
unfoldable pub scan : ℕ → Bool → List ℕ → Infos → Infos
scan local_id find_self [] infos = infos
scan local_id find_self (id ∷ ids) infos =
    let found = find_self || local_id == id in
    scan local_id found ids
      (insert id (record { passive = not found; session = none; cli = none }) infos)

unfoldable pub new_cluster_net : ℕ → List ℕ → Infos
new_cluster_net local_id ids = scan local_id false ids []

-- What `SendMessage` is called on, and with what.
pub record Sent : Type 0 where
  pub link : ℕ
  pub msg_id : ℕ
  pub body : Bytes

-- The link in use: the client to a passive system, the session of any other.
abbrev pub link_to : SystemInfo → Option ℕ
link_to info = if info.passive then info.cli else info.session

module _ (v : Vactor) (send_message : Sent → Bool) where
  -- `send_message` says whether a link takes a message. The error, and what was handed to a link.
  unfoldable pub over_link : ℕ → Bytes → Option ℕ → Option ℕ × List Sent
  over_link msg_id bytes none = (some (message_send_fail v), [])
  over_link msg_id bytes (some link) =
      let s : Sent = record { link = link; msg_id = msg_id; body = bytes } in
      (if send_message s then none else some (message_send_fail v), s ∷ [])

  -- A system that is not in the table is a nil pointer, and locking it panics.
  unfoldable pub do_send : Infos → ℕ → ℕ → Bytes → Outcome (Option ℕ × List Sent)
  unfolding over_link
  do_send infos system_id msg_id bytes = elim (lookup system_id infos) [
    | none ↦ panics
    | some info ↦ returns (over_link msg_id bytes (link_to info))
  ]

  module _ (pb : Protobuf) (c : Codec) (s : System v pb) where
    open pb use {P}

    unfoldable pub send_bytes : Infos → ℕ → ℕ → Option Bytes → Outcome (Option ℕ × List Sent)
    send_bytes infos system_id msg_id none = returns (some (message_serialize_fail v), [])
    send_bytes infos system_id msg_id (some bytes) = do_send infos system_id msg_id bytes

    unfoldable pub send_pkg : Infos → ℕ → Result Pkg → Outcome (Option ℕ × List Sent)
    unfolding send_bytes
    send_pkg infos system_id (fails code) = returns (some code, [])
    send_pkg infos system_id (ok p) = send_bytes infos system_id (pkg_type p) (c.marshal_pkg p)

    unfoldable pub send_envelope : Infos → ℕ → Envelope P → Outcome (Option ℕ × List Sent)
    unfolding send_pkg
    send_envelope infos system_id e = send_pkg infos system_id (to_pkg v pb s e)

-- `OnMessage`: an id of no envelope is passed over without an error.
module _ (v : Vactor) (pb : Protobuf) (c : Codec) (s : System v pb) where
  open pb use {P}

  pub data Handled : Type 0 where
    ignored : Handled
    failed : Handled
    routed : Envelope P → Handled

  to_handled : Delivery v pb s → Handled
  to_handled none = failed
  to_handled (some e) = routed e

  unpack : Option Pkg → Outcome Handled
  unfolding to_handled
  unpack none = returns failed
  unpack (some p) = elim (deliver v pb s p) [ panics ↦ panics | returns d ↦ returns (to_handled d) ]

  unfoldable pub on_message : ℕ → Bytes → Outcome Handled
  unfolding unpack
  on_message msg_id bytes =
      if leb 1 msg_id && leb msg_id 9
      then unpack (c.unmarshal_pkg msg_id bytes)
      else returns ignored

pkg_type_range : (p : Pkg) → (1 ≤ pkg_type p) × (pkg_type p ≤ 9)
pkg_type_range (Pkg.pkg_send f t m) = omega arith
pkg_type_range _ = omega arith

module _ (v : Vactor) (send_message : Sent → Bool) (pb : Protobuf) (c : Codec) (s r : System v pb)
    (agree : IsConsistent v pb s r) where
  open pb use {P}

  -- Packed bytes are routed as the envelope.
  received :
      (e : Envelope P) (p : Pkg) (bytes : Bytes)
      → EnvelopeFits v pb s r agree e
      → IsFull p
      → to_pkg v pb s e ≡ ok p
      → c.marshal_pkg p ≡ some bytes
      → on_message v pb c r (pkg_type p) bytes ≡ returns (routed (as_sent v pb s r agree e))
  unfolding on_message
  received e p bytes f full h m = rw (
    c.unmarshal_pkg-marshal_pkg p bytes full m,
    le→leb 1 (pkg_type p) (pkg_type_range p).0,
    le→leb (pkg_type p) 9 (pkg_type_range p).1,
    unpack,
    deliver-to_pkg v pb s r agree e f h,
  )

  -- An envelope whose ids fit, whose error, if it is a response with one, fits and is not of the
  -- success code, and whose package has no nil element in a list, if `Send` reports it as sent, was
  -- handed to exactly one link, once, as bytes that `OnMessage` of a system with an
  -- agreeing registry turns back into the envelope (a batch without the messages that cannot be
  -- wrapped) and routes locally.
  pub on_message-send_envelope :
      (infos : Infos) (system_id : ℕ) (e : Envelope P) {sent : List Sent}
      → EnvelopeFits v pb s r agree e
      → ((p : Pkg) → to_pkg v pb s e ≡ ok p → IsFull p)
      → send_envelope v send_message pb c s infos system_id e ≡ returns (none, sent)
      → (x : Sent) × (sent ≡ x ∷ [])
        × (on_message v pb c r x.msg_id x.body ≡ returns (routed (as_sent v pb s r agree e)))
  unfolding send_envelope do_send on_message
  on_message-send_envelope infos system_id e {sent} f full h = packed (to_pkg v pb s e) refl h
    where
      Goal : Type 0
      Goal =
          (x : Sent) × (sent ≡ x ∷ [])
          × (on_message v pb c r x.msg_id x.body ≡ returns (routed (as_sent v pb s r agree e)))

      linked :
          (p : Pkg) (bytes : Bytes) (link : Option ℕ)
          → to_pkg v pb s e ≡ ok p
          → c.marshal_pkg p ≡ some bytes
          → returns (over_link v send_message (pkg_type p) bytes link) ≡ returns (none, sent)
          → Goal
      linked p bytes none a b k = cc
      linked p bytes (some link) a b k = (
        record { link = link; msg_id = pkg_type p; body = bytes },
        sym (ap (λ (t : Option ℕ × List Sent). t.1) (returns-injective k)),
        received e p bytes f (full p a) a b,
      )

      marshalled :
          (p : Pkg) (o : Option Bytes)
          → to_pkg v pb s e ≡ ok p
          → c.marshal_pkg p ≡ o
          → send_bytes v send_message pb c s infos system_id (pkg_type p) o ≡ returns (none, sent)
          → Goal
      marshalled p none a b k = cc
      marshalled p (some bytes) a b k = elim (Option-cases (lookup system_id infos)) [
        | inl e ↦ cc (rw (e, do_send) at k)
        | inr (info, e) ↦ linked p bytes (link_to info) a b (rw (e, do_send) at k)
      ]

      packed :
          (o : Result Pkg)
          → to_pkg v pb s e ≡ o
          → send_pkg v send_message pb c s infos system_id o ≡ returns (none, sent)
          → Goal
      packed (fails code) a k = cc
      packed (ok p) a k = marshalled p (c.marshal_pkg p) a refl k
