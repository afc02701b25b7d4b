-- ===== src/Flow.antt =====
-- `Send` of one system, a connection, and the receiving loop and `OnMessage` of the other system,
-- composed: cluster_net.go over engine/net.
pub mod Carry
pub mod Arrive
mod Tests
use mathlib.Core.List.{map}
use dvactor.Base.{
  ℕ, ◌≡◌, Bool, true, false, not, ◌||◌, Option, none, some, List, [], ◌∷◌, ◌++◌, ◌==◌,
  if◌then◌else◌, Outcome, returns, ◌>>=◌,
}
use dvactor.Base.Maps.{lookup, nat_eq}
use dvactor.Packet.{Bytes, Frame}
use dvactor.Vactor.{Vactor, Envelope, Protobuf}
use dvactor.System.{System}
use dvactor.Conn.{Conn, Step}
use dvactor.Net.{Unsent, send_message}
use dvactor.Wire.{register_system_req, register_system_rsp}
use dvactor.Wire.Link.{SystemInfo, Infos, Codec, Sent, link_to, send_envelope, Handled, on_message}

abbrev pub is_nil_error {ℓ} : {E : Type ℓ} → Option E → Bool
is_nil_error none = true
is_nil_error (some error) = false

-- Whether `SendMessage` on the connection returns no error, and the connection after the call.
abbrev pub takes : Conn → Sent → Bool
takes c x = is_nil_error (send_message c x.msg_id x.body).0

abbrev pub after : Conn → List Sent → Conn
after c [] = c
after c (x ∷ xs) = after (send_message c x.msg_id x.body).1 xs

-- The envelopes for which `Send` returned no error.
abbrev pub sent_well {ℓ} : {E : Type ℓ} → Option ℕ → E → List E → List E
sent_well none e es = es ++ (e ∷ [])
sent_well (some code) e es = es

module _ (v : Vactor) (pb : Protobuf) (co : Codec) (s : System v pb) where
  open pb use {P}

  -- `Send` to a system whose link is this connection.
  unfoldable pub send_on : Infos → ℕ → Envelope P → Conn → Outcome (Option ℕ × Conn)
  send_on infos system_id e c =
      send_envelope v (takes c) pb co s infos system_id e >>= λ r. returns (r.0, after c r.1)

  -- What goes over the connection: the two registration messages, in either direction, and
  -- envelopes; in between the goroutines of the connection take their steps, and anybody may close
  -- it. The list has the envelopes that `Send` reported as sent.
  pub data Flow (link : ℕ) (c : Conn) : List (Envelope P) → Conn → Type 0 where
    silent : Flow link c [] c
    registers :
        {es : List (Envelope P)} {d : Conn} (msg_id : ℕ) (bytes : Bytes)
        → Flow link c es d
        → (msg_id == register_system_req || msg_id == register_system_rsp) ≡ true
        → Flow link c es (send_message d msg_id bytes).1
    sends :
        {es : List (Envelope P)} {d d' : Conn} {error : Option ℕ} (infos : Infos) (system_id : ℕ)
        (info : SystemInfo) (e : Envelope P)
        → Flow link c es d
        → lookup system_id infos ≡ some info
        → link_to info ≡ some link
        → send_on infos system_id e d ≡ returns (error, d')
        → Flow link c (sent_well error e es) d'
    moves :
        {es : List (Envelope P)} {d d' : Conn}
        → Flow link c es d
        → Step d d'
        → d'.accepted ≡ d.accepted
        → Flow link c es d'

  -- What `OnMessage` makes of the messages of the receiving loop, other than registrations.
  unfoldable pub handled : List Frame → List (Outcome (Handled v pb co s))
  handled [] = []
  handled ((msg_id, bytes) ∷ fs) =
      let rest = handled fs in
      if msg_id == register_system_req || msg_id == register_system_rsp
      then rest
      else on_message v pb co s msg_id bytes ∷ rest
