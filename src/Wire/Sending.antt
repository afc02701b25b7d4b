-- ===== src/Wire/Sending.antt =====
-- What `Send` hands to a link, and what it reports.
use dvactor.Base.{
  ℕ, ◌≡◌, inl, inr, refl, Bool, Option, none, some, List, [], ◌∷◌, if◌then◌else◌, returns,
  Option-cases, returns-injective,
}
use dvactor.Base.Maps.{lookup, nat_eq}
use dvactor.Packet.{Bytes}
use dvactor.Vactor.{Vactor, Envelope, Protobuf}
use dvactor.Errors.{Result, ok, fails, message_send_fail}
use dvactor.System.{System}
use dvactor.Wire.{Pkg, pkg_type}
use dvactor.Wire.Encode.{to_pkg}
use dvactor.Wire.Link.{
  Infos, Codec, Sent, link_to, over_link, do_send, send_bytes, send_pkg, send_envelope,
}

module _ (v : Vactor) (takes : Sent → Bool) where
  -- Nothing is handed to a link, with an error; or one message, with an error if it is not taken.
  pub data Sends : Option ℕ → List Sent → Type 0 where
    kept_back : {code : ℕ} → Sends (some code) []
    handed_on :
        {error : Option ℕ} (x : Sent)
        → error ≡ (if takes x then none else some (message_send_fail v))
        → Sends error (x ∷ [])

  over_link-Sends :
      (msg_id : ℕ) (bytes : Bytes) (link : Option ℕ)
      → Sends (over_link v takes msg_id bytes link).0 (over_link v takes msg_id bytes link).1
  unfolding over_link
  over_link-Sends msg_id bytes none = kept_back
  over_link-Sends msg_id bytes (some link) =
      handed_on (record { link = link; msg_id = msg_id; body = bytes }) refl

  do_send-Sends :
      (infos : Infos) (system_id msg_id : ℕ) (bytes : Bytes) {r : Option ℕ × List Sent}
      → do_send v takes infos system_id msg_id bytes ≡ returns r
      → Sends r.0 r.1
  unfolding do_send
  do_send-Sends infos system_id msg_id bytes h = elim (Option-cases (lookup system_id infos)) [
    | inl e ↦ cc (rw (e, do_send) at h)
    | inr (info, e) ↦
        rw (← returns-injective (rw (e, do_send) at h))
          (over_link-Sends msg_id bytes (link_to info))
  ]

  module _ (pb : Protobuf) (c : Codec) (s : System v pb) where
    open pb use {P}

    pub send_envelope-Sends :
        (infos : Infos) (system_id : ℕ) (e : Envelope P) {r : Option ℕ × List Sent}
        → send_envelope v takes pb c s infos system_id e ≡ returns r
        → Sends r.0 r.1
    unfolding send_envelope send_pkg send_bytes
    send_envelope-Sends infos system_id e {r} h = packed (to_pkg v pb s e) h
      where
        marshalled :
            (p : Pkg) (o : Option Bytes)
            → send_bytes v takes pb c s infos system_id (pkg_type p) o ≡ returns r
            → Sends r.0 r.1
        marshalled p none h = rw (← returns-injective h) kept_back
        marshalled p (some bytes) h = do_send-Sends infos system_id (pkg_type p) bytes h

        packed :
            (o : Result Pkg) → send_pkg v takes pb c s infos system_id o ≡ returns r → Sends r.0 r.1
        packed (fails code) h = rw (← returns-injective h) kept_back
        packed (ok p) h = marshalled p (c.marshal_pkg p) h
