-- ===== src/Cluster/Server/Keeps.antt =====
-- What `register` keeps, every message keeps.
use dvactor.Base.{
  ℕ, ◌≡◌, subst, Option, none, some, inl, inr, Outcome, returns, panics, ◌==◌, Bool-cases,
  returns-injective,
}
use dvactor.Packet.{Bytes}
use dvactor.Vactor.{Vactor, Protobuf}
use dvactor.System.{System}
use dvactor.Wire.{register_system_req, to_bits}
use dvactor.Wire.Link.{Codec, Handled, ignored, failed, routed, on_message as net_message}
use dvactor.Cluster.{Registration}
use dvactor.Cluster.Server.{Server, Done, register, forwarded, request, on_message}

module _ (v : Vactor) (pb : Protobuf) (c : Codec) (g : Registration) (s : System v pb)
    (K : Server → Type 0) where
  open pb use {P}

  pub on_message_keeps :
      ((rsp : Option Bytes) (session id : ℕ) (st : Server)
        → K st
        → K (register {P = P} rsp session id st).server)
      → (session msg_id : ℕ) (bytes : Bytes) (st : Server) {d : Done P}
      → on_message v pb c g s session msg_id bytes st ≡ returns d
      → K st
      → K d.server
  unfolding on_message request
  on_message_keeps keep session msg_id bytes st {d} e h =
      elim (Bool-cases (msg_id == register_system_req)) [
        | inl k ↦ requested (g.unmarshal_req bytes) (rw k at e)
        | inr k ↦ forwarded_on (net_message v pb c s msg_id bytes) (rw k at e)
      ]
    where
      kept : {x : Done P} → returns x ≡ returns d → K x.server → K d.server
      kept q k = subst (λ (y : Done P). K y.server) (returns-injective q) k

      requested :
          (o : Option ℕ) → returns (request v pb c g s session o st) ≡ returns d → K d.server
      requested none k = kept k h
      requested (some id) k =
          kept k (keep (g.marshal_rsp 0) session (to_bits v.system_id_bits id) st h)

      forwarded_on :
          (o : Outcome (Handled v pb c s)) → forwarded v pb c g s st o ≡ returns d → K d.server
      forwarded_on panics k = cc
      forwarded_on (returns failed) k = kept k h
      forwarded_on (returns ignored) k = kept k h
      forwarded_on (returns (routed x)) k = kept k h
