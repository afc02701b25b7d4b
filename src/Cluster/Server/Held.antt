-- ===== src/Cluster/Server/Held.antt =====
-- A registration whose connection this side has closed is never given up.
use dvactor.Base.{
  ℕ, ◌≡◌, inl, inr, refl, ap, Bool, true, false, Option, none, some, returns, ◌==◌, ==_iff,
  Bool-cases, Option-cases, arith,
}
use dvactor.Base.Maps.{lookup, lookup-insert, nat_eq}
use dvactor.Packet.{Bytes}
use dvactor.Vactor.{Vactor, Protobuf}
use dvactor.System.{System}
use dvactor.Wire.Link.{SystemInfo, Codec}
use dvactor.Cluster.{Registration}
use dvactor.Cluster.Server.{
  Server, Done, refuse, reply, bind, claim, register, is_session, on_disconnect, on_message,
}
use dvactor.Cluster.Server.Keeps.{on_message_keeps}
use dvactor.Cluster.Server.World.{
  Phase, closing, gone, World, settle, Step, accepted, received, lost, ended, another_up,
  another_down, Reach, here, further,
}

-- The table has this session for the system.
pub record Holds (id session : ℕ) (st : Server) : Type 0 where
  pub info : SystemInfo
  pub there : lookup id st.infos ≡ some info
  pub mine : info.session ≡ some session

module _ (P : Type 0) (id session : ℕ) where
  reply-Holds :
      (other : ℕ) (rsp : Option Bytes) (st : Server)
      → Holds id session st
      → Holds id session (reply {P = P} other rsp st).server
  reply-Holds other none st h = h
  reply-Holds other (some bytes) st h = h

  claim-Holds :
      (rsp : Option Bytes) (other id' : ℕ) (info : SystemInfo) (o : Option ℕ) (st : Server)
      → info.session ≡ o
      → lookup id' st.infos ≡ some info
      → Holds id session st
      → Holds id session (claim {P = P} rsp other id' info o st).server
  unfolding claim
  claim-Holds rsp other id' info (some s) st e k h = h
  claim-Holds rsp other id' info none st e k h =
      reply-Holds other rsp (bind other id' info st) (record {
        info = h.info;
        there = ground (
          arith,
          lookup-insert id' id (record info { session = some other }) st.infos,
          h.there,
          h.mine,
          e,
          k,
        );
        mine = h.mine;
      })

  register-Holds :
      (rsp : Option Bytes) (other id' : ℕ) (st : Server)
      → Holds id session st
      → Holds id session (register {P = P} rsp other id' st).server
  unfolding register
  register-Holds rsp other id' st h = elim (Option-cases (lookup id' st.infos)) [
    | inl e ↦ rw (e, register) h
    | inr (info, e) ↦ elim (Bool-cases info.passive) [
      | inl p ↦ rw (e, register) (simp p h)
      | inr p ↦ rw (e, register) (simp p (claim-Holds rsp other id' info info.session st refl e h))
    ]
  ]

  -- As long as the session stands in the table, the system cannot register again.
  register-refuse :
      (rsp : Option Bytes) (other : ℕ) (st : Server)
      → Holds id session st
      → register {P = P} rsp other id st ≡ refuse st
  unfolding register claim
  register-refuse rsp other st h = ground (arith, h.there, h.mine)

on_disconnect-Holds :
    (id session other : ℕ) (st : Server)
    → (session == other) ≡ false
    → Holds id session st
    → Holds id session (on_disconnect other st)
unfolding on_disconnect
on_disconnect-Holds id session other st n h = elim (Option-cases (lookup other st.bound)) [
  | inl e ↦ rw (e, on_disconnect) h
  | inr (id', e) ↦ elim (Option-cases (lookup id' st.infos)) [
    | inl f ↦ rw (e, on_disconnect, f) h
    | inr (info, f) ↦ elim (Bool-cases (is_session info.session other)) [
      | inr b ↦ rw (e, on_disconnect, f) (simp b h)
      | inl b ↦
          rw (e, on_disconnect, f)
            (simp b (record {
              info = h.info;
              there = ground (
                arith,
                lookup-insert id' id (record info { session = none }) st.infos,
                h.there,
                h.mine,
                n,
                f,
                b,
              );
              mine = h.mine;
            }))
    ]
  ]
]

-- A connection that this side has closed, or that has ended.
abbrev pub is_off : Phase → Bool
is_off closing = true
is_off gone = true
is_off _ = false

-- A system whose session this side has closed.
pub record IsStuck (id session : ℕ) (w : World) : Type 0 where
  pub holds : Holds id session w.server
  pub off : is_off (w.phase session) ≡ true

module _ (v : Vactor) (pb : Protobuf) (c : Codec) (g : Registration) (s : System v pb) where
  open pb use {P}

  on_message-Holds :
      (id session other msg_id : ℕ) (bytes : Bytes) (st : Server) {d : Done P}
      → on_message v pb c g s other msg_id bytes st ≡ returns d
      → Holds id session st
      → Holds id session d.server
  on_message-Holds id session other msg_id bytes st e h =
      on_message_keeps v pb c g s (Holds id session)
        (λ rsp by id' st' k. register-Holds P id session rsp by id' st' k) other msg_id bytes st e h

  Step-IsStuck :
      (id session : ℕ) {x y : World}
      → Step v pb c g s x y
      → IsStuck id session x
      → IsStuck id session y
  unfolding settle
  Step-IsStuck id session {x} (accepted other e) k = record {
    holds = k.holds;
    off = elim (Bool-cases (session == other)) [
      | inl t ↦ cc (k.off, ap is_off e, ap x.phase ((==_iff session other).0 t))
      | inr t ↦ rw t k.off
    ];
  }
  Step-IsStuck id session {x} (received other msg_id bytes {d} p e) k = record {
    holds = on_message-Holds id session other msg_id bytes x.server e k.holds;
    off = ground (arith, k.off);
  }
  Step-IsStuck id session {x} (lost other e) k = elim (Bool-cases (session == other)) [
    | inl t ↦ cc (k.off, ap is_off e, ap x.phase ((==_iff session other).0 t))
    | inr t ↦ record {
      holds = on_disconnect-Holds id session other x.server t k.holds;
      off = rw t k.off;
    }
  ]
  Step-IsStuck id session another_up k = record {
    holds = record { info = k.holds.info; there = k.holds.there; mine = k.holds.mine };
    off = k.off;
  }
  Step-IsStuck id session (another_down h) k = record {
    holds = record { info = k.holds.info; there = k.holds.there; mine = k.holds.mine };
    off = k.off;
  }
  Step-IsStuck id session (ended other e) k = record {
    holds = k.holds;
    off = ground (arith, k.off);
  }

  Reach-IsStuck :
      (id session : ℕ) {x y : World}
      → IsStuck id session x
      → Reach v pb c g s x y
      → IsStuck id session y
  Reach-IsStuck id session k here = k
  Reach-IsStuck id session k (further r st) =
      Step-IsStuck id session st (Reach-IsStuck id session k r)

  -- A system is locked out for good by one bad message: if a message over the connection that it
  -- registered makes `OnMessage` return an error, so that the server closes the session, then in
  -- every state reached from there, whatever connections come and go, every attempt of that system
  -- to register again, over any connection, is refused and changes nothing.
  pub locked_out :
      (id session msg_id other : ℕ) (bytes : Bytes) (rsp : Option Bytes) (w : World) {y : World}
      {d : Done P}
      → Holds id session w.server
      → on_message v pb c g s session msg_id bytes w.server ≡ returns d
      → d.failed ≡ true
      → Reach v pb c g s (settle session d w) y
      → register {P = P} rsp other id y.server ≡ refuse y.server
  unfolding settle
  locked_out id session msg_id other bytes rsp w {y} {d} h e f r =
      register-refuse P id session rsp other y.server
        (Reach-IsStuck id session
          (record {
            holds = on_message-Holds id session session msg_id bytes w.server e h;
            off = rw (f, (==_iff session session).1 refl);
          })
          r).holds
