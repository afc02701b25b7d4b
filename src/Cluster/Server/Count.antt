-- ===== src/Cluster/Server/Count.antt =====
-- The counter of connected systems, and the bind objects of the sessions.
use dvactor.Base.{
  ℕ, ◌+◌, ◌%◌, ◌^◌, ◌≡◌, ◌≢◌, inl, inr, refl, ap, subst, ◌∙◌, Option, none, some, [], ◌∷◌, ◌==◌,
  ==_iff, Bool-cases, Option-cases, arith, some-injective,
}
use dvactor.Base.Maps.{lookup, insert, lookup-insert, lookup-delete, held, nat_eq}
use dvactor.Packet.{Bytes}
use dvactor.Wire.Link.{SystemInfo, Infos}
use dvactor.Cluster.Server.{Server, bind, unbind, claim, register, on_disconnect}
use dvactor.Cluster.Server.Held.{Holds}

-- The systems that have a session.
abbrev pub registered : Infos → ℕ
registered [] = 0
registered ((id, info) ∷ infos) = held info.session + registered infos

registered-insert :
    (id : ℕ) (info old : SystemInfo) (infos : Infos)
    → lookup id infos ≡ some old
    → registered (insert id info infos) + held old.session ≡ registered infos + held info.session
registered-insert id info old [] h = cc
registered-insert id info old ((j, x) ∷ infos) h = elim (Bool-cases (j == id)) [
  | inl e ↦
      rw e (omega (arith, ap (λ (o : SystemInfo). held o.session) (some-injective (rw e at h))))
  | inr e ↦ rw e (omega (arith, registered-insert id info old infos (rw e at h)))
]

-- The counter is right, and a session that is bound to a system stands in its info.
pub record IsCounted (others : ℕ) (st : Server) : Type 0 where
  pub counted : st.connected ≡ (others + registered st.infos) % 2 ^ 32
  pub bound : (session id : ℕ) → lookup session st.bound ≡ some id → Holds id session st

-- A write to the info of another system.
Holds-insert :
    (id id' session : ℕ) (info new : SystemInfo) (st st' : Server)
    → lookup id st.infos ≡ some info
    → info.session ≢ some session
    → st'.infos ≡ insert id new st.infos
    → Holds id' session st
    → Holds id' session st'
Holds-insert id id' session info new st st' e n f h = record {
  info = h.info;
  there = elim (Bool-cases (id == id')) [
    | inl t ↦ absurd (n (ground (arith, ==_iff id id', t, e, h.there, h.mine)))
    | inr t ↦ rw f (lookup-insert id id' new st.infos ∙ rw t h.there)
  ];
  mine = h.mine;
}

module _ {others : ℕ} where
  bind-IsCounted :
      (session id : ℕ) (info : SystemInfo) (st : Server)
      → lookup id st.infos ≡ some info
      → info.session ≡ none
      → IsCounted others st
      → IsCounted others (bind session id info st)
  bind-IsCounted session id info st e n k = record {
    counted = omega (arith, k.counted, registered-insert id new info st.infos e, ap held n);
    bound = λ session' id' b.
        let b' = lookup-insert session session' id st.bound in
        elim (Bool-cases (session == session')) [
          | inl t ↦
              let same : id ≡ id' = ground (arith, b, b', t) in
              let it : session ≡ session' = (==_iff session session').0 t in
              let found : lookup id (insert id new st.infos) ≡ some new =
                ground (arith, lookup-insert id id new st.infos) in
              record {
                info = new;
                there = subst (λ (i : ℕ). lookup i (insert id new st.infos) ≡ some new) same found;
                mine = ap some it;
              }
          | inr t ↦
              Holds-insert id id' session' info new st (bind session id info st) e (λ q. cc) refl
                (k.bound session' id' (ground (arith, b, b', t)))
        ];
  }
    where
      new : SystemInfo
      new = record info { session = some session }

  unbind-IsCounted :
      (session id : ℕ) (info : SystemInfo) (st : Server)
      → lookup id st.infos ≡ some info
      → info.session ≡ some session
      → IsCounted others st
      → IsCounted others (unbind session id info st)
  unbind-IsCounted session id info st e n k = record {
    counted = omega (arith, k.counted, registered-insert id new info st.infos e, ap held n);
    bound = λ session' id' b.
        let b' = lookup-delete session session' st.bound in
        elim (Bool-cases (session == session')) [
          | inl t ↦ ground (arith, b, b', t)
          | inr t ↦
              Holds-insert id id' session' info new st (unbind session id info st) e
                (λ q. ground (arith, ==_iff session session', t, n, q)) refl
                (k.bound session' id' (ground (arith, b, b', t)))
        ];
  }
    where
      new : SystemInfo
      new = record info { session = none }

  pub register-IsCounted :
      (P : Type 0) (rsp : Option Bytes) (session id : ℕ) (st : Server)
      → IsCounted others st
      → IsCounted others (register {P = P} rsp session id st).server
  unfolding register claim
  register-IsCounted P rsp session id st k = elim (Option-cases (lookup id st.infos)) [
    | inl e ↦ rw (e, register) k
    | inr (info, e) ↦ elim (Bool-cases info.passive) [
      | inl p ↦ rw (e, register) (simp p k)
      | inr p ↦ rw (e, register) (simp p (claimed info e info.session refl rsp))
    ]
  ]
    where
      claimed :
          (info : SystemInfo)
          → lookup id st.infos ≡ some info
          → (o : Option ℕ) → info.session ≡ o
          → (rsp' : Option Bytes)
          → IsCounted others (claim {P = P} rsp' session id info o st).server
      claimed info e (some other) f r = k
      claimed info e none f none = bind-IsCounted session id info st e f k
      claimed info e none f (some bytes) = bind-IsCounted session id info st e f k

  pub on_disconnect-IsCounted :
      (session : ℕ) (st : Server)
      → IsCounted others st
      → IsCounted others (on_disconnect session st)
  unfolding on_disconnect
  on_disconnect-IsCounted session st k = elim (Option-cases (lookup session st.bound)) [
    | inl e ↦ rw (e, on_disconnect) k
    | inr (id, e) ↦
        let h = k.bound session id e in
        rw (e, on_disconnect, h.there)
          (simp (h.mine, (==_iff session session).1 refl)
            (unbind-IsCounted session id h.info st h.there h.mine k))
  ]
