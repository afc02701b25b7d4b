-- ===== src/Cluster/Server/Tally.antt =====
-- The counter in every state that the server reaches, and the end of a registration.
use dvactor.Base.{
  ℕ, ◌+◌, ◌%◌, ◌^◌, ◌<◌, ◌≡◌, refl, ap, ◌∙◌, Bool, true, false, ◌||◌, none, some, List, [], ◌∷◌,
  ◌==◌, ==_iff, Bool-cases, arith, inl, inr,
}
use dvactor.Base.Maps.{
  lookup, insert, lookup-insert, insert-insert, insert_same, delete-insert_absent, held, nat_eq,
}
use dvactor.Packet.{Bytes}
use dvactor.Vactor.{Vactor, Protobuf}
use dvactor.System.{System}
use dvactor.Wire.Link.{SystemInfo, Infos, Codec, scan, new_cluster_net}
use dvactor.Cluster.{Registration, add_one, sub_one}
use dvactor.Cluster.Server.{Server, bind, unbind, reply, register, claim, is_session, on_disconnect}
use dvactor.Cluster.Server.Keeps.{on_message_keeps}
use dvactor.Cluster.Server.World.{
  World, unknown, settle, Step, accepted, received, lost, ended, another_up, another_down, Reach,
  here, further,
}
use dvactor.Cluster.Server.Held.{Holds}
use dvactor.Cluster.Server.Count.{
  registered, IsCounted, register-IsCounted, on_disconnect-IsCounted,
}

-- The server of a process that has just made its table.
abbrev pub fresh_server : Infos → Server
fresh_server infos = record { infos = infos; bound = []; connected = 0 }

abbrev pub fresh_world : ℕ → List ℕ → World
fresh_world local_id ids = record {
  server = fresh_server (new_cluster_net local_id ids);
  phase = λ session. unknown;
  others = 0;
}

registered-insert-none :
    (id : ℕ) (info : SystemInfo) (infos : Infos)
    → info.session ≡ none
    → registered infos ≡ 0
    → registered (insert id info infos) ≡ 0
registered-insert-none id info [] n h = ground (arith, ap held n)
registered-insert-none id info ((j, x) ∷ infos) n h = elim (Bool-cases (j == id)) [
  | inl e ↦ rw e (omega (arith, ap held n))
  | inr e ↦ rw e (omega (arith, registered-insert-none id info infos n (omega arith)))
]

registered-scan :
    (local_id : ℕ) (find_self : Bool) (ids : List ℕ) (infos : Infos)
    → registered infos ≡ 0
    → registered (scan local_id find_self ids infos) ≡ 0
unfolding scan
registered-scan local_id find_self [] infos h = h
registered-scan local_id find_self (id ∷ ids) infos h =
    registered-scan local_id (find_self || local_id == id) ids (insert id _ infos)
      (registered-insert-none id _ infos refl h)

fresh_world-IsCounted :
    (local_id : ℕ) (ids : List ℕ) → IsCounted 0 (fresh_world local_id ids).server
unfolding new_cluster_net
fresh_world-IsCounted local_id ids = record {
  counted = omega (arith, registered-scan local_id false ids [] refl);
  bound = λ session id e. cc;
}

repack :
    {id session connected : ℕ} {st : Server}
    → Holds id session st
    → Holds id session (record st { connected = connected })
repack h = record { info = h.info; there = h.there; mine = h.mine }

abbrev pub CountedWorld : World → Type 0
CountedWorld w = IsCounted w.others w.server

module _ (v : Vactor) (pb : Protobuf) (c : Codec) (g : Registration) (s : System v pb) where
  open pb use {P}

  Step-CountedWorld : {x y : World} → Step v pb c g s x y → CountedWorld x → CountedWorld y
  unfolding settle
  Step-CountedWorld (accepted session e) k = k
  Step-CountedWorld {x} (received session msg_id bytes p e) k =
      on_message_keeps v pb c g s (IsCounted x.others)
        (λ rsp by id st h. register-IsCounted P rsp by id st h) session msg_id bytes x.server e k
  Step-CountedWorld {x} (lost session e) k = on_disconnect-IsCounted session x.server k
  Step-CountedWorld (ended session e) k = k
  Step-CountedWorld another_up k = record {
    counted = omega (arith, k.counted);
    bound = λ session id e. repack (k.bound session id e);
  }
  Step-CountedWorld (another_down h) k = record {
    counted = omega (arith, k.counted);
    bound = λ session id e. repack (k.bound session id e);
  }

  -- Whatever connections come and go and whatever they send, the counter of connected systems is
  -- what this process and its clients added and the number of systems that have a session, modulo
  -- 2^32; and a session that is bound to a system is the session of that system.
  pub server_counts :
      (local_id : ℕ) (ids : List ℕ) {w : World}
      → Reach v pb c g s (fresh_world local_id ids) w
      → (w.server.connected ≡ (w.others + registered w.server.infos) % 2 ^ 32)
        × ((session id : ℕ) → lookup session w.server.bound ≡ some id → Holds id session w.server)
  server_counts local_id ids r = let k = reached r in (k.counted, k.bound)
    where
      reached : {w : World} → Reach v pb c g s (fresh_world local_id ids) w → CountedWorld w
      reached here = fresh_world-IsCounted local_id ids
      reached (further r st) = Step-CountedWorld st (reached r)

on_disconnect_bound :
    (session id : ℕ) (info : SystemInfo) (st : Server)
    → lookup session st.bound ≡ some id
    → lookup id st.infos ≡ some info
    → is_session info.session session ≡ true
    → on_disconnect session st ≡ unbind session id info st
unfolding on_disconnect
on_disconnect_bound session id info st e f t = ground (arith, e, f, t)

unbind-bind :
    (session id : ℕ) (info : SystemInfo) (st : Server)
    → lookup id st.infos ≡ some info
    → info.session ≡ none
    → lookup session st.bound ≡ none
    → st.connected < 2 ^ 32
    → unbind session id (record info { session = some session }) (bind session id info st) ≡ st
unbind-bind session id info st e n b h = λ i. record {
  infos =
      (insert-insert id none_info some_info st.infos
          ∙ insert_same id none_info st.infos (e ∙ ap (λ o. some (record info { session = o })) n))
        i;
  bound = delete-insert_absent session id st.bound b i;
  connected = counted i;
}
  where
    none_info : SystemInfo
    none_info = record info { session = none }

    some_info : SystemInfo
    some_info = record info { session = some session }

    counted : sub_one (add_one st.connected) ≡ st.connected
    counted = omega arith

-- The end of a registration undoes it: if a system of the table that waits for a connection and has
-- no session registers over a session that is not bound, and the connection ends, then the state is
-- the one before, and the system can register again, as long as the counter is below 2^32.
pub on_disconnect-register :
    (P : Type 0) (session id : ℕ) (bytes : Bytes) (info : SystemInfo) (st : Server)
    → lookup id st.infos ≡ some info
    → info.passive ≡ false
    → info.session ≡ none
    → lookup session st.bound ≡ none
    → st.connected < 2 ^ 32
    → on_disconnect session (register {P = P} (some bytes) session id st).server ≡ st
unfolding on_disconnect register claim
on_disconnect-register P session id bytes info st e p n b h =
    rw bound (disconnected ∙ unbind-bind session id info st e n b h)
  where
    bound :
        register {P = P} (some bytes) session id st
        ≡ reply session (some bytes) (bind session id info st)
    bound = ground (arith, e, p, n)

    disconnected :
        on_disconnect session (bind session id info st)
        ≡ unbind session id (record info { session = some session }) (bind session id info st)
    disconnected =
        on_disconnect_bound session id (record info { session = some session })
          (bind session id info st) (ground (arith, lookup-insert session session id st.bound))
          (ground (arith, lookup-insert id id (record info { session = some session }) st.infos))
          ((==_iff session session).1 refl)
