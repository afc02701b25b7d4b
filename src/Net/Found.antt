-- ===== src/Net/Found.antt =====
-- A session that was accepted is in the manager until its connection is lost.
use dvactor.Base.{
  ℕ, ◌+◌, ◌%◌, ◌^◌, ◌≤◌, ◌<◌, ◌≡◌, refl, ◌∙◌, Bool, false, ◌||◌, none, some, List, [], ◌∷◌, ◌==◌,
  ==_iff, arith, returns, returns-injective,
}
use dvactor.Base.Maps.{lookup, lookup-insert, lookup-delete, nat_eq}
use dvactor.Packet.{Frame, Stop, waiting, crashed, out_of_fuel}
use dvactor.Session.{
  next_id, add_session, new_session, new_session_mgr, remove_session, get_session,
}
use dvactor.Net.{
  NetServer, new_net_server, Call, accepts, reads, loses, Event, put, on_accept, handed, on_lost,
  call, run,
}
use dvactor.Net.Own.{Splits, run-Splits}

-- How many connections are accepted, and whether connection `k` is accepted or lost.
abbrev pub accept_count : List Call → ℕ
accept_count [] = 0
accept_count (accepts j ∷ cs) = accept_count cs + 1
accept_count (_ ∷ cs) = accept_count cs

abbrev pub starts_or_ends : ℕ → Call → Bool
starts_or_ends k (accepts j) = j == k
starts_or_ends k (reads j bytes) = false
starts_or_ends k (loses j) = j == k

abbrev pub starts_or_ends_in : ℕ → List Call → Bool
starts_or_ends_in k [] = false
starts_or_ends_in k (c ∷ cs) = starts_or_ends k c || starts_or_ends_in k cs

-- Connections not accepted yet have the id 0 in the model, which no session gets.
record IsNumbered (st : NetServer) : Type 0 where
  small : (j : ℕ) → st.ids j ≤ st.manager.gen_uid
  apart : (i j : ℕ) → st.ids i ≡ st.ids j → 0 < st.ids i → i ≡ j

record Found (k : ℕ) (st : NetServer) : Type 0 where
  positive : 0 < st.ids k
  there : lookup (st.ids k) st.manager.sessions ≡ some k

accept-IsNumbered :
    (j : ℕ) (st : NetServer)
    → st.manager.gen_uid + 1 < 2 ^ 32
    → IsNumbered st
    → IsNumbered (on_accept j st).1
unfolding on_accept new_session next_id add_session
accept-IsNumbered j st h n = record {
  small = λ i. let s = n.small i in ground arith;
  apart = λ i l e p.
      let a = n.small i in
      let b = n.small l in let c = n.apart i l in ground (arith, ==_iff i j, ==_iff l j);
}

accept-Found :
    (k : ℕ) (st : NetServer) → st.manager.gen_uid + 1 < 2 ^ 32 → Found k (on_accept k st).1
unfolding on_accept new_session next_id add_session
accept-Found k st h =
    let id = (st.manager.gen_uid + 1) % 2 ^ 32 in
    record {
      positive = ground arith;
      there =
          rw ((==_iff k k).1 refl)
            (lookup-insert id id k st.manager.sessions ∙ rw ((==_iff id id).1 refl) refl);
    }

accept-keeps-Found :
    (k j : ℕ) (st : NetServer)
    → st.manager.gen_uid + 1 < 2 ^ 32
    → (j == k) ≡ false
    → IsNumbered st
    → Found k st
    → Found k (on_accept j st).1
unfolding on_accept new_session next_id add_session
accept-keeps-Found k j st h e n f =
    let id = (st.manager.gen_uid + 1) % 2 ^ 32 in
    let kept : put j id st.ids k ≡ st.ids k = ground (arith, ==_iff k j, ==_iff j k, e) in
    let new : (id == st.ids k) ≡ false = ground (arith, n.small k, ==_iff id (st.ids k)) in
    record {
      positive = rw kept f.positive;
      there = rw kept (lookup-insert id (st.ids k) j st.manager.sessions ∙ rw new f.there);
    }

lost-Found :
    (k j : ℕ) (st : NetServer)
    → (j == k) ≡ false
    → IsNumbered st
    → Found k st
    → Found k (on_lost j st).1
unfolding on_lost remove_session
lost-Found k j st e n f =
    let other : (st.ids j == st.ids k) ≡ false =
      ground (arith, n.apart k j, f.positive, ==_iff (st.ids j) (st.ids k), ==_iff j k, e) in
    record {
      positive = f.positive;
      there = lookup-delete (st.ids j) (st.ids k) st.manager.sessions ∙ rw other f.there;
    }

accept_counts :
    (j : ℕ) (st : NetServer)
    → st.manager.gen_uid + 1 < 2 ^ 32
    → (on_accept j st).1.manager.gen_uid ≡ st.manager.gen_uid + 1
unfolding on_accept new_session next_id add_session
accept_counts j st h = omega (arith, h)

lost-IsNumbered : (j : ℕ) (st : NetServer) → IsNumbered st → IsNumbered (on_lost j st).1
unfolding on_lost remove_session
lost-IsNumbered j st n = record { small = n.small; apart = n.apart }

lost_counts : (j : ℕ) (st : NetServer) → (on_lost j st).1.manager.gen_uid ≡ st.manager.gen_uid
unfolding on_lost remove_session
lost_counts j st = refl

handed_keeps :
    (j : ℕ) (fs : List Frame) (stop : Stop) (st : NetServer) {p : List Event × NetServer}
    → handed j fs stop st ≡ returns p
    → (p.1.manager ≡ st.manager) × (p.1.ids ≡ st.ids)
unfolding handed
handed_keeps j fs (waiting rest) st e = rw (← returns-injective e) (refl, refl)
handed_keeps j fs crashed st e = cc
handed_keeps j fs out_of_fuel st e = cc

-- What a call leaves, for a server that gives out fewer than 2^32 ids.
module _ (cs : List Call) (st : NetServer) {p : List Event × NetServer} where
  call-IsNumbered :
      (c : Call)
      → st.manager.gen_uid + accept_count (c ∷ cs) < 2 ^ 32
      → IsNumbered st
      → call c st ≡ returns p
      → IsNumbered p.1
        × (p.1.manager.gen_uid + accept_count cs ≡ st.manager.gen_uid + accept_count (c ∷ cs))
  unfolding call
  call-IsNumbered (accepts j) h n e = rw (← returns-injective e) (
    accept-IsNumbered j st (omega (arith, h)) n,
    omega (arith, accept_counts j st (omega (arith, h))),
  )
  call-IsNumbered (reads j bytes) h n e =
      let (m, i) = handed_keeps j _ _ st e in
      (record { small = rw (m, i) n.small; apart = rw i n.apart }, rw m refl)
  call-IsNumbered (loses j) h n e =
      rw (← returns-injective e) (lost-IsNumbered j st n, rw (lost_counts j st) refl)

  call-Found :
      (k : ℕ) (c : Call)
      → st.manager.gen_uid + accept_count (c ∷ cs) < 2 ^ 32
      → starts_or_ends k c ≡ false
      → IsNumbered st
      → Found k st
      → call c st ≡ returns p
      → Found k p.1
  unfolding call
  call-Found k (accepts j) h q n f e =
      rw (← returns-injective e) (accept-keeps-Found k j st (omega (arith, h)) q n f)
  call-Found k (reads j bytes) h q n f e =
      let (m, i) = handed_keeps j _ _ st e in
      record { positive = rw i f.positive; there = rw (m, i) f.there }
  call-Found k (loses j) h q n f e = rw (← returns-injective e) (lost-Found k j st q n f)

run-IsNumbered :
    (cs : List Call) (st : NetServer) {r : List Event × NetServer}
    → st.manager.gen_uid + accept_count cs < 2 ^ 32
    → IsNumbered st
    → run cs st ≡ returns r
    → IsNumbered r.1 × (r.1.manager.gen_uid ≡ st.manager.gen_uid + accept_count cs)
unfolding run
run-IsNumbered [] st h n e = rw (← returns-injective e) (n, omega arith)
run-IsNumbered (c ∷ cs) st {r} h n e =
    let s : Splits c cs st r = run-Splits e in
    let (m, q) = call-IsNumbered cs st c h n s.called in
    let (o, t) = run-IsNumbered cs s.first.1 (omega (arith, h, q)) m s.went_on in
    rw s.all (o, t ∙ q)

run-Found :
    (k : ℕ) (cs : List Call) (st : NetServer) {r : List Event × NetServer}
    → st.manager.gen_uid + accept_count cs < 2 ^ 32
    → starts_or_ends_in k cs ≡ false
    → IsNumbered st
    → Found k st
    → run cs st ≡ returns r
    → Found k r.1
unfolding run
run-Found k [] st h b n f e = rw (← returns-injective e) f
run-Found k (c ∷ cs) st {r} h b n f e =
    let s : Splits c cs st r = run-Splits e in
    let now : starts_or_ends k c ≡ false = ground (arith, b) in
    let later : starts_or_ends_in k cs ≡ false = ground (arith, b) in
    let (m, q) = call-IsNumbered cs st c h n s.called in
    rw s.all (
      run-Found k cs s.first.1 (omega (arith, h, q)) later m
        (call-Found cs st k c h now n f s.called) s.went_on)

new_net_server-IsNumbered : IsNumbered new_net_server
unfolding new_net_server new_session_mgr
new_net_server-IsNumbered = record {
  small = λ j. omega arith;
  apart = λ i j e p. absurd (omega arith);
}

-- From a new server, after any calls, connection `k` is accepted; as long as it is neither lost nor
-- accepted again, whatever the other connections call, as long as fewer than 2^32 connections are
-- accepted in all, the manager has the session of `k` under its id; and once the connection is lost,
-- it has none under that id.
pub session_found :
    (k : ℕ) (early late : List Call) {q r : List Event × NetServer}
    → run early new_net_server ≡ returns q
    → run late (on_accept k q.1).1 ≡ returns r
    → starts_or_ends_in k late ≡ false
    → accept_count early + accept_count late + 1 < 2 ^ 32
    → (get_session (r.1.ids k) r.1.manager ≡ some k)
      × (get_session (r.1.ids k) (on_lost k r.1).1.manager ≡ none)
unfolding get_session on_lost remove_session new_net_server new_session_mgr
session_found k early late {q} {r} e f b h =
    let (n, c) =
      run-IsNumbered early new_net_server (omega (arith, h)) new_net_server-IsNumbered e in
    let room : q.1.manager.gen_uid + 1 < 2 ^ 32 = omega (arith, h, c) in
    let started = accept-Found k q.1 room in
    let found =
      run-Found k late (on_accept k q.1).1 (omega (arith, h, c, accept_counts k q.1 room)) b
        (accept-IsNumbered k q.1 room n) started f in
    (
      found.there,
      lookup-delete (r.1.ids k) (r.1.ids k) r.1.manager.sessions
          ∙ rw ((==_iff (r.1.ids k) (r.1.ids k)).1 refl) refl,
    )
