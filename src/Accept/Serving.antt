-- ===== src/Accept/Serving.antt =====
-- The sessions of the connections that are read.
use dvactor.Base.{
  ℕ, ◌+◌, ◌<◌, ◌^◌, ◌≡◌, refl, ap, sym, subst, ◌∙◌, some, List, [], ◌∷◌, ◌++◌, append-nil,
  append_assoc, none, ==_iff, arith, returns, returns-injective,
}
use dvactor.Session.{get_session}
use dvactor.Net.{
  NetServer, new_net_server, Call, accepts, reads, loses, Event, on_accept, call, run,
}
use dvactor.Net.Own.{Splits, run-Splits}
use dvactor.Net.Apart.{run-cons}
use dvactor.Net.Found.{accept_count, session_found}
use dvactor.Accept.{
  Acceptor, new_acceptor, listened, accepted, got_conn, go_receiver, go_sender, stop, times, Step,
  listens, takes, fails, calls_back, starts_receiver, starts_sender, receives, ends_told,
  ends_silently, sender_ends, stops, Reach, here, further,
}
use dvactor.Accept.Phases.{up, phase, phase-Accepted}
use dvactor.Accept.Order.{times-append, new_acceptor-IsOrdered}
use dvactor.Accept.Steps.{Reach-IsOrdered}

-- One more call at the end of a run.
run-snoc :
    (cs : List Call) (c : Call) (st : NetServer) {r q : List Event × NetServer}
    → run cs st ≡ returns r
    → call c r.1 ≡ returns q
    → run (cs ++ (c ∷ [])) st ≡ returns (r.0 ++ q.0, q.1)
unfolding run
run-snoc [] c st {r} {q} e f =
    let same = returns-injective e in
    rw (← same)
      (run-cons c [] st (rw (← same) at f) refl ∙ ap (λ l. returns (l, q.1)) (append-nil q.0))
run-snoc (d ∷ cs) c st {r} {q} e f =
    let s : Splits d cs st r = run-Splits e in
    let g : call c s.others.1 ≡ returns q = rw s.all at f in
    run-cons d (cs ++ (c ∷ [])) st s.called (run-snoc cs c s.first.1 s.went_on g)
    ∙ ap (λ l. returns (l, q.1)) (sym (append_assoc s.first.0 s.others.0 q.0))
    ∙ ap (λ (t : List Event × NetServer). returns (t.0 ++ q.0, q.1)) (sym s.all)

-- A run with an accept in the middle.
record Parts (k : ℕ) (early late : List Call) (st : NetServer) (r : List Event × NetServer)
    : Type 0 where
  front : List Event × NetServer
  back : List Event × NetServer
  ran : run early st ≡ returns front
  went_on : run late (on_accept k front.1).1 ≡ returns back
  same : back.1 ≡ r.1

run-Parts :
    (k : ℕ) (early late : List Call) (st : NetServer) {r : List Event × NetServer}
    → run (early ++ (accepts k ∷ late)) st ≡ returns r
    → Parts k early late st r
unfolding run call
run-Parts k [] late st {r} e =
    let s : Splits (accepts k) late st r = run-Splits e in
    record {
      front = ([], st);
      back = s.others;
      ran = refl;
      went_on =
          ap (λ (t : List Event × NetServer). run late t.1) (returns-injective s.called)
          ∙ s.went_on;
      same = sym (ap (λ (t : List Event × NetServer). t.1) s.all);
    }
run-Parts k (c ∷ early) late st {r} e =
    let s : Splits c (early ++ (accepts k ∷ late)) st r = run-Splits e in
    let p = run-Parts k early late s.first.1 s.went_on in
    record {
      front = (s.first.0 ++ p.front.0, p.front.1);
      back = p.back;
      ran = run-cons c early st s.called p.ran;
      went_on = p.went_on;
      same = p.same ∙ sym (ap (λ (t : List Event × NetServer). t.1) s.all);
    }

Ran : Acceptor → Type 0
Ran a = run a.calls new_net_server ≡ returns (a.events, a.server)

Step-Ran : {a b : Acceptor} → Step a b → Ran a → Ran b
unfolding Ran listened got_conn accepted go_receiver go_sender stop
Step-Ran (listens none p) h = h
Step-Ran (listens (some err) p) h = h
Step-Ran (takes k p o new) h = h
Step-Ran (fails err p) h = h
Step-Ran {a} (calls_back k p e) h = run-snoc a.calls (accepts k) new_net_server h e
Step-Ran (starts_receiver k p) h = h
Step-Ran (starts_sender k p) h = h
Step-Ran {a} (receives before after k bytes e c) h =
    run-snoc a.calls (reads k bytes) new_net_server h c
Step-Ran {a} (ends_told before after k e c) h = run-snoc a.calls (loses k) new_net_server h c
Step-Ran (ends_silently before after k e) h = h
Step-Ran (sender_ends before after k e) h = h
Step-Ran stops h = h

Reach-Ran : {a b : Acceptor} → Reach a b → Ran a → Ran b
Reach-Ran here h = h
Reach-Ran (further r st) h = Step-Ran st (Reach-Ran r h)

new_acceptor-Ran : Ran new_acceptor
unfolding Ran run
new_acceptor-Ran = refl

accept_count-append :
    (xs ys : List Call) → accept_count (xs ++ ys) ≡ accept_count xs + accept_count ys
accept_count-append [] ys = omega arith
accept_count-append (accepts j ∷ xs) ys = omega (arith, accept_count-append xs ys)
accept_count-append (reads j bytes ∷ xs) ys = accept_count-append xs ys
accept_count-append (loses j ∷ xs) ys = accept_count-append xs ys

-- At every moment, if fewer than 2^32 connections were accepted, a connection whose receiver runs
-- was accepted and not lost, has its session in the manager under its id, and has no other
-- receiver.
pub receiver_has_session :
    {a : Acceptor} (before after : List ℕ) (k : ℕ)
    → Reach new_acceptor a
    → a.receivers ≡ before ++ (k ∷ after)
    → accept_count a.calls < 2 ^ 32
    → (phase k a.calls ≡ up)
      × (get_session (a.server.ids k) a.server.manager ≡ some k)
      × (times k (before ++ after) ≡ 0)
unfolding Ran
receiver_has_session {a} before after k r e h =
    let v = Reach-IsOrdered r new_acceptor-IsOrdered in
    let there : times k a.receivers ≡ times k (before ++ after) + 1 = ground (
      arith,
      ap (times k) e,
      times-append k before (k ∷ after),
      times-append k before after,
      (==_iff k k).1 refl,
    ) in
    let is_up = v.open_yet k (omega (arith, there)) in
    let s = phase-Accepted k a.calls is_up in
    let ran = Reach-Ran r new_acceptor-Ran in
    let p =
      run-Parts k s.early s.late new_net_server
        (sym (ap (λ cs. run cs new_net_server) s.split) ∙ ran) in
    let found = session_found k s.early s.late p.ran p.went_on s.since (
      omega
        (arith, h, ap accept_count s.split, accept_count-append s.early (accepts k ∷ s.late))) in
    (
      is_up,
      subst (λ (st : NetServer). get_session (st.ids k) st.manager ≡ some k) p.same found.0,
      omega (arith, there, v.placed k, v.once k),
    )
