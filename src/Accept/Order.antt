-- ===== src/Accept/Order.antt =====
-- What holds of the calls at every moment, and what keeps it.
use dvactor.Base.{
  ℕ, ◌+◌, ◌≤◌, ◌<◌, ◌≡◌, ◌≢◌, inl, inr, refl, ap, sym, ◌∙◌, true, false, List, [], ◌∷◌, ◌++◌,
  if◌then◌else◌, ◌==◌, at_same, Bool-cases, arith,
}
use dvactor.Net.{Call}
use dvactor.Accept.{Place, accepting, calling, receiving, Acceptor, new_acceptor, got_conn, times}
use dvactor.Accept.Phases.{Phase, unknown, up, wrong, after_call, conn_of, phase, phase-called}

pub times-append : (k : ℕ) (xs ys : List ℕ) → times k (xs ++ ys) ≡ times k xs + times k ys
times-append k [] ys = omega arith
times-append k (x ∷ xs) ys = omega (arith, times-append k xs ys)

-- The connection that waits for `onAcceptFunc`, and the one that has no receiver yet.
abbrev pub waiting : Place → List ℕ
waiting (calling k) = k ∷ []
waiting p = []

abbrev pub ready : Place → List ℕ
ready (receiving k) = k ∷ []
ready p = []

-- How often a connection can still call, and be called for.
abbrev pub live : ℕ → Acceptor → ℕ
live k a = times k (ready a.place) + times k a.receivers

pub record IsOrdered (a : Acceptor) : Type 0 where
  pub once : (k : ℕ) → times k a.made ≤ 1
  pub placed : (k : ℕ) → times k (waiting a.place) + live k a ≤ times k a.made
  pub unseen : (k : ℕ) → times k a.made ≡ times k (waiting a.place) → phase k a.calls ≡ unknown
  pub open_yet : (k : ℕ) → 0 < live k a → phase k a.calls ≡ up
  pub in_order : (k : ℕ) → phase k a.calls ≢ wrong

pub new_acceptor-IsOrdered : IsOrdered new_acceptor
new_acceptor-IsOrdered = record {
  once = λ k. omega arith;
  placed = λ k. omega arith;
  unseen = λ k e. refl;
  open_yet = λ k h. absurd (omega (arith, h));
  in_order = λ k e. cc;
}

-- A step that changes neither the calls nor the connections made, and adds no receiver.
pub same_calls :
    {a b : Acceptor}
    → b.calls ≡ a.calls
    → b.made ≡ a.made
    → ((k : ℕ) → times k (waiting b.place) ≡ times k (waiting a.place))
    → ((k : ℕ) → live k b ≤ live k a)
    → IsOrdered a
    → IsOrdered b
same_calls c m w l v = record {
  once = λ k. rw m (v.once k);
  placed = λ k. rw m (omega (arith, v.placed k, w k, l k));
  unseen = λ k e. rw c (v.unseen k (omega (arith, e, w k, ap (times k) m)));
  open_yet = λ k h. rw c (v.open_yet k (omega (arith, h, l k)));
  in_order = λ k. rw c (v.in_order k);
}

pub takes-IsOrdered :
    {a : Acceptor} (k : ℕ)
    → a.place ≡ accepting
    → times k a.made ≡ 0
    → IsOrdered a
    → IsOrdered (got_conn a k)
unfolding got_conn
takes-IsOrdered {a} k p new v =
    let at : (i : ℕ) → (k == i) ≡ true → times i a.made ≡ 0 =
      λ i e. sym (at_same (λ x. times x a.made) k i e) ∙ new in
    record {
      once = λ i. ground (arith, v.once i, at i);
      placed = λ i.
          ground
            (arith, v.placed i, ap (λ q. times i (waiting q)) p, ap (λ q. times i (ready q)) p);
      unseen = λ i e. v.unseen i (ground (arith, e, ap (λ q. times i (waiting q)) p));
      open_yet = λ i h. v.open_yet i (omega (arith, h, ap (λ q. times i (ready q)) p));
      in_order = v.in_order;
    }

-- What a call `c` for a connection of phase `p` leaves: it may wait and be served as before at most,
-- and no other connection is touched.
pub record Calls (a b : Acceptor) (c : Call) (p : Phase) : Type 0 where
  pub called : b.calls ≡ a.calls ++ (c ∷ [])
  pub same_made : b.made ≡ a.made
  pub before : phase (conn_of c) a.calls ≡ p
  pub proper : after_call c p ≢ wrong
  pub total : (k : ℕ) → times k (waiting b.place) + live k b ≤ times k (waiting a.place) + live k a
  pub waits :
      (k : ℕ) → (conn_of c == k) ≡ false → times k (waiting b.place) ≡ times k (waiting a.place)
  pub lives : (k : ℕ) → live k b ≤ live k a + (if conn_of c == k then 1 else 0)
  pub seen : times (conn_of c) a.made ≢ times (conn_of c) (waiting b.place)
  pub still : 0 < live (conn_of c) b → after_call c p ≡ up

pub Calls-IsOrdered :
    {a b : Acceptor} {c : Call} {p : Phase} → Calls a b c p → IsOrdered a → IsOrdered b
Calls-IsOrdered {a} {b} {c} {p} s v =
    let k = conn_of c in
    let at : (i : ℕ) → phase i b.calls ≡ (if k == i then after_call c p else phase i a.calls) =
      λ i. ap (phase i) s.called ∙ phase-called c a.calls p i s.before in
    record {
      once = λ i. omega (arith, v.once i, ap (times i) s.same_made);
      placed = λ i. omega (arith, v.placed i, s.total i, ap (times i) s.same_made);
      unseen = λ i e. elim (Bool-cases (k == i)) [
        | inl m ↦ absurd (
            s.seen (
              omega (
                arith,
                e,
                ap (times i) s.same_made,
                at_same (λ x. times x a.made) k i m,
                at_same (λ x. times x (waiting b.place)) k i m,
              )))
        | inr m ↦
            rw (at i, m) (v.unseen i (omega (arith, e, s.waits i m, ap (times i) s.same_made)))
      ];
      open_yet = λ i h. elim (Bool-cases (k == i)) [
        | inl m ↦ rw (at i, m) (s.still (omega (arith, h, at_same (λ x. live x b) k i m)))
        | inr m ↦ rw (at i, m) (v.open_yet i (ground (arith, h, s.lives i)))
      ];
      in_order = λ i. elim (Bool-cases (k == i)) [
        | inl m ↦ rw (at i, m) s.proper
        | inr m ↦ rw (at i, m) (v.in_order i)
      ];
    }
