-- ===== src/Net/Apart.antt =====
-- The connections of a server do not mix.
use dvactor.Base.{
  ℕ, ◌≡◌, inl, inr, refl, sym, subst, false, List, [], ◌∷◌, ◌++◌, append_assoc, append-nil,
  if◌then◌else◌, ◌==◌, ==_iff, Bool-cases, arith, returns, returns-injective,
}
use dvactor.Packet.{Bytes, Frame, Stop, waiting, crashed, out_of_fuel, Drained, connected, receive}
use dvactor.Packet.Prefix.{receive_next, receive_nothing}
use dvactor.Net.{
  NetServer, Call, accepts, reads, loses, Event, on_accept, handed, on_lost, call, run,
}
use dvactor.Net.Own.{
  messages, messages-append, chunks_of, accepted, chunks_other, Splits, run-Splits, call_same,
  is_for, call_other,
}

accept_empty : (k : ℕ) (st : NetServer) → (on_accept k st).1.splitters k ≡ []
unfolding on_accept
accept_empty k st = ground arith

-- Connection `k` has handed over `fs` and holds the bytes of its splitter.
abbrev at_work : ℕ → List Frame → NetServer → Drained
at_work k fs st = record { frames = fs; stop = waiting (st.splitters k) }

module _ (k : ℕ) where
  Follows : List Call → Type 0
  Follows cs =
      (st : NetServer) (fs : List Frame) (r : List Event × NetServer)
      → run cs st ≡ returns r
      → receive (at_work k fs st) (chunks_of k cs) ≡ at_work k (fs ++ messages k r.0) r.1

  other-Follows : (c : Call) (cs : List Call) → is_for k c ≡ false → Follows cs → Follows (c ∷ cs)
  unfolding Follows
  other-Follows c cs h f st fs r e =
      let s = run-Splits e in
      let (m, q) = call_other k c st h s.called in
      rw (chunks_other k c cs h, s.all, messages-append k s.first.0 s.others.0, m)
        (rw q at (f s.first.1 fs s.others s.went_on))

  reads-Follows : (bytes : Bytes) (cs : List Call) → Follows cs → Follows (reads k bytes ∷ cs)
  unfolding Follows
  reads-Follows bytes cs f st fs r e =
      let s = run-Splits e in
      let d = call_same k bytes st s.called in
      rw
        (
          (==_iff k k).1 refl,
          receive_next fs (st.splitters k) bytes (chunks_of k cs),
          d,
          s.all,
          messages-append k s.first.0 s.others.0,
          ← append_assoc,
        )
        (f s.first.1 (fs ++ messages k s.first.0) s.others s.went_on)

  run-Follows : (cs : List Call) → accepted k cs ≡ false → Follows cs
  unfolding Follows run is_for
  run-Follows [] h = λ st fs r e.
      let same = returns-injective e in
      rw (← same) (rw append-nil (receive_nothing (at_work k fs st)))
  run-Follows (accepts j ∷ cs) h =
      other-Follows (accepts j) cs (ground (arith, h)) (run-Follows cs (ground (arith, h)))
  run-Follows (reads j bytes ∷ cs) h = elim (Bool-cases (j == k)) [
    | inl e ↦
        subst (λ (i : ℕ). Follows (reads i bytes ∷ cs)) (sym ((==_iff j k).0 e))
          (reads-Follows bytes cs (run-Follows cs h))
    | inr e ↦ other-Follows (reads j bytes) cs e (run-Follows cs h)
  ]
  run-Follows (loses j ∷ cs) h = other-Follows (loses j) cs refl (run-Follows cs h)

-- The calls of one connection.
abbrev of_call : Call → ℕ
of_call (accepts j) = j
of_call (reads j bytes) = j
of_call (loses j) = j

abbrev pub calls_of : ℕ → List Call → List Call
calls_of k [] = []
calls_of k (c ∷ cs) = let rest = calls_of k cs in if of_call c == k then c ∷ rest else rest

Returns : List Call → NetServer → Type 0
Returns cs st = (r : List Event × NetServer) × (run cs st ≡ returns r)

handed-again :
    (k : ℕ) (gs : List Frame) (stop : Stop) (st su : NetServer) {p : List Event × NetServer}
    → handed k gs stop st ≡ returns p
    → (q : List Event × NetServer) × (handed k gs stop su ≡ returns q)
      × (q.1.splitters k ≡ p.1.splitters k)
unfolding handed
handed-again k gs (waiting rest) st su e = (_, refl, rw (← returns-injective e) (ground arith))
handed-again k gs crashed st su e = cc
handed-again k gs out_of_fuel st su e = cc

-- Whether a call panics is a matter of the splitter of its connection.
call-again :
    (c : Call) (st su : NetServer) {p : List Event × NetServer}
    → su.splitters (of_call c) ≡ st.splitters (of_call c)
    → call c st ≡ returns p
    → (q : List Event × NetServer) × (call c su ≡ returns q)
      × (q.1.splitters (of_call c) ≡ p.1.splitters (of_call c))
unfolding call on_accept on_lost
call-again (accepts j) st su h e = (_, refl, rw (← returns-injective e) (ground arith))
call-again (reads j bytes) st su h e = rw h (handed-again j _ _ st su e)
call-again (loses j) st su h e = (_, refl, rw (← returns-injective e) h)

call_apart :
    (k : ℕ) (c : Call) (st : NetServer) {p : List Event × NetServer}
    → (of_call c == k) ≡ false
    → call c st ≡ returns p
    → p.1.splitters k ≡ st.splitters k
unfolding is_for
call_apart k (accepts j) st h e = (call_other k (accepts j) st h e).1
call_apart k (reads j bytes) st h e = (call_other k (reads j bytes) st h e).1
call_apart k (loses j) st h e = (call_other k (loses j) st refl e).1

pub run-cons :
    (c : Call) (cs : List Call) (st : NetServer) {q t : List Event × NetServer}
    → call c st ≡ returns q
    → run cs q.1 ≡ returns t
    → run (c ∷ cs) st ≡ returns (q.0 ++ t.0, t.1)
unfolding run
run-cons c cs st e f = rw (e, f) refl

run-again :
    (k : ℕ) (cs : List Call) (st su : NetServer)
    → su.splitters k ≡ st.splitters k
    → Returns (calls_of k cs) st
    → Returns (calls_of k cs) su
unfolding Returns run
run-again k [] st su h r = (([], su), refl)
run-again k (c ∷ cs) st su h (r, e) = elim (Bool-cases (of_call c == k)) [
  | inl b ↦
      let mine : of_call c ≡ k = (==_iff (of_call c) k).0 b in
      let s : Splits c (calls_of k cs) st r = run-Splits (rw b at e) in
      let (q, f, g) =
        call-again c st su (subst (λ (i : ℕ). su.splitters i ≡ st.splitters i) (sym mine) h)
          s.called in
      let g' = subst (λ (i : ℕ). q.1.splitters i ≡ s.first.1.splitters i) mine g in
      let (t, i) = run-again k cs s.first.1 q.1 g' (s.others, s.went_on) in
      rw b ((q.0 ++ t.0, t.1), run-cons c (calls_of k cs) su f i)
  | inr b ↦ rw b (run-again k cs st su h (r, rw b at e))
]

run-Returns :
    (cs : List Call) (st : NetServer) → ((k : ℕ) → Returns (calls_of k cs) st) → Returns cs st
unfolding Returns run
run-Returns [] st a = (([], st), refl)
run-Returns (c ∷ cs) st a =
    let (r, e) = a (of_call c) in
    let s : Splits c (calls_of (of_call c) cs) st r =
      run-Splits (rw ((==_iff (of_call c) (of_call c)).1 refl) at e) in
    let (t, f) = run-Returns cs s.first.1 (λ k. elim (Bool-cases (of_call c == k)) [
      | inl b ↦
          subst (λ (i : ℕ). Returns (calls_of i cs) s.first.1) ((==_iff (of_call c) k).0 b)
            (s.others, s.went_on)
      | inr b ↦ run-again k cs st s.first.1 (call_apart k c st b s.called) (rw b at (a k))
    ]) in
    ((s.first.0 ++ t.0, t.1), run-cons c cs st s.called f)

-- The connections of a server do not mix: whatever calls come from all connections in whatever
-- order, from the moment at which connection `k` is accepted, if the calls of each connection alone
-- do not panic, then all of them together do not, the messages handed over with the session of `k`
-- are those that its own reads give, and its splitter holds what they leave.
pub sessions_apart :
    (k : ℕ) (cs : List Call) (st : NetServer)
    → accepted k cs ≡ false
    → ((j : ℕ)
        → (r : List Event × NetServer) × (run (calls_of j cs) (on_accept k st).1 ≡ returns r))
    → (r : List Event × NetServer) × (run cs (on_accept k st).1 ≡ returns r)
      × (receive connected (chunks_of k cs)
          ≡ record { frames = messages k r.0; stop = waiting (r.1.splitters k) })
unfolding Follows Returns
sessions_apart k cs st h a =
    let (r, e) = run-Returns cs (on_accept k st).1 a in
    (r, e, rw (accept_empty k st) at (run-Follows k cs h (on_accept k st).1 [] r e))
