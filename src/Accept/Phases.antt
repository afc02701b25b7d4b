-- ===== src/Accept/Phases.antt =====
-- The life of a connection in the calls that a server gets.
use dvactor.Base.{
  ℕ, ◌≡◌, ◌≢◌, inl, inr, refl, ap, sym, ◌∙◌, false, List, [], ◌∷◌, ◌++◌, if◌then◌else◌, ◌==◌,
  ==_iff, at_same, Bool-cases,
}
use dvactor.Net.{Call, accepts, reads, loses}
use dvactor.Net.Found.{starts_or_ends_in}

-- The life of a connection as the server sees it: not accepted, accepted, lost; or called out of
-- order.
pub data Phase : Type 0 where
  unknown : Phase
  up : Phase
  over : Phase
  wrong : Phase

-- What a call for the connection itself makes of it.
abbrev pub after_call : Call → Phase → Phase
after_call (accepts j) unknown = up
after_call (reads j bytes) up = up
after_call (loses j) up = over
after_call c p = wrong

abbrev pub conn_of : Call → ℕ
conn_of (accepts j) = j
conn_of (reads j bytes) = j
conn_of (loses j) = j

abbrev pub advance : ℕ → Call → Phase → Phase
advance k c p = if conn_of c == k then after_call c p else p

abbrev pub phase_from : ℕ → Phase → List Call → Phase
phase_from k p [] = p
phase_from k p (c ∷ cs) = phase_from k (advance k c p) cs

abbrev pub phase : ℕ → List Call → Phase
phase k cs = phase_from k unknown cs

phase_from-snoc :
    (k : ℕ) (p : Phase) (cs : List Call) (c : Call)
    → phase_from k p (cs ++ (c ∷ [])) ≡ advance k c (phase_from k p cs)
phase_from-snoc k p [] c = refl
phase_from-snoc k p (d ∷ cs) c = phase_from-snoc k (advance k d p) cs c

pub phase-called :
    (c : Call) (cs : List Call) (p : Phase) (i : ℕ)
    → phase (conn_of c) cs ≡ p
    → phase i (cs ++ (c ∷ [])) ≡ (if conn_of c == i then after_call c p else phase i cs)
phase-called c cs p i e = phase_from-snoc i unknown cs c ∙ elim (Bool-cases (conn_of c == i)) [
  | inl b ↦ rw b (ap (after_call c) (sym (at_same (λ x. phase x cs) (conn_of c) i b) ∙ e))
  | inr b ↦ rw b
]

-- A connection that was lost or called out of order is not up again.
data IsDown : Phase → Type 0 where
  lost : IsDown over
  misused : IsDown wrong

after_call-IsDown : (c : Call) {p : Phase} → IsDown p → IsDown (after_call c p)
after_call-IsDown (accepts j) lost = misused
after_call-IsDown (reads j bytes) lost = misused
after_call-IsDown (loses j) lost = misused
after_call-IsDown (accepts j) misused = misused
after_call-IsDown (reads j bytes) misused = misused
after_call-IsDown (loses j) misused = misused

advance-IsDown : (k : ℕ) (c : Call) {p : Phase} → IsDown p → IsDown (advance k c p)
advance-IsDown k c h = elim (Bool-cases (conn_of c == k)) [
  | inl e ↦ rw e (after_call-IsDown c h)
  | inr e ↦ rw e h
]

IsDown-ne-up : {p : Phase} → IsDown p → p ≢ up
IsDown-ne-up lost e = cc
IsDown-ne-up misused e = cc

IsDown-stays : (k : ℕ) (p : Phase) (cs : List Call) → IsDown p → phase_from k p cs ≢ up
IsDown-stays k p [] h e = IsDown-ne-up h e
IsDown-stays k p (c ∷ cs) h e = IsDown-stays k (advance k c p) cs (advance-IsDown k c h) e

-- A connection that stays up is not accepted again, nor lost.
up_stays : (k : ℕ) (cs : List Call) → phase_from k up cs ≡ up → starts_or_ends_in k cs ≡ false
up_stays k [] e = refl
up_stays k (accepts j ∷ cs) e = elim (Bool-cases (j == k)) [
  | inl m ↦ absurd (IsDown-stays k wrong cs misused (rw m at e))
  | inr m ↦ rw m (up_stays k cs (rw m at e))
]
up_stays k (reads j bytes ∷ cs) e = elim (Bool-cases (j == k)) [
  | inl m ↦ up_stays k cs (rw m at e)
  | inr m ↦ up_stays k cs (rw m at e)
]
up_stays k (loses j ∷ cs) e = elim (Bool-cases (j == k)) [
  | inl m ↦ absurd (IsDown-stays k over cs lost (rw m at e))
  | inr m ↦ rw m (up_stays k cs (rw m at e))
]

-- The calls before a connection that is up was accepted, and those since.
pub record Accepted (k : ℕ) (cs : List Call) : Type 0 where
  pub early : List Call
  pub late : List Call
  pub split : cs ≡ early ++ (accepts k ∷ late)
  pub since : starts_or_ends_in k late ≡ false

later : {k : ℕ} {cs : List Call} (c : Call) → Accepted k cs → Accepted k (c ∷ cs)
later c s = record {
  early = c ∷ s.early;
  late = s.late;
  split = ap (λ l. c ∷ l) s.split;
  since = s.since;
}

pub phase-Accepted : (k : ℕ) (cs : List Call) → phase k cs ≡ up → Accepted k cs
phase-Accepted k [] e = cc
phase-Accepted k (accepts j ∷ cs) e = elim (Bool-cases (j == k)) [
  | inl m ↦ record {
    early = [];
    late = cs;
    split = ap (λ i. accepts i ∷ cs) ((==_iff j k).0 m);
    since = up_stays k cs (rw m at e);
  }
  | inr m ↦ later (accepts j) (phase-Accepted k cs (rw m at e))
]
phase-Accepted k (reads j bytes ∷ cs) e = elim (Bool-cases (j == k)) [
  | inl m ↦ absurd (IsDown-stays k wrong cs misused (rw m at e))
  | inr m ↦ later (reads j bytes) (phase-Accepted k cs (rw m at e))
]
phase-Accepted k (loses j ∷ cs) e = elim (Bool-cases (j == k)) [
  | inl m ↦ absurd (IsDown-stays k wrong cs misused (rw m at e))
  | inr m ↦ later (loses j) (phase-Accepted k cs (rw m at e))
]
