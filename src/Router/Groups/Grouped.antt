-- ===== src/Router/Groups/Grouped.antt =====
-- The map from systems to receivers that `Router.Router` builds: its groups hold each reference of
-- the list once, under its system and in order.
use dvactor.Base.{
  ℕ, ◌≡◌, refl, subst, ap, sym, ◌∙◌, inl, inr, true, false, none, some, List, [], ◌∷◌, ◌++◌, arith,
  ◌==◌, ==_iff, if◌then◌else◌, Bool-cases, append-nil, append_assoc, returns, returns-injective,
}
use dvactor.Base.Maps.{lookup, insert, lookup-miss, insert-miss, nat_eq}
use dvactor.Vactor.{Ref}
use dvactor.Router.{or_empty, append_at}
use dvactor.Router.Groups.{Groups, group_refs}

-- The references of a list that live on a system, in order.
abbrev pub on_system : ℕ → List Ref → List Ref
on_system x [] = []
on_system x (none ∷ refs) = on_system x refs
on_system x (some a ∷ refs) = (if a.system_id == x then some a ∷ [] else []) ++ on_system x refs

-- The references of all groups of a system.
abbrev pub entries : ℕ → Groups → List Ref
entries x [] = []
entries x ((system_id, refs) ∷ groups) = (if system_id == x then refs else []) ++ entries x groups

-- Each key once.
abbrev Fresh : ℕ → Groups → Type 0
Fresh k [] = Unit {0}
Fresh k ((j, refs) ∷ m) = ((j == k) ≡ false) × Fresh k m

abbrev Unique : Groups → Type 0
Unique [] = Unit {0}
Unique ((j, refs) ∷ m) = Fresh j m × Unique m

entries-Fresh : (x : ℕ) (m : Groups) → Fresh x m → entries x m ≡ []
entries-Fresh x [] h = refl
entries-Fresh x ((j, refs) ∷ m) h = rw h.0 (entries-Fresh x m h.1)

Fresh-insert :
    (k j : ℕ) (refs : List Ref) (m : Groups)
    → (j == k) ≡ false
    → Fresh k m
    → Fresh k (insert j refs m)
Fresh-insert k j refs [] e h = (e, tt)
Fresh-insert k j refs ((i, old) ∷ m) e h = elim (Bool-cases (i == j)) [
  | inl c ↦ rw c h
  | inr c ↦ rw c (h.0, Fresh-insert k j refs m e h.1)
]

Unique-insert : (j : ℕ) (refs : List Ref) (m : Groups) → Unique m → Unique (insert j refs m)
Unique-insert j refs [] h = (tt, tt)
Unique-insert j refs ((i, old) ∷ m) h = elim (Bool-cases (i == j)) [
  | inl c ↦ rw c h
  | inr c ↦ rw c (Fresh-insert i j refs m (ground arith) h.0, Unique-insert j refs m h.1)
]

entries-append_at :
    (x k : ℕ) (a : Ref) (m : Groups)
    → Unique m
    → entries x (append_at k a m) ≡ entries x m ++ (if k == x then a ∷ [] else [])
entries-append_at x k a [] h = append-nil (if k == x then a ∷ [] else [])
entries-append_at x k a ((j, refs) ∷ m) h = elim (Bool-cases (j == k)) [
  | inl e ↦ rw e (hit e)
  | inr e ↦
      ap (λ o. entries x (insert k (or_empty o ++ (a ∷ [])) ((j, refs) ∷ m)))
        (lookup-miss k j refs m e)
      ∙ ap (entries x) (insert-miss k j (or_empty (lookup k m) ++ (a ∷ [])) refs m e)
      ∙ ap (λ l. (if j == x then refs else []) ++ l) (entries-append_at x k a m h.1)
      ∙ sym (append_assoc (if j == x then refs else []) (entries x m) _)
]
  where
    hit :
        (j == k) ≡ true
        → (if j == x then refs ++ (a ∷ []) else []) ++ entries x m
          ≡ ((if j == x then refs else []) ++ entries x m) ++ (if k == x then a ∷ [] else [])
    hit e = elim (Bool-cases (k == x)) [
      | inl f ↦
          let jx : (j == x) ≡ true = ground (arith, e, f) in
          let left = entries-Fresh x m (subst (λ t. Fresh t m) ((==_iff j x).0 jx) h.0) in
          rw (jx, f, left)
            (append-nil (refs ++ (a ∷ [])) ∙ ap (λ l. l ++ (a ∷ [])) (sym (append-nil refs)))
      | inr f ↦
          let jx : (j == x) ≡ false = ground (arith, e, f) in
          rw (jx, f) (sym (append-nil (entries x m)))
    ]

pub group_refs-entries :
    (x : ℕ) (refs : List Ref) (m : Groups) {g : Groups}
    → Unique m
    → group_refs refs m ≡ returns g
    → entries x g ≡ entries x m ++ on_system x refs
unfolding group_refs
group_refs-entries x [] m u e =
    ap (entries x) (sym (returns-injective e)) ∙ sym (append-nil (entries x m))
group_refs-entries x (none ∷ refs) m u e = cc
group_refs-entries x (some a ∷ refs) m u e =
    group_refs-entries x refs (append_at a.system_id (some a) m) (Unique-insert a.system_id _ m u) e
    ∙ ap (λ l. l ++ on_system x refs) (entries-append_at x a.system_id (some a) m u)
    ∙ append_assoc (entries x m) _ (on_system x refs)
