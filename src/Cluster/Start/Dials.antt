-- ===== src/Cluster/Start/Dials.antt =====
-- Who dials whom.
use dvactor.Base.{
  ℕ, suc, ◌+◌, ◌≤◌, ◌<◌, ◌≡◌, refl, ap, ◌∙◌, inl, inr, Bool, true, false, not, ◌||◌, none, List, [],
  ◌∷◌, length, ◌==◌, ==_iff, if◌then◌else◌, Bool-cases, arith,
}
use dvactor.Base.Maps.{lookup, insert, lookup-insert, nat_eq}
use dvactor.Ring.{ℤ, pos}
use dvactor.Wire.Link.{SystemInfo, Infos, scan}
use dvactor.Wire.Passive.{occurs, distinct, starting, lookup-scan_absent, lookup-scan_after}
use dvactor.Cluster.Start.{index_from, at_local, dial_loop}

-- The systems before the first `x`.
abbrev pub before : ℕ → List ℕ → List ℕ
before x [] = []
before x (id ∷ ids) = let rest = before x ids in if id == x then [] else id ∷ rest

-- The index of a system that is in the list.
index_from-occurs :
    (x k : ℕ) (ids : List ℕ)
    → occurs x ids ≡ true
    → (j : ℕ) × (index_from x k ids ≡ pos j) × (k ≤ j)
unfolding index_from
index_from-occurs x k [] h = cc
index_from-occurs x k (id ∷ ids) h = elim (Bool-cases (id == x)) [
  | inl e ↦ (k, rw e, omega arith)
  | inr e ↦
      let (j, f, l) = index_from-occurs x (k + 1) ids (ground (arith, h, e)) in
      (j, rw e f, omega arith)
]

at_local_later : (k j : ℕ) → k < j → at_local k (pos j) ≡ false
unfolding at_local
at_local_later k j h = ground arith

at_local_now : (k : ℕ) → at_local k (pos k) ≡ true
unfolding at_local
at_local_now k = ground arith

==_comm : (a b : ℕ) → (a == b) ≡ (b == a)
==_comm a b = ground arith

-- One round of the loop.
dial_loop_on :
    (l : ℤ) (k id : ℕ) (ids : List ℕ)
    → at_local k l ≡ false
    → dial_loop l k (id ∷ ids) ≡ id ∷ dial_loop l (k + 1) ids
unfolding dial_loop
dial_loop_on l k id ids h = rw h

dial_loop_off :
    (l : ℤ) (k id : ℕ) (ids : List ℕ) → at_local k l ≡ true → dial_loop l k (id ∷ ids) ≡ []
unfolding dial_loop
dial_loop_off l k id ids h = rw h

index_from_miss :
    (x k id : ℕ) (ids : List ℕ)
    → (id == x) ≡ false
    → index_from x k (id ∷ ids) ≡ index_from x (k + 1) ids
unfolding index_from
index_from_miss x k id ids e = rw e

index_from_hit : (x k id : ℕ) (ids : List ℕ) → (id == x) ≡ true → index_from x k (id ∷ ids) ≡ pos k
unfolding index_from
index_from_hit x k id ids e = rw e

pub dial_loop-before :
    (x k : ℕ) (ids : List ℕ)
    → occurs x ids ≡ true
    → dial_loop (index_from x k ids) k ids ≡ before x ids
dial_loop-before x k [] h = cc
dial_loop-before x k (id ∷ ids) h = elim (Bool-cases (id == x)) [
  | inl e ↦ rw (index_from_hit x k id ids e, e) (dial_loop_off (pos k) k id ids (at_local_now k))
  | inr e ↦
      let (j, f, l) = index_from-occurs x (k + 1) ids (ground (arith, h, e)) in
      rw (index_from_miss x k id ids e, e)
        (dial_loop_on (index_from x (k + 1) ids) k id ids
            (rw f (at_local_later k j (omega (arith, l))))
          ∙ ap (λ r. id ∷ r) (dial_loop-before x (k + 1) ids (ground (arith, h, e))))
]

pub lookup-scan-before :
    (x y : ℕ) (ids : List ℕ) (infos : Infos)
    → occurs x ids ≡ true
    → occurs y ids ≡ true
    → distinct ids ≡ true
    → lookup y (scan x false ids infos) ≡ starting (occurs y (before x ids))
unfolding scan
lookup-scan-before x y [] infos o h d = cc
lookup-scan-before x y (id ∷ ids) infos o h d = elim (Bool-cases (id == x)) [
  | inl e ↦ elim (Bool-cases (id == y)) [
    | inl f ↦
        rw (e, ==_comm x id, e)
          (lookup-scan_absent x y true ids (insert id _ infos) (ground (arith, ==_iff id y, f, d))
            ∙ ground (arith, lookup-insert id y (info false) infos, f))
    | inr f ↦
        rw (e, ==_comm x id, e)
          (lookup-scan_after x y ids (insert id _ infos) (ground (arith, h, f)) (ground (arith, d)))
  ]
  | inr e ↦ elim (Bool-cases (id == y)) [
    | inl f ↦
        rw (e, ==_comm x id, e)
          (lookup-scan_absent x y false ids (insert id _ infos) (ground (arith, ==_iff id y, f, d))
            ∙ ground (arith, lookup-insert id y (info true) infos, f))
    | inr f ↦
        rw (e, ==_comm x id, e, f)
          (lookup-scan-before x y ids (insert id _ infos) (ground (arith, o, e))
            (ground (arith, h, f)) (ground (arith, d)))
  ]
]
  where
    info : Bool → SystemInfo
    info b = record { passive = b; session = none; cli = none }

occurs_pos : (x : ℕ) (ids : List ℕ) → occurs x ids ≡ true → 0 < length ids
occurs_pos x [] h = cc
occurs_pos x (id ∷ ids) h = omega arith

-- A system that is dialled stands before the one that dials, so not last.
pub before-has_server :
    (x y k : ℕ) (ids : List ℕ)
    → occurs y ids ≡ true
    → occurs x (before y ids) ≡ true
    → (j : ℕ) × (index_from x k ids ≡ pos j) × (suc j < k + length ids)
before-has_server x y k [] h b = cc
before-has_server x y k (id ∷ ids) h b = elim (Bool-cases (id == y)) [
  | inl e ↦ ground (arith, b, e)
  | inr e ↦ elim (Bool-cases (id == x)) [
    | inl f ↦
        (k, index_from_hit x k id ids f, omega (arith, occurs_pos y ids (ground (arith, h, e))))
    | inr f ↦
        let (j, g, l) =
          before-has_server x y (k + 1) ids (ground (arith, h, e)) (ground (arith, b, e, f)) in
        (j, index_from_miss x k id ids f ∙ g, omega (arith, l))
  ]
]

length-insert_absent :
    (id : ℕ) (info : SystemInfo) (infos : Infos)
    → lookup id infos ≡ none
    → length (insert id info infos) ≡ suc (length infos)
length-insert_absent id info [] h = refl
length-insert_absent id info ((j, x) ∷ infos) h =
    ground (arith, length-insert_absent id info infos, h)

pub length-scan :
    (x : ℕ) (b : Bool) (ids : List ℕ) (infos : Infos)
    → distinct ids ≡ true
    → ((id : ℕ) → occurs id ids ≡ true → lookup id infos ≡ none)
    → length (scan x b ids infos) ≡ length infos + length ids
unfolding scan
length-scan x b [] infos d h = omega arith
length-scan x b (id ∷ ids) infos d h = omega (
  arith,
  length-scan x (b || x == id) ids (insert id new infos) (ground (arith, d))
      (λ i o. lookup-insert id i new infos ∙ ground (arith, d, o, h i, ==_iff id i)),
  length-insert_absent id new infos (h id (ground arith)),
)
  where
    new : SystemInfo
    new = record { passive = not (b || x == id); session = none; cli = none }
