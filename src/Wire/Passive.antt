-- ===== src/Wire/Passive.antt =====
-- `NewClusterNet` on both ends of a connection: who connects and who waits.
use dvactor.Base.{
  ℕ, ◌≡◌, ◌≢◌, refl, sym, subst, ◌∙◌, inl, inr, Bool, true, false, not, ◌||◌, ◌&&◌, Option, none,
  some, List, [], ◌∷◌, arith, ◌==◌, ==_iff, Bool-cases,
}
use dvactor.Base.Maps.{lookup, insert, lookup-insert, nat_eq}
use dvactor.Wire.Link.{SystemInfo, Infos, scan, new_cluster_net}

abbrev pub occurs : ℕ → List ℕ → Bool
occurs x [] = false
occurs x (id ∷ ids) = id == x || occurs x ids

-- No system is listed twice.
abbrev pub distinct : List ℕ → Bool
distinct [] = true
distinct (id ∷ ids) = not (occurs id ids) && distinct ids

-- An entry of the table when the process starts.
abbrev pub starting : Bool → Option SystemInfo
starting passive = some (record { passive = passive; session = none; cli = none })

pub lookup-scan_absent :
    (x y : ℕ) (b : Bool) (ids : List ℕ) (infos : Infos)
    → occurs y ids ≡ false
    → lookup y (scan x b ids infos) ≡ lookup y infos
unfolding scan
lookup-scan_absent x y b [] infos h = refl
lookup-scan_absent x y b (id ∷ ids) infos h =
    let found = b || x == id in
    let info : SystemInfo = record { passive = not found; session = none; cli = none } in
    lookup-scan_absent x y found ids (insert id info infos) (ground (arith, h))
    ∙ ground (arith, lookup-insert id y info infos, h)

-- Every system after the local one is not passive.
pub lookup-scan_after :
    (x y : ℕ) (ids : List ℕ) (infos : Infos)
    → occurs y ids ≡ true
    → distinct ids ≡ true
    → lookup y (scan x true ids infos) ≡ starting false
unfolding scan
lookup-scan_after x y [] infos h d = cc
lookup-scan_after x y (id ∷ ids) infos h d =
    let info : SystemInfo = record { passive = false; session = none; cli = none } in
    elim (Bool-cases (id == y)) [
      | inl e ↦
          lookup-scan_absent x y true ids (insert id info infos) (ground (arith, ==_iff id y, e, d))
          ∙ ground (arith, lookup-insert id y info infos, e)
      | inr e ↦
          lookup-scan_after x y ids (insert id info infos) (ground (arith, h, e))
            (ground (arith, d))
    ]

pub ==_flip : (a b : ℕ) → (a == b) ≡ false → (b == a) ≡ false
==_flip a b e = ground arith

-- What the two ends hold of each other: one passive, one not.
abbrev pub IsOpposed : Option SystemInfo → Option SystemInfo → Type 0
IsOpposed o p = (b : Bool) × (o ≡ starting b) × (p ≡ starting (not b))

-- The first of the two in the list is `x`.
first-IsOpposed :
    (x y : ℕ) (ids : List ℕ) (infos others : Infos)
    → (x == y) ≡ false
    → occurs y ids ≡ true
    → occurs x ids ≡ false
    → distinct ids ≡ true
    → (lookup y (scan x false (x ∷ ids) infos) ≡ starting false)
      × (lookup x (scan y false (x ∷ ids) others) ≡ starting true)
unfolding scan
first-IsOpposed x y ids infos others n h k d =
    let info : SystemInfo = record { passive = true; session = none; cli = none } in
    (
      rw ((==_iff x x).1 refl) (lookup-scan_after x y ids (insert x _ infos) h d),
      rw (==_flip x y n) (
          lookup-scan_absent y x false ids (insert x info others) k
          ∙ (lookup-insert x x info others ∙ rw ((==_iff x x).1 refl))),
    )

scan-IsOpposed :
    (x y : ℕ) (ids : List ℕ) (infos others : Infos)
    → (x == y) ≡ false
    → occurs x ids ≡ true
    → occurs y ids ≡ true
    → distinct ids ≡ true
    → IsOpposed (lookup y (scan x false ids infos)) (lookup x (scan y false ids others))
unfolding scan
scan-IsOpposed x y [] infos others n h k d = cc
scan-IsOpposed x y (id ∷ ids) infos others n h k d = elim (Bool-cases (id == x)) [
  | inl e ↦
      let (a, b) =
        first-IsOpposed x y ids infos others n (ground (arith, e, n, k)) (ground (arith, e, d))
          (ground (arith, d)) in
      subst
        (λ i.
          IsOpposed (lookup y (scan x false (i ∷ ids) infos))
            (lookup x (scan y false (i ∷ ids) others)))
        (sym ((==_iff id x).0 e)) (false, a, b)
  | inr e ↦ elim (Bool-cases (id == y)) [
    | inl f ↦
        let (a, b) =
          first-IsOpposed y x ids others infos (==_flip x y n) (ground (arith, e, h))
            (ground (arith, f, d)) (ground (arith, d)) in
        subst
          (λ i.
            IsOpposed (lookup y (scan x false (i ∷ ids) infos))
              (lookup x (scan y false (i ∷ ids) others)))
          (sym ((==_iff id y).0 f)) (true, b, a)
    | inr f ↦
        rw (==_flip id x e, ==_flip id y f)
          (scan-IsOpposed x y ids (insert id _ infos) (insert id _ others) n (ground (arith, e, h))
            (ground (arith, f, k)) (ground (arith, d)))
  ]
]

-- Of any two systems of a configuration that lists no system twice, exactly one is passive for the
-- other: each one's table has the other, and one of the two entries is passive and one is not, so
-- exactly one of the two connects.
pub new_cluster_net-IsOpposed :
    (x y : ℕ) (ids : List ℕ)
    → x ≢ y
    → occurs x ids ≡ true
    → occurs y ids ≡ true
    → distinct ids ≡ true
    → IsOpposed (lookup y (new_cluster_net x ids)) (lookup x (new_cluster_net y ids))
unfolding new_cluster_net
new_cluster_net-IsOpposed x y ids n h k d = scan-IsOpposed x y ids [] [] (ground (arith, n)) h k d
