-- ===== src/Cluster/Start/Waits.antt =====
-- How long `start` waits.
use dvactor.Base.{
  ◌∙◌, ℕ, ◌^◌, ◌≤◌, ◌<◌, ◌≡◌, refl, Bool, true, false, ◌&&◌, List, [], ◌∷◌, ◌++◌, All, arith,
}
use dvactor.Cluster.Start.{connected, timed_out, waiting, wait}

-- A round after which the loop goes on: too few systems, and not past a deadline.
abbrev pub GoesOn : ℕ → Bool → ℕ × Bool → Type 0
GoesOn n has_deadline (count, late) = (count < n) × ((has_deadline && late) ≡ false)

wait_on :
    (n : ℕ) (has_deadline : Bool) (round : ℕ × Bool) (rounds : List (ℕ × Bool))
    → n < 2 ^ 31
    → GoesOn n has_deadline round
    → wait n has_deadline (round ∷ rounds) ≡ wait n has_deadline rounds
unfolding wait
wait_on n has_deadline (count, late) rounds s g = ground arith

-- The wait ends with the first round that sees enough systems or, with a deadline, the clock past
-- it: connected if the systems are enough, also past the deadline, and otherwise with the count of
-- that round; the counts are those of an `int32` that is not negative.
pub wait_ends :
    (n : ℕ) (has_deadline : Bool) (early : List (ℕ × Bool)) (count : ℕ) (late : Bool)
    (rounds : List (ℕ × Bool))
    → n < 2 ^ 31
    → count < 2 ^ 31
    → All (GoesOn n has_deadline) early
    → (n ≤ count → wait n has_deadline (early ++ ((count, late) ∷ rounds)) ≡ connected)
      × (count < n
          → (has_deadline && late) ≡ true
          → wait n has_deadline (early ++ ((count, late) ∷ rounds)) ≡ timed_out count)
      × (wait n has_deadline early ≡ waiting)
unfolding wait
wait_ends n has_deadline [] count late rounds s t g = (λ h. ground arith, λ h k. ground arith, refl)
wait_ends n has_deadline (round ∷ early) count late rounds s t g =
    let (a, b, c) = wait_ends n has_deadline early count late rounds s t g.1 in
    (
      λ h. wait_on n has_deadline round (early ++ ((count, late) ∷ rounds)) s g.0 ∙ a h,
      λ h k. wait_on n has_deadline round (early ++ ((count, late) ∷ rounds)) s g.0 ∙ b h k,
      wait_on n has_deadline round early s g.0 ∙ c,
    )
