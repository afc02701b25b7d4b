-- ===== src/Cluster/Start/Boots.antt =====
-- `system.Start` as a whole.
use dvactor.Base.{
  refl, ap₂, ℕ, ◌^◌, ◌<◌, ◌≡◌, ap, ◌∙◌, inl, inr, Bool, true, false, ◌&&◌, ◌||◌, List, [], ◌∷◌,
  ◌++◌, length, All, leb, if◌then◌else◌, Bool-cases, arith, returns,
}
use dvactor.Wire.Passive.{occurs, distinct}
use dvactor.Cluster.Start.{
  Started, launch, Waited, connected, timed_out, wait, start, Act, starts_actors, starts_net,
  logs_timeout, logged, has_ended, system_start,
}
use dvactor.Cluster.Start.Meets.{length-new_cluster_net, launch_total}
use dvactor.Cluster.Start.Waits.{GoesOn, wait_ends}

system_start-wait :
    (x : ℕ) (ids : List ℕ) (has_deadline : Bool) (rounds : List (ℕ × Bool)) {st : Started}
    → distinct ids ≡ true
    → launch x ids ≡ returns st
    → system_start x ids has_deadline rounds
      ≡ returns (
        starts_actors ∷ starts_net st ∷ logged (wait (length ids) has_deadline rounds),
        has_ended (wait (length ids) has_deadline rounds),
      )
unfolding system_start start
system_start-wait x ids has_deadline rounds d l = rw (l, length-new_cluster_net x ids d)

-- How the wait ends, as one value.
abbrev outcome : ℕ → ℕ → Waited
outcome n count = if leb n count then connected else timed_out count

outcome-ends :
    (n count : ℕ)
    → (logged (outcome n count) ≡ (if leb n count then [] else logs_timeout count ∷ []))
      × (has_ended (outcome n count) ≡ true)
unfolding logged
outcome-ends n count = elim (Bool-cases (leb n count)) [
  | inl q ↦ rw q (refl, refl)
  | inr q ↦ rw q (refl, refl)
]

wait-outcome :
    (n : ℕ) (has_deadline : Bool) (early : List (ℕ × Bool)) (count : ℕ) (late : Bool)
    (rounds : List (ℕ × Bool))
    → n < 2 ^ 31
    → count < 2 ^ 31
    → All (GoesOn n has_deadline) early
    → (leb n count || (has_deadline && late)) ≡ true
    → wait n has_deadline (early ++ ((count, late) ∷ rounds)) ≡ outcome n count
wait-outcome n has_deadline early count late rounds s t g e =
    let (a, b, c) = wait_ends n has_deadline early count late rounds s t g in
    elim (Bool-cases (leb n count)) [
      | inl q ↦ rw q (a (ground arith))
      | inr q ↦ rw q (b (ground arith) (rw q at e))
    ]

-- In a configuration that lists every system once, fewer than 2^31 of them, `Start` starts the
-- library, the server and the clients, and returns after the first round of the wait that sees
-- enough systems or, with a deadline, the clock past it; it logs a timeout, with the count of that
-- round, exactly if that is too small; before that round it has not returned.
pub system_start_ends :
    (x : ℕ) (ids : List ℕ) (has_deadline : Bool) (early : List (ℕ × Bool)) (count : ℕ) (late : Bool)
    (rounds : List (ℕ × Bool))
    → occurs x ids ≡ true
    → distinct ids ≡ true
    → length ids < 2 ^ 31
    → count < 2 ^ 31
    → All (GoesOn (length ids) has_deadline) early
    → (leb (length ids) count || (has_deadline && late)) ≡ true
    → (st : Started) × (launch x ids ≡ returns st)
      × (system_start x ids has_deadline (early ++ ((count, late) ∷ rounds))
          ≡ returns (
            starts_actors
                ∷ starts_net st
                ∷ (if leb (length ids) count then [] else logs_timeout count ∷ []),
            true,
          ))
      × (system_start x ids has_deadline early
          ≡ returns (starts_actors ∷ starts_net st ∷ [], false))
unfolding logged
system_start_ends x ids has_deadline early count late rounds o d s t g e =
    let (st, l, m) = launch_total x ids o d in
    let n = length ids in
    (
      st,
      l,
      system_start-wait x ids has_deadline (early ++ ((count, late) ∷ rounds)) d l
          ∙ ap (λ w. returns (starts_actors ∷ starts_net st ∷ logged w, has_ended w))
              (wait-outcome n has_deadline early count late rounds s t g e)
          ∙ ap₂ (λ (done : List Act) b. returns (starts_actors ∷ starts_net st ∷ done, b))
              (outcome-ends n count).0 (outcome-ends n count).1,
      system_start-wait x ids has_deadline early d l
          ∙ ap (λ w. returns (starts_actors ∷ starts_net st ∷ logged w, has_ended w))
              (wait_ends n has_deadline early count late rounds s t g).2,
    )
