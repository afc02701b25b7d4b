-- ===== src/Cluster/Start/Tests.antt =====
-- Three systems start.
use dvactor.Base.{ℕ, ◌≡◌, ◌≢◌, refl, true, false, not, List, [], ◌∷◌, returns, arith}
use dvactor.Base.Maps.{lookup, nat_eq}
use dvactor.Wire.Link.{scan, new_cluster_net}
use dvactor.Wire.Passive.{occurs, starting}
use dvactor.Cluster.Start.{Started, launch, system_start, starts_actors, starts_net, logs_timeout}
use dvactor.Cluster.Start.Meets.{launch_total, launch_meets}
use dvactor.Cluster.Start.Boots.{system_start_ends}

abbrev three : List ℕ
three = 5 ∷ 6 ∷ 7 ∷ []

abbrev middle : Started
middle = record { server = true; clients = 5 ∷ [] }

abbrev last : Started
last = record { server = false; clients = 5 ∷ 6 ∷ [] }

middle_starts : launch 6 three ≡ returns middle
unfolding launch new_cluster_net scan
middle_starts = refl

last_starts : launch 7 three ≡ returns last
unfolding launch new_cluster_net scan
last_starts = refl

six_is_not_seven : ◌≢◌ {A = ℕ} 6 7
six_is_not_seven = omega arith

launch_total_example :
    (st : Started) × (launch 6 three ≡ returns st)
    × ((y : ℕ)
        → occurs y three ≡ true
        → lookup y (new_cluster_net 6 three) ≡ starting (occurs y st.clients))
launch_total_example = launch_total 6 three refl refl

launch_meets_example :
    (occurs 7 middle.clients ≡ not (occurs 6 last.clients))
    × (occurs 7 middle.clients ≡ true → last.server ≡ true)
launch_meets_example =
    launch_meets 6 7 three six_is_not_seven refl refl refl middle_starts last_starts

-- The first round sees one system, and the second sees two, past the deadline.
system_start_ends_example :
    (st : Started) × (launch 6 three ≡ returns st)
    × (system_start 6 three true ((1, false) ∷ (2, true) ∷ [])
        ≡ returns (starts_actors ∷ starts_net st ∷ logs_timeout 2 ∷ [], true))
    × (system_start 6 three true ((1, false) ∷ [])
        ≡ returns (starts_actors ∷ starts_net st ∷ [], false))
system_start_ends_example =
    system_start_ends 6 three true ((1, false) ∷ []) 2 true [] refl refl (omega arith) (omega arith)
      ((omega arith, refl), tt) refl
