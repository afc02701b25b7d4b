-- ===== src/Cluster/Start.antt =====
-- `clusterNet.start`: the server, the clients, and the wait for the other systems; and `system.Start`,
-- which calls it.
pub mod Dials
pub mod Meets
pub mod Waits
pub mod Boots
mod Tests
use dvactor.Base.{
  ℕ, ◌+◌, ◌%◌, ◌^◌, Bool, true, false, ◌&&◌, Option, none, some, List, [], ◌∷◌, length, ltb, leb,
  ◌==◌, if◌then◌else◌, Outcome, returns, panics, ◌>>=◌,
}
use dvactor.Base.Maps.{lookup, nat_eq}
use dvactor.Ring.{ℤ, pos, negsuc}
use dvactor.Wire.Link.{Infos, new_cluster_net}

-- `localSystemIndex` of `NewClusterNet`: the first index of the local system, or -1.
unfoldable pub index_from : ℕ → ℕ → List ℕ → ℤ
index_from local_id index [] = negsuc 0
index_from local_id index (id ∷ ids) =
    let rest = index_from local_id (index + 1) ids in if id == local_id then pos index else rest

-- `localSystemIndex < systemCount - 1`
unfoldable pub has_server : ℤ → ℕ → Bool
has_server (pos i) n = ltb (i + 1) n
has_server (negsuc i) n = ltb 0 (n + i)

-- `index >= localSystemIndex`
unfoldable pub at_local : ℕ → ℤ → Bool
at_local index (pos i) = leb i index
at_local index (negsuc i) = true

-- The loop that starts the clients: the systems that they connect to.
unfoldable pub dial_loop : ℤ → ℕ → List ℕ → List ℕ
unfolding at_local
dial_loop local_index index [] = []
dial_loop local_index index (id ∷ ids) =
    let rest = dial_loop local_index (index + 1) ids in
    if at_local index local_index then [] else id ∷ rest

-- `NewServer` reads the port of the local system, and panics if that is not in the table.
unfoldable pub new_server : ℕ → Infos → Outcome Bool
new_server local_id infos = elim (lookup local_id infos) [
  | none ↦ panics
  | some info ↦ returns true
]

-- Whether a server is started, and to which systems clients are.
pub record Started : Type 0 where
  pub server : Bool
  pub clients : List ℕ

unfoldable pub launch : ℕ → List ℕ → Outcome Started
unfolding index_from has_server dial_loop new_server
launch local_id ids =
    let infos = new_cluster_net local_id ids in
    let local_index = index_from local_id 0 ids in
    let dials : Started → Started = λ st. record st { clients = dial_loop local_index 0 ids } in
    if has_server local_index (length infos)
    then (new_server local_id infos >>= λ b. returns (dials (record { server = b; clients = [] })))
    else returns (dials (record { server = false; clients = [] }))

-- `<=` on `int32`, as patterns of 32 bits.
abbrev pub le_int32 : ℕ → ℕ → Bool
le_int32 a b = leb ((a + 2 ^ 31) % 2 ^ 32) ((b + 2 ^ 31) % 2 ^ 32)

pub data Waited : Type 0 where
  connected : Waited
  timed_out : ℕ → Waited
  waiting : Waited

-- The loop that waits: each round reads the counter, and the clock if there is a deadline. The list
-- has what is read; at its end the loop still runs.
unfoldable pub wait : ℕ → Bool → List (ℕ × Bool) → Waited
wait system_count has_deadline [] = waiting
wait system_count has_deadline ((count, late) ∷ rounds) =
    let rest = wait system_count has_deadline rounds in
    if le_int32 (system_count % 2 ^ 32) count
    then connected
    else if has_deadline && late
    then timed_out count
    else rest

-- `clusterNet.start`: what it starts, and how its wait ends.
unfoldable pub start : ℕ → List ℕ → Bool → List (ℕ × Bool) → Outcome (Started × Waited)
start local_id ids has_deadline rounds = launch local_id ids >>= λ st.
    returns (st, wait (length (new_cluster_net local_id ids)) has_deadline rounds)

-- What `system.Start` does, in order.
pub data Act : Type 0 where
  starts_actors : Act  -- `Start` of the actor library
  starts_net : Started → Act
  logs_timeout : ℕ → Act

unfoldable pub logged : Waited → List Act
logged (timed_out count) = logs_timeout count ∷ []
logged connected = []
logged waiting = []

abbrev pub has_ended : Waited → Bool
has_ended waiting = false
has_ended _ = true

-- `system.Start`, and whether it has returned: an error of the net is only logged.
unfoldable pub system_start : ℕ → List ℕ → Bool → List (ℕ × Bool) → Outcome (List Act × Bool)
unfolding start logged
system_start local_id ids has_deadline rounds = start local_id ids has_deadline rounds >>= λ r.
    returns (starts_actors ∷ starts_net r.0 ∷ logged r.1, has_ended r.1)
