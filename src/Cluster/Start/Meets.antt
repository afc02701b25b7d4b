-- ===== src/Cluster/Start/Meets.antt =====
-- What `start` launches on the two ends of a connection.
use dvactor.Base.{
  ℕ, ◌≡◌, ◌≢◌, refl, ap, sym, ◌∙◌, subst, Bool, true, false, not, Option, some, none, List, [],
  length, returns, returns-injective, Bool-cases, inl, inr, arith,
}
use dvactor.Base.Maps.{lookup, nat_eq}
use dvactor.Wire.Link.{SystemInfo, Infos, new_cluster_net}
use dvactor.Wire.Passive.{occurs, distinct, starting, new_cluster_net-IsOpposed}
use dvactor.Cluster.Start.{index_from, has_server, new_server, Started, launch}
use dvactor.Cluster.Start.Dials.{
  before, dial_loop-before, lookup-scan-before, before-has_server, length-scan,
}

lookup-new_cluster_net :
    (x y : ℕ) (ids : List ℕ)
    → occurs x ids ≡ true
    → occurs y ids ≡ true
    → distinct ids ≡ true
    → lookup y (new_cluster_net x ids) ≡ starting (occurs y (before x ids))
unfolding new_cluster_net
lookup-new_cluster_net x y ids o h d = lookup-scan-before x y ids [] o h d

pub length-new_cluster_net :
    (x : ℕ) (ids : List ℕ) → distinct ids ≡ true → length (new_cluster_net x ids) ≡ length ids
unfolding new_cluster_net
length-new_cluster_net x ids d = omega (arith, length-scan x false ids [] d (λ id o. refl))

new_server_returns :
    (x : ℕ) (infos : Infos) {info : SystemInfo}
    → lookup x infos ≡ some info
    → new_server x infos ≡ returns true
unfolding new_server
new_server_returns x infos e = rw (e, new_server)

abbrev is_passive : Option SystemInfo → Bool
is_passive none = false
is_passive (some info) = info.passive

-- What `launch` does for a system of the list.
record Launches (x : ℕ) (ids : List ℕ) (st : Started) : Type 0 where
  ran : launch x ids ≡ returns st
  dialled : st.clients ≡ before x ids
  serves : st.server ≡ has_server (index_from x 0 ids) (length ids)

launch-Launches :
    (x : ℕ) (ids : List ℕ)
    → occurs x ids ≡ true
    → distinct ids ≡ true
    → (st : Started) × Launches x ids st
unfolding launch
launch-Launches x ids o d = elim (Bool-cases (has_server (index_from x 0 ids) (length ids))) [
  | inl e ↦ (
    record { server = true; clients = before x ids },
    record {
      ran = rw (
        length-new_cluster_net x ids d,
        e,
        new_server_returns x _ (lookup-new_cluster_net x x ids o o d),
        dial_loop-before x 0 ids o,
      );
      dialled = refl;
      serves = sym e;
    },
  )
  | inr e ↦ (
    record { server = false; clients = before x ids },
    record {
      ran = rw (length-new_cluster_net x ids d, e, dial_loop-before x 0 ids o);
      dialled = refl;
      serves = sym e;
    },
  )
]

launched :
    {x : ℕ} {ids : List ℕ} {st : Started}
    → occurs x ids ≡ true
    → distinct ids ≡ true
    → launch x ids ≡ returns st
    → Launches x ids st
launched {x} {ids} {st} o d e =
    let (su, l) = launch-Launches x ids o d in
    subst (λ t. Launches x ids t) (returns-injective (sym l.ran ∙ e)) l

-- In a configuration that lists every system once, starting does not panic, and starts clients to
-- exactly those systems of the list whose entry in the table is passive.
pub launch_total :
    (x : ℕ) (ids : List ℕ)
    → occurs x ids ≡ true
    → distinct ids ≡ true
    → (st : Started) × (launch x ids ≡ returns st)
      × ((y : ℕ)
          → occurs y ids ≡ true
          → lookup y (new_cluster_net x ids) ≡ starting (occurs y st.clients))
launch_total x ids o d =
    let (st, l) = launch-Launches x ids o d in
    (st, l.ran, λ y h. rw l.dialled (lookup-new_cluster_net x y ids o h d))

-- In a configuration that lists every system once, of two systems exactly one starts a client to
-- the other, and the other one starts its server.
pub launch_meets :
    (x y : ℕ) (ids : List ℕ) {st su : Started}
    → x ≢ y
    → occurs x ids ≡ true
    → occurs y ids ≡ true
    → distinct ids ≡ true
    → launch x ids ≡ returns st
    → launch y ids ≡ returns su
    → (occurs y st.clients ≡ not (occurs x su.clients))
      × (occurs y st.clients ≡ true → su.server ≡ true)
unfolding has_server
launch_meets x y ids {st} {su} n o h d e f =
    let l = launched o d e in
    let m = launched h d f in
    let (b, p, q) = new_cluster_net-IsOpposed x y ids n o h d in
    let one : occurs y (before x ids) ≡ b =
      ap is_passive (sym (lookup-new_cluster_net x y ids o h d) ∙ p) in
    let two : occurs x (before y ids) ≡ not b =
      ap is_passive (sym (lookup-new_cluster_net y x ids h o d) ∙ q) in
    (
      rw (l.dialled, m.dialled, one, two) (ground arith),
      λ k.
          let (j, i, t) = before-has_server y x 0 ids o (rw l.dialled at k) in
          m.serves ∙ rw i (ground (arith, t)),
    )
