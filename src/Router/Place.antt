-- ===== src/Router/Place.antt =====
-- Where `CreateActorRefEx` puts an actor.
use dvactor.Base.{
  ℕ, ◌+◌, ◌/◌, ◌%◌, ◌^◌, ◌≤◌, ◌<◌, ◌≡◌, refl, ap, sym, ◌∙◌, Bool, true, false, List, [], ◌∷◌, ◌++◌,
  length, get_or, arith, ltb, ◌==◌, ==_iff, if◌then◌else◌, append-nil, append_assoc, Bool-cases,
  inl, inr,
}
use dvactor.Base.Maps.{lookup, lookup-insert, nat_eq}
use dvactor.Packet.{Bytes}
use dvactor.Vactor.{Vactor}
use dvactor.Router.{
  SystemConfig, TypeTable, or_empty, append_at, add_types, add_configs, new_router, hash,
  group_slot, choose_system, create_actor_ref_ex,
}

-- The systems that declare an actor type, in the order of the configuration.
abbrev pub repeats : ℕ → ℕ → List ℕ → List ℕ
repeats t system_id [] = []
repeats t system_id (u ∷ us) = (if u == t then system_id ∷ [] else []) ++ repeats t system_id us

abbrev pub declaring : ℕ → List SystemConfig → List ℕ
declaring t [] = []
declaring t (c ∷ cs) = repeats t c.system_id c.actor_types ++ declaring t cs

add_types_lem :
    (t system_id : ℕ) (ts : List ℕ) (m : TypeTable)
    → or_empty (lookup t (add_types system_id ts m))
      ≡ or_empty (lookup t m) ++ repeats t system_id ts
unfolding add_types
add_types_lem t system_id [] m = sym (append-nil (or_empty (lookup t m)))
add_types_lem t system_id (u ∷ us) m =
    add_types_lem t system_id us (append_at u system_id m) ∙ elim (Bool-cases (u == t)) [
      | inl e ↦
          let same = (==_iff u t).0 e in
          rw (lookup-insert u t (or_empty (lookup u m) ++ (system_id ∷ [])) m, e)
            (ap (λ k. (or_empty (lookup k m) ++ (system_id ∷ [])) ++ repeats t system_id us) same
              ∙ append_assoc (or_empty (lookup t m)) (system_id ∷ []) (repeats t system_id us))
      | inr e ↦ rw (lookup-insert u t (or_empty (lookup u m) ++ (system_id ∷ [])) m, e)
    ]

add_configs_lem :
    (t : ℕ) (cs : List SystemConfig) (m : TypeTable)
    → or_empty (lookup t (add_configs cs m)) ≡ or_empty (lookup t m) ++ declaring t cs
unfolding add_configs
add_configs_lem t [] m = sym (append-nil (or_empty (lookup t m)))
add_configs_lem t (c ∷ cs) m =
    add_configs_lem t cs (add_types c.system_id c.actor_types m)
    ∙ ap (λ l. l ++ declaring t cs) (add_types_lem t c.system_id c.actor_types m)
    ∙ append_assoc (or_empty (lookup t m)) (repeats t c.system_id c.actor_types) (declaring t cs)

mod-le : (a b : ℕ) → a % b ≤ a
mod-le a b = grind arith

-- The slot of a group is never 0, whatever the width of its type.
pub group_slot_pos : (v : Vactor) (h : ℕ) → (0 < group_slot v h) × (group_slot v h ≤ 2 ^ 16)
unfolding group_slot
group_slot_pos v h = ground (arith, mod-le (h % 2 ^ 16 + 1) (2 ^ v.group_slot_bits))

either_slot_pos :
    (v : Vactor) (b : Bool) (x y : ℕ)
    → let slot = if b then group_slot v x else group_slot v y in (0 < slot) × (slot ≤ 2 ^ 16)
either_slot_pos v true x y = group_slot_pos v x
either_slot_pos v false x y = group_slot_pos v y

-- The place that the code is meant to choose.
abbrev pub place : ℕ → List ℕ → Bytes → ℕ
place local_id [] actor_id = local_id
place local_id (s ∷ ss) actor_id = get_or (s ∷ ss) (hash actor_id % length (s ∷ ss)) 0

choose_system-place :
    (local_id : ℕ) (systems : List ℕ) (actor_id : Bytes)
    → choose_system local_id systems (hash actor_id) 0 ≡ place local_id systems actor_id
unfolding choose_system
choose_system-place local_id [] actor_id = refl
choose_system-place local_id (s ∷ ss) actor_id = ground arith

-- With no system asked for, an actor lives on the system that its hash picks among those that
-- declare its type in the configuration (so on the same one on every node with that
-- configuration), and on the local system if none does. A system asked for is kept. In both cases
-- the group slot is between 1 and 2^16.
pub create_actor_ref_ex-place :
    (v : Vactor) (local_id : ℕ) (configs : List SystemConfig) (asked actor_type : ℕ)
    (actor_id : Bytes)
    → let ref = create_actor_ref_ex v (new_router local_id configs) asked actor_type actor_id in
      (ref.system_id
        ≡ (if asked == 0 then place local_id (declaring actor_type configs) actor_id else asked))
      × (0 < ref.group_slot)
      × (ref.group_slot ≤ 2 ^ 16)
unfolding create_actor_ref_ex new_router
create_actor_ref_ex-place v local_id configs asked actor_type actor_id =
    rw (add_configs_lem actor_type configs []) (chosen asked, slot.0, slot.1)
  where
    systems : List ℕ
    systems = declaring actor_type configs

    slot :
        let slot =
          if ltb 0 (length systems)
          then group_slot v (hash actor_id / length systems)
          else group_slot v (hash actor_id) in
        (0 < slot) × (slot ≤ 2 ^ 16)
    slot = either_slot_pos v (ltb 0 (length systems)) _ _

    chosen :
        (asked : ℕ)
        → choose_system local_id systems (hash actor_id) asked
          ≡ (if asked == 0 then place local_id systems actor_id else asked)
    chosen n = ground (arith, choose_system-place local_id systems actor_id)
