-- ===== src/Router/Tests.antt =====
-- Routing at concrete inputs.
use dvactor.Base.{
  ℕ, ◌≤◌, ◌<◌, ◌≡◌, ◌≢◌, refl, true, Option, none, some, List, [], ◌∷◌, ◌++◌, returns, arith,
  if◌then◌else◌, ◌==◌,
}
use dvactor.Fixtures.{types}
use dvactor.Vactor.{ActorRef, Ref, Value, Envelope, batch_send, notify}
use dvactor.Router.{
  SystemConfig, Router, new_router, create_actor_ref_ex, proxy_id, get_watchee_actor_ref,
}
use dvactor.Router.Place.{place, declaring, create_actor_ref_ex-place}
use dvactor.Router.Names.{get_watchee_actor_ref-proxy_id}
use dvactor.Router.Groups.{Groups, group_refs, Routed, to_local, to_remote, route, route_groups}
use dvactor.Router.Groups.Grouped.{entries}
use dvactor.Router.Groups.Reach.{reached, route-reached, route_groups_loses}

abbrev two_systems : List SystemConfig
two_systems =
    record { system_id = 1; actor_types = 21 ∷ 22 ∷ [] }
    ∷ record { system_id = 2; actor_types = 22 ∷ [] }
    ∷ []

create_actor_ref_ex-place_example :
    let ref = create_actor_ref_ex types (new_router 1 two_systems) 0 22 (b'7' ∷ []) in
    (ref.system_id ≡ place 1 (declaring 22 two_systems) (b'7' ∷ []))
    × (0 < ref.group_slot)
    × (ref.group_slot ≤ 65536)
create_actor_ref_ex-place_example = create_actor_ref_ex-place types 1 two_systems 0 22 (b'7' ∷ [])

abbrev on : ℕ → ℕ → Ref
on system_id n =
    some (record { system_id = system_id; group_slot = 1; actor_type = 22; actor_id = n ∷ [] })

abbrev dashed : ActorRef
dashed = record {
  system_id = 2;
  group_slot = 1;
  actor_type = 22;
  actor_id = b'a' ∷ b'-' ∷ b'b' ∷ [];
}

get_watchee_actor_ref-proxy_id_example :
    get_watchee_actor_ref types (new_router 1 two_systems) (proxy_id dashed)
    ≡ some (create_actor_ref_ex types (new_router 1 two_systems) 0 22 (b'a' ∷ b'-' ∷ b'b' ∷ []))
get_watchee_actor_ref-proxy_id_example =
    get_watchee_actor_ref-proxy_id types (new_router 1 two_systems) dashed (omega arith)

abbrev local_router : Router
local_router = record { system_id = 1; actor_type_to_system_ids = [] }

-- Only system 2 can be reached.
abbrev answers : ℕ → Envelope ℕ → Option ℕ
answers system_id e = if system_id == 2 then none else some 106

abbrev tos : List Ref
tos = on 1 4 ∷ on 2 5 ∷ on 1 6 ∷ []

abbrev batch_out : Routed ℕ
batch_out = (
  to_local (batch_send none (on 1 4 ∷ on 1 6 ∷ []) [])
      ∷ to_remote 2 (batch_send none (on 2 5 ∷ []) [])
      ∷ [],
  none,
)

abbrev notify_out : Routed ℕ
notify_out = (
  to_local (notify none (on 1 4 ∷ on 1 6 ∷ []) 0 none 9 Value.nil)
      ∷ to_remote 2 (notify none (on 2 5 ∷ []) 0 none 9 Value.nil)
      ∷ [],
  none,
)

routed_batch :
    route types local_router answers (λ g. g) (batch_send none tos []) ≡ returns batch_out
unfolding route group_refs route_groups
routed_batch = refl

routed_notify :
    route types local_router answers (λ g. g) (notify none tos 0 none 9 Value.nil)
    ≡ returns notify_out
unfolding route group_refs route_groups
routed_notify = refl

as_listed : (x : ℕ) (g : Groups) → entries x g ≡ entries x g
as_listed x g = refl

-- System 2 takes its part.
route-reached_example : reached types local_router answers 2 batch_out.0 ≡ on 2 5 ∷ []
route-reached_example =
    route-reached types local_router answers 2 true (λ g. g) (batch_send none tos []) (as_listed 2)
      refl (λ refs. refl) routed_batch

two_is_remote : ◌≢◌ {A = ℕ} 2 1
two_is_remote = omega arith

route_groups_loses_example :
    (route_groups types local_router answers
      (λ refs. batch_send none refs [])
      (((3, on 3 4 ∷ []) ∷ []) ++ ((2, on 2 5 ∷ []) ∷ []))
      none).1
    ≡ none
route_groups_loses_example =
    route_groups_loses types local_router answers (λ refs. batch_send none refs []) 2 (on 2 5 ∷ [])
      ((3, on 3 4 ∷ []) ∷ []) none two_is_remote refl
