-- ===== src/Router/Groups.antt =====
-- `Router.Router`: which way each envelope goes.
pub mod Grouped
pub mod Reach
use dvactor.Base.{
  ℕ, ◌+◌, ◌≡◌, ◌≢◌, refl, ap, ap₂, sym, ◌∙◌, inl, inr, Bool, true, false, Option, none, some, List,
  [], ◌∷◌, ◌++◌, All, arith, ◌==◌, ==_iff, if◌then◌else◌, Bool-cases, append-nil, append_assoc,
  Outcome, returns, panics, ◌>>=◌,
}
use dvactor.Base.Maps.{lookup, insert, lookup-insert, nat_eq}
use dvactor.Vactor.{
  Vactor, ActorRef, Ref, Value, inner_watch, Envelope, send, batch_send, request_async,
  response_async, request, response, watch, notify, fire_notify, internal,
}
use dvactor.System.{watch_proxy_actor_type}
use dvactor.Router.{
  or_empty, append_at, Router, get_watch_proxy_actor_ref, get_request_proxy_actor_ref,
}

abbrev pub Groups : Type 0
Groups = List (ℕ × List Ref)

-- `groups[systemId] = append(groups[systemId], actorRef)`; a nil reference panics.
unfoldable pub group_refs : List Ref → Groups → Outcome Groups
group_refs [] m = returns m
group_refs (none ∷ refs) m = panics
group_refs (some a ∷ refs) m = group_refs refs (append_at a.system_id (some a) m)

-- What a call of `Router` does, in order: local deliveries and sends to other systems.
pub data Action (P : Type 0) : Type 0 where
  to_local : Envelope P → Action P
  to_remote : ℕ → Envelope P → Action P

abbrev pub Routed : Type 0 → Type 0
Routed P = List (Action P) × Option ℕ

-- `clusterNet.Send` is the argument `send`; `order` is the order in which Go visits a map.
module _ {P : Type 0} (v : Vactor) (r : Router) (send_remote : ℕ → Envelope P → Option ℕ) where
  -- The answer of the last remote group becomes the error.
  unfoldable pub route_groups : (List Ref → Envelope P) → Groups → Option ℕ → Routed P
  route_groups make [] err = ([], err)
  route_groups make ((system_id, refs) ∷ groups) err =
      let here = system_id == r.system_id in
      let rest =
        route_groups make groups (if here then err else send_remote system_id (make refs)) in
      ((if here then to_local (make refs) else to_remote system_id (make refs)) ∷ rest.0, rest.1)

  abbrev local_only : Envelope P → Routed P
  local_only e = (to_local e ∷ [], none)

  pub route_one : ℕ → Envelope P → Routed P
  route_one system_id e =
      if system_id == r.system_id
      then local_only e
      else (to_remote system_id e ∷ [], send_remote system_id e)

  pub with_ref : Ref → (ActorRef → Outcome (Routed P)) → Outcome (Routed P)
  with_ref none k = panics
  with_ref (some a) k = k a

  pub route_to : Ref → Envelope P → Outcome (Routed P)
  unfolding with_ref route_one
  route_to to e = with_ref to (λ t. returns (route_one t.system_id e))

  -- Watching from here an actor elsewhere goes through the proxy, except for the proxy itself.
  route_watch : Ref → ActorRef → ℕ → Bool → Outcome (Routed P)
  unfolding with_ref
  route_watch from to watch_type is_watch =
      if to.system_id == r.system_id
      then returns (local_only (watch from (some to) watch_type is_watch))
      else with_ref from (λ f. returns (
          if f.actor_type == watch_proxy_actor_type v
          then (
            to_remote to.system_id (watch from (some to) watch_type is_watch) ∷ [],
            send_remote to.system_id (watch from (some to) watch_type is_watch),
          )
          else local_only (
              send from (some (get_watch_proxy_actor_ref v r r.system_id to))
                (inner_watch watch_type is_watch))))

  route_outer : ActorRef → Envelope P → Value P → ActorRef → Routed P
  route_outer to e message proxy =
      if to.system_id == r.system_id
      then local_only e
      else local_only (send none (some proxy) message)

  unfoldable pub route : (Groups → Groups) → Envelope P → Outcome (Routed P)
  unfolding route_to route_watch route_outer with_ref
  route order (batch_send from tos xs) = group_refs tos [] >>= λ g.
      returns (route_groups (λ refs. batch_send from refs xs) (order g) none)
  route order (notify from tos n about w x) = group_refs tos [] >>= λ g.
      returns (route_groups (λ refs. notify from refs n about w x) (order g) none)
  route order (watch from to w b) = with_ref to (λ t. route_watch from t w b)
  route order (Envelope.outer_watch to w b q) = with_ref to (λ t. returns (
      route_outer t (Envelope.outer_watch to w b q) (Value.outer_watch w b q)
        (get_watch_proxy_actor_ref v r r.system_id t)))
  route order (Envelope.outer_request to x c) = with_ref to (λ t. returns (
      route_outer t (Envelope.outer_request to x c) (Value.outer_request to x c)
        (get_request_proxy_actor_ref v r r.system_id t)))
  route order (send from to x) = route_to to (send from to x)
  route order (request_async from to x id a) = route_to to (request_async from to x id a)
  route order (response_async from to x id a) = route_to to (response_async from to x id a)
  route order (request from to x id) = route_to to (request from to x id)
  route order (response from to x id) = route_to to (response from to x id)
  route order (fire_notify from to n w x) = route_to to (fire_notify from to n w x)
  route order (internal to n) = route_to to (internal to n)
