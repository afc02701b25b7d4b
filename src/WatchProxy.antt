-- ===== src/WatchProxy.antt =====
-- watch_proxy.go: the actor that stands on this system for an actor elsewhere, and watches it once
-- for all the watchers here.
pub mod Upstream
pub mod Sets
pub mod Subscribers
pub mod Notify
pub mod Lifetime
pub mod Watched
mod Tests
use dvactor.Base.{
  ℕ, ◌%◌, ◌^◌, Bool, true, false, not, ◌&&◌, ◌||◌, Option, none, some, List, [], ◌∷◌, ◌++◌, map,
  ◌==◌, if◌then◌else◌, Outcome, returns, panics, ◌>>=◌,
}
use dvactor.Base.Maps.{Eq, lookup, insert, delete, nat_eq, bytes_eq}
use dvactor.Packet.{Bytes}
use dvactor.Vactor.{
  Vactor, ActorRef, Ref, ref_eq, Value, on_start, inner_watch, on_watch_msg, on_event_msg, Envelope,
  batch_send,
}

-- A Go map from watch types to sets.
abbrev pub Subs {ℓ} : Type ℓ → Type ℓ
Subs K = List (ℕ × List K)

-- A queue is told by its address.
pub record WatchProxy : Type 0 where
  pub queuess : Subs ℕ
  pub watcherss : Subs ActorRef
  pub watchee : Ref

pub new_watch_proxy : WatchProxy
new_watch_proxy = record { queuess = []; watcherss = []; watchee = none }

-- What the proxy does besides changing its own state.
pub data Effect (P : Type 0) : Type 0 where
  set_stop_interval : ℕ → Effect P
  ctx_watch : Ref → ℕ → Effect P
  ctx_unwatch : Ref → ℕ → Effect P
  enqueues : ℕ → Value P → Effect P
  local_router : Envelope P → Effect P

abbrev pub is_some {ℓ} : {A : Type ℓ} → Option A → Bool
is_some none = false
is_some (some a) = true

abbrev pub is_nil {ℓ} : {A : Type ℓ} → List A → Bool
is_nil [] = true
is_nil (x ∷ xs) = false

module _ {ℓ} {K : Type ℓ} ⦃e : Eq K⦄ where
  abbrev pub contains : K → List K → Bool
  contains k [] = false
  contains k (x ∷ xs) = e.beq x k || contains k xs

  abbrev pub remove : K → List K → List K
  remove k [] = []
  remove k (x ∷ xs) = let rest = remove k xs in if e.beq x k then rest else x ∷ rest

  -- The two branches of `updateInnerWatch` and `updateOuterWatch` that change the map: add the
  -- watcher, making its set if there is none; or remove it, and the set once it is empty.
  add_sub : ℕ → K → Option (List K) → Subs K → Subs K
  add_sub watch_type k none m = insert watch_type (k ∷ []) m
  add_sub watch_type k (some ks) m = if contains k ks then m else insert watch_type (k ∷ ks) m

  remove_sub : ℕ → K → Option (List K) → Subs K → Subs K
  remove_sub watch_type k none m = m
  remove_sub watch_type k (some ks) m =
      if contains k ks
      then (if is_nil (remove k ks) then delete watch_type m else insert watch_type (remove k ks) m)
      else m

  pub update : Bool → ℕ → K → Subs K → Subs K
  unfolding add_sub remove_sub
  update true watch_type k m = add_sub watch_type k (lookup watch_type m) m
  update false watch_type k m = remove_sub watch_type k (lookup watch_type m) m

pub is_watch : WatchProxy → ℕ → Bool
is_watch wp watch_type =
    is_some (lookup watch_type wp.queuess) || is_some (lookup watch_type wp.watcherss)

pub to_refs : List ActorRef → List Ref
to_refs [] = []
to_refs (a ∷ refs) = some a ∷ to_refs refs

pub or_none : Option (List ℕ) → List ℕ
or_none none = []
or_none (some queues) = queues

module _ {P : Type 0} where
  -- The calls on the context that follow a change: watch with the first subscriber of the type,
  -- unwatch after the last one, and ten seconds to live after the last of all types.
  changed : Bool → ℕ → WatchProxy → List (Effect P)
  unfolding is_watch
  changed old watch_type wp =
      let new = is_watch wp watch_type in
      if not old && new
      then set_stop_interval 0 ∷ ctx_watch wp.watchee watch_type ∷ []
      else if old && not new
      then (if is_nil wp.queuess && is_nil wp.watcherss then set_stop_interval 10 ∷ [] else [])
        ++ (ctx_unwatch wp.watchee watch_type ∷ [])
      else []

  pub update_outer_watch : WatchProxy → ℕ → Bool → ℕ → WatchProxy × List (Effect P)
  unfolding changed
  update_outer_watch wp watch_type b queue =
      let wp' = record wp { queuess = update b watch_type queue wp.queuess } in
      (wp', changed (is_watch wp watch_type) watch_type wp')

  -- The assertion that the watcher is an `ActorRefImpl` panics on nil. It is reached when watching,
  -- and when unwatching a type that has watchers.
  pub update_inner_watch : WatchProxy → ℕ → Bool → Ref → Outcome (WatchProxy × List (Effect P))
  unfolding changed
  update_inner_watch wp watch_type b none =
      if b || is_some (lookup watch_type wp.watcherss) then panics else returns (wp, [])
  update_inner_watch wp watch_type b (some watcher) =
      let wp' = record wp { watcherss = update b watch_type watcher wp.watcherss } in
      returns (wp', changed (is_watch wp watch_type) watch_type wp')

  -- The loop over the queues: `accepts` says whether a queue takes the value; one that does not is
  -- unsubscribed.
  pub feed : (ℕ → Bool) → ℕ → Value P → List ℕ → WatchProxy → WatchProxy × List (Effect P)
  unfolding update_outer_watch
  feed accepts watch_type x [] wp = (wp, [])
  feed accepts watch_type x (queue ∷ queues) wp =
      let dropped = update_outer_watch wp watch_type false queue in
      let wp' = if accepts queue then wp else dropped.0 in
      let rest = feed accepts watch_type x queues wp' in
      (rest.0, enqueues queue x ∷ ((if accepts queue then [] else dropped.1) ++ rest.1))

  to_watchers : WatchProxy → ℕ → Value P → List (Effect P)
  unfolding to_refs
  to_watchers wp watch_type x = elim (lookup watch_type wp.watcherss) [
    | none ↦ []
    | some watchers ↦ local_router (batch_send wp.watchee (to_refs watchers) (x ∷ [])) ∷ []
  ]

  -- `to_queues` goes to the queues and `to_actors` to the watching actors.
  pub notify_all : (ℕ → Bool) → WatchProxy → ℕ → Value P → Value P → WatchProxy × List (Effect P)
  unfolding feed to_watchers or_none
  notify_all accepts wp watch_type to_queues to_actors =
      let fed = feed accepts watch_type to_queues (or_none (lookup watch_type wp.queuess)) wp in
      (fed.0, fed.1 ++ to_watchers fed.0 watch_type to_actors)

  -- The context: the actor that `GetWatcheeActorRef` finds for the proxy's own id, the sender, and
  -- which queues accept.
  pub on_message :
      Vactor
      → Ref
      → Ref
      → (ℕ → Bool)
      → WatchProxy
      → Value P
      → Outcome (WatchProxy × List (Effect P))
  unfolding update_inner_watch update_outer_watch notify_all
  on_message v self_watchee from accepts wp on_start =
      returns (record wp { watchee = self_watchee }, [])
  on_message v self_watchee from accepts wp (inner_watch watch_type b) =
      update_inner_watch wp watch_type b from
  on_message v self_watchee from accepts wp (Value.outer_watch watch_type b queue) =
      returns (update_outer_watch wp watch_type b queue)
  on_message v self_watchee from accepts wp (on_watch_msg about watch_type x) = returns (
      notify_all accepts wp watch_type (on_watch_msg wp.watchee watch_type x)
        (on_watch_msg about watch_type x))
  on_message v self_watchee from accepts wp (on_event_msg event_id x) = returns (
      notify_all accepts wp (event_id % 2 ^ v.watch_type_bits) (on_event_msg event_id x)
        (on_event_msg event_id x))
  on_message v self_watchee from accepts wp other = returns (wp, [])
