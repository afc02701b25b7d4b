-- ===== src/WatchProxy/Tests.antt =====
-- A proxy at work.
use dvactor.Base.{◌⊎◌, ◌↔◌, ℕ, Bool, ◌≡◌, refl, none, some, List, [], ◌∷◌, returns, true, false}
use dvactor.Fixtures.{types}
use dvactor.Vactor.{ActorRef, Ref, Value, on_start, inner_watch, on_watch_msg, Envelope}
use dvactor.WatchProxy.{
  WatchProxy, new_watch_proxy, Effect, set_stop_interval, ctx_watch, enqueues, local_router,
  on_message, update_inner_watch, update_outer_watch, notify_all, update,
}
use dvactor.WatchProxy.Subscribers.{nobody, hear_all, hear}
use dvactor.WatchProxy.Notify.{of_watch, Notifies, notified_once}
use dvactor.WatchProxy.Lifetime.{last_interval, stays_for_subscribers}
use dvactor.WatchProxy.Upstream.{follow, Incoming, handle_all}
use dvactor.WatchProxy.Watched.{Somebody, watches_for_subscribers}

abbrev actor : ℕ → Ref
actor n = some (record { system_id = 2; group_slot = 1; actor_type = 22; actor_id = n ∷ [] })

-- Two actors and a queue watch; the queue is closed when the notification comes; one actor leaves.
abbrev messages : List (Incoming ℕ)
messages =
    (none, (λ q. false), on_start)
    ∷ (actor 1, (λ q. false), inner_watch 111 true)
    ∷ (actor 2, (λ q. false), inner_watch 111 true)
    ∷ (none, (λ q. false), Value.outer_watch 111 true 77)
    ∷ (none, (λ q. false), on_watch_msg (actor 9) 111 (Value.proto 5))
    ∷ (actor 1, (λ q. false), inner_watch 111 false)
    ∷ []

abbrev final : WatchProxy
final = record {
  queuess = [];
  watcherss =
      (111, record { system_id = 2; group_slot = 1; actor_type = 22; actor_id = 2 ∷ [] } ∷ []) ∷ [];
  watchee = actor 9;
}

abbrev effects : List (Effect ℕ)
effects =
    set_stop_interval 0
    ∷ ctx_watch (actor 9) 111
    ∷ enqueues 77 (on_watch_msg (actor 9) 111 (Value.proto 5))
    ∷ local_router (
        Envelope.batch_send (actor 9) (actor 2 ∷ actor 1 ∷ [])
          (on_watch_msg (actor 9) 111 (Value.proto 5) ∷ []))
    ∷ []

run : handle_all ℕ types (actor 9) new_watch_proxy messages ≡ returns (final, effects)
unfolding handle_all on_message new_watch_proxy update_inner_watch update_outer_watch notify_all
    update
run = refl

watches_for_subscribers_example :
    (b : Bool) × (follow 111 false effects ≡ some b)
    × ((b ≡ true) ↔ Somebody 111 (hear_all ℕ types messages nobody))
watches_for_subscribers_example = watches_for_subscribers ℕ types (actor 9) 111 messages run

-- Then a second notification comes: only actor 2 is left.
notified_once_example :
    (out : WatchProxy × List (Effect ℕ)) × (on_message types
        (actor 9)
        none
        (λ q. false)
        final
        (on_watch_msg (actor 9) 111 (Value.proto 6))
      ≡ returns out)
    × Notifies
        (hear_all ℕ types messages nobody)
        (actor 9)
        111
        (on_watch_msg (actor 9) 111 (Value.proto 6))
        (on_watch_msg (actor 9) 111 (Value.proto 6))
        out.1
notified_once_example =
    notified_once types (actor 9) messages none (λ q. false)
      (of_watch (actor 9) 111 (Value.proto 6)) run

abbrev second : ActorRef
second = record { system_id = 2; group_slot = 1; actor_type = 22; actor_id = 2 ∷ [] }

still_subscribed : (hear_all ℕ types messages nobody).actors 111 second ≡ true
unfolding hear_all hear
still_subscribed = refl

stays_for_subscribers_example :
    ((t : ℕ) (a : ActorRef)
      → (hear_all ℕ types messages nobody).actors t a ≡ true
      → last_interval none effects ≡ some 0)
    × ((t q : ℕ)
        → (hear_all ℕ types messages nobody).queues t q ≡ true
        → last_interval none effects ≡ some 0)
    × (((t : ℕ) (a : ActorRef) → (hear_all ℕ types messages nobody).actors t a ≡ false)
        → ((t q : ℕ) → (hear_all ℕ types messages nobody).queues t q ≡ false)
        → (last_interval none effects ≡ none) ⊎ (last_interval none effects ≡ some 10))
stays_for_subscribers_example = stays_for_subscribers ℕ types (actor 9) messages run
