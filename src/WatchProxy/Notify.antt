-- ===== src/WatchProxy/Notify.antt =====
-- Whom a notification reaches.
use mathlib.Core.List.{map}
use dvactor.Base.{
  ℕ, ◌%◌, ◌^◌, ◌≡◌, refl, ap, ◌∙◌, inl, inr, Bool, false, Option, none, some, List, [], ◌∷◌, ◌++◌,
  append-nil, arith, if◌then◌else◌, Bool-cases, returns,
}
use dvactor.Base.Maps.{lookup, nat_eq}
use dvactor.Vactor.{
  Vactor, ActorRef, Ref, ref_eq, Value, on_watch_msg, on_event_msg, Envelope, batch_send,
}
use dvactor.WatchProxy.{
  WatchProxy, new_watch_proxy, Effect, set_stop_interval, ctx_watch, ctx_unwatch, enqueues,
  local_router, changed, update_outer_watch, feed, to_watchers, to_refs, or_none, notify_all,
  on_message, is_watch,
}
use dvactor.WatchProxy.Sets.{elems, times, IsSets}
use dvactor.WatchProxy.Upstream.{Incoming, handle_all}
use dvactor.WatchProxy.Subscribers.{
  Subscribed, nobody, hear_all, Represents, handle_all-Represents, new_watch_proxy-Represents,
  or_none-elems,
}

-- A notification of the remote actor: of a watch type, or of an event.
pub data Notice (P : Type 0) : Type 0 where
  of_watch : Ref → ℕ → Value P → Notice P
  of_event : ℕ → Value P → Notice P

module _ {P : Type 0} where
  -- The queues that are fed, with the values, and the envelopes for the local router.
  abbrev pub fed : List (Effect P) → List (ℕ × Value P)
  fed [] = []
  fed (enqueues q x ∷ es) = (q, x) ∷ fed es
  fed (set_stop_interval n ∷ es) = fed es
  fed (ctx_watch to w ∷ es) = fed es
  fed (ctx_unwatch to w ∷ es) = fed es
  fed (local_router e ∷ es) = fed es

  abbrev pub routed : List (Effect P) → List (Envelope P)
  routed [] = []
  routed (local_router e ∷ es) = e ∷ routed es
  routed (enqueues q x ∷ es) = routed es
  routed (set_stop_interval n ∷ es) = routed es
  routed (ctx_watch to w ∷ es) = routed es
  routed (ctx_unwatch to w ∷ es) = routed es

  fed-append : (es fs : List (Effect P)) → fed (es ++ fs) ≡ fed es ++ fed fs
  fed-append [] fs = refl
  fed-append (enqueues q x ∷ es) fs = ap (λ l. (q, x) ∷ l) (fed-append es fs)
  fed-append (set_stop_interval n ∷ es) fs = fed-append es fs
  fed-append (ctx_watch to w ∷ es) fs = fed-append es fs
  fed-append (ctx_unwatch to w ∷ es) fs = fed-append es fs
  fed-append (local_router e ∷ es) fs = fed-append es fs

  routed-append : (es fs : List (Effect P)) → routed (es ++ fs) ≡ routed es ++ routed fs
  routed-append [] fs = refl
  routed-append (enqueues q x ∷ es) fs = routed-append es fs
  routed-append (set_stop_interval n ∷ es) fs = routed-append es fs
  routed-append (ctx_watch to w ∷ es) fs = routed-append es fs
  routed-append (ctx_unwatch to w ∷ es) fs = routed-append es fs
  routed-append (local_router e ∷ es) fs = ap (λ l. e ∷ l) (routed-append es fs)

  -- A change of the subscribers neither feeds nor routes.
  changed_feeds :
      (old : Bool) (w : ℕ) (wp : WatchProxy)
      → (fed (changed old w wp) ≡ []) × (routed (changed old w wp) ≡ [])
  unfolding changed
  changed_feeds old w wp = ground arith

  -- The loop feeds each queue of its list, in order.
  feed_feeds :
      (accepts : ℕ → Bool) (w : ℕ) (x : Value P) (qs : List ℕ) (wp : WatchProxy)
      → (fed (feed accepts w x qs wp).1 ≡ map (λ q. (q, x)) qs)
        × (routed (feed accepts w x qs wp).1 ≡ [])
  unfolding feed update_outer_watch
  feed_feeds accepts w x [] wp = (refl, refl)
  feed_feeds accepts w x (q ∷ qs) wp =
      let dropped = update_outer_watch {P = P} wp w false q in
      let (a, b) = changed_feeds (is_watch wp w) w dropped.0 in
      elim (Bool-cases (accepts q)) [
        | inl e ↦ let (f, g) = feed_feeds accepts w x qs wp in rw e (ap (λ l. (q, x) ∷ l) f, g)
        | inr e ↦
            let (f, g) = feed_feeds accepts w x qs dropped.0 in
            rw (e, fed-append, routed-append, a, b) (ap (λ l. (q, x) ∷ l) f, g)
      ]

  feed_keeps :
      (accepts : ℕ → Bool) (w : ℕ) (x : Value P) (qs : List ℕ) (wp : WatchProxy)
      → ((feed accepts w x qs wp).0.watcherss ≡ wp.watcherss)
        × ((feed accepts w x qs wp).0.watchee ≡ wp.watchee)
  unfolding feed update_outer_watch
  feed_keeps accepts w x [] wp = (refl, refl)
  feed_keeps accepts w x (q ∷ qs) wp = elim (Bool-cases (accepts q)) [
    | inl e ↦ rw e (feed_keeps accepts w x qs wp)
    | inr e ↦ rw e (feed_keeps accepts w x qs (update_outer_watch {P = P} wp w false q).0)
  ]

  -- One batch to all of them, if there are any.
  abbrev pub one_batch : Ref → List ActorRef → Value P → List (Envelope P)
  one_batch watchee [] y = []
  one_batch watchee (a ∷ rest) y = batch_send watchee (to_refs (a ∷ rest)) (y ∷ []) ∷ []

  -- `x` goes to each queue, and `y` to each actor, that is subscribed, once, and to nobody else.
  pub record Notifies (s : Subscribed) (watchee : Ref) (w : ℕ) (x y : Value P)
      (es : List (Effect P)) : Type 0 where
    pub queues : List ℕ
    pub actors : List ActorRef
    pub each_queue : (q : ℕ) → times q queues ≡ (if s.queues w q then 1 else 0)
    pub each_actor : (a : ActorRef) → times a actors ≡ (if s.actors w a then 1 else 0)
    pub all_fed : fed es ≡ map (λ q. (q, x)) queues
    pub all_routed : routed es ≡ one_batch watchee actors y

  watchers_batch :
      (wp : WatchProxy) (w : ℕ) (y : Value P) (o : Option (List ActorRef))
      → lookup w wp.watcherss ≡ o
      → IsSets wp.watcherss
      → (routed (to_watchers wp w y) ≡ one_batch wp.watchee (elems o) y)
        × (fed (to_watchers wp w y) ≡ [])
  unfolding to_watchers
  watchers_batch wp w y none h s = rw (h, to_watchers) (refl, refl)
  watchers_batch wp w y (some []) h s = absurd (s.full w h)
  watchers_batch wp w y (some (a ∷ rest)) h s = rw (h, to_watchers) (refl, refl)

  notify_all-Notifies :
      (accepts : ℕ → Bool) (wp : WatchProxy) (w : ℕ) (x y : Value P) (s : Subscribed)
      → Represents s wp
      → Notifies s wp.watchee w x y (notify_all accepts wp w x y).1
  unfolding notify_all
  notify_all-Notifies accepts wp w x y s r =
      let qs = or_none (lookup w wp.queuess) in
      let after = feed accepts w x qs wp in
      let (f, g) = feed_feeds accepts w x qs wp in
      let (k, l) = feed_keeps accepts w x qs wp in
      let (m, n) =
        watchers_batch after.0 w y (lookup w wp.watcherss) (ap (lookup w) k) (rw k r.actor_sets) in
      record {
        queues = qs;
        actors = elems (lookup w wp.watcherss);
        each_queue = λ q.
            rw (or_none-elems (lookup w wp.queuess)) (r.queue_sets.once w q ∙ rw (r.queues w q));
        each_actor = λ a. r.actor_sets.once w a ∙ rw (r.actors w a);
        all_fed = fed-append after.1 (to_watchers after.0 w y) ∙ rw (f, n) (append-nil _);
        all_routed = routed-append after.1 (to_watchers after.0 w y) ∙ rw (g, m, l);
      }

  -- The message, its watch type, and what the queues get of it.
  abbrev pub message : Notice P → Value P
  message (of_watch about w x) = on_watch_msg about w x
  message (of_event id x) = on_event_msg id x

  abbrev pub type_of_notice : Vactor → Notice P → ℕ
  type_of_notice v (of_watch about w x) = w
  type_of_notice v (of_event id x) = id % 2 ^ v.watch_type_bits

  abbrev pub for_queues : Ref → Notice P → Value P
  for_queues watchee (of_watch about w x) = on_watch_msg watchee w x
  for_queues watchee (of_event id x) = on_event_msg id x

  -- After any sequence of messages to a new proxy that does not panic, a notification of the remote
  -- actor does not panic; it is put once into each queue and routed once to each actor that is
  -- subscribed to its type by then, and to no other. Subscribed is who subscribed in the last of its
  -- messages on the type, except for a queue that has refused a notification of the type since.
  pub notified_once :
      (v : Vactor) (self : Ref) (ms : List (Incoming P)) (from : Ref) (accepts : ℕ → Bool)
      (n : Notice P) {wp : WatchProxy} {es : List (Effect P)}
      → handle_all P v self new_watch_proxy ms ≡ returns (wp, es)
      → (out : WatchProxy × List (Effect P)) × (on_message v self from accepts wp (message n)
          ≡ returns out)
        × Notifies
            (hear_all P v ms nobody)
            wp.watchee
            (type_of_notice v n)
            (for_queues wp.watchee n)
            (message n)
            out.1
  unfolding on_message
  notified_once v self ms from accepts n {wp} h =
      let r = handle_all-Represents v self ms new_watch_proxy nobody h new_watch_proxy-Represents in
      notices n r
    where
      notices :
          (n : Notice P)
          → Represents (hear_all P v ms nobody) wp
          → (out : WatchProxy × List (Effect P)) × (on_message v self from accepts wp (message n)
              ≡ returns out)
            × Notifies
                (hear_all P v ms nobody)
                wp.watchee
                (type_of_notice v n)
                (for_queues wp.watchee n)
                (message n)
                out.1
      notices (of_watch about w x) r =
          (_, refl, notify_all-Notifies accepts wp w _ _ (hear_all P v ms nobody) r)
      notices (of_event id x) r =
          (_, refl, notify_all-Notifies accepts wp _ _ _ (hear_all P v ms nobody) r)
