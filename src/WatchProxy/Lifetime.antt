-- ===== src/WatchProxy/Lifetime.antt =====
-- How long a watch proxy lives: its stop interval.
use dvactor.Base.{
  ℕ, ◌%◌, ◌^◌, ◌≡◌, refl, ap, ◌∙◌, ◌⊎◌, inl, inr, Bool, true, false, ◌&&◌, ◌||◌, Option, none, some,
  List, [], ◌∷◌, ◌++◌, arith, ==_iff, Bool-cases, Option-cases, returns, returns-injective,
  returns-of->>=,
}
use dvactor.Base.Maps.{Eq, lookup, lookup-insert, nat_eq, beq_refl}
use dvactor.Vactor.{Vactor, ActorRef, Ref, ref_eq, Value, inner_watch, on_watch_msg, on_event_msg}
use dvactor.WatchProxy.{
  Subs, WatchProxy, new_watch_proxy, Effect, set_stop_interval, ctx_watch, ctx_unwatch, enqueues,
  local_router, is_some, is_nil, add_sub, remove_sub, update, is_watch, changed, update_outer_watch,
  update_inner_watch, feed, to_watchers, or_none, notify_all, on_message,
}
use dvactor.WatchProxy.Upstream.{Incoming, handle_all}
use dvactor.WatchProxy.Sets.{member, IsSets}
use dvactor.WatchProxy.Subscribers.{
  nobody, hear_all, handle_all-Represents, new_watch_proxy-Represents,
}

-- Nobody is subscribed to anything.
abbrev pub idle : WatchProxy → Bool
idle wp = is_nil wp.queuess && is_nil wp.watcherss

module _ {P : Type 0} where
  -- The stop interval after some effects: the last one set.
  abbrev pub last_interval : Option ℕ → List (Effect P) → Option ℕ
  last_interval o [] = o
  last_interval o (set_stop_interval n ∷ es) = last_interval (some n) es
  last_interval o (enqueues q x ∷ es) = last_interval o es
  last_interval o (local_router e ∷ es) = last_interval o es
  last_interval o (ctx_watch to w ∷ es) = last_interval o es
  last_interval o (ctx_unwatch to w ∷ es) = last_interval o es

  last_interval-append :
      (o : Option ℕ) (es fs : List (Effect P))
      → last_interval o (es ++ fs) ≡ last_interval (last_interval o es) fs
  last_interval-append o [] fs = refl
  last_interval-append o (set_stop_interval n ∷ es) fs = last_interval-append (some n) es fs
  last_interval-append o (enqueues q x ∷ es) fs = last_interval-append o es fs
  last_interval-append o (local_router e ∷ es) fs = last_interval-append o es fs
  last_interval-append o (ctx_watch to w ∷ es) fs = last_interval-append o es fs
  last_interval-append o (ctx_unwatch to w ∷ es) fs = last_interval-append o es fs

-- With subscribers the proxy does not stop; without, ten seconds are set, or nothing yet.
pub record IsTimed (nobody : Bool) (o : Option ℕ) : Type 0 where
  pub stays : nobody ≡ false → o ≡ some 0
  pub stops : nobody ≡ true → (o ≡ none) ⊎ (o ≡ some 10)

is_watch-idle : (w : ℕ) (wp : WatchProxy) → is_watch wp w ≡ true → idle wp ≡ false
unfolding is_watch
is_watch-idle w wp h = lists wp.queuess wp.watcherss h
  where
    lists :
        (m : Subs ℕ) (n : Subs ActorRef)
        → (is_some (lookup w m) || is_some (lookup w n)) ≡ true
        → (is_nil m && is_nil n) ≡ false
    lists [] [] h = cc
    lists [] (x ∷ n) h = refl
    lists (x ∷ m) n h = refl

changed-IsTimed :
    (P : Type 0) (w : ℕ) (wp wp' : WatchProxy) (o : Option ℕ)
    → (is_watch wp w ≡ false → is_watch wp' w ≡ false → idle wp' ≡ idle wp)
    → IsTimed (idle wp) o
    → IsTimed (idle wp') (last_interval {P = P} o (changed (is_watch wp w) w wp'))
unfolding changed
changed-IsTimed P w wp wp' o same t = record {
  stays = λ h. ground (arith, is_watch-idle w wp, is_watch-idle w wp', same, t.stays);
  stops = λ h. ground (arith, is_watch-idle w wp, is_watch-idle w wp', same, t.stays, t.stops);
}

-- A change after which, as before, the type has no subscribers is none.
update_same {ℓ} :
    {K : Type ℓ} ⦃e : Eq K⦄ (b : Bool) (w : ℕ) (k : K) (m : Subs K)
    → is_some (lookup w m) ≡ false
    → is_some (lookup w (update b w k m)) ≡ false
    → update b w k m ≡ m
unfolding update
update_same true w k m h g = added (lookup w m) h g
  where
    added :
        (o : Option _)
        → is_some o ≡ false
        → is_some (lookup w (add_sub w k o m)) ≡ false
        → add_sub w k o m ≡ m
    added none h g = ground (arith, lookup-insert w w (k ∷ []) m, ==_iff w w)
    added (some ks) h g = cc
update_same false w k m h g = removed (lookup w m) h
  where
    removed : (o : Option _) → is_some o ≡ false → remove_sub w k o m ≡ m
    removed none h = refl
    removed (some ks) h = cc

module _ (P : Type 0) where
  -- The proxy and its effects, from the stop interval `o` on.
  abbrev Times : WatchProxy → WatchProxy × List (Effect P) → Type 0
  Times wp out = (o : Option ℕ) → IsTimed (idle wp) o → IsTimed (idle out.0) (last_interval o out.1)

  append-Times :
      (wp : WatchProxy) (first rest : WatchProxy × List (Effect P))
      → Times wp first
      → Times first.0 rest
      → Times wp (rest.0, first.1 ++ rest.1)
  append-Times wp first rest f g o t =
      rw (last_interval-append o first.1 rest.1) (g (last_interval o first.1) (f o t))

  outer-Times :
      (wp : WatchProxy) (w : ℕ) (b : Bool) (q : ℕ) → Times wp (update_outer_watch wp w b q)
  unfolding update_outer_watch is_watch
  outer-Times wp w b q o t =
      changed-IsTimed P w wp (record wp { queuess = update b w q wp.queuess }) o
        (λ h g.
          ap (λ m. is_nil m && is_nil wp.watcherss)
            (update_same b w q wp.queuess (ground (arith, h)) (ground (arith, g))))
        t

  inner-Times :
      (wp : WatchProxy) (w : ℕ) (b : Bool) (from : Ref) {out : WatchProxy × List (Effect P)}
      → update_inner_watch wp w b from ≡ returns out
      → Times wp out
  unfolding update_inner_watch is_watch
  inner-Times wp w b none h o t = elim (Bool-cases (b || is_some (lookup w wp.watcherss))) [
    | inl e ↦ cc (rw e at h)
    | inr e ↦ rw (← returns-injective (rw e at h)) t
  ]
  inner-Times wp w b (some a) h o t = rw (← returns-injective h) (
      changed-IsTimed P w wp (record wp { watcherss = update b w a wp.watcherss }) o
        (λ h g.
          ap (λ m. is_nil wp.queuess && is_nil m)
            (update_same b w a wp.watcherss (ground (arith, h)) (ground (arith, g))))
        t)

  feed-Times :
      (accepts : ℕ → Bool) (w : ℕ) (x : Value P) (qs : List ℕ) (wp : WatchProxy)
      → Times wp (feed accepts w x qs wp)
  unfolding feed
  feed-Times accepts w x [] wp o t = t
  feed-Times accepts w x (q ∷ qs) wp o t = elim (Bool-cases (accepts q)) [
    | inl e ↦ rw e (feed-Times accepts w x qs wp o t)
    | inr e ↦
        let dropped = update_outer_watch {P = P} wp w false q in
        rw e (
          append-Times wp dropped (feed accepts w x qs dropped.0) (outer-Times wp w false q)
            (feed-Times accepts w x qs dropped.0) o t)
  ]

  watchers_interval :
      (wp : WatchProxy) (w : ℕ) (y : Value P) (o : Option ℕ)
      → last_interval o (to_watchers wp w y) ≡ o
  unfolding to_watchers
  watchers_interval wp w y o = elim (Option-cases (lookup w wp.watcherss)) [
    | inl e ↦ rw (e, to_watchers)
    | inr (watchers, e) ↦ rw (e, to_watchers)
  ]

  notify_all-Times :
      (accepts : ℕ → Bool) (wp : WatchProxy) (w : ℕ) (x y : Value P)
      → Times wp (notify_all accepts wp w x y)
  unfolding notify_all
  notify_all-Times accepts wp w x y =
      let qs = or_none (lookup w wp.queuess) in
      let after = feed accepts w x qs wp in
      append-Times wp after (after.0, to_watchers after.0 w y) (feed-Times accepts w x qs wp)
        (λ o t. rw (watchers_interval after.0 w y o) t)

  on_message-Times :
      (v : Vactor) (self from : Ref) (accepts : ℕ → Bool) (wp : WatchProxy) (m : Value P)
      {out : WatchProxy × List (Effect P)}
      → on_message v self from accepts wp m ≡ returns out
      → Times wp out
  unfolding on_message
  on_message-Times v self from accepts wp (inner_watch w b) h = inner-Times wp w b from h
  on_message-Times v self from accepts wp (Value.outer_watch w b q) h =
      rw (← returns-injective h) (outer-Times wp w b q)
  on_message-Times v self from accepts wp (on_watch_msg about w x) h =
      rw (← returns-injective h)
        (notify_all-Times accepts wp w (on_watch_msg wp.watchee w x) (on_watch_msg about w x))
  on_message-Times v self from accepts wp (on_event_msg id x) h = rw (← returns-injective h) (
      notify_all-Times accepts wp (id % 2 ^ v.watch_type_bits) (on_event_msg id x)
        (on_event_msg id x))
  on_message-Times v self from accepts wp Value.nil h = rw (← returns-injective h) (λ o t. t)
  on_message-Times v self from accepts wp (Value.proto p) h = rw (← returns-injective h) (λ o t. t)
  on_message-Times v self from accepts wp (Value.plain n) h = rw (← returns-injective h) (λ o t. t)
  on_message-Times v self from accepts wp Value.on_start h = rw (← returns-injective h) (λ o t. t)
  on_message-Times v self from accepts wp (Value.outer_request a m q) h =
      rw (← returns-injective h) (λ o t. t)

  handle_all-Times :
      (v : Vactor) (self : Ref) (ms : List (Incoming P)) (wp : WatchProxy)
      {out : WatchProxy × List (Effect P)}
      → handle_all P v self wp ms ≡ returns out
      → Times wp out
  unfolding handle_all
  handle_all-Times v self [] wp h = rw (← returns-injective h) (λ o t. t)
  handle_all-Times v self ((from, accepts, m) ∷ ms) wp h =
      let (p, e, k) = returns-of->>= (on_message v self from accepts wp m) _ h in
      let (q, f, g) = returns-of->>= (handle_all P v self p.0 ms) _ k in
      rw (← returns-injective g) (
        append-Times wp p q (on_message-Times v self from accepts wp m e)
          (handle_all-Times v self ms p.0 f))

-- Without a subscription both maps are empty.
no_sets {ℓ} :
    {K : Type ℓ} ⦃e : Eq K⦄ (m : Subs K)
    → IsSets m
    → ((t : ℕ) (k : K) → member t k m ≡ false)
    → is_nil m ≡ true
no_sets [] s h = refl
no_sets ((t, []) ∷ m) s h = absurd (s.full t (ground (arith, ==_iff t t)))
no_sets ((t, k ∷ ks) ∷ m) s h = ground (arith, h t k, ==_iff t t, beq_refl k)

member-is_nil {ℓ} :
    {K : Type ℓ} ⦃e : Eq K⦄ (t : ℕ) (k : K) (m : Subs K) → member t k m ≡ true → is_nil m ≡ false
member-is_nil t k [] h = cc
member-is_nil t k (x ∷ m) h = refl

new_watch_proxy-IsTimed : IsTimed (idle new_watch_proxy) none
unfolding new_watch_proxy
new_watch_proxy-IsTimed = record { stays = λ h. cc; stops = λ h. inl refl }

-- After any sequence of messages to a new proxy that does not panic: while an actor or a queue is
-- subscribed to anything, the stop interval set last is 0, so the proxy stays; and if nobody is, it
-- is ten seconds, or none was ever set.
pub stays_for_subscribers :
    (P : Type 0) (v : Vactor) (self : Ref) (ms : List (Incoming P)) {wp : WatchProxy}
    {es : List (Effect P)}
    → handle_all P v self new_watch_proxy ms ≡ returns (wp, es)
    → ((t : ℕ) (a : ActorRef)
        → (hear_all P v ms nobody).actors t a ≡ true
        → last_interval none es ≡ some 0)
      × ((t q : ℕ) → (hear_all P v ms nobody).queues t q ≡ true → last_interval none es ≡ some 0)
      × (((t : ℕ) (a : ActorRef) → (hear_all P v ms nobody).actors t a ≡ false)
          → ((t q : ℕ) → (hear_all P v ms nobody).queues t q ≡ false)
          → (last_interval none es ≡ none) ⊎ (last_interval none es ≡ some 10))
stays_for_subscribers P v self ms {wp} {es} h =
    let r = handle_all-Represents v self ms new_watch_proxy nobody h new_watch_proxy-Represents in
    let t = handle_all-Times P v self ms new_watch_proxy h none new_watch_proxy-IsTimed in
    (
      λ w a k. t.stays (ground (arith, member-is_nil w a wp.watcherss (r.actors w a ∙ k))),
      λ w q k. t.stays (ground (arith, member-is_nil w q wp.queuess (r.queues w q ∙ k))),
      λ f g. t.stops (
          ground (
            arith,
            no_sets wp.watcherss r.actor_sets (λ w a. r.actors w a ∙ f w a),
            no_sets wp.queuess r.queue_sets (λ w q. r.queues w q ∙ g w q),
          )),
    )
