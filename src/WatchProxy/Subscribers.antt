-- ===== src/WatchProxy/Subscribers.antt =====
-- Who is subscribed to a watch proxy, and whom a notification reaches.
use dvactor.Base.{
  ℕ, ◌%◌, ◌^◌, ◌≡◌, refl, ◌∙◌, inl, inr, Bool, true, false, not, ◌&&◌, ◌||◌, Option, none, some,
  List, [], ◌∷◌, arith, ◌==◌, ==_iff, if◌then◌else◌, Bool-cases, returns, returns-injective,
  returns-of->>=,
}
use dvactor.Base.Maps.{lookup, nat_eq}
use dvactor.Vactor.{Vactor, ActorRef, Ref, ref_eq, Value, inner_watch, on_watch_msg, on_event_msg}
use dvactor.WatchProxy.{
  WatchProxy, new_watch_proxy, Effect, is_some, contains, update_outer_watch, update_inner_watch,
  feed, or_none, notify_all, on_message,
}
use dvactor.WatchProxy.Sets.{elems, member, member-update, IsSets, update-IsSets}
use dvactor.WatchProxy.Upstream.{Incoming, handle_all}

-- The abstract view: which actors and which queues are subscribed to each type.
pub record Subscribed : Type 0 where
  pub actors : ℕ → ActorRef → Bool
  pub queues : ℕ → ℕ → Bool

abbrev pub nobody : Subscribed
nobody = record { actors = λ t a. false; queues = λ t q. false }

abbrev pub put_actor : ℕ → Bool → ActorRef → Subscribed → Subscribed
put_actor w b x s = record s {
  actors = λ t a. if (w == t) && ref_eq.beq x a then b else s.actors t a;
}

abbrev pub put_queue : ℕ → Bool → ℕ → Subscribed → Subscribed
put_queue w b x s = record s { queues = λ t q. if (w == t) && (x == q) then b else s.queues t q }

abbrev pub put_sender : ℕ → Bool → Ref → Subscribed → Subscribed
put_sender w b none s = s
put_sender w b (some a) s = put_actor w b a s

-- A queue that does not take a notification is unsubscribed.
abbrev pub drop_queues : ℕ → (ℕ → Bool) → Subscribed → Subscribed
drop_queues w accepts s = record s {
  queues = λ t q. if w == t then s.queues t q && accepts q else s.queues t q;
}

module _ (P : Type 0) where
  -- What a message makes of the subscribers.
  unfoldable pub hear : Vactor → Incoming P → Subscribed → Subscribed
  hear v (from, accepts, inner_watch w b) s = put_sender w b from s
  hear v (from, accepts, Value.outer_watch w b q) s = put_queue w b q s
  hear v (from, accepts, on_watch_msg about w x) s = drop_queues w accepts s
  hear v (from, accepts, on_event_msg id x) s = drop_queues (id % 2 ^ v.watch_type_bits) accepts s
  hear v (from, accepts, x) s = s

  unfoldable pub hear_all : Vactor → List (Incoming P) → Subscribed → Subscribed
  unfolding hear
  hear_all v [] s = s
  hear_all v (m ∷ ms) s = hear_all v ms (hear v m s)

-- The maps of the proxy hold the subscribers.
pub record Represents (s : Subscribed) (wp : WatchProxy) : Type 0 where
  pub actor_sets : IsSets wp.watcherss
  pub queue_sets : IsSets wp.queuess
  pub actors : (t : ℕ) (a : ActorRef) → member t a wp.watcherss ≡ s.actors t a
  pub queues : (t q : ℕ) → member t q wp.queuess ≡ s.queues t q

outer-Represents :
    (P : Type 0) (wp : WatchProxy) (w : ℕ) (b : Bool) (q : ℕ) (s : Subscribed)
    → Represents s wp
    → Represents (put_queue w b q s) (update_outer_watch {P = P} wp w b q).0
unfolding update_outer_watch
outer-Represents P wp w b q s r = record {
  actor_sets = r.actor_sets;
  queue_sets = update-IsSets b w q wp.queuess r.queue_sets;
  actors = r.actors;
  queues = λ t j. rw (← r.queues t j) (member-update b w t q j wp.queuess);
}

module _ {P : Type 0} where
  inner-Represents :
      (wp : WatchProxy) (w : ℕ) (b : Bool) (a : ActorRef) (s : Subscribed)
      {out : WatchProxy × List (Effect P)}
      → update_inner_watch wp w b (some a) ≡ returns out
      → Represents s wp
      → Represents (put_actor w b a s) out.0
  unfolding update_inner_watch
  inner-Represents wp w b a s h r = rw (← returns-injective h) (record {
    actor_sets = update-IsSets b w a wp.watcherss r.actor_sets;
    queue_sets = r.queue_sets;
    actors = λ t j. rw (← r.actors t j) (member-update b w t a j wp.watcherss);
    queues = r.queues;
  })

-- The queues of the list that do not take the value are unsubscribed.
abbrev drop_listed : ℕ → (ℕ → Bool) → List ℕ → Subscribed → Subscribed
drop_listed w accepts qs s = record s {
  queues = λ t q. if (w == t) && (contains q qs && not (accepts q)) then false else s.queues t q;
}

Represents-same :
    (s s' : Subscribed) (wp : WatchProxy)
    → ((t q : ℕ) → s.queues t q ≡ s'.queues t q)
    → ((t : ℕ) (a : ActorRef) → s.actors t a ≡ s'.actors t a)
    → Represents s wp
    → Represents s' wp
Represents-same s s' wp f g r = record {
  actor_sets = r.actor_sets;
  queue_sets = r.queue_sets;
  actors = λ t a. r.actors t a ∙ g t a;
  queues = λ t q. r.queues t q ∙ f t q;
}

pub or_none-elems : (o : Option (List ℕ)) → or_none o ≡ elems o
unfolding or_none
or_none-elems none = refl
or_none-elems (some qs) = refl

same_test : (accepts : ℕ → Bool) (q j : ℕ) → (q == j) ≡ true → accepts j ≡ accepts q
same_test accepts q j h = rw ((==_iff q j).0 h)

module _ {P : Type 0} (accepts : ℕ → Bool) (w : ℕ) (x : Value P) where
  feed-Represents :
      (qs : List ℕ) (wp : WatchProxy) (s : Subscribed)
      → Represents s wp
      → Represents (drop_listed w accepts qs s) (feed accepts w x qs wp).0
  unfolding feed
  feed-Represents [] wp s r =
      Represents-same s (drop_listed w accepts [] s) wp (λ t q. ground arith) (λ t a. refl) r
  feed-Represents (q ∷ qs) wp s r = elim (Bool-cases (accepts q)) [
    | inl e ↦ rw e (
        Represents-same (drop_listed w accepts qs s) (drop_listed w accepts (q ∷ qs) s)
          (feed accepts w x qs wp).0 (λ t j. ground (arith, e, same_test accepts q j)) (λ t a. refl)
          (feed-Represents qs wp s r))
    | inr e ↦
        let dropped = update_outer_watch {P = P} wp w false q in
        rw e (
          Represents-same (drop_listed w accepts qs (put_queue w false q s))
            (drop_listed w accepts (q ∷ qs) s) (feed accepts w x qs dropped.0).0
            (λ t j. ground (arith, e, same_test accepts q j)) (λ t a. refl)
            (feed-Represents qs dropped.0 (put_queue w false q s)
              (outer-Represents P wp w false q s r)))
  ]

  -- All the queues of the type are in the list.
  fed-Represents :
      (wp : WatchProxy) (s : Subscribed)
      → Represents s wp
      → Represents (drop_queues w accepts s) (feed accepts w x (or_none (lookup w wp.queuess)) wp).0
  fed-Represents wp s r =
      let qs = or_none (lookup w wp.queuess) in
      Represents-same (drop_listed w accepts qs s) (drop_queues w accepts s)
        (feed accepts w x qs wp).0
        (λ t q. ground (arith, r.queues w q, ==_iff w t, or_none-elems (lookup w wp.queuess)))
        (λ t a. refl) (feed-Represents qs wp s r)

rewatched :
    {self : Ref} {s : Subscribed} {wp : WatchProxy}
    → Represents s wp
    → Represents s (record wp { watchee = self })
rewatched r = record {
  actor_sets = r.actor_sets;
  queue_sets = r.queue_sets;
  actors = r.actors;
  queues = r.queues;
}

module _ {P : Type 0} where
  notified-Represents :
      (accepts : ℕ → Bool) (wp : WatchProxy) (w : ℕ) (x y : Value P) (s : Subscribed)
      → Represents s wp
      → Represents (drop_queues w accepts s) (notify_all accepts wp w x y).0
  unfolding notify_all
  notified-Represents accepts wp w x y s r = fed-Represents accepts w x wp s r

  on_message-Represents :
      (v : Vactor) (self from : Ref) (accepts : ℕ → Bool) (m : Value P) (wp : WatchProxy)
      (s : Subscribed) {out : WatchProxy × List (Effect P)}
      → on_message v self from accepts wp m ≡ returns out
      → Represents s wp
      → Represents (hear P v (from, accepts, m) s) out.0
  unfolding on_message hear update_inner_watch
  on_message-Represents v self none accepts (inner_watch w b) wp s h r =
      elim (Bool-cases (b || is_some (lookup w wp.watcherss))) [
        | inl e ↦ cc (rw e at h)
        | inr e ↦ rw (← returns-injective (rw e at h)) r
      ]
  on_message-Represents v self (some a) accepts (inner_watch w b) wp s h r =
      inner-Represents wp w b a s h r
  on_message-Represents v self from accepts (Value.outer_watch w b q) wp s h r =
      rw (← returns-injective h) (outer-Represents P wp w b q s r)
  on_message-Represents v self from accepts (on_watch_msg about w x) wp s h r =
      rw (← returns-injective h) (
        notified-Represents accepts wp w (on_watch_msg wp.watchee w x) (on_watch_msg about w x) s r)
  on_message-Represents v self from accepts (on_event_msg id x) wp s h r =
      rw (← returns-injective h) (
        notified-Represents accepts wp (id % 2 ^ v.watch_type_bits) (on_event_msg id x)
          (on_event_msg id x) s r)
  on_message-Represents v self from accepts Value.nil wp s h r = rw (← returns-injective h) r
  on_message-Represents v self from accepts (Value.proto p) wp s h r = rw (← returns-injective h) r
  on_message-Represents v self from accepts (Value.plain n) wp s h r = rw (← returns-injective h) r
  on_message-Represents v self from accepts Value.on_start wp s h r =
      rw (← returns-injective h) (rewatched r)
  on_message-Represents v self from accepts (Value.outer_request a m q) wp s h r =
      rw (← returns-injective h) r

  pub handle_all-Represents :
      (v : Vactor) (self : Ref) (ms : List (Incoming P)) (wp : WatchProxy) (s : Subscribed)
      {out : WatchProxy × List (Effect P)}
      → handle_all P v self wp ms ≡ returns out
      → Represents s wp
      → Represents (hear_all P v ms s) out.0
  unfolding handle_all hear_all
  handle_all-Represents v self [] wp s h r = rw (← returns-injective h) r
  handle_all-Represents v self ((from, accepts, m) ∷ ms) wp s h r =
      let (p, e, k) = returns-of->>= (on_message v self from accepts wp m) _ h in
      let (q, f, g) = returns-of->>= (handle_all P v self p.0 ms) _ k in
      rw (← returns-injective g) (
        handle_all-Represents v self ms p.0 (hear P v (from, accepts, m) s) f
          (on_message-Represents v self from accepts m wp s e r))

pub new_watch_proxy-Represents : Represents nobody new_watch_proxy
unfolding new_watch_proxy
new_watch_proxy-Represents = record {
  actor_sets = record { once = λ t k. refl; full = λ t h. cc };
  queue_sets = record { once = λ t k. refl; full = λ t h. cc };
  actors = λ t a. refl;
  queues = λ t q. refl;
}
