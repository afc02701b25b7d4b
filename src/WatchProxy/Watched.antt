-- ===== src/WatchProxy/Watched.antt =====
-- The proxy's watch of the remote actor, and who is subscribed here.
use dvactor.Base.{
  ℕ, ◌≡◌, ◌⊎◌, ◌↔◌, refl, inl, inr, sym, ◌∙◌, Bool, true, false, Option, none, some, List, [], ◌∷◌,
  arith, returns, Bool-cases,
}
use dvactor.Base.Maps.{Eq, lookup, nat_eq, beq_refl}
use dvactor.Vactor.{Vactor, ActorRef, Ref, ref_eq}
use dvactor.WatchProxy.{Subs, WatchProxy, new_watch_proxy, Effect, is_some, is_watch, contains}
use dvactor.WatchProxy.Sets.{elems, member, IsSets}
use dvactor.WatchProxy.Subscribers.{
  Subscribed, nobody, hear_all, Represents, handle_all-Represents, new_watch_proxy-Represents,
}
use dvactor.WatchProxy.Upstream.{follow, Incoming, handle_all, handle_all_follows}

-- An actor or a queue is subscribed to a type.
abbrev pub Somebody : ℕ → Subscribed → Type 0
Somebody t s = ((a : ActorRef) × (s.actors t a ≡ true)) ⊎ ((q : ℕ) × (s.queues t q ≡ true))

-- A set of the map has an element, and a type with an element has a set.
module _ {ℓ} {K : Type ℓ} ⦃e : Eq K⦄ (t : ℕ) (m : Subs K) where
  is_some-member : IsSets m → is_some (lookup t m) ≡ true → (k : K) × (member t k m ≡ true)
  is_some-member s h = go (lookup t m) refl h
    where
      go :
          (o : Option (List K))
          → lookup t m ≡ o
          → is_some o ≡ true
          → (k : K) × (contains k (elems o) ≡ true)
      go none f h = cc
      go (some []) f h = absurd (s.full t f)
      go (some (k ∷ ks)) f h = (k, ground (arith, beq_refl k))

  member-is_some : (k : K) → member t k m ≡ true → is_some (lookup t m) ≡ true
  member-is_some k h = go (lookup t m) h
    where
      go : (o : Option (List K)) → contains k (elems o) ≡ true → is_some o ≡ true
      go none h = cc
      go (some ks) h = refl

is_watch-Somebody :
    (t : ℕ) (wp : WatchProxy) (s : Subscribed)
    → Represents s wp
    → (is_watch wp t ≡ true) ↔ Somebody t s
unfolding is_watch
is_watch-Somebody t wp s r = (there, back)
  where
    there : is_watch wp t ≡ true → Somebody t s
    there h = elim (Bool-cases (is_some (lookup t wp.watcherss))) [
      | inl e ↦
          let (a, m) = is_some-member t wp.watcherss r.actor_sets e in
          inl (a, sym (r.actors t a) ∙ m)
      | inr e ↦
          let (q, m) = is_some-member t wp.queuess r.queue_sets (ground (arith, h, e)) in
          inr (q, sym (r.queues t q) ∙ m)
    ]

    back : Somebody t s → is_watch wp t ≡ true
    back (inl (a, h)) = ground (arith, member-is_some t wp.watcherss a (r.actors t a ∙ h))
    back (inr (q, h)) = ground (arith, member-is_some t wp.queuess q (r.queues t q ∙ h))

-- Through any sequence of messages to a new proxy that does not panic, and for every watch type, the
-- proxy never watches the remote actor twice and never unwatches what it does not watch; and in the
-- end it holds a watch of that type exactly if an actor or a queue is subscribed to the type.
-- Subscribed is who subscribed in the last of its messages on the type, except for a queue that has
-- refused a notification of the type since.
pub watches_for_subscribers :
    (P : Type 0) (v : Vactor) (self : Ref) (t : ℕ) (ms : List (Incoming P)) {wp : WatchProxy}
    {es : List (Effect P)}
    → handle_all P v self new_watch_proxy ms ≡ returns (wp, es)
    → (b : Bool) × (follow t false es ≡ some b) × ((b ≡ true) ↔ Somebody t (hear_all P v ms nobody))
watches_for_subscribers P v self t ms {wp} h =
    let r = handle_all-Represents v self ms new_watch_proxy nobody h new_watch_proxy-Represents in
    (
      is_watch wp t,
      handle_all_follows P v self t ms h,
      is_watch-Somebody t wp (hear_all P v ms nobody) r,
    )
