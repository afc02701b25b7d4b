-- ===== src/WatchProxy/Upstream.antt =====
-- The watches that the proxy holds elsewhere are the types that its maps have sets for.
use dvactor.Base.{
  ℕ, ◌≡◌, refl, subst, ap, sym, ◌∙◌, inl, inr, Bool, true, false, ◌||◌, Option, none, some, List,
  [], ◌∷◌, ◌++◌, arith, ◌==◌, ==_iff, if◌then◌else◌, Bool-cases, Option-cases, Outcome, returns,
  returns-injective, returns-of->>=, ◌>>=◌, some-injective,
}
use dvactor.Base.Maps.{Eq, lookup, lookup-insert, lookup-delete, nat_eq}
use dvactor.Vactor.{Vactor, Ref, ref_eq, Value, inner_watch, on_watch_msg, on_event_msg}
use dvactor.WatchProxy.{
  Subs, WatchProxy, new_watch_proxy, Effect, set_stop_interval, ctx_watch, ctx_unwatch, enqueues,
  local_router, is_some, remove, add_sub, remove_sub, update, is_watch, changed, update_outer_watch,
  update_inner_watch, feed, to_watchers, or_none, notify_all, on_message,
}

module _ {P : Type 0} where
  -- Whether the type is watched elsewhere after an effect. `none`: it was watched twice, or
  -- unwatched when it was not watched.
  abbrev pub follow_one : ℕ → Bool → Effect P → Option Bool
  follow_one t b (ctx_watch to w) = if w == t then (if b then none else some true) else some b
  follow_one t b (ctx_unwatch to w) = if w == t then (if b then some false else none) else some b
  follow_one t b (set_stop_interval n) = some b
  follow_one t b (enqueues q x) = some b
  follow_one t b (local_router e) = some b

  unfoldable pub follow : ℕ → Bool → List (Effect P) → Option Bool
  follow t b [] = some b
  follow t b (e ∷ es) = elim (follow_one t b e) [ none ↦ none | some b' ↦ follow t b' es ]

  follow-append :
      (t : ℕ) (b c : Bool) (es fs : List (Effect P))
      → follow t b es ≡ some c
      → follow t b (es ++ fs) ≡ follow t c fs
  unfolding follow
  follow-append t b c [] fs h = ap (λ d. follow t d fs) (some-injective h)
  follow-append t b c (e ∷ es) fs h = elim (Option-cases (follow_one t b e)) [
    | inl q ↦ cc (rw (q, follow) at h)
    | inr (d, q) ↦ rw (q, follow) (follow-append t d c es fs (rw (q, follow) at h))
  ]

module _ {ℓ} {K : Type ℓ} ⦃e : Eq K⦄ where
  -- A change to one watch type leaves the others.
  lookup-update_ne :
      (b : Bool) (w t : ℕ) (k : K) (m : Subs K)
      → (w == t) ≡ false
      → lookup t (update b w k m) ≡ lookup t m
  unfolding update add_sub remove_sub
  lookup-update_ne true w t k m h = added (lookup w m)
    where
      added : (o : Option (List K)) → lookup t (add_sub w k o m) ≡ lookup t m
      added none = lookup-insert w t (k ∷ []) m ∙ rw h
      added (some ks) = ground (arith, lookup-insert w t (k ∷ ks) m)
  lookup-update_ne false w t k m h = removed (lookup w m)
    where
      removed : (o : Option (List K)) → lookup t (remove_sub w k o m) ≡ lookup t m
      removed none = refl
      removed (some ks) = ground (arith, lookup-insert w t (remove k ks) m, lookup-delete w t m)

module _ (P : Type 0) where
  -- The calls that follow a change keep step with it.
  follow-changed_self :
      (old : Bool) (w : ℕ) (wp : WatchProxy)
      → follow w old (changed {P = P} old w wp) ≡ some (is_watch wp w)
  unfolding follow changed
  follow-changed_self old w wp = ground arith

  follow-changed_ne :
      (b old : Bool) (w t : ℕ) (wp : WatchProxy)
      → (w == t) ≡ false
      → follow t b (changed {P = P} old w wp) ≡ some b
  unfolding follow changed
  follow-changed_ne b old w t wp h = ground arith

  -- The effects of a change of the proxy follow its watched types.
  abbrev pub Keeps : ℕ → WatchProxy → WatchProxy × List (Effect P) → Type 0
  Keeps t wp out = follow t (is_watch wp t) out.1 ≡ some (is_watch out.0 t)

  changed-Keeps :
      (w t : ℕ) (wp wp' : WatchProxy)
      → ((w == t) ≡ false → is_watch wp' t ≡ is_watch wp t)
      → Keeps t wp (wp', changed (is_watch wp w) w wp')
  changed-Keeps w t wp wp' h = elim (Bool-cases (w == t)) [
    | inl e ↦
        subst (λ k. Keeps k wp (wp', changed (is_watch wp w) w wp')) ((==_iff w t).0 e)
          (follow-changed_self (is_watch wp w) w wp')
    | inr e ↦ follow-changed_ne (is_watch wp t) (is_watch wp w) w t wp' e ∙ ap some (sym (h e))
  ]

  update_outer_watch-Keeps :
      (t : ℕ) (wp : WatchProxy) (w : ℕ) (b : Bool) (queue : ℕ)
      → Keeps t wp (update_outer_watch wp w b queue)
  unfolding update_outer_watch is_watch
  update_outer_watch-Keeps t wp w b queue =
      changed-Keeps w t wp (record wp { queuess = update b w queue wp.queuess })
        (λ e. rw (lookup-update_ne b w t queue wp.queuess e))

  update_inner_watch-Keeps :
      (t : ℕ) (wp : WatchProxy) (w : ℕ) (b : Bool) (watcher : Ref)
      {out : WatchProxy × List (Effect P)}
      → update_inner_watch wp w b watcher ≡ returns out
      → Keeps t wp out
  unfolding update_inner_watch is_watch follow
  update_inner_watch-Keeps t wp w b none {out} h =
      elim (Bool-cases (b || is_some (lookup w wp.watcherss))) [
        | inl e ↦ cc (rw e at h)
        | inr e ↦ subst (Keeps t wp) (returns-injective (rw e at h)) refl
      ]
  update_inner_watch-Keeps t wp w b (some watcher) h = subst (Keeps t wp) (returns-injective h) (
      changed-Keeps w t wp (record wp { watcherss = update b w watcher wp.watcherss })
        (λ e. rw (lookup-update_ne b w t watcher wp.watcherss e)))

  feed-Keeps :
      (accepts : ℕ → Bool) (t w : ℕ) (x : Value P) (queues : List ℕ) (wp : WatchProxy)
      → Keeps t wp (feed accepts w x queues wp)
  unfolding feed follow
  feed-Keeps accepts t w x [] wp = refl
  feed-Keeps accepts t w x (queue ∷ queues) wp = elim (Bool-cases (accepts queue)) [
    | inl e ↦ rw e (feed-Keeps accepts t w x queues wp)
    | inr e ↦
        let dropped = update_outer_watch {P = P} wp w false queue in
        rw e (
          follow-append t (is_watch wp t) (is_watch dropped.0 t) dropped.1 _
            (update_outer_watch-Keeps t wp w false queue)
          ∙ feed-Keeps accepts t w x queues dropped.0)
  ]

  follow-to_watchers :
      (t : ℕ) (b : Bool) (wp : WatchProxy) (w : ℕ) (y : Value P)
      → follow t b (to_watchers wp w y) ≡ some b
  unfolding follow to_watchers
  follow-to_watchers t b wp w y = elim (Option-cases (lookup w wp.watcherss)) [
    | inl e ↦ rw (e, to_watchers)
    | inr (watchers, e) ↦ rw (e, to_watchers)
  ]

  notify_all-Keeps :
      (accepts : ℕ → Bool) (t : ℕ) (wp : WatchProxy) (w : ℕ) (x y : Value P)
      → Keeps t wp (notify_all accepts wp w x y)
  unfolding notify_all
  notify_all-Keeps accepts t wp w x y =
      let queues = or_none (lookup w wp.queuess) in
      let fed = feed accepts w x queues wp in
      follow-append t (is_watch wp t) (is_watch fed.0 t) fed.1 (to_watchers fed.0 w y)
        (feed-Keeps accepts t w x queues wp)
      ∙ follow-to_watchers t (is_watch fed.0 t) fed.0 w y

  on_message-Keeps :
      (v : Vactor) (self from : Ref) (accepts : ℕ → Bool) (t : ℕ) (wp : WatchProxy) (x : Value P)
      {out : WatchProxy × List (Effect P)}
      → on_message v self from accepts wp x ≡ returns out
      → Keeps t wp out
  unfolding on_message follow is_watch
  on_message-Keeps v self from accepts t wp (inner_watch w b) h =
      update_inner_watch-Keeps t wp w b from h
  on_message-Keeps v self from accepts t wp (Value.outer_watch w b q) h =
      subst (Keeps t wp) (returns-injective h) (update_outer_watch-Keeps t wp w b q)
  on_message-Keeps v self from accepts t wp (on_watch_msg about w x) h =
      subst (Keeps t wp) (returns-injective h) (notify_all-Keeps accepts t wp w _ _)
  on_message-Keeps v self from accepts t wp (on_event_msg id x) h =
      subst (Keeps t wp) (returns-injective h) (notify_all-Keeps accepts t wp _ _ _)
  on_message-Keeps v self from accepts t wp Value.nil h =
      subst (Keeps t wp) (returns-injective h) refl
  on_message-Keeps v self from accepts t wp (Value.proto p) h =
      subst (Keeps t wp) (returns-injective h) refl
  on_message-Keeps v self from accepts t wp (Value.plain n) h =
      subst (Keeps t wp) (returns-injective h) refl
  on_message-Keeps v self from accepts t wp Value.on_start h =
      subst (Keeps t wp) (returns-injective h) refl
  on_message-Keeps v self from accepts t wp (Value.outer_request a m q) h =
      subst (Keeps t wp) (returns-injective h) refl

  -- One message: its sender, which queues accept, and the message itself.
  abbrev pub Incoming : Type 0
  Incoming = Ref × (ℕ → Bool) × Value P

  -- A proxy handles its messages one after another; all its effects in order.
  unfoldable pub handle_all :
      Vactor → Ref → WatchProxy → List Incoming → Outcome (WatchProxy × List (Effect P))
  handle_all v self wp [] = returns (wp, [])
  handle_all v self wp ((from, accepts, x) ∷ xs) = on_message v self from accepts wp x >>= λ r.
      handle_all v self r.0 xs >>= λ s. returns (s.0, r.1 ++ s.1)

  handle_all-Keeps :
      (v : Vactor) (self : Ref) (t : ℕ) (wp : WatchProxy) (xs : List Incoming)
      {out : WatchProxy × List (Effect P)}
      → handle_all v self wp xs ≡ returns out
      → Keeps t wp out
  unfolding handle_all follow
  handle_all-Keeps v self t wp [] h = subst (Keeps t wp) (returns-injective h) refl
  handle_all-Keeps v self t wp ((from, accepts, x) ∷ xs) {out} h =
      let (r, e, k) = returns-of->>= (on_message v self from accepts wp x) _ h in
      let (s, f, q) = returns-of->>= (handle_all v self r.0 xs) _ k in
      subst (Keeps t wp) (returns-injective q) (
        follow-append t (is_watch wp t) (is_watch r.0 t) r.1 s.1
          (on_message-Keeps v self from accepts t wp x e)
        ∙ handle_all-Keeps v self t r.0 xs f)

  -- Through any sequence of messages to a new proxy that does not panic, and for every watch type,
  -- the proxy never watches the remote actor twice and never unwatches what it does not watch, and
  -- in the end it holds a watch of that type exactly if one of its maps has a set for it.
  pub handle_all_follows :
      (v : Vactor) (self : Ref) (t : ℕ) (xs : List Incoming) {wp : WatchProxy}
      {effects : List (Effect P)}
      → handle_all v self new_watch_proxy xs ≡ returns (wp, effects)
      → follow t false effects ≡ some (is_watch wp t)
  unfolding new_watch_proxy is_watch
  handle_all_follows v self t xs h = handle_all-Keeps v self t new_watch_proxy xs h
