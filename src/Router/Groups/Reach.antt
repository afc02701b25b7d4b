-- ===== src/Router/Groups/Reach.antt =====
-- Where routed envelopes go.
use dvactor.Base.{
  ℕ, ◌&&◌, ◌||◌, at_same, ◌≡◌, ◌≢◌, refl, Bool, ap, sym, ◌∙◌, inl, inr, true, false, Option, none,
  some, List, [], ◌∷◌, ◌++◌, arith, ◌==◌, ==_iff, if◌then◌else◌, Bool-cases, Outcome, returns,
  panics, ◌>>=◌, returns-injective,
}
use dvactor.Base.Maps.{nat_eq}
use dvactor.Vactor.{
  Vactor, Ref, Envelope, send, batch_send, request_async, response_async, request, response, watch,
  notify, fire_notify, internal,
}
use dvactor.Router.{Router}
use dvactor.Router.Groups.{
  Groups, group_refs, Action, to_local, to_remote, Routed, route_groups, with_ref, route_one,
  route_to, route,
}
use dvactor.Router.Groups.Grouped.{on_system, entries, group_refs-entries}

nothing_more : (l : List Ref) (b : Bool) → l ++ [] ≡ l ++ (if b then [] else [])
nothing_more l true = refl
nothing_more l false = refl

module _ {P : Type 0} (v : Vactor) (r : Router) (send_remote : ℕ → Envelope P → Option ℕ) where
  -- Whom an envelope is for.
  abbrev pub receivers : Envelope P → List Ref
  receivers (send from to x) = to ∷ []
  receivers (batch_send from tos xs) = tos
  receivers (request_async from to x id a) = to ∷ []
  receivers (response_async from to x id a) = to ∷ []
  receivers (request from to x id) = to ∷ []
  receivers (response from to x id) = to ∷ []
  receivers (watch from to w b) = to ∷ []
  receivers (notify from tos n about w x) = tos
  receivers (fire_notify from to n w x) = to ∷ []
  receivers (Envelope.outer_watch to w b q) = to ∷ []
  receivers (Envelope.outer_request to x c) = to ∷ []
  receivers (internal to n) = to ∷ []

  -- The three kinds that a proxy on this system may take over.
  abbrev pub takes_proxy : Envelope P → Bool
  takes_proxy (watch from to w b) = true
  takes_proxy (Envelope.outer_watch to w b q) = true
  takes_proxy (Envelope.outer_request to x c) = true
  takes_proxy e = false

  -- An envelope for some of the receivers, in place of all.
  abbrev pub part : Envelope P → List Ref → Envelope P
  part (batch_send from tos xs) refs = batch_send from refs xs
  part (notify from tos n about w x) refs = notify from refs n about w x
  part e refs = e

  abbrev pub takes : Option ℕ → Bool
  takes none = true
  takes (some code) = false

  -- The receivers on system `x` that the actions are for, without those in what `Send` refused.
  abbrev pub reached : ℕ → List (Action P) → List Ref
  reached x [] = []
  reached x (to_local e ∷ actions) =
      (if r.system_id == x then receivers e else []) ++ reached x actions
  reached x (to_remote y e ∷ actions) =
      (if y == x && takes (send_remote y e) then receivers e else []) ++ reached x actions

  -- `LocalRouter` is called for the local system, and `Send` for another one.
  abbrev pub can_reach : ℕ → Bool → Bool
  can_reach x ok = r.system_id == x || ok

  module _ (x : ℕ) (ok : Bool) where
    -- A group of the local system and then the others, and a group of another system.
    own_group :
        (y : ℕ) (l rest : List Ref)
        → (y == r.system_id) ≡ true
        → (if r.system_id == x then l else []) ++ (if can_reach x ok then rest else [])
          ≡ (if can_reach x ok then (if y == x then l else []) ++ rest else [])
    own_group y l rest e =
        ground (arith, ok, ==_iff y r.system_id, ==_iff y x, ==_iff r.system_id x)

    other_group :
        (y : ℕ) (e : Envelope P) (l rest : List Ref)
        → (y == r.system_id) ≡ false
        → takes (send_remote x e) ≡ ok
        → (if y == x && takes (send_remote y e) then l else [])
            ++ (if can_reach x ok then rest else [])
          ≡ (if can_reach x ok then (if y == x then l else []) ++ rest else [])
    other_group y e l rest n answer = elim (Bool-cases (y == x)) [
      | inl q ↦
          let same : takes (send_remote y e) ≡ ok =
            at_same (λ i. takes (send_remote i e)) y x q ∙ answer in
          let here : (r.system_id == x) ≡ false =
            ground (arith, n, q, ==_iff y r.system_id, ==_iff y x, ==_iff r.system_id x) in
          rw (q, same, here) (both ok)
      | inr q ↦ rw q refl
    ]
      where
        both :
            (b : Bool)
            → (if b then l else []) ++ (if b then rest else []) ≡ (if b then l ++ rest else [])
        both true = refl
        both false = refl

    reached-route_groups :
        (make : List Ref → Envelope P)
        → ((refs : List Ref) → receivers (make refs) ≡ refs)
        → ((refs : List Ref) → takes (send_remote x (make refs)) ≡ ok)
        → (g : Groups) (err : Option ℕ)
        → reached x (route_groups v r send_remote make g err).0
          ≡ (if can_reach x ok then entries x g else [])
    unfolding route_groups
    reached-route_groups make tos answer [] err = ground arith
    reached-route_groups make tos answer ((y, refs) ∷ g) err =
        elim (Bool-cases (y == r.system_id)) [
          | inl e ↦
              rw (e, tos refs, reached-route_groups make tos answer g err)
                (own_group y refs (entries x g) e)
          | inr e ↦
              rw (e, tos refs, reached-route_groups make tos answer g (send_remote y (make refs)))
                (other_group y (make refs) refs (entries x g) e (answer refs))
        ]

    grouped-reached :
        (make : List Ref → Envelope P)
        → ((refs : List Ref) → receivers (make refs) ≡ refs)
        → ((refs : List Ref) → takes (send_remote x (make refs)) ≡ ok)
        → (order : Groups → Groups) → ((g : Groups) → entries x (order g) ≡ entries x g)
        → (tos : List Ref) {out : Routed P}
        → (group_refs tos [] >>= λ g. returns (route_groups v r send_remote make (order g) none))
          ≡ returns out
        → reached x out.0 ≡ (if can_reach x ok then on_system x tos else [])
    grouped-reached make named answer order same tos {out} e = go (group_refs tos []) refl e
      where
        go :
            (o : Outcome Groups)
            → group_refs tos [] ≡ o
            → (o >>= λ g. returns (route_groups v r send_remote make (order g) none)) ≡ returns out
            → reached x out.0 ≡ (if can_reach x ok then on_system x tos else [])
        go panics q k = cc
        go (returns g) q k =
            ap (λ (t : Routed P). reached x t.0) (sym (returns-injective k))
            ∙ reached-route_groups make named answer (order g) none
            ∙ ap (λ l. if can_reach x ok then l else []) (same g ∙ group_refs-entries x tos [] tt q)

    route_one-reached :
        (s : ℕ) (e : Envelope P)
        → takes (send_remote x e) ≡ ok
        → reached x (route_one v r send_remote s e).0
          ≡ (if can_reach x ok then (if s == x then receivers e else []) ++ [] else [])
    unfolding route_one
    route_one-reached s e answer = elim (Bool-cases (s == r.system_id)) [
      | inl c ↦ rw c (
          nothing_more (if r.system_id == x then receivers e else []) (can_reach x ok)
          ∙ own_group s (receivers e) [] c)
      | inr c ↦ rw c (
          nothing_more (if s == x && takes (send_remote s e) then receivers e else [])
            (can_reach x ok)
          ∙ other_group s e (receivers e) [] c answer)
    ]

    route_to-reached :
        (to : Ref) (e : Envelope P) {out : Routed P}
        → receivers e ≡ to ∷ []
        → takes (send_remote x e) ≡ ok
        → route_to v r send_remote to e ≡ returns out
        → reached x out.0 ≡ (if can_reach x ok then on_system x (receivers e) else [])
    unfolding route_to with_ref
    route_to-reached none e named answer q = cc
    route_to-reached (some t) e named answer q =
        ap (λ (o : Routed P). reached x o.0) (sym (returns-injective q))
        ∙ route_one-reached t.system_id e answer
        ∙ ap (λ l. if can_reach x ok then (if t.system_id == x then l else []) ++ [] else []) named
        ∙ ap (λ l. if can_reach x ok then on_system x l else []) (sym named)

    -- For an envelope of a kind that no proxy takes over, if its routing does not panic: its
    -- receivers on the local system are reached once each, in the order of its list; if `Send` to
    -- another system returns no error, whichever of the receivers the envelope is sent for, those on
    -- that system are reached in the same way, and if it returns an error for all, none of them is;
    -- and nobody else is, in whichever order Go visits the groups.
    pub route-reached :
        (order : Groups → Groups) (e : Envelope P) {out : Routed P}
        → ((g : Groups) → entries x (order g) ≡ entries x g)
        → takes_proxy e ≡ false
        → ((refs : List Ref) → takes (send_remote x (part e refs)) ≡ ok)
        → route v r send_remote order e ≡ returns out
        → reached x out.0 ≡ (if can_reach x ok then on_system x (receivers e) else [])
    unfolding route
    route-reached order (batch_send from tos xs) same direct answer q =
        grouped-reached (λ refs. batch_send from refs xs) (λ refs. refl) answer order same tos q
    route-reached order (notify from tos n about w y) same direct answer q =
        grouped-reached (λ refs. notify from refs n about w y) (λ refs. refl) answer order same tos
          q
    route-reached order (watch from to w b) same direct answer q = cc
    route-reached order (Envelope.outer_watch to w b c) same direct answer q = cc
    route-reached order (Envelope.outer_request to y c) same direct answer q = cc
    route-reached order (send from to y) same direct answer q =
        route_to-reached to (send from to y) refl (answer []) q
    route-reached order (request_async from to y id a) same direct answer q =
        route_to-reached to (request_async from to y id a) refl (answer []) q
    route-reached order (response_async from to y id a) same direct answer q =
        route_to-reached to (response_async from to y id a) refl (answer []) q
    route-reached order (request from to y id) same direct answer q =
        route_to-reached to (request from to y id) refl (answer []) q
    route-reached order (response from to y id) same direct answer q =
        route_to-reached to (response from to y id) refl (answer []) q
    route-reached order (fire_notify from to n w y) same direct answer q =
        route_to-reached to (fire_notify from to n w y) refl (answer []) q
    route-reached order (internal to n) same direct answer q =
        route_to-reached to (internal to n) refl (answer []) q

  -- Errors are lost: whatever groups come before and whatever their sends return, the error of the
  -- whole loop is nil if the send to the last group, of another system, succeeds.
  pub route_groups_loses :
      (make : List Ref → Envelope P) (y : ℕ) (refs : List Ref) (groups : Groups) (err : Option ℕ)
      → y ≢ r.system_id
      → send_remote y (make refs) ≡ none
      → (route_groups v r send_remote make (groups ++ ((y, refs) ∷ [])) err).1 ≡ none
  unfolding route_groups
  route_groups_loses make y refs [] err a d = ground arith
  route_groups_loses make y refs ((id, to) ∷ groups) err a d =
      route_groups_loses make y refs groups
        (if id == r.system_id then err else send_remote id (make to)) a d
