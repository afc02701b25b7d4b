-- ===== src/Session/Ids.antt =====
-- Ids of sessions are unique.
use dvactor.Base.{
  ℕ, ◌+◌, ◌%◌, ◌^◌, ◌≤◌, ◌<◌, ◌≡◌, ◌⊎◌, inl, refl, ap, Option, none, some, List, [], ◌∷◌, ◌++◌,
  if◌then◌else◌, ◌==◌, arith,
}
use dvactor.Base.Maps.{lookup-insert, lookup-delete, held, nat_eq}
use dvactor.Session.{
  next_id, add_session, remove_session, get_session, Shared, Step, numbered, added, removed, Reach,
  here, further, started,
}

-- How often an id is in a list.
abbrev pub count : ℕ → List ℕ → ℕ
count x [] = 0
count x (y ∷ ys) = (if y == x then 1 else 0) + count x ys

count-append : (x : ℕ) (xs ys : List ℕ) → count x (xs ++ ys) ≡ count x xs + count x ys
count-append x [] ys = omega arith
count-append x (y ∷ xs) ys = omega (arith, count-append x xs ys)

-- The sessions, in the map or on the way into it, that have the id.
abbrev pub uses : ℕ → Shared → ℕ
uses id s = held (get_session id s.manager) + count id s.waiting

-- While ids have not wrapped round: none is used twice, and those above the counter are unused.
pub record IsUnique (s : Shared) : Type 0 where
  pub counter : s.manager.gen_uid ≡ s.given % 2 ^ 32
  pub once : s.given < 2 ^ 32 → (id : ℕ) → uses id s ≤ 1
  pub above : s.given < 2 ^ 32 → (id : ℕ) → s.given < id → uses id s ≡ 0

Step-IsUnique : {s t : Shared} → Step s t → IsUnique s → IsUnique t
unfolding next_id add_session remove_session get_session
Step-IsUnique {s} numbered u = record {
  counter = omega (arith, u.counter);
  once = λ h id. ground (arith, u.counter, u.once (omega arith) id, u.above (omega arith) id);
  above = λ h id k. ground (arith, u.counter, u.above (omega arith) id (omega arith));
}
Step-IsUnique {s} (added before after id session e) u = record {
  counter = u.counter;
  once = λ h x. ground (
    arith,
    u.once h x,
    lookup-insert id x session s.manager.sessions,
    ap (count x) e,
    count-append x before (id ∷ after),
    count-append x before after,
  );
  above = λ h x k. ground (
    arith,
    u.above h x k,
    lookup-insert id x session s.manager.sessions,
    ap (count x) e,
    count-append x before (id ∷ after),
    count-append x before after,
  );
}
Step-IsUnique {s} (removed id) u = record {
  counter = u.counter;
  once = λ h x. ground (arith, u.once h x, lookup-delete id x s.manager.sessions);
  above = λ h x k. ground (arith, u.above h x k, lookup-delete id x s.manager.sessions);
}

Reach-IsUnique : {s t : Shared} → IsUnique s → Reach s t → IsUnique t
Reach-IsUnique u here = u
Reach-IsUnique u (further r st) = Step-IsUnique st (Reach-IsUnique u r)

started-IsUnique : IsUnique started
unfolding get_session
started-IsUnique = record { counter = refl; once = λ h id. omega arith; above = λ h id k. refl }

held-eq-zero : (o : Option ℕ) → held o ≡ 0 → o ≡ none
held-eq-zero none h = refl
held-eq-zero (some session) h = absurd (omega arith)

-- Whatever calls are interleaved, as long as fewer than 2^32 ids were given out: an id with which a
-- goroutine is about to enter its session is at most the number of ids given, no other goroutine
-- has it, and no session is in the map under it.
pub waiting_id_unused :
    {s : Shared} (before after : List ℕ) (id : ℕ)
    → Reach started s
    → s.given < 2 ^ 32
    → s.waiting ≡ before ++ (id ∷ after)
    → (id ≤ s.given) × (count id (before ++ after) ≡ 0) × (get_session id s.manager ≡ none)
waiting_id_unused {s} before after id r h e =
    let u = Reach-IsUnique started-IsUnique r in
    let there : count id s.waiting ≡ count id (before ++ after) + 1 =
      ground (
        arith,
        ap (count id) e,
        count-append id before (id ∷ after),
        count-append id before after,
      ) in
    (
      ground (arith, there, u.above h id),
      omega (arith, there, u.once h id),
      held-eq-zero (get_session id s.manager) (omega (arith, there, u.once h id)),
    )

-- A session stays under its id until the id is removed: no step of any goroutine puts another
-- session in its place, as long as fewer than 2^32 ids were given out.
pub session_not_replaced :
    {s t : Shared} (id session : ℕ)
    → Reach started s
    → s.given < 2 ^ 32
    → get_session id s.manager ≡ some session
    → Step s t
    → (get_session id t.manager ≡ some session) ⊎ (get_session id t.manager ≡ none)
unfolding next_id add_session remove_session get_session
session_not_replaced id session r h e numbered = inl e
session_not_replaced {s} id session r h e (added before after new other k) =
    let (a, b, c) = waiting_id_unused before after new r h k in
    inl (ground (arith, lookup-insert new id other s.manager.sessions, e, c))
session_not_replaced {s} id session r h e (removed old) =
    ground (arith, lookup-delete old id s.manager.sessions, e)
