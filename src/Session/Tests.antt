-- ===== src/Session/Tests.antt =====
-- Two connections are accepted at once, and the first session ends.
use dvactor.Base.{ℕ, ◌≤◌, ◌≡◌, refl, none, some, [], ◌∷◌, arith}
use dvactor.Session.{
  NetSession, set_bind_object, set_conn, open_session, close, next_id, new_session_mgr, new_session,
  add_session, get_session, Shared, numbered, added, Reach, here, further, started,
}
use dvactor.Session.Ids.{count, waiting_id_unused}

first_id : new_session 40 new_session_mgr ≡ (1, record { sessions = (1, 40) ∷ []; gen_uid = 1 })
unfolding new_session new_session_mgr
first_id = refl

-- After 2^32 sessions the ids start again, and a session that is still open is replaced.
wraps_round :
    new_session 41 (record { sessions = (1, 40) ∷ []; gen_uid = 0 })
    ≡ (1, record { sessions = (1, 41) ∷ []; gen_uid = 1 })
unfolding new_session
wraps_round = refl

abbrev both_numbered : Shared
both_numbered = record {
  manager = record { sessions = []; gen_uid = 2 };
  waiting = 2 ∷ 1 ∷ [];
  given = 2;
}

numbers : Reach started both_numbered
unfolding next_id
numbers = further (further here numbered) numbered

waiting_id_unused_example :
    (1 ≤ both_numbered.given)
    × (count 1 (2 ∷ []) ≡ 0)
    × (get_session 1 both_numbered.manager ≡ none)
waiting_id_unused_example = waiting_id_unused (2 ∷ []) [] 1 numbers (omega arith) refl

abbrev one_added : Shared
one_added = record {
  manager = record { sessions = (1, 40) ∷ []; gen_uid = 2 };
  waiting = 2 ∷ [];
  given = 2;
}

adds_one : Reach started one_added
unfolding add_session
adds_one = further numbers (added (2 ∷ []) [] 1 40 refl)

-- `Close` disconnects once.
abbrev opened : NetSession ℕ
opened = set_bind_object (some 5) (open_session 3 7)

closes_once : ((close opened).0 ≡ some 7) × ((close (close opened).1).0 ≡ none)
unfolding close set_bind_object open_session set_conn
closes_once = (refl, refl)
