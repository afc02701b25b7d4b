-- ===== src/Session.antt =====
-- engine/net/session: the sessions of a server and their manager. A session object is told by its
-- address, as a connection is.
pub mod Ids
mod Tests
use dvactor.Base.{
  ℕ, ◌+◌, ◌%◌, ◌^◌, ◌≡◌, Bool, true, false, Option, none, some, List, [], ◌∷◌, ◌++◌, if◌then◌else◌,
}
use dvactor.Base.Maps.{lookup, insert, delete, nat_eq}

-- `netSession`; `bind_object` is an interface that may be nil.
pub record NetSession (B : Type 0) : Type 0 where
  pub id : ℕ
  pub bind_object : Option B
  pub conn : Option ℕ

module _ {B : Type 0} where
  -- `Close`: the connection that is disconnected, if there is one still.
  unfoldable pub close : NetSession B → Option ℕ × NetSession B
  close s = (s.conn, record s { conn = none })

  unfoldable pub set_conn : Option ℕ → NetSession B → NetSession B
  set_conn conn s = record s { conn = conn }

  unfoldable pub set_bind_object : Option B → NetSession B → NetSession B
  set_bind_object object s = record s { bind_object = object }

  -- `NewSession` and `SetConn` on a connection that was accepted.
  unfoldable pub open_session : ℕ → ℕ → NetSession B
  unfolding set_conn
  open_session id conn = set_conn (some conn) (record { id = id; bind_object = none; conn = none })

-- `sessionMgr`; `gen_uid` is a `uint32`.
pub record SessionMgr : Type 0 where
  pub sessions : List (ℕ × ℕ)
  pub gen_uid : ℕ

unfoldable pub new_session_mgr : SessionMgr
new_session_mgr = record { sessions = []; gen_uid = 0 }

-- `m.genUId.Add(1)`: the new id.
unfoldable pub next_id : SessionMgr → ℕ × SessionMgr
next_id m = let id = (m.gen_uid + 1) % 2 ^ 32 in (id, record m { gen_uid = id })

-- The part of `NewSession` under the lock.
unfoldable pub add_session : ℕ → ℕ → SessionMgr → SessionMgr
add_session id session m = record m { sessions = insert id session m.sessions }

-- `NewSession` with no other call in between.
unfoldable pub new_session : ℕ → SessionMgr → ℕ × SessionMgr
unfolding next_id add_session
new_session session m = let (id, m') = next_id m in (id, add_session id session m')

unfoldable pub remove_session : ℕ → SessionMgr → SessionMgr
remove_session id m = record m { sessions = delete id m.sessions }

unfoldable pub get_session : ℕ → SessionMgr → Option ℕ
get_session id m = lookup id m.sessions

-- `TravelSession`: the sessions that `f` was called on, up to the first that it refuses, in the
-- order in which Go visits the map.
pub travel : (ℕ → Bool) → List (ℕ × ℕ) → List ℕ
travel f [] = []
travel f ((id, session) ∷ m) =
    let rest = travel f m in if f session then session ∷ rest else session ∷ []

pub travel_session : (List (ℕ × ℕ) → List (ℕ × ℕ)) → (ℕ → Bool) → SessionMgr → List ℕ
unfolding travel
travel_session order f m = travel f (order m.sessions)

-- The manager, and the goroutines that have an id and are about to take the lock; how many ids were
-- given out.
pub record Shared : Type 0 where
  pub manager : SessionMgr
  pub waiting : List ℕ
  pub given : ℕ

-- Any goroutine may take any step at any time.
pub data Step (s : Shared) : Shared → Type 0 where
  numbered : Step s (record s {
    manager = (next_id s.manager).1;
    waiting = (next_id s.manager).0 ∷ s.waiting;
    given = s.given + 1;
  })
  added :
      (before after : List ℕ) (id session : ℕ)
      → s.waiting ≡ before ++ (id ∷ after)
      → Step s (record s { manager = add_session id session s.manager; waiting = before ++ after })
  removed : (id : ℕ) → Step s (record s { manager = remove_session id s.manager })

pub data Reach (s : Shared) : Shared → Type 0 where
  here : Reach s s
  further : {t u : Shared} → Reach s t → Step t u → Reach s u

abbrev pub started : Shared
started = record { manager = record { sessions = []; gen_uid = 0 }; waiting = []; given = 0 }
