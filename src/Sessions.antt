-- ===== src/Sessions.antt =====
-- internal/session/manager.go: the session manager. Each definition is one section under the mutex;
-- the clock and the outcomes of os.MkdirAll are arguments, and what Save writes is the snapshot that
-- the section ends with. A path is joined by "/"; its directory is clean already.
pub mod Invariant
pub mod Lookups
pub mod Lifecycle
pub mod Changes
pub mod Restart
mod Examples
use agent_runtime_harness.Prelude.{
  ℕ, suc, ◌+◌, Text, text, eq_text, Option, none, some, Bool, true, false, not, ◌&&◌, ◌||◌, List,
  [], ◌∷◌, ◌++◌, map, Map, lookup, insert, insert_all, delete, length, keep, ltb, leb,
  if◌then◌else◌,
}
use agent_runtime_harness.Model.{Session, SessionState, is_terminal}
use agent_runtime_harness.Ids.{session_id, parse_session_seq}

pub record Manager : Type 0 where
  pub sessions : Map Session
  pub max_sessions : ℕ
  pub sessions_dir : Text
  pub seq : ℕ

-- New, and of the configuration runtime.max_sessions and SessionsDir.
unfoldable pub new : ℕ → Text → Manager
new max_sessions sessions_dir = record {
  sessions = [];
  max_sessions = max_sessions;
  sessions_dir = sessions_dir;
  seq = 0;
}

pub record CreateOptions : Type 0 where
  pub owner : Text
  pub name : Text
  pub workspace_id : Text
  pub workspace_dir : Text

-- filepath.Join
abbrev pub join : Text → Text → Text
join dir name = dir ++ b'/' ∷ name

pub is_live : Text × Session → Bool
unfolding is_terminal
is_live e = not (is_terminal e.1.state)

-- The count at the head of createLocked.
unfoldable pub live_count : Map Session → ℕ
unfolding is_live
live_count m = length (keep is_live m)

pub data CreateResult : Type 0 where
  created : Session → CreateResult
  max_reached : CreateResult
  no_runtime_dir : CreateResult
  no_isolated_dirs : CreateResult
  save_failed : CreateResult

unfoldable pub new_session : Manager → CreateOptions → ℕ → Session
unfolding session_id
new_session m o now =
    let dir = join m.sessions_dir (session_id (suc m.seq)) in
    record {
      id = session_id (suc m.seq);
      name = o.name;
      owner = o.owner;
      workspace_id = o.workspace_id;
      workspace_dir = o.workspace_dir;
      state = SessionState.ready;
      created_at = now;
      started_at = none;
      stopped_at = none;
      failure = [];
      home_dir = join dir (text "home");
      temp_dir = join dir (text "tmp");
      runtime_dir = dir;
    }

unfoldable pub count_up : Manager → Manager
count_up m = record m { seq = suc m.seq }

unfoldable pub add_session : Manager → Session → Manager
unfolding insert
add_session m s = record m { seq = suc m.seq; sessions = insert s.id s m.sessions }

-- Create: a failed MkdirAll leaves the number taken, and a failed Save the session as well.
unfoldable pub create : Manager → CreateOptions → ℕ → Bool → Bool → Bool → Manager × CreateResult
unfolding live_count new_session count_up add_session
create m o now runtime_dir_ok isolated_dirs_ok save_ok =
    if leb m.max_sessions (live_count m.sessions)
    then (m, max_reached)
    else if not runtime_dir_ok
    then (count_up m, no_runtime_dir)
    else if not isolated_dirs_ok
    then (count_up m, no_isolated_dirs)
    else (
      add_session m (new_session m o now),
      if save_ok then created (new_session m o now) else save_failed,
    )

-- GetByName: the first match of a range. The list stands for one order of it: Go may give any session of the
-- name, and a table with the same sessions in another order is another list.
unfoldable pub get_by_name : Map Session → Text → Option Session
unfolding eq_text
get_by_name [] name = none
get_by_name ((id, s) ∷ m) name =
    if not (eq_text s.name (text "")) && eq_text s.name name then some s else get_by_name m name

-- Mutate: fn changes the record in place, or fails and leaves it.
unfoldable pub mutate : Manager → Text → (Session → Option Session) → Manager
unfolding lookup insert
mutate m id fn = elim (lookup id m.sessions) [
  | none ↦ m
  | some s ↦ elim (fn s) [ none ↦ m | some s' ↦ record m { sessions = insert id s' m.sessions } ]
]

pub may_start : SessionState → Bool
may_start SessionState.ready = true
may_start SessionState.created = true
may_start _ = false

-- MarkRunning
unfoldable pub started : ℕ → Session → Session
unfolding may_start
started now s =
    if may_start s.state
    then record s { state = SessionState.running; started_at = some now }
    else s

unfoldable pub mark_running : Manager → Text → ℕ → Manager
unfolding mutate started
mark_running m id now = mutate m id (λ s. some (started now s))

-- MarkStopping
unfoldable pub mark_stopping : Manager → Text → Manager
unfolding mutate
mark_stopping m id = mutate m id (λ s. some (record s { state = SessionState.stopping }))

is_failed : SessionState → Bool
is_failed SessionState.failed = true
is_failed _ = false

-- Finish
unfoldable pub finished : SessionState → Text → ℕ → Session → Option Session
unfolding is_terminal is_failed
finished state reason now s =
    if not (is_terminal state)
    then none
    else some (record s {
      state = state;
      stopped_at = some now;
      failure = if is_failed state then reason else s.failure;
    })

unfoldable pub finish : Manager → Text → SessionState → Text → ℕ → Manager
unfolding mutate finished
finish m id state reason now = mutate m id (finished state reason now)

-- Remove; an unknown id is an error that changes nothing.
pub remove : Manager → Text → Manager
unfolding delete
remove m id = record m { sessions = delete id m.sessions }

-- StoppedAt is set and before now - ttl.
is_doomed : ℕ → ℕ → Session → Bool
unfolding is_terminal
is_doomed ttl now s =
    is_terminal s.state && (elim s.stopped_at [ none ↦ false | some t ↦ ltb (t + ttl) now ])

pub doomed : ℕ → ℕ → Map Session → List Text
unfolding is_doomed
doomed ttl now [] = []
doomed ttl now ((id, s) ∷ m) =
    let rest = doomed ttl now m in if is_doomed ttl now s then id ∷ rest else rest

pub remove_all : Manager → List Text → Manager
unfolding remove
remove_all m [] = m
remove_all m (id ∷ ids) = remove_all (remove m id) ids

-- Prune
pub prune : Manager → ℕ → ℕ → Manager
unfolding doomed remove_all
prune m ttl now = remove_all m (doomed ttl now m.sessions)

-- snapshotLocked
unfoldable pub snapshot : Manager → List Session
snapshot m = map (λ e. e.1) m.sessions

-- The loop of Restore over maxSeq, which starts here at the manager's own number.
pub max_seq : ℕ → List Session → ℕ
unfolding parse_session_seq
max_seq n [] = n
max_seq n (s ∷ ss) =
    max_seq (if ltb n (parse_session_seq s.id) then parse_session_seq s.id else n) ss

-- Restore
unfoldable pub restore : List Session → Manager → Manager
unfolding insert_all max_seq
restore ss m = record m { sessions = insert_all (λ s. s.id) ss []; seq = max_seq m.seq ss }

-- sort.Slice by CreatedAt, by insertion; it fixes no order of sessions of the same time.
unfoldable pub insert_by_created : Session → List Session → List Session
insert_by_created s [] = s ∷ []
insert_by_created s (u ∷ us) =
    let rest = u ∷ insert_by_created s us in
    if ltb u.created_at s.created_at then rest else s ∷ u ∷ us

unfoldable pub sort_sessions : List Session → List Session
unfolding insert_by_created
sort_sessions [] = []
sort_sessions (s ∷ ss) = insert_by_created s (sort_sessions ss)

-- List
unfoldable pub list_sessions : Manager → List Session
unfolding sort_sessions
list_sessions m = sort_sessions (map (λ e. e.1) m.sessions)
