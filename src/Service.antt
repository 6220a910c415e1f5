-- ===== src/Service.antt =====
-- internal/daemon/service.go: the state of the daemon and its calls on sessions. Each manager's section is
-- one step; a call is the sequence of its sections when no other call comes between them. The clock, the
-- outcomes of the file system and the system's processes are arguments; log lines are left out. A session
-- that the service holds is a pointer into the manager's map, so that a write to it is a write there.
pub mod Startup
pub mod Running
pub mod Work
pub mod Execution
pub mod Recovery
mod Reloading
pub mod Restart
pub mod Composition
pub mod Calls
mod Clients
pub mod Adapters
mod Killing
pub mod Departure
pub mod Gates
pub mod Ownership
pub mod Names
mod Worlds
mod Examples
use agent_runtime_harness.Prelude.{
  ℕ, ◌==◌, leb, Text, text, eq_text, Option, none, some, Bool, true, false, not, ◌&&◌, ◌||◌, List,
  [], ◌∷◌, ◌++◌, map, Map, lookup, insert, if◌then◌else◌,
}
use mathlib.Core.List.{reverse}
use agent_runtime_harness.Model.{
  Session, SessionState, is_terminal, Run, RunStatus, is_finished, Tool, Workspace,
}
use agent_runtime_harness.Policy.{PolicyRule, DenyError, evaluate}
use agent_runtime_harness.Env.{EnvConfig, Spec}
use agent_runtime_harness.Leases
use agent_runtime_harness.Leases.Endings.{release_all}
use agent_runtime_harness.Ports
use agent_runtime_harness.Sessions
use agent_runtime_harness.Runs
use agent_runtime_harness.Workspaces
use agent_runtime_harness.Supervisor.{Supervisor, ProcInfo}
use agent_runtime_harness.Supervisor.Reach.{World, kill_session, session_procs}

pub record Service : Type 0 where
  pub rules : List PolicyRule
  pub env_config : EnvConfig
  pub tools : Map Tool
  pub leases : Leases.Manager
  pub ports : Ports.Manager
  pub sessions : Sessions.Manager
  pub workspaces : Workspaces.Manager
  pub runs : Runs.Manager
  pub supervisor : Supervisor
  pub env_specs : Map Spec
  -- The session directories that os.RemoveAll was called for.
  pub removed_dirs : List Text

-- GetSession: by id, and then by name.
unfoldable pub get_session : Service → Text → Option Session
unfolding lookup Sessions.get_by_name
get_session s key = elim (lookup key s.sessions.sessions) [
  | none ↦ Sessions.get_by_name s.sessions.sessions key
  | some found ↦ some found
]

-- What the end of a session finds: the clock, the system's processes before and after the kills, the order
-- of the range over the leases, the outcome of its Save, and how long each run has taken.
pub record Ending : Type 0 where
  pub now : ℕ
  pub before : World
  pub after : World
  pub lease_order : List Text
  pub save_ok : Bool
  pub duration : Text → ℕ

-- The loop of TerminateSession and of Recover over the runs.
unfoldable pub kill_runs : Runs.Manager → List Run → Text → ℕ → (Text → ℕ) → Runs.Manager
unfolding is_finished Runs.finish
kill_runs m [] reason now duration = m
kill_runs m (r ∷ rs) reason now duration =
    kill_runs
      (if is_finished r.status
        then m
        else Runs.finish m r.id RunStatus.killed none reason now (duration r.id))
      rs reason now duration

-- strings.TrimSpace on ASCII
unfoldable is_space : ℕ → Bool
is_space c = c == 32 || (leb 9 c && leb c 13)

unfoldable trim_left : Text → Text
unfolding is_space
trim_left [] = []
trim_left (c ∷ s) = let rest = trim_left s in if is_space c then rest else c ∷ s

unfoldable pub trim_space : Text → Text
unfolding trim_left
trim_space s = reverse (trim_left (reverse (trim_left s)))

-- sess.Owner = strings.TrimSpace(sess.Owner)
unfoldable pub trim_owner : Sessions.Manager → Text → Sessions.Manager
unfolding Sessions.mutate trim_space
trim_owner m id = Sessions.mutate m id (λ u. some (record u { owner = trim_space u.owner }))

-- The sections of the session manager in TerminateSession.
unfoldable pub end_session : Sessions.Manager → Text → Text → ℕ → Sessions.Manager
unfolding trim_owner Sessions.mark_stopping Sessions.finish
end_session m id reason now =
    Sessions.finish (Sessions.mark_stopping (trim_owner m id) id) id SessionState.stopped reason now

-- TerminateSession after its guards.
unfoldable pub terminate : Service → Session → Text → Ending → Service
unfolding end_session kill_session release_all Ports.release_by_session kill_runs Runs.list_of
terminate s u reason w = record s {
  sessions = end_session s.sessions u.id reason w.now;
  supervisor = (kill_session s.supervisor u.id w.before w.after).0;
  leases = release_all s.leases u.id w.lease_order w.now w.save_ok;
  ports = (Ports.release_by_session s.ports u.id).0;
  runs = kill_runs s.runs (Runs.list_of s.runs u.id) reason w.now w.duration;
  removed_dirs = u.runtime_dir ∷ s.removed_dirs;
}

-- TerminateSession; none is the error of GetSession. A session that has ended is returned as it is.
unfoldable pub terminate_session : Service → Text → Text → Ending → Service × Option Session
unfolding get_session is_terminal terminate lookup
terminate_session s key reason w = elim (get_session s key) [
  | none ↦ (s, none)
  | some u ↦
      if is_terminal u.state
      then (s, some u)
      else (let s' = terminate s u reason w in
          (s', elim (lookup u.id s'.sessions.sessions) [ none ↦ some u | some v ↦ some v ]))
]

pub record CreateSessionOpts : Type 0 where
  pub owner : Text
  pub name : Text
  pub workspace : Text
  pub workspace_dir : Text

-- What CreateSession finds: the clock, the outcomes of the session manager's files, filepath.Abs (which
-- leaves the path where it fails), the result of EnvMgr.Prepare, and the end of the session if that fails.
pub record Birth : Type 0 where
  pub now : ℕ
  pub runtime_dir_ok : Bool
  pub isolated_dirs_ok : Bool
  pub save_ok : Bool
  pub abs : Text → Text
  pub prepare : Text → Option Spec
  pub ending : Ending

pub data CreateSessionResult : Type 0 where
  denied : DenyError → CreateSessionResult
  not_created : Sessions.CreateResult → CreateSessionResult
  no_env : CreateSessionResult
  created : Session → CreateSessionResult

-- MarkSession of the workspace with this name, if there is one.
unfoldable mark_workspace : Workspaces.Manager → Text → Text → Workspaces.Manager
unfolding Workspaces.get_by_name Workspaces.mark_session
mark_workspace m name mark = elim (Workspaces.get_by_name m name) [
  | none ↦ m
  | some w ↦ Workspaces.mark_session m w.id mark
]

-- The directory that the options give: explicitly, or by a workspace.
unfoldable workspace_dir_of : Service → CreateSessionOpts → Text
unfolding Workspaces.get_by_name
workspace_dir_of s o = elim (Workspaces.get_by_name s.workspaces o.workspace) [
  | none ↦ o.workspace_dir
  | some w ↦ w.path
]

unfoldable pub uses_workspace : CreateSessionOpts → Bool
unfolding eq_text
uses_workspace o = eq_text o.workspace_dir [] && not (eq_text o.workspace [])

unfoldable pub session_options : Service → CreateSessionOpts → Birth → Sessions.CreateOptions
unfolding uses_workspace workspace_dir_of eq_text
session_options s o b =
    let dir = (if uses_workspace o then workspace_dir_of s o else o.workspace_dir) in
    record {
      owner = o.owner;
      name = o.name;
      workspace_id = o.workspace;
      workspace_dir = if eq_text dir [] then dir else b.abs dir;
    }

-- The workspace marked "pending" before the session exists.
unfoldable pub mark_pending : Service → CreateSessionOpts → Service
unfolding uses_workspace mark_workspace
mark_pending s o =
    if uses_workspace o
    then record s { workspaces = mark_workspace s.workspaces o.workspace (text "pending") }
    else s

-- CreateSession after the session is there.
unfoldable pub equip : Service → CreateSessionOpts → Birth → Session → Service × CreateSessionResult
unfolding terminate_session insert mark_workspace eq_text
equip s o b u = elim (b.prepare u.runtime_dir) [
  | none ↦ ((terminate_session s u.id (text "env prepare failed") b.ending).0, no_env)
  | some spec ↦ (
    record s {
      env_specs = insert u.id spec s.env_specs;
      workspaces =
          if eq_text o.workspace []
          then s.workspaces
          else mark_workspace s.workspaces o.workspace u.id;
    },
    created u,
  )
]

-- The session manager's answer, and what CreateSession does with it.
unfoldable pub after_create :
    Service
    → CreateSessionOpts
    → Birth
    → Sessions.Manager × Sessions.CreateResult
    → Service × CreateSessionResult
unfolding equip
after_create s o b (m, Sessions.CreateResult.created u) = equip (record s { sessions = m }) o b u
after_create s o b (m, r) = (record s { sessions = m }, not_created r)

-- CreateSession
unfoldable pub create_session : Service → CreateSessionOpts → Birth → Service × CreateSessionResult
unfolding evaluate mark_pending session_options Sessions.create after_create
create_session s o b = elim (evaluate s.rules o.owner (text "session.create")) [
  | some d ↦ (s, denied d)
  | none ↦ after_create (mark_pending s o) o b (
      Sessions.create s.sessions (session_options s o b) b.now b.runtime_dir_ok b.isolated_dirs_ok
        b.save_ok)
]

-- SessionProcs; none is the error of GetSession.
unfoldable pub list_procs : Service → Text → Option (List ProcInfo)
unfolding get_session session_procs
list_procs s key = elim (get_session s key) [
  | none ↦ none
  | some u ↦ some (session_procs s.supervisor key)
]
