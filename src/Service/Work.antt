-- ===== src/Service/Work.antt =====
-- internal/daemon/service.go: the calls on leases, ports, workspaces, tools and logs. A refusal by the policy
-- is the first test of each call that has one.
use agent_runtime_harness.Prelude.{
  ℕ, Text, text, eq_text, has_prefix, Option, none, some, Bool, false, not, ◌&&◌, List, [], ◌∷◌,
  map, Map, lookup, if◌then◌else◌, mem_text,
}
use agent_runtime_harness.Model.{Session, is_terminal, Lease, LeaseMode, Resource, Tool, Run}
use agent_runtime_harness.Policy.{DenyError, evaluate}
use agent_runtime_harness.Leases
use agent_runtime_harness.Leases.Startup.{
  ensure_resource, list, session_holds, active_count, queue_depth,
}
use agent_runtime_harness.Leases.Endings.{EndResult, release}
use agent_runtime_harness.Ports
use agent_runtime_harness.Workspaces
use agent_runtime_harness.Runs.{list_of}
use agent_runtime_harness.Registry.{detect, list_tools}
use agent_runtime_harness.Service.{Service, get_session}

pub data LeaseAnswer : Type 0 where
  denied : DenyError → LeaseAnswer
  unknown_session : LeaseAnswer
  answered : Leases.AcquireResult → LeaseAnswer

-- EnsureResource for the ids "adb:<serial>".
unfoldable pub with_device : Leases.Manager → Text → Bool → Leases.Manager
unfolding has_prefix ensure_resource
with_device m rid ok =
    if has_prefix rid (text "adb:") then ensure_resource m rid LeaseMode.exclusive ok else m

-- AcquireLease: the session that the lease manager gets is the caller's text, id or name.
unfoldable pub acquire_lease :
    Service → Text → Text → Text → ℕ → ℕ → Bool → Bool → Service × LeaseAnswer
unfolding evaluate get_session with_device Leases.acquire
acquire_lease s owner sid rid ttl now ensure_ok ok =
    elim (evaluate s.rules owner (text "lease.acquire")) [
      | some d ↦ (s, denied d)
      | none ↦ elim (get_session s sid) [
        | none ↦ (s, unknown_session)
        | some u ↦
            let r = Leases.acquire (with_device s.leases rid ensure_ok) rid sid ttl now ok in
            (record s { leases = r.0 }, answered r.1)
      ]
    ]

pub data ReleaseAnswer : Type 0 where
  denied : DenyError → ReleaseAnswer
  unknown_lease : ReleaseAnswer
  belongs_to : Text → ReleaseAnswer
  answered : EndResult → ReleaseAnswer

-- ReleaseLease
unfoldable pub release_lease : Service → Text → Text → Text → ℕ → Bool → Service × ReleaseAnswer
unfolding evaluate lookup release eq_text
release_lease s owner sid lease_id now ok = elim (evaluate s.rules owner (text "lease.release")) [
  | some d ↦ (s, denied d)
  | none ↦ elim (lookup lease_id s.leases.leases) [
    | none ↦ (s, unknown_lease)
    | some l ↦
        let r = release s.leases lease_id now ok in
        if not (eq_text l.session_id sid)
        then (s, belongs_to l.session_id)
        else (record s { leases = r.0 }, answered r.1)
  ]
]

-- ListLeases
unfoldable pub list_leases : Service → Text → List Lease
unfolding list session_holds eq_text
list_leases s sid = if eq_text sid [] then list s.leases false else session_holds s.leases sid

-- ResourceView, and ListResources before its sort by id.
pub record ResourceView : Type 0 where
  pub resource : Resource
  pub active : ℕ
  pub waiting : ℕ

unfoldable pub list_resources : Service → List ResourceView
unfolding active_count queue_depth
list_resources s =
    map
      (λ e. record {
        resource = e.1;
        active = active_count s.leases e.1.id;
        waiting = queue_depth s.leases e.1.id;
      })
      s.leases.res

pub data PortAnswer : Type 0 where
  denied : DenyError → PortAnswer
  unknown_session : PortAnswer
  answered : Ports.AcquireResult → PortAnswer

-- AllocatePort: as for leases, the session is the caller's text.
unfoldable pub allocate_port :
    Service → Text → Text → Text → Text → (ℕ → Ports.Answer) → Service × PortAnswer
unfolding evaluate get_session Ports.acquire
allocate_port s owner sid protocol name ask = elim (evaluate s.rules owner (text "port.allocate")) [
  | some d ↦ (s, denied d)
  | none ↦ elim (get_session s sid) [
    | none ↦ (s, unknown_session)
    | some u ↦
        let r = Ports.acquire ask s.ports sid protocol name in
        (record s { ports = r.0 }, answered r.1)
  ]
]

-- ListPorts before its sort.
unfoldable pub list_ports : Service → List Ports.Allocation
unfolding Ports.snapshot
list_ports s = Ports.snapshot s.ports

pub data WorkspaceAnswer : Type 0 where
  denied : DenyError → WorkspaceAnswer
  answered : Workspaces.CreateResult → WorkspaceAnswer

-- CreateWorkspace
unfoldable pub create_workspace :
    Service → Text → Workspaces.CreateOptions → Workspaces.World → Service × WorkspaceAnswer
unfolding evaluate Workspaces.create
create_workspace s owner o w = elim (evaluate s.rules owner (text "workspace.create")) [
  | some d ↦ (s, denied d)
  | none ↦
      let r = Workspaces.create s.workspaces o w in (record s { workspaces = r.0 }, answered r.1)
]

-- The loop of RemoveWorkspace: the first live session of the workspace.
unfoldable pub user_of : Text → Map Session → Option Session
unfolding eq_text is_terminal
user_of name [] = none
user_of name ((id, u) ∷ m) =
    if eq_text u.workspace_id name && not (is_terminal u.state) then some u else user_of name m

pub data RemoveAnswer : Type 0 where
  denied : DenyError → RemoveAnswer
  unknown_workspace : RemoveAnswer
  in_use_by : Text → RemoveAnswer
  removed : RemoveAnswer
  not_saved : RemoveAnswer

-- RemoveWorkspace of the registration; git and the removal of the directory are not part of the state.
unfoldable pub remove_workspace : Service → Text → Text → Bool → Service × RemoveAnswer
unfolding evaluate Workspaces.get_by_name Workspaces.remove user_of
remove_workspace s owner name save_ok = elim (evaluate s.rules owner (text "workspace.remove")) [
  | some d ↦ (s, denied d)
  | none ↦ elim (Workspaces.get_by_name s.workspaces name) [
    | none ↦ (s, unknown_workspace)
    | some w ↦ elim (user_of w.name s.sessions.sessions) [
      | some u ↦ (s, in_use_by u.id)
      | none ↦ (
        record s { workspaces = Workspaces.remove s.workspaces name },
        if save_ok then removed else not_saved,
      )
    ]
  ]
]

-- GetTool
unfoldable pub get_tool : Service → Text → Option Tool
unfolding lookup
get_tool s id = lookup id s.tools

-- ListTools
unfoldable pub tools_of : Service → List Tool
unfolding list_tools
tools_of s = list_tools s.tools

-- DetectTools, with what the detection finds.
unfoldable pub detect_tools : List Tool → Service → Service × List Text
unfolding detect
detect_tools found s = let r = detect found s.tools in (record s { tools = r.0 }, r.1)

-- ListRuns before its sort, and GetRun.
unfoldable pub list_runs : Service → Text → List Run
unfolding list_of
list_runs s sid = list_of s.runs sid

unfoldable pub get_run : Service → Text → Option Run
unfolding lookup
get_run s id = lookup id s.runs.by_id

pub data LogAnswer : Type 0 where
  unknown_run : LogAnswer
  bad_name : LogAnswer
  read_from : Text → Text → LogAnswer

-- RunLogs up to ReadLog, which then reads that file of that directory.
unfoldable pub run_logs : Service → Text → Text → LogAnswer
unfolding get_run mem_text eq_text
run_logs s id name = elim (get_run s id) [
  | none ↦ unknown_run
  | some r ↦
      let file = (if eq_text name [] then text "log.txt" else name) in
      if mem_text file
        (text "log.txt" ∷ text "stdout.log" ∷ text "stderr.log" ∷ text "unity.log" ∷ [])
      then read_from r.dir file
      else bad_name
]
