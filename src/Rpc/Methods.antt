-- ===== src/Rpc/Methods.antt =====
-- internal/rpc/methods.go: the parameters of the methods and their results. What json.Unmarshal makes of them
-- is one record for all methods; what the calls find in the world is another. Lists are given before the
-- sort of the managers.
use agent_runtime_harness.Prelude.{
  ℕ, ◌*◌, ◌%◌, ◌^◌, ltb, Text, eq_text, Option, none, some, Bool, true, false, List, [],
  if◌then◌else◌,
}
use agent_runtime_harness.Model.{Tool}
use agent_runtime_harness.Leases
use agent_runtime_harness.Leases.Endings
use agent_runtime_harness.Ports
use agent_runtime_harness.Versions.{Requirement}
use agent_runtime_harness.Workspaces
use agent_runtime_harness.Service.{Service, Ending, Birth, CreateSessionOpts, CreateSessionResult}
use agent_runtime_harness.Service.Work
use agent_runtime_harness.Service.Work.{
  acquire_lease, release_lease, list_leases, list_resources, allocate_port, list_ports,
  create_workspace, remove_workspace, get_tool, tools_of, detect_tools, list_runs, get_run,
  run_logs,
}
use agent_runtime_harness.Service.Execution.{
  ExecuteOptions, Scene, ExecuteResult, launching, not_prepared,
}
use agent_runtime_harness.Rpc.{app_error, Outcome, rpc_error, value}
use agent_runtime_harness.Rpc.Views.{
  SessionView, ProcView, ToolView, ResourceView, LeaseView, PortView, WorkspaceView, RunView,
  session_view, lease_view, port_view, workspace_view, run_view,
}

-- The fields of the parameter structs; a number that is not positive is 0.
pub record Params : Type 0 where
  pub id : Text
  pub owner : Text
  pub reason : Text
  pub name : Text
  pub workspace : Text
  pub workspace_dir : Text
  pub session_id : Text
  pub resource_id : Text
  pub lease_id : Text
  pub run_id : Text
  pub ttl_seconds : ℕ
  pub wait : Bool
  pub protocol : Text
  pub repo : Text
  pub branch : Text
  pub path : Text
  pub detach : Bool
  pub prune : Bool
  pub tool_id : Text
  pub requirement : Text
  pub command : Text
  pub tail : ℕ

-- What the calls find: the clock, the files, git, the system's ports and processes, the detectors.
pub record World : Type 0 where
  pub now : ℕ
  pub save_ok : Bool
  pub ensure_ok : Bool
  pub birth : Birth
  pub ending : Ending
  pub ask : ℕ → Ports.Answer
  pub workspaces : Workspaces.World
  pub scene : Scene
  pub parse : Text → Option Requirement
  pub detected : List Tool
  pub read_log : Text → Text → ℕ → Option Text
  pub list_artifacts : Text → Option (List Text)
  pub rfc3339 : ℕ → Text

-- The results. A call that the caller still waits for gives its ticket or its run.
pub data Reply : Type 0 where
  session : SessionView → Reply
  sessions : List SessionView → Reply
  procs : List ProcView → Reply
  tool : ToolView → Reply
  tools : List ToolView → Reply
  resources : List ResourceView → Reply
  lease : LeaseView → Reply
  leases : List LeaseView → Reply
  waits_for_lease : (ticket : ℕ) (half_minute : Bool) → Reply
  port : PortView → Reply
  ports : List PortView → Reply
  workspace_made : WorkspaceView → Reply
  workspaces : List WorkspaceView → Reply
  run : RunView → Reply
  waits_for_run : Text → Reply
  runs : List RunView → Reply
  log : Text → Text → Text → Reply
  artifacts : Text → List Text → Reply
  empty : Reply

-- orDefault
unfoldable pub or_default : Text → Text → Text
unfolding eq_text
or_default s def = if eq_text s [] then def else s

-- time.Duration(n) * time.Second in int64: a product that wraps to a negative number acts like 0.
unfoldable pub seconds : ℕ → ℕ
seconds n = let ns = (n * 1_000_000_000) % 2 ^ 64 in if ltb ns (2 ^ 63) then ns else 0

-- Errorf("%v", err), or the value
unfoldable pub or_app_error : {A : Type 0} → Option A → (A → Reply) → Outcome Reply
or_app_error none f = rpc_error app_error
or_app_error (some a) f = value (f a)

unfoldable pub created_reply : (ℕ → Text) → CreateSessionResult → Outcome Reply
unfolding session_view
created_reply t (CreateSessionResult.created u) = value (session (session_view t u))
created_reply t _ = rpc_error app_error

unfoldable pub lease_reply : (ℕ → Text) → Bool → Work.LeaseAnswer → Outcome Reply
unfolding lease_view
lease_reply t wait (Work.LeaseAnswer.answered (Leases.AcquireResult.acquired l)) =
    value (lease (lease_view t l))
lease_reply t wait (Work.LeaseAnswer.answered (Leases.AcquireResult.queued ticket)) =
    value (waits_for_lease ticket (if wait then false else true))
lease_reply t wait _ = rpc_error app_error

unfoldable pub release_reply : Work.ReleaseAnswer → Outcome Reply
release_reply (Work.ReleaseAnswer.answered Endings.EndResult.ended) = value empty
release_reply _ = rpc_error app_error

unfoldable pub port_reply : Work.PortAnswer → Outcome Reply
unfolding port_view
port_reply (Work.PortAnswer.answered (Ports.AcquireResult.allocated a)) = value (port (port_view a))
port_reply _ = rpc_error app_error

unfoldable pub workspace_reply : (ℕ → Text) → Work.WorkspaceAnswer → Outcome Reply
unfolding workspace_view
workspace_reply t (Work.WorkspaceAnswer.answered (Workspaces.CreateResult.created w)) =
    value (workspace_made (workspace_view t w))
workspace_reply t _ = rpc_error app_error

unfoldable pub removed_reply : Work.RemoveAnswer → Outcome Reply
removed_reply Work.RemoveAnswer.removed = value empty
removed_reply _ = rpc_error app_error

-- run.execute: a run that exists is returned with the error in it.
unfoldable pub run_reply : (ℕ → Text) → Bool → Service × ExecuteResult → Outcome Reply
unfolding get_run run_view
run_reply t wait (s, launching id) =
    if wait
    then value (waits_for_run id)
    else elim (get_run s id) [ none ↦ rpc_error app_error | some r ↦ value (run (run_view t r)) ]
run_reply t wait (s, not_prepared id e) = elim (get_run s id) [
  | none ↦ rpc_error app_error
  | some r ↦ value (run (record (run_view t r) { error = e }))
]
run_reply t wait (s, _) = rpc_error app_error

unfoldable pub log_reply : World → Params → Work.LogAnswer → Outcome Reply
log_reply w p (Work.LogAnswer.read_from dir file) =
    or_app_error (w.read_log dir file p.tail) (log p.run_id p.name)
log_reply w p _ = rpc_error app_error

unfoldable pub create_options : Params → CreateSessionOpts
create_options p = record {
  owner = p.owner;
  name = p.name;
  workspace = p.workspace;
  workspace_dir = p.workspace_dir;
}

unfoldable pub workspace_options : Params → Workspaces.CreateOptions
workspace_options p = record {
  repo = p.repo;
  branch = p.branch;
  name = p.name;
  detach = p.detach;
  path = p.path;
}

unfoldable pub execute_options : Params → ExecuteOptions
execute_options p = record {
  owner = p.owner;
  session_id = p.session_id;
  tool_id = p.tool_id;
  requirement = p.requirement;
  command = p.command;
}
