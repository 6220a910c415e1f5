-- ===== src/Rpc/Views.antt =====
-- internal/rpc/methods.go: the wire types and their functions. The format of a time is an argument, and a zero
-- time is 0; omitempty is the encoder's.
use agent_runtime_harness.Prelude.{
  ℕ, ◌==◌, Text, text, Option, none, some, Bool, List, [], if◌then◌else◌,
}
use agent_runtime_harness.Model.{
  Session, SessionState, Tool, Lease, LeaseState, LeaseMode, Run, RunStatus, Workspace,
}
use agent_runtime_harness.Ports
use agent_runtime_harness.Supervisor.{ProcInfo}
use agent_runtime_harness.Service.Work

-- string(s.State) and the like
unfoldable session_state_text : SessionState → Text
session_state_text SessionState.created = text "CREATED"
session_state_text SessionState.preparing = text "PREPARING"
session_state_text SessionState.ready = text "READY"
session_state_text SessionState.running = text "RUNNING"
session_state_text SessionState.stopping = text "STOPPING"
session_state_text SessionState.stopped = text "STOPPED"
session_state_text SessionState.failed = text "FAILED"

unfoldable lease_state_text : LeaseState → Text
lease_state_text LeaseState.leased = text "LEASED"
lease_state_text LeaseState.released = text "RELEASED"
lease_state_text LeaseState.expired = text "EXPIRED"

unfoldable run_status_text : RunStatus → Text
run_status_text RunStatus.waiting_resources = text "WAITING_RESOURCES"
run_status_text RunStatus.queued = text "QUEUED"
run_status_text RunStatus.running = text "RUNNING"
run_status_text RunStatus.succeeded = text "SUCCEEDED"
run_status_text RunStatus.failed = text "FAILED"
run_status_text RunStatus.timeout = text "TIMEOUT"
run_status_text RunStatus.killed = text "KILLED"
run_status_text RunStatus.error = text "ERROR"

unfoldable mode_text : LeaseMode → Text
mode_text LeaseMode.exclusive = text "exclusive"
mode_text LeaseMode.shared = text "shared"
mode_text LeaseMode.capacity = text "capacity"
mode_text (LeaseMode.other s) = s

pub record SessionView : Type 0 where
  pub id : Text
  pub name : Text
  pub owner : Text
  pub workspace : Text
  pub workspace_dir : Text
  pub state : Text
  pub home_dir : Text
  pub temp_dir : Text
  pub runtime_dir : Text
  pub created_at : Text
  pub started_at : Text
  pub stopped_at : Text
  pub failure : Text

pub record ProcView : Type 0 where
  pub pid : ℕ
  pub session_id : Text
  pub run_id : Text
  pub label : Text
  pub exe : Text
  pub cmdline : List Text
  pub started_at : Text
  pub exit_code : Option ℕ
  pub killed : Bool

pub record ToolView : Type 0 where
  pub id : Text
  pub kind : Text
  pub version : Text
  pub executable : Text
  pub capabilities : List Text
  pub source : Text
  pub disabled : Bool

pub record ResourceView : Type 0 where
  pub id : Text
  pub mode : Text
  pub capacity : ℕ
  pub provider : Text
  pub active : ℕ
  pub waiting : ℕ

pub record LeaseView : Type 0 where
  pub id : Text
  pub resource_id : Text
  pub session_id : Text
  pub created_at : Text
  pub expires_at : Text
  pub state : Text

pub record PortView : Type 0 where
  pub port : ℕ
  pub session_id : Text
  pub protocol : Text
  pub name : Text

pub record WorkspaceView : Type 0 where
  pub id : Text
  pub name : Text
  pub repo : Text
  pub branch : Text
  pub path : Text
  pub created_at : Text
  pub plain : Bool

pub record RunView : Type 0 where
  pub id : Text
  pub session_id : Text
  pub tool_id : Text
  pub tool_type : Text
  pub command : Text
  pub status : Text
  pub started_at : Text
  pub duration_ms : ℕ
  pub exit_code : Option ℕ
  pub dir : Text
  pub leases : List Text
  pub error : Text
  pub pid : ℕ

unfoldable pub tool_view : Tool → ToolView
tool_view t = record {
  id = t.id;
  kind = t.kind;
  version = t.version;
  executable = t.executable;
  capabilities = t.capabilities;
  source = t.source;
  disabled = t.disabled;
}

unfoldable pub resource_view : Work.ResourceView → ResourceView
unfolding mode_text
resource_view r = record {
  id = r.resource.id;
  mode = mode_text r.resource.mode;
  capacity = r.resource.capacity;
  provider = r.resource.provider;
  active = r.active;
  waiting = r.waiting;
}

unfoldable pub port_view : Ports.Allocation → PortView
port_view a = record {
  port = a.port;
  session_id = a.session_id;
  protocol = a.protocol;
  name = a.name;
}

module _ (rfc3339 : ℕ → Text) where
  -- A time that may be missing.
  unfoldable time_or_empty : Option ℕ → Text
  time_or_empty none = []
  time_or_empty (some t) = rfc3339 t

  -- optTime
  unfoldable opt_time : ℕ → Text
  opt_time t = if t == 0 then [] else rfc3339 t

  unfoldable pub session_view : Session → SessionView
  unfolding session_state_text time_or_empty
  session_view s = record {
    id = s.id;
    name = s.name;
    owner = s.owner;
    workspace = s.workspace_id;
    workspace_dir = s.workspace_dir;
    state = session_state_text s.state;
    home_dir = s.home_dir;
    temp_dir = s.temp_dir;
    runtime_dir = s.runtime_dir;
    created_at = rfc3339 s.created_at;
    started_at = time_or_empty s.started_at;
    stopped_at = time_or_empty s.stopped_at;
    failure = s.failure;
  }

  unfoldable pub proc_view : ProcInfo → ProcView
  proc_view p = record {
    pid = p.pid;
    session_id = p.session_id;
    run_id = p.run_id;
    label = p.label;
    exe = p.exe;
    cmdline = p.cmdline;
    started_at = rfc3339 p.started_at;
    exit_code = p.exit_code;
    killed = p.killed;
  }

  unfoldable pub lease_view : Lease → LeaseView
  unfolding opt_time lease_state_text
  lease_view l = record {
    id = l.id;
    resource_id = l.resource_id;
    session_id = l.session_id;
    created_at = rfc3339 l.created_at;
    expires_at = opt_time l.expires_at;
    state = lease_state_text l.state;
  }

  unfoldable pub workspace_view : Workspace → WorkspaceView
  workspace_view w = record {
    id = w.id;
    name = w.name;
    repo = w.repo;
    branch = w.branch;
    path = w.path;
    created_at = rfc3339 w.created_at;
    plain = w.plain;
  }

  unfoldable pub run_view : Run → RunView
  unfolding run_status_text
  run_view r = record {
    id = r.id;
    session_id = r.session_id;
    tool_id = r.tool_id;
    tool_type = r.tool_type;
    command = r.command;
    status = run_status_text r.status;
    started_at = rfc3339 r.started_at;
    duration_ms = r.duration_ms;
    exit_code = r.exit_code;
    dir = r.dir;
    leases = r.leases;
    error = r.error;
    pid = r.pid;
  }
