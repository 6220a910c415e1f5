-- ===== src/Service/Startup.antt =====
-- internal/daemon/service.go, New: the daemon's state from its configuration, before Recover. The detectors'
-- findings are an argument; the directories that New makes are files.
use agent_runtime_harness.Prelude.{ℕ, Text, text, List, [], ◌∷◌, Map, insert}
use agent_runtime_harness.Model.{Tool}
use agent_runtime_harness.Config.{ℤ, pos, negsuc, Config, ToolConfig, ResourceConfig}
use agent_runtime_harness.Config.Loading.{state_path}
use agent_runtime_harness.Env.{EnvConfig}
use agent_runtime_harness.Leases
use agent_runtime_harness.Leases.Startup
use agent_runtime_harness.Leases.History.{new-IsValid}
use agent_runtime_harness.Ports
use agent_runtime_harness.Sessions
use agent_runtime_harness.Runs
use agent_runtime_harness.Workspaces
use agent_runtime_harness.Registry.{detect}
use agent_runtime_harness.Supervisor
use agent_runtime_harness.Service.{Service}
use agent_runtime_harness.Service.Composition.{IsValid}
use agent_runtime_harness.Service.Clients.{valid}

-- A number that a manager compares with a length: one below zero acts like zero there.
unfoldable to_nat : ℤ → ℕ
to_nat (pos n) = n
to_nat (negsuc n) = 0

unfoldable lease_resources : Map ResourceConfig → Map Leases.Startup.ResourceConfig
unfolding to_nat
lease_resources [] = []
lease_resources ((id, r) ∷ m) =
    (
      id,
      record { mode = r.mode; capacity = to_nat r.capacity; provider = r.provider; meta = r.meta },
    )
    ∷ lease_resources m

-- registry.New, a tool of the configuration
unfoldable configured_tool : Text → ToolConfig → Tool
configured_tool id t = record {
  id = id;
  kind = t.kind;
  version = t.version;
  executable = t.executable;
  version_command = t.version_command;
  args = t.args;
  env = t.env;
  capabilities = t.capabilities;
  source = text "config";
  disabled = t.disabled;
  meta = [];
}

-- registry.New
unfoldable configured_tools : Map ToolConfig → Map Tool
unfolding configured_tool insert
configured_tools [] = []
configured_tools ((id, t) ∷ m) = insert id (configured_tool id t) (configured_tools m)

-- env.New
unfoldable env_config_of : Config → EnvConfig
env_config_of c =
    let e = c.environment in
    record {
      isolate_home = e.isolate_home;
      isolate_temp = e.isolate_temp;
      isolate_xdg = e.isolate_xdg;
      inherit = e.inherit;
      deny = e.deny;
      set = e.set;
      redact = e.redact;
    }

-- New
unfoldable pub new : Config → List Tool → Service
unfolding lease_resources configured_tools env_config_of detect Leases.Startup.new Ports.new
    Sessions.new Runs.new Workspaces.new Supervisor.new state_path to_nat
new c found = record {
  rules = c.policy.rules;
  env_config = env_config_of c;
  tools = (detect found (configured_tools c.tools)).0;
  leases = Leases.Startup.new (lease_resources c.resources);
  ports = Ports.new;
  sessions = Sessions.new (to_nat c.runtime.max_sessions) (state_path c (text "sessions"));
  workspaces = Workspaces.new;
  runs = Runs.new (state_path c (text "runs"));
  supervisor = Supervisor.new;
  env_specs = [];
  removed_dirs = [];
}

-- Whatever the configuration says, the managers start valid.
pub new_service-IsValid : (c : Config) (found : List Tool) → IsValid (new c found)
unfolding new
new_service-IsValid c found =
    valid (new-IsValid (lease_resources c.resources)) Ports.Invariant.new-IsValid
      (Sessions.Invariant.new-IsValid (to_nat c.runtime.max_sessions)
        (state_path c (text "sessions")))
      (Runs.Invariant.new-IsValid (state_path c (text "runs"))) Supervisor.Pairing.new-IsValid
