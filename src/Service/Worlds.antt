-- ===== src/Service/Worlds.antt =====
-- A daemon of internal/daemon/service.go with two sessions: the data of its tests.
use agent_runtime_harness.Prelude.{Text, text, none, some, true, false, List, [], ◌∷◌}
use agent_runtime_harness.Config.{Config, Platform, default, normalize}
use agent_runtime_harness.Env.{Spec}
use agent_runtime_harness.Workspaces
use agent_runtime_harness.Supervisor.Reach.{World}
use agent_runtime_harness.Service.{Service, Ending, Birth, CreateSessionOpts}
use agent_runtime_harness.Service.Startup.{new}
use agent_runtime_harness.Service.Calls.{
  Call, creates_session, acquires, allocates, creates_workspace, executes, run_calls,
}
use agent_runtime_harness.Service.Execution.{Scene}

abbrev linux : Platform
linux = record { home = some (text "/root"); is_windows = false }

-- A tool, and a rule that denies leases to one caller.
abbrev pub config : Config
config = normalize linux (record (default linux) {
  tools =
      (
        text "make",
        record {
          kind = text "command";
          version = [];
          executable = text "/usr/bin/make";
          version_command = [];
          args = [];
          env = [];
          capabilities = [];
          disabled = false;
        },
      )
      ∷ [];
  policy = record (default linux).policy {
    rules = record { subject = text "guest"; allow = []; deny = text "*" ∷ [] } ∷ [];
  };
})

abbrev pub world : World
world = record { exists = λ pid. false; identity = λ pid. 0 }

abbrev pub ending : Ending
ending = record {
  now = 50;
  before = world;
  after = world;
  lease_order = text "lease-00000001" ∷ text "lease-00000002" ∷ [];
  save_ok = true;
  duration = λ id. 5;
}

abbrev spec : Spec
spec = record {
  home_dir = text "/h";
  temp_dir = text "/t";
  config_dir = text "/c";
  cache_dir = text "/k";
  state_dir = text "/s";
  log_dir = text "/l";
}

abbrev birth : Birth
birth = record {
  now = 10;
  runtime_dir_ok = true;
  isolated_dirs_ok = true;
  save_ok = true;
  abs = λ dir. dir;
  prepare = λ dir. some spec;
  ending = ending;
}

abbrev options : Text → CreateSessionOpts
options name = record {
  owner = text "agent";
  name = name;
  workspace = text "app";
  workspace_dir = text "/work";
}

abbrev scene : Scene
scene = record {
  now = 20;
  parse = λ raw. none;
  join = λ a b. a;
  is_unix = true;
  environ = text "LANG=C" ∷ [];
  dir_ok = true;
  prepare_error = none;
  prepare_duration = 0;
}

abbrev app : Workspaces.World
app = record {
  abs_path = some (text "/repo");
  branch_base = text "app";
  repo_base = text "repo";
  is_repository = true;
  target = text "/work";
  parent_ok = true;
  worktree_ok = true;
  next_id = text "ws-000001";
  now = 5;
  save_ok = true;
}

abbrev app_options : Workspaces.CreateOptions
app_options = record {
  repo = text "/repo";
  branch = [];
  name = text "app";
  detach = false;
  path = [];
}

-- Two sessions; the first has a lease, a port and a run, the second a lease.
abbrev pub calls : List Call
calls =
    creates_workspace (text "agent") app_options app
    ∷ creates_session (options (text "build")) birth
    ∷ creates_session (options (text "test")) birth
    ∷ acquires (text "agent") (text "sess-000001") (text "gpu") 0 20 true true
    ∷ acquires (text "agent") (text "sess-000002") (text "unity-license") 0 21 true true
    ∷ allocates (text "agent") (text "sess-000001") (text "tcp") (text "web") (λ i. some (8080, 3))
    ∷ executes
        (record {
          owner = text "agent";
          session_id = text "build";
          tool_id = text "make";
          requirement = [];
          command = text "run";
        })
        scene
    ∷ []

abbrev pub busy : Service
busy = run_calls (new config []) calls
