-- ===== src/Rpc/Worlds.antt =====
-- What a daemon without files, ports and processes finds: the data of the tests on internal/rpc and internal/mcp.
use agent_runtime_harness.Prelude.{text, none, true, false, []}
use agent_runtime_harness.Service.{Ending, Birth}
use agent_runtime_harness.Service.Execution.{Scene}
use agent_runtime_harness.Supervisor.Reach
use agent_runtime_harness.Workspaces
use agent_runtime_harness.Rpc.Methods.{Params, World}

abbrev pub calm : Reach.World
calm = record { exists = λ pid. false; identity = λ pid. 0 }

abbrev pub ending : Ending
ending = record {
  now = 9;
  before = calm;
  after = calm;
  lease_order = [];
  save_ok = true;
  duration = λ id. 0;
}

abbrev pub birth : Birth
birth = record {
  now = 3;
  runtime_dir_ok = true;
  isolated_dirs_ok = true;
  save_ok = true;
  abs = λ dir. dir;
  prepare = λ dir. none;
  ending = ending;
}

abbrev pub git : Workspaces.World
git = record {
  abs_path = none;
  branch_base = [];
  repo_base = [];
  is_repository = false;
  target = [];
  parent_ok = false;
  worktree_ok = false;
  next_id = text "ws-000001";
  now = 3;
  save_ok = true;
}

abbrev pub scene : Scene
scene = record {
  now = 4;
  parse = λ raw. none;
  join = λ a b. a;
  is_unix = true;
  environ = [];
  dir_ok = true;
  prepare_error = none;
  prepare_duration = 0;
}

abbrev pub world : World
world = record {
  now = 4;
  save_ok = true;
  ensure_ok = true;
  birth = birth;
  ending = ending;
  ask = λ i. none;
  workspaces = git;
  scene = scene;
  parse = λ raw. none;
  detected = [];
  read_log = λ dir file tail. none;
  list_artifacts = λ dir. none;
  rfc3339 = λ t. text "2024-01-01T00:00:00Z";
}

abbrev pub zero_params : Params
zero_params = record {
  id = [];
  owner = [];
  reason = [];
  name = [];
  workspace = [];
  workspace_dir = [];
  session_id = [];
  resource_id = [];
  lease_id = [];
  run_id = [];
  ttl_seconds = 0;
  wait = false;
  protocol = [];
  repo = [];
  branch = [];
  path = [];
  detach = false;
  prune = false;
  tool_id = [];
  requirement = [];
  command = [];
  tail = 0;
}
