-- ===== src/Mcp/Table.antt =====
-- internal/mcp/server.go, tools: what each tool of the table calls. The extra arguments of a run, which only an
-- adapter reads, stand beside the parameters.
use agent_runtime_harness.Prelude.{
  Text, text, eq_text, to_lower, some, true, false, not, ◌&&◌, [], ◌∷◌, ◌++◌, Map, lookup,
  if◌then◌else◌,
}
use agent_runtime_harness.Rpc.Methods.{Params}
use agent_runtime_harness.Mcp.{Value, string, other, Arguments, bool_arg, str_arg, int_arg}

-- The zero value of every parameter struct.
unfoldable no_params : Params
no_params = record {
  id = [];
  owner = [];
  reason = [];
  name = [];
  workspace = [];
  workspace_dir = [];
  session_id = [];
  resource_id = [];
  lease_id = [];
  run_id = [];
  ttl_seconds = 0;
  wait = false;
  protocol = [];
  repo = [];
  branch = [];
  path = [];
  detach = false;
  prune = false;
  tool_id = [];
  requirement = [];
  command = [];
  tail = 0;
}

-- The pair that call returns, with the "args" of a run.
pub record ToolCall : Type 0 where
  pub method : Text
  pub params : Params
  pub args : Map Value

unfoldable pub plain_call : Text → Params → ToolCall
plain_call method params = record { method = method; params = params; args = [] }

pub data ToolName : Type 0 where
  list_tools list_resources create_session close_session list_sessions acquire_resource : ToolName
  release_resource list_leases allocate_port execute_tool unity_run_tests unity_build : ToolName
  android_list_devices android_build_apk android_run_tests android_screenshot : ToolName
  get_logs get_artifacts list_runs get_session : ToolName

-- The keys of the table.
abbrev pub tool_names : Map ToolName
tool_names =
    (text "runtime_list_tools", list_tools)
    ∷ (text "runtime_list_resources", list_resources)
    ∷ (text "runtime_create_session", create_session)
    ∷ (text "runtime_close_session", close_session)
    ∷ (text "runtime_list_sessions", list_sessions)
    ∷ (text "runtime_acquire_resource", acquire_resource)
    ∷ (text "runtime_release_resource", release_resource)
    ∷ (text "runtime_list_leases", list_leases)
    ∷ (text "runtime_allocate_port", allocate_port)
    ∷ (text "runtime_execute_tool", execute_tool)
    ∷ (text "unity_run_tests", unity_run_tests)
    ∷ (text "unity_build", unity_build)
    ∷ (text "android_list_devices", android_list_devices)
    ∷ (text "android_build_apk", android_build_apk)
    ∷ (text "android_run_tests", android_run_tests)
    ∷ (text "android_screenshot", android_screenshot)
    ∷ (text "runtime_get_logs", get_logs)
    ∷ (text "runtime_get_artifacts", get_artifacts)
    ∷ (text "runtime_list_runs", list_runs)
    ∷ (text "runtime_get_session", get_session)
    ∷ []

-- The owner of the frontend.
abbrev pub mcp : Text
mcp = text "mcp"

-- The mode of unity_run_tests: anything but playmode is editmode.
unfoldable test_mode : Text → Text
unfolding to_lower eq_text
test_mode s =
    let mode = (if eq_text (to_lower s) [] then text "editmode" else to_lower s) in
    if not (eq_text mode (text "editmode")) && not (eq_text mode (text "playmode"))
    then text "editmode"
    else mode

-- argsMap: an object is kept by its text.
unfoldable args_map : Arguments → Map Value
unfolding lookup
args_map a = elim (lookup (text "args") a) [ some (other s) ↦ (text "args", other s) ∷ [] | _ ↦ [] ]

-- A run.execute of the Android SDK that waits.
unfoldable pub android_call : Text → Text → Map Value → ToolCall
unfolding no_params
android_call session command args = record {
  method = text "run.execute";
  params = record no_params {
    owner = mcp;
    session_id = session;
    tool_id = text "android-sdk";
    command = command;
    wait = true;
  };
  args = args;
}

-- An entry of the extra arguments with a string.
unfoldable string_entry : Arguments → Text → Text × Value
unfolding str_arg
string_entry a k = (k, string (str_arg a k))

-- call of each tool
unfoldable pub call : ToolName → Arguments → ToolCall
unfolding plain_call no_params str_arg int_arg bool_arg test_mode args_map android_call string_entry
call list_tools a = plain_call (text "tool.list") no_params
call list_resources a = plain_call (text "resource.list") no_params
call create_session a = plain_call (text "session.create") (record no_params {
  owner = mcp;
  name = str_arg a (text "name");
  workspace = str_arg a (text "workspace");
  workspace_dir = str_arg a (text "workspace_dir");
})
call close_session a =
    plain_call (text "session.terminate")
      (record no_params { id = str_arg a (text "session"); reason = text "mcp close" })
call list_sessions a = plain_call (text "session.list") no_params
call acquire_resource a = plain_call (text "lease.acquire") (record no_params {
  owner = mcp;
  session_id = str_arg a (text "session");
  resource_id = str_arg a (text "resource");
  ttl_seconds = int_arg a (text "ttl_seconds");
  wait = bool_arg a (text "wait");
})
call release_resource a = plain_call (text "lease.release") (record no_params {
  owner = mcp;
  session_id = str_arg a (text "session");
  lease_id = str_arg a (text "lease");
})
call list_leases a =
    plain_call (text "lease.list") (record no_params { session_id = str_arg a (text "session") })
call allocate_port a = plain_call (text "port.allocate") (record no_params {
  owner = mcp;
  session_id = str_arg a (text "session");
  protocol = str_arg a (text "protocol");
  name = str_arg a (text "name");
})
call execute_tool a = record {
  method = text "run.execute";
  params = record no_params {
    owner = mcp;
    session_id = str_arg a (text "session");
    tool_id = str_arg a (text "tool_id");
    requirement = str_arg a (text "requirement");
    command = str_arg a (text "command");
    wait = bool_arg a (text "wait");
  };
  args = args_map a;
}
call unity_run_tests a = plain_call (text "run.execute") (record no_params {
  owner = mcp;
  session_id = str_arg a (text "session");
  requirement = text "unity";
  command = text "test." ++ test_mode (str_arg a (text "mode"));
  wait = true;
})
call unity_build a = record {
  method = text "run.execute";
  params = record no_params {
    owner = mcp;
    session_id = str_arg a (text "session");
    requirement = text "unity";
    command = text "build";
    wait = true;
  };
  args = string_entry a (text "target") ∷ string_entry a (text "method") ∷ [];
}
call android_list_devices a = android_call [] (text "devices") []
call android_build_apk a =
    android_call (str_arg a (text "session")) (text "build.apk")
      (string_entry a (text "src") ∷ string_entry a (text "package") ∷ [])
call android_run_tests a =
    android_call (str_arg a (text "session")) (text "shell")
      (string_entry a (text "serial") ∷ string_entry a (text "cmd") ∷ [])
call android_screenshot a =
    android_call (str_arg a (text "session")) (text "screenshot")
      (string_entry a (text "serial") ∷ [])
call get_logs a = plain_call (text "run.logs") (record no_params {
  run_id = str_arg a (text "run");
  name = str_arg a (text "name");
  tail = int_arg a (text "tail");
})
call get_artifacts a =
    plain_call (text "run.artifacts") (record no_params { id = str_arg a (text "run") })
call list_runs a =
    plain_call (text "run.list") (record no_params { session_id = str_arg a (text "session") })
call get_session a =
    plain_call (text "session.get") (record no_params { id = str_arg a (text "session") })
