-- ===== src/Mcp/Gates.antt =====
-- What the tools of internal/mcp/server.go can do to the daemon: each is one method of internal/rpc/methods.go,
-- for the owner "mcp".
use agent_runtime_harness.Prelude.{◌≡◌, ◌≢◌, refl, eq_text, some, lookup, arith}
use agent_runtime_harness.Service.{Service}
use agent_runtime_harness.Rpc.Methods.{World}
use agent_runtime_harness.Rpc.Register.{
  session_create, session_get, session_list, resource_list, lease_acquire, lease_release,
  lease_list, port_allocate, run_execute, run_list, run_log, run_artifacts, Method, names, handle,
  session_terminate, tool_list,
}
use agent_runtime_harness.Rpc.Gates.{IsPowerless, handle_powerless}
use agent_runtime_harness.Mcp.{Arguments}
use agent_runtime_harness.Mcp.Table.{
  ToolName, list_tools, list_resources, create_session, close_session, list_sessions,
  acquire_resource, release_resource, list_leases, allocate_port, execute_tool, unity_run_tests,
  unity_build, android_list_devices, android_build_apk, android_run_tests, android_screenshot,
  get_logs, get_artifacts, list_runs, get_session, mcp, plain_call, android_call, call,
}

-- What a tool does: its call is of a registered method, which leaves the daemon as it was, unless the tool
-- is one of the two that do not ask the policy.
pub data IsGated (w : World) (s : Service) (t : ToolName) (a : Arguments) : Type 0 where
  harmless :
      (m : Method)
      → lookup (call t a).method names ≡ some m
      → (handle w m s (call t a).params).0 ≡ s
      → IsGated w s t a
  closes :
      t ≡ close_session → lookup (call t a).method names ≡ some session_terminate → IsGated w s t a
  lists : t ≡ list_tools → lookup (call t a).method names ≡ some tool_list → IsGated w s t a

-- A run asks the policy, and so do the other gated methods.
gated :
    (w : World) (s : Service) (t : ToolName) (a : Arguments) (m : Method)
    → lookup (call t a).method names ≡ some m
    → m ≢ session_terminate
    → m ≢ tool_list
    → IsPowerless s (call t a).params.owner
    → IsGated w s t a
gated w s t a m found c l n = harmless m found (handle_powerless w m s (call t a).params c l n)

-- Every tool of the frontend calls a registered method, and if the policy allows the owner "mcp" nothing, the
-- call leaves the daemon as it was, whatever its arguments are; runtime_close_session, which ends the session
-- without asking the policy, and runtime_list_tools, which runs the detection, are the exceptions.
pub call_powerless :
    (w : World) (s : Service) (t : ToolName) (a : Arguments) → IsPowerless s mcp → IsGated w s t a
unfolding call plain_call android_call lookup eq_text handle
call_powerless w s list_tools a n = lists refl refl
call_powerless w s list_resources a n = harmless resource_list refl refl
call_powerless w s create_session a n =
    gated w s create_session a session_create refl (λ e. absurd (ground arith))
      (λ e. absurd (ground arith)) n
call_powerless w s close_session a n = closes refl refl
call_powerless w s list_sessions a n = harmless session_list refl refl
call_powerless w s acquire_resource a n =
    gated w s acquire_resource a lease_acquire refl (λ e. absurd (ground arith))
      (λ e. absurd (ground arith)) n
call_powerless w s release_resource a n =
    gated w s release_resource a lease_release refl (λ e. absurd (ground arith))
      (λ e. absurd (ground arith)) n
call_powerless w s list_leases a n = harmless lease_list refl refl
call_powerless w s allocate_port a n =
    gated w s allocate_port a port_allocate refl (λ e. absurd (ground arith))
      (λ e. absurd (ground arith)) n
call_powerless w s execute_tool a n =
    gated w s execute_tool a run_execute refl (λ e. absurd (ground arith))
      (λ e. absurd (ground arith)) n
call_powerless w s unity_run_tests a n =
    gated w s unity_run_tests a run_execute refl (λ e. absurd (ground arith))
      (λ e. absurd (ground arith)) n
call_powerless w s unity_build a n =
    gated w s unity_build a run_execute refl (λ e. absurd (ground arith))
      (λ e. absurd (ground arith)) n
call_powerless w s android_list_devices a n =
    gated w s android_list_devices a run_execute refl (λ e. absurd (ground arith))
      (λ e. absurd (ground arith)) n
call_powerless w s android_build_apk a n =
    gated w s android_build_apk a run_execute refl (λ e. absurd (ground arith))
      (λ e. absurd (ground arith)) n
call_powerless w s android_run_tests a n =
    gated w s android_run_tests a run_execute refl (λ e. absurd (ground arith))
      (λ e. absurd (ground arith)) n
call_powerless w s android_screenshot a n =
    gated w s android_screenshot a run_execute refl (λ e. absurd (ground arith))
      (λ e. absurd (ground arith)) n
call_powerless w s get_logs a n = harmless run_log refl refl
call_powerless w s get_artifacts a n = harmless run_artifacts refl refl
call_powerless w s list_runs a n = harmless run_list refl refl
call_powerless w s get_session a n = harmless session_get refl refl
