-- ===== src/Rpc/Gates.antt =====
-- internal/rpc/methods.go: which methods a caller without any permission can use to change the daemon.
use agent_runtime_harness.Prelude.{◌≡◌, ◌≢◌, refl, Text, text, none, some, inl, inr, Option-cases}
use agent_runtime_harness.Policy.{evaluate}
use agent_runtime_harness.Service.{Service}
use agent_runtime_harness.Service.Calls.{
  Call, step, creates_session, acquires, releases, allocates, creates_workspace, removes_workspace,
  executes,
}
use agent_runtime_harness.Service.Gates.{gate, step_denied}
use agent_runtime_harness.Rpc.Methods.{
  Params, World, or_default, seconds, create_options, workspace_options, execute_options,
}
use agent_runtime_harness.Rpc.Register.{
  session_create, session_get, session_list, session_terminate, session_procs, tool_list,
  tool_inspect, tool_resolve, resource_list, lease_acquire, lease_release, lease_list,
  port_allocate, port_list, workspace_create, workspace_list, workspace_remove, run_execute,
  run_list, run_get, run_log, run_artifacts, Method, handle,
}

-- The policy allows the caller nothing.
abbrev pub IsPowerless : Service → Text → Type 0
IsPowerless s owner = (capability : Text) → evaluate s.rules owner capability ≢ none

powerless_step :
    (s : Service) (c : Call) (owner capability : Text)
    → IsPowerless s owner
    → gate c ≡ some (owner, capability)
    → step s c ≡ s
powerless_step s c owner capability powerless g =
    elim (Option-cases (evaluate s.rules owner capability)) [
      | inl allowed ↦ absurd (powerless capability allowed)
      | inr (d, no') ↦ step_denied s c owner capability d g no'
    ]

-- The request of a caller whom the policy allows nothing leaves the daemon as it was, whatever its method,
-- except for session.terminate, which ends the session, and tool.list, which runs the detection.
pub handle_powerless :
    (w : World) (m : Method) (s : Service) (p : Params)
    → m ≢ session_terminate
    → m ≢ tool_list
    → IsPowerless s p.owner
    → (handle w m s p).0 ≡ s
unfolding handle step gate create_options execute_options
handle_powerless w session_create s p t l n =
    powerless_step s (creates_session (create_options p) w.birth) p.owner (text "session.create") n
      refl
handle_powerless w session_get s p t l n = refl
handle_powerless w session_list s p t l n = refl
handle_powerless w session_terminate s p t l n = absurd (t refl)
handle_powerless w session_procs s p t l n = refl
handle_powerless w tool_list s p t l n = absurd (l refl)
handle_powerless w tool_inspect s p t l n = refl
handle_powerless w tool_resolve s p t l n = refl
handle_powerless w resource_list s p t l n = refl
handle_powerless w lease_acquire s p t l n =
    powerless_step s
      (acquires p.owner p.session_id p.resource_id (seconds p.ttl_seconds) w.now w.ensure_ok
        w.save_ok)
      p.owner (text "lease.acquire") n refl
handle_powerless w lease_release s p t l n =
    powerless_step s (releases p.owner p.session_id p.lease_id w.now w.save_ok) p.owner
      (text "lease.release") n refl
handle_powerless w lease_list s p t l n = refl
handle_powerless w port_allocate s p t l n =
    powerless_step s
      (allocates p.owner p.session_id (or_default p.protocol (text "tcp")) p.name w.ask) p.owner
      (text "port.allocate") n refl
handle_powerless w port_list s p t l n = refl
handle_powerless w workspace_create s p t l n =
    powerless_step s (creates_workspace p.owner (workspace_options p) w.workspaces) p.owner
      (text "workspace.create") n refl
handle_powerless w workspace_list s p t l n = refl
handle_powerless w workspace_remove s p t l n =
    powerless_step s (removes_workspace p.owner p.name w.save_ok) p.owner (text "workspace.remove")
      n refl
handle_powerless w run_execute s p t l n =
    powerless_step s (executes (execute_options p) w.scene) p.owner (text "tool.execute") n refl
handle_powerless w run_list s p t l n = refl
handle_powerless w run_get s p t l n = refl
handle_powerless w run_log s p t l n = refl
handle_powerless w run_artifacts s p t l n = refl
