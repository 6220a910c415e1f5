-- ===== src/Rpc/Register.antt =====
-- internal/rpc/methods.go, Register: what each method does, and the table of names.
use agent_runtime_harness.Prelude.{
  Text, text, none, some, Bool, ◌||◌, true, false, [], ◌∷◌, map, Map, if◌then◌else◌, inl, inr,
}
use agent_runtime_harness.Service.{
  Service, get_session, list_procs, terminate_session, create_session,
}
use agent_runtime_harness.Service.Work.{
  acquire_lease, release_lease, list_leases, list_resources, allocate_port, list_ports,
  create_workspace, remove_workspace, get_tool, tools_of, detect_tools, list_runs, get_run,
  run_logs,
}
use agent_runtime_harness.Service.Execution.{execute, resolve_requirement}
use agent_runtime_harness.Rpc.{bad_params, app_error, Outcome, rpc_error, value, Handler, Mux}
use agent_runtime_harness.Rpc.Views.{
  session_view, proc_view, tool_view, resource_view, lease_view, port_view, workspace_view,
  run_view,
}
use agent_runtime_harness.Rpc.Methods.{
  session, sessions, procs, tool, tools, resources, leases, ports, workspaces, run, runs, artifacts,
  Params, Reply, World, create_options, created_reply, execute_options, lease_reply, log_reply,
  or_app_error, or_default, port_reply, release_reply, removed_reply, run_reply, seconds,
  workspace_options, workspace_reply,
}

-- The methods of Register that this model answers.
pub data Method : Type 0 where
  session_create session_get session_list session_terminate session_procs : Method
  tool_list tool_inspect tool_resolve resource_list : Method
  lease_acquire lease_release lease_list port_allocate port_list : Method
  workspace_create workspace_list workspace_remove : Method
  run_execute run_list run_get run_log run_artifacts : Method

-- The handlers, on parameters that were decoded.
unfoldable pub handle : World → Method → Service → Params → Service × Outcome Reply
unfolding create_session terminate_session get_session list_procs tools_of detect_tools get_tool
    resolve_requirement list_resources acquire_lease release_lease list_leases allocate_port
    list_ports create_workspace remove_workspace execute list_runs get_run run_logs created_reply
    lease_reply release_reply port_reply workspace_reply removed_reply run_reply log_reply
    create_options workspace_options execute_options or_default seconds or_app_error session_view
    proc_view tool_view resource_view lease_view port_view workspace_view run_view
handle w session_create s p =
    let r = create_session s (create_options p) w.birth in (r.0, created_reply w.rfc3339 r.1)
handle w session_get s p =
    (s, or_app_error (get_session s p.id) (λ u. session (session_view w.rfc3339 u)))
handle w session_list s p =
    (s, value (sessions (map (λ e. session_view w.rfc3339 e.1) s.sessions.sessions)))
handle w session_terminate s p =
    let r = terminate_session s p.id (or_default p.reason (text "api request")) w.ending in
    (r.0, or_app_error r.1 (λ u. session (session_view w.rfc3339 u)))
handle w session_procs s p =
    (s, or_app_error (list_procs s p.id) (λ ps. procs (map (proc_view w.rfc3339) ps)))
handle w tool_list s p = ((detect_tools w.detected s).0, value (tools (map tool_view (tools_of s))))
handle w tool_inspect s p = (s, or_app_error (get_tool s p.id) (λ t. tool (tool_view t)))
handle w tool_resolve s p = (
  s,
  elim (resolve_requirement w.parse s p.requirement) [
    | inl e ↦ rpc_error app_error
    | inr t ↦ value (tool (tool_view t))
  ],
)
handle w resource_list s p = (s, value (resources (map resource_view (list_resources s))))
handle w lease_acquire s p =
    let r =
      acquire_lease s p.owner p.session_id p.resource_id (seconds p.ttl_seconds) w.now w.ensure_ok
        w.save_ok in
    (r.0, lease_reply w.rfc3339 p.wait r.1)
handle w lease_release s p =
    let r = release_lease s p.owner p.session_id p.lease_id w.now w.save_ok in
    (r.0, release_reply r.1)
handle w lease_list s p =
    (s, value (leases (map (lease_view w.rfc3339) (list_leases s p.session_id))))
handle w port_allocate s p =
    let r =
      allocate_port s p.owner p.session_id (or_default p.protocol (text "tcp")) p.name w.ask in
    (r.0, port_reply r.1)
handle w port_list s p = (s, value (ports (map port_view (list_ports s))))
handle w workspace_create s p =
    let r = create_workspace s p.owner (workspace_options p) w.workspaces in
    (r.0, workspace_reply w.rfc3339 r.1)
handle w workspace_list s p =
    (s, value (workspaces (map (λ e. workspace_view w.rfc3339 e.1) s.workspaces.ws)))
handle w workspace_remove s p =
    let r = remove_workspace s p.owner p.name w.save_ok in (r.0, removed_reply r.1)
handle w run_execute s p =
    let r = execute s (execute_options p) w.scene in (r.0, run_reply w.rfc3339 p.wait r)
handle w run_list s p = (s, value (runs (map (run_view w.rfc3339) (list_runs s p.session_id))))
handle w run_get s p = (s, or_app_error (get_run s p.id) (λ r. run (run_view w.rfc3339 r)))
handle w run_log s p = (s, log_reply w p (run_logs s p.run_id p.name))
handle w run_artifacts s p = (
  s,
  elim (get_run s p.id) [
    | none ↦ rpc_error app_error
    | some r ↦ or_app_error (w.list_artifacts r.dir) (artifacts p.id)
  ],
)

-- The methods that read no parameters, or ignore the error of json.Unmarshal.
unfoldable pub is_lenient : Method → Bool
is_lenient session_list = true
is_lenient tool_list = true
is_lenient resource_list = true
is_lenient lease_list = true
is_lenient port_list = true
is_lenient workspace_list = true
is_lenient run_list = true
is_lenient _ = false

-- What json.Unmarshal leaves in the parameters, which may be a part of them, and whether it succeeds.
abbrev pub Unmarshal : Type 0
Unmarshal = Method → Text → Params × Bool

-- A handler of Register: the parameters are decoded first. If that fails, the lenient ones go on with what
-- was decoded.
unfoldable pub handler : Unmarshal → Method → Handler World Service Reply
unfolding handle is_lenient
handler unmarshal m w s raw =
    let (p, ok) = unmarshal m raw in
    if ok || is_lenient m then handle w m s p else (s, rpc_error bad_params)

-- The names that Register gives the methods.
abbrev pub names : Map Method
names =
    (text "session.create", session_create)
    ∷ (text "session.get", session_get)
    ∷ (text "session.list", session_list)
    ∷ (text "session.terminate", session_terminate)
    ∷ (text "session.procs", session_procs)
    ∷ (text "tool.list", tool_list)
    ∷ (text "tool.inspect", tool_inspect)
    ∷ (text "tool.resolve", tool_resolve)
    ∷ (text "resource.list", resource_list)
    ∷ (text "lease.acquire", lease_acquire)
    ∷ (text "lease.release", lease_release)
    ∷ (text "lease.list", lease_list)
    ∷ (text "port.allocate", port_allocate)
    ∷ (text "port.list", port_list)
    ∷ (text "workspace.create", workspace_create)
    ∷ (text "workspace.list", workspace_list)
    ∷ (text "workspace.remove", workspace_remove)
    ∷ (text "run.execute", run_execute)
    ∷ (text "run.list", run_list)
    ∷ (text "run.get", run_get)
    ∷ (text "run.logs", run_log)
    ∷ (text "run.artifacts", run_artifacts)
    ∷ []

-- Register
unfoldable pub register : Unmarshal → Map Method → Mux World Service Reply
unfolding handler
register unmarshal ms = map (λ e. (e.0, handler unmarshal e.1)) ms
