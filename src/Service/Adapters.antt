-- ===== src/Service/Adapters.antt =====
-- The calls of Execute and of the running adapters in internal/daemon/service.go keep the invariants, and so
-- does every sequence of calls.
use agent_runtime_harness.Prelude.{
  ℕ, ◌≡◌, refl, Text, text, Option, none, some, List, [], ◌∷◌, ◌++◌, lookup, if◌then◌else◌, ◌⊎◌,
  inl, inr, Option-cases, Bool-cases,
}
use agent_runtime_harness.Model.{Session, is_terminal, Run, RunStatus, Tool}
use agent_runtime_harness.Policy.{evaluate}
use agent_runtime_harness.Env.{build, redact}
use agent_runtime_harness.Leases
use agent_runtime_harness.Leases.Waiting.{cancel_wait-IsValid}
use agent_runtime_harness.Leases.Operations.{acquire-IsValid, sweep-IsValid}
use agent_runtime_harness.Ports
use agent_runtime_harness.Sessions.Invariant.{mark_running-IsValid}
use agent_runtime_harness.Runs
use agent_runtime_harness.Runs.Invariant.{update-IsValid, new_run-IsValid, finish-IsValid}
use agent_runtime_harness.Supervisor.{LaunchResult, ProcInfo, launch, launched}
use agent_runtime_harness.Supervisor.Reach.{kill_run, run_procs}
use agent_runtime_harness.Supervisor.Pairing.{launch-IsValid, exit-IsValid, mark_procs-IsValid}
use agent_runtime_harness.Service.{Service, get_session}
use agent_runtime_harness.Service.Work.{detect_tools}
use agent_runtime_harness.Service.Execution.{
  ExecuteOptions, Scene, ToolError, has_adapter, choose_tool, env_pairs, after_new_run,
  execute_tool, execute_choice, execute,
}
use agent_runtime_harness.Service.Running.{
  AdapterResult, status_of, conclude, runtime_acquire_lease, runtime_allocate_port, begin_exec,
  launch_detached, exec_timeout, note_lease, note_process, running_process, pid_only,
}
use agent_runtime_harness.Service.Composition.{IsValid, terminate_session-IsValid}
use agent_runtime_harness.Service.Calls.{
  Call, creates_session, terminates, acquires, releases, allocates, creates_workspace,
  removes_workspace, detects, executes, runtime_acquires, runtime_allocates, begins_exec,
  launches_detached, times_out, concludes, cancels, exits, sweeps, step, run_calls,
}
use agent_runtime_harness.Service.Clients.{
  valid, acquire_lease-IsValid, release_lease-IsValid, allocate_port-IsValid,
  create_workspace-IsValid, remove_workspace-IsValid, create_session-IsValid,
}

after_new_run-IsValid :
    (s : Service) (u : Session) (environment : List Text) (w : Scene)
    (r : Runs.Manager × Option Run)
    → IsValid s
    → Runs.Invariant.IsValid r.0
    → IsValid (after_new_run s u environment w r).0
unfolding after_new_run
after_new_run-IsValid s u environment w (m, none) v n =
    valid v.leases v.ports v.sessions n v.supervisor
after_new_run-IsValid s u environment w (m, some r) v n =
    let fn : Run → Run = λ q. record q { env = redact s.env_config (env_pairs environment []) } in
    let n' = update-IsValid m r.id fn (λ q. refl) n in
    elim (Option-cases w.prepare_error) [
      | inl ready ↦
          rw (ready, after_new_run)
            (valid v.leases v.ports (mark_running-IsValid s.sessions u.id w.now v.sessions) n'
              v.supervisor)
      | inr (e, failed) ↦
          rw (failed, after_new_run)
            (valid v.leases v.ports v.sessions
              (finish-IsValid (Runs.update m r.id fn) r.id RunStatus.error none e w.now
                w.prepare_duration n')
              v.supervisor)
    ]

execute_tool-IsValid :
    (s : Service) (o : ExecuteOptions) (w : Scene) (u : Session) (t : Tool)
    → IsValid s
    → IsValid (execute_tool s o w u t).0
unfolding execute_tool
execute_tool-IsValid s o w u t v = elim (Bool-cases t.disabled) [
  | inl off ↦ rw (off, execute_tool) v
  | inr on ↦ elim (Bool-cases (has_adapter t.kind)) [
    | inr none' ↦ rw (on, execute_tool, none') v
    | inl adapter ↦ elim (Option-cases (lookup u.id s.env_specs)) [
      | inl bare ↦ rw (on, execute_tool, adapter, bare) v
      | inr (spec, found) ↦
          rw (on, execute_tool, adapter, found)
            (after_new_run-IsValid s u (build w.join w.is_unix s.env_config w.environ (some spec)) w
              _ v (new_run-IsValid s.runs u.id t.id t.kind o.command w.now w.dir_ok v.runs))
    ]
  ]
]

execute_choice-IsValid :
    (s : Service) (o : ExecuteOptions) (w : Scene) (u : Session) (c : ToolError ⊎ Tool)
    → IsValid s
    → IsValid (execute_choice s o w u c).0
unfolding execute_choice
execute_choice-IsValid s o w u (inl e) v = v
execute_choice-IsValid s o w u (inr t) v = execute_tool-IsValid s o w u t v

execute-IsValid :
    (s : Service) (o : ExecuteOptions) (w : Scene) → IsValid s → IsValid (execute s o w).0
unfolding execute
execute-IsValid s o w v = elim (Option-cases (evaluate s.rules o.owner (text "tool.execute"))) [
  | inr (d, no') ↦ rw (no', execute) v
  | inl yes' ↦ elim (Option-cases (get_session s o.session_id)) [
    | inl unknown ↦ rw (yes', execute, unknown) v
    | inr (u, found) ↦ elim (Bool-cases (is_terminal u.state)) [
      | inl over ↦ rw (yes', execute, found, over) v
      | inr alive ↦
          rw (yes', execute, found, alive)
            (execute_choice-IsValid s o w u (choose_tool w.parse s o) v)
    ]
  ]
]

conclude-IsValid :
    (m : Runs.Manager) (id : Text) (res : Text ⊎ AdapterResult) (now duration : ℕ)
    → Runs.Invariant.IsValid m
    → Runs.Invariant.IsValid (conclude m id res now duration)
unfolding conclude
conclude-IsValid m id (inl e) now duration v =
    finish-IsValid m id RunStatus.error none e now duration v
conclude-IsValid m id (inr res) now duration v =
    let fn : Run → Run = λ r. record r {
      status = status_of res;
      exit_code = res.exit_code;
      args = if res.has_summary then [] else r.args;
    } in
    finish-IsValid (Runs.update m id fn) id (status_of res) res.exit_code res.note now duration
      (update-IsValid m id fn (λ q. refl) v)

-- What the run is told of a lease, and of a process.
note_lease-IsValid :
    (m : Runs.Manager) (id : Text) (r : Leases.AcquireResult)
    → Runs.Invariant.IsValid m
    → Runs.Invariant.IsValid (note_lease m id r)
unfolding note_lease
note_lease-IsValid m id (Leases.AcquireResult.acquired l) v =
    update-IsValid m id (λ q. record q { leases = q.leases ++ l.id ∷ [] }) (λ q. refl) v
note_lease-IsValid m id (Leases.AcquireResult.queued t) v = v
note_lease-IsValid m id Leases.AcquireResult.unknown_resource v = v
note_lease-IsValid m id Leases.AcquireResult.save_failed v = v

note_process-IsValid :
    (fn : ProcInfo → Run → Run) (m : Runs.Manager) (id : Text) (r : LaunchResult)
    → ((i : ProcInfo) (q : Run) → (fn i q).id ≡ q.id)
    → Runs.Invariant.IsValid m
    → Runs.Invariant.IsValid (note_process fn m id r)
unfolding note_process
note_process-IsValid fn m id (launched i) same v = update-IsValid m id (fn i) (same i) v
note_process-IsValid fn m id LaunchResult.no_session same v = v
note_process-IsValid fn m id LaunchResult.no_stdout same v = v
note_process-IsValid fn m id LaunchResult.no_stderr same v = v
note_process-IsValid fn m id LaunchResult.not_started same v = v

pub step-IsValid : (s : Service) (c : Call) → IsValid s → IsValid (step s c)
unfolding step runtime_acquire_lease runtime_allocate_port begin_exec launch_detached exec_timeout
    kill_run detect_tools running_process pid_only
step-IsValid s (creates_session o b) v = create_session-IsValid s o b v
step-IsValid s (terminates key reason w) v = terminate_session-IsValid s key reason w v
step-IsValid s (acquires owner sid rid ttl now e ok) v =
    acquire_lease-IsValid s owner sid rid ttl now e ok v
step-IsValid s (releases owner sid lease_id now ok) v =
    release_lease-IsValid s owner sid lease_id now ok v
step-IsValid s (allocates owner sid protocol name ask) v =
    allocate_port-IsValid s owner sid protocol name ask v
step-IsValid s (creates_workspace owner o w) v = create_workspace-IsValid s owner o w v
step-IsValid s (removes_workspace owner name ok) v = remove_workspace-IsValid s owner name ok v
step-IsValid s (detects found) v = valid v.leases v.ports v.sessions v.runs v.supervisor
step-IsValid s (executes o w) v = execute-IsValid s o w v
step-IsValid s (runtime_acquires run_id sid rid ttl now ok) v =
    valid (acquire-IsValid s.leases rid sid ttl now ok v.leases) v.ports v.sessions
      (note_lease-IsValid s.runs run_id (Leases.acquire s.leases rid sid ttl now ok).1 v.runs)
      v.supervisor
step-IsValid s (runtime_allocates sid protocol name ask) v =
    valid v.leases (Ports.Invariant.acquire-IsValid ask s.ports sid protocol name v.ports)
      v.sessions v.runs v.supervisor
step-IsValid s (begins_exec run_id o w) v =
    valid v.leases v.ports v.sessions
      (note_process-IsValid running_process s.runs run_id (launch s.supervisor o w).1 (λ i q. refl)
        v.runs)
      (launch-IsValid s.supervisor o w v.supervisor)
step-IsValid s (launches_detached run_id o w) v =
    valid v.leases v.ports v.sessions
      (note_process-IsValid pid_only s.runs run_id (launch s.supervisor o w).1 (λ i q. refl) v.runs)
      (launch-IsValid s.supervisor o w v.supervisor)
step-IsValid s (times_out run_id note) v =
    valid v.leases v.ports v.sessions v.runs
      (mark_procs-IsValid s.supervisor (run_procs s.supervisor run_id) v.supervisor)
step-IsValid s (concludes run_id res now duration) v =
    valid v.leases v.ports v.sessions (conclude-IsValid s.runs run_id res now duration v.runs)
      v.supervisor
step-IsValid s (cancels rid t) v =
    valid (cancel_wait-IsValid s.leases rid t v.leases) v.ports v.sessions v.runs v.supervisor
step-IsValid s (exits sid pid) v =
    valid v.leases v.ports v.sessions v.runs (exit-IsValid s.supervisor sid pid v.supervisor)
step-IsValid s (sweeps now order ok) v =
    valid (sweep-IsValid s.leases now order ok v.leases) v.ports v.sessions v.runs v.supervisor

pub run_calls-IsValid : (s : Service) (cs : List Call) → IsValid s → IsValid (run_calls s cs)
unfolding run_calls
run_calls-IsValid s [] v = v
run_calls-IsValid s (c ∷ cs) v = run_calls-IsValid (step s c) cs (step-IsValid s c v)
