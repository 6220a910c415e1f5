-- ===== src/Service/Calls.antt =====
-- internal/daemon/service.go: the calls that change the state of the daemon, those of its clients and those
-- of the running adapters, a wait for a lease that its caller gives up, the exits of processes and the sweep of the ticker; and their sequences.
use agent_runtime_harness.Prelude.{ℕ, Text, Bool, List, [], ◌∷◌, ◌⊎◌}
use agent_runtime_harness.Model.{Tool}
use agent_runtime_harness.Leases
use agent_runtime_harness.Leases.Endings.{sweep}
use agent_runtime_harness.Ports
use agent_runtime_harness.Workspaces
use agent_runtime_harness.Supervisor.{LaunchOptions, Start, exit}
use agent_runtime_harness.Service.{
  Service, Ending, terminate_session, CreateSessionOpts, Birth, create_session,
}
use agent_runtime_harness.Service.Work.{
  acquire_lease, release_lease, allocate_port, create_workspace, remove_workspace, detect_tools,
}
use agent_runtime_harness.Service.Execution.{ExecuteOptions, Scene, execute}
use agent_runtime_harness.Service.Running.{
  AdapterResult, conclude, runtime_acquire_lease, runtime_allocate_port, begin_exec,
  launch_detached, exec_timeout,
}

pub data Call : Type 0 where
  creates_session : (o : CreateSessionOpts) (b : Birth) → Call
  terminates : (key reason : Text) (w : Ending) → Call
  acquires : (owner sid rid : Text) (ttl now : ℕ) (ensure_ok ok : Bool) → Call
  releases : (owner sid lease_id : Text) (now : ℕ) (ok : Bool) → Call
  allocates : (owner sid protocol name : Text) (ask : ℕ → Ports.Answer) → Call
  creates_workspace : (owner : Text) (o : Workspaces.CreateOptions) (w : Workspaces.World) → Call
  removes_workspace : (owner name : Text) (save_ok : Bool) → Call
  detects : (found : List Tool) → Call
  executes : (o : ExecuteOptions) (w : Scene) → Call
  runtime_acquires : (run_id sid rid : Text) (ttl now : ℕ) (ok : Bool) → Call
  runtime_allocates : (sid protocol name : Text) (ask : ℕ → Ports.Answer) → Call
  begins_exec : (run_id : Text) (o : LaunchOptions) (w : Start) → Call
  launches_detached : (run_id : Text) (o : LaunchOptions) (w : Start) → Call
  times_out : (run_id note : Text) → Call
  concludes : (run_id : Text) (res : Text ⊎ AdapterResult) (now duration : ℕ) → Call
  cancels : (rid : Text) (ticket : ℕ) → Call
  exits : (sid : Text) (pid : ℕ) → Call
  sweeps : (now : ℕ) (order : List Text) (ok : Bool) → Call

unfoldable pub step : Service → Call → Service
unfolding create_session terminate_session acquire_lease release_lease allocate_port
    create_workspace remove_workspace detect_tools execute runtime_acquire_lease
    runtime_allocate_port begin_exec launch_detached exec_timeout conclude Leases.cancel_wait exit
    sweep
step s (creates_session o b) = (create_session s o b).0
step s (terminates key reason w) = (terminate_session s key reason w).0
step s (acquires owner sid rid ttl now e ok) = (acquire_lease s owner sid rid ttl now e ok).0
step s (releases owner sid lease_id now ok) = (release_lease s owner sid lease_id now ok).0
step s (allocates owner sid protocol name ask) = (allocate_port s owner sid protocol name ask).0
step s (creates_workspace owner o w) = (create_workspace s owner o w).0
step s (removes_workspace owner name ok) = (remove_workspace s owner name ok).0
step s (detects found) = (detect_tools found s).0
step s (executes o w) = (execute s o w).0
step s (runtime_acquires run_id sid rid ttl now ok) =
    (runtime_acquire_lease s run_id sid rid ttl now ok).0
step s (runtime_allocates sid protocol name ask) = (runtime_allocate_port s sid protocol name ask).0
step s (begins_exec run_id o w) = (begin_exec s run_id o w).0
step s (launches_detached run_id o w) = (launch_detached s run_id o w).0
step s (times_out run_id note) = record s { supervisor = (exec_timeout s.supervisor run_id note).0 }
step s (concludes run_id res now duration) = record s {
  runs = conclude s.runs run_id res now duration;
}
step s (cancels rid t) = record s { leases = Leases.cancel_wait s.leases rid t }
step s (exits sid pid) = record s { supervisor = exit s.supervisor sid pid }
step s (sweeps now order ok) = record s { leases = sweep s.leases now order ok }

unfoldable pub run_calls : Service → List Call → Service
unfolding step
run_calls s [] = s
run_calls s (c ∷ cs) = run_calls (step s c) cs
