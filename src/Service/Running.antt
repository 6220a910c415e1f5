-- ===== src/Service/Running.antt =====
-- internal/daemon/service.go: the end of a run, and the runtime that an adapter gets for it.
use agent_runtime_harness.Prelude.{
  ℕ, ◌==◌, Text, Option, none, some, Bool, false, [], ◌∷◌, ◌++◌, if◌then◌else◌, ◌⊎◌, inl, inr,
}
use agent_runtime_harness.Model.{Run, RunStatus}
use agent_runtime_harness.Leases
use agent_runtime_harness.Ports
use agent_runtime_harness.Runs
use agent_runtime_harness.Supervisor.{
  Supervisor, ProcInfo, LaunchOptions, Start, LaunchResult, launched, launch, ExitStatus,
}
use agent_runtime_harness.Supervisor.Reach.{kill_run}
use agent_runtime_harness.Service.{Service}

-- statusFromExit
unfoldable status_from_exit : Option ℕ → RunStatus
status_from_exit none = RunStatus.error
status_from_exit (some code) = if code == 0 then RunStatus.succeeded else RunStatus.failed

-- adapter.Result, as far as the service reads it; an empty status is none.
pub record AdapterResult : Type 0 where
  pub status : Option RunStatus
  pub exit_code : Option ℕ
  pub has_summary : Bool
  pub note : Text

unfoldable pub status_of : AdapterResult → RunStatus
unfolding status_from_exit
status_of res = elim res.status [ none ↦ status_from_exit res.exit_code | some st ↦ st ]

-- The closure exec after Launch: an error of the adapter, or its result.
unfoldable pub conclude : Runs.Manager → Text → Text ⊎ AdapterResult → ℕ → ℕ → Runs.Manager
unfolding status_of Runs.update Runs.finish
conclude m id (inl e) now duration = Runs.finish m id RunStatus.error none e now duration
conclude m id (inr res) now duration =
    Runs.finish
      (Runs.update m id (λ r. record r {
        status = status_of res;
        exit_code = res.exit_code;
        args = if res.has_summary then [] else r.args;
      }))
      id (status_of res) res.exit_code res.note now duration

-- The update of the run after a lease was given.
unfoldable pub note_lease : Runs.Manager → Text → Leases.AcquireResult → Runs.Manager
unfolding Runs.update
note_lease m id (Leases.AcquireResult.acquired l) =
    Runs.update m id (λ q. record q { leases = q.leases ++ l.id ∷ [] })
note_lease m id _ = m

-- serviceRuntime.AcquireLease
unfoldable pub runtime_acquire_lease :
    Service → Text → Text → Text → ℕ → ℕ → Bool → Service × Leases.AcquireResult
unfolding Leases.acquire note_lease
runtime_acquire_lease s run_id sid rid ttl now ok =
    let r = Leases.acquire s.leases rid sid ttl now ok in
    (record s { leases = r.0; runs = note_lease s.runs run_id r.1 }, r.1)

-- serviceRuntime.AllocatePort; none is the error.
unfoldable pub runtime_allocate_port :
    Service → Text → Text → Text → (ℕ → Ports.Answer) → Service × Option ℕ
unfolding Ports.acquire
runtime_allocate_port s sid protocol name ask =
    let r = Ports.acquire ask s.ports sid protocol name in
    (
      record s { ports = r.0 },
      elim r.1 [ Ports.AcquireResult.allocated a ↦ some a.port | _ ↦ none ],
    )

-- The update of the run after a process was launched.
unfoldable pub note_process :
    (ProcInfo → Run → Run) → Runs.Manager → Text → LaunchResult → Runs.Manager
unfolding Runs.update
note_process fn m id (launched i) = Runs.update m id (fn i)
note_process fn m id _ = m

unfoldable pub running_process : ProcInfo → Run → Run
running_process i q = record q {
  status = RunStatus.running;
  pid = i.pid;
  proc_start_time = i.start_time;
}

-- The start of serviceRuntime.Exec: the run gets the process, with its start time.
unfoldable pub begin_exec : Service → Text → LaunchOptions → Start → Service × LaunchResult
unfolding launch note_process running_process
begin_exec s run_id o w =
    let r = launch s.supervisor o w in
    (record s { supervisor = r.0; runs = note_process running_process s.runs run_id r.1 }, r.1)

unfoldable pub pid_only : ProcInfo → Run → Run
pid_only i q = record q { pid = i.pid }

-- serviceRuntime.LaunchDetached: the run gets the pid alone.
unfoldable pub launch_detached : Service → Text → LaunchOptions → Start → Service × LaunchResult
unfolding launch note_process pid_only
launch_detached s run_id o w =
    let r = launch s.supervisor o w in
    (record s { supervisor = r.0; runs = note_process pid_only s.runs run_id r.1 }, r.1)

-- adapter.ExecResult
pub record ExecResult : Type 0 where
  pub exit_code : Option ℕ
  pub status : RunStatus
  pub note : Text

unfoldable is_zero : Option ℕ → Bool
is_zero none = false
is_zero (some code) = code == 0

-- The branch <-handle.Done of Exec.
unfoldable exec_done : ExitStatus → ExecResult
unfolding is_zero
exec_done st = record {
  exit_code = st.code;
  status =
      if st.killed
      then RunStatus.killed
      else if is_zero st.code
      then RunStatus.succeeded
      else RunStatus.failed;
  note = st.reason;
}

-- The branch <-execCtx.Done of Exec: the run's processes are killed.
unfoldable pub exec_timeout : Supervisor → Text → Text → Supervisor × ExecResult
unfolding kill_run
exec_timeout s run_id note =
    ((kill_run s run_id).0, record { exit_code = none; status = RunStatus.timeout; note = note })
