-- ===== src/Service/Gates.antt =====
-- internal/daemon/service.go: the policy in front of the calls.
use agent_runtime_harness.Prelude.{◌≡◌, Text, text, Option, none, some, arith}
use agent_runtime_harness.Policy.{DenyError, evaluate}
use agent_runtime_harness.Service.{Service, create_session}
use agent_runtime_harness.Service.Work.{
  acquire_lease, release_lease, allocate_port, create_workspace, remove_workspace,
}
use agent_runtime_harness.Service.Execution.{execute}
use agent_runtime_harness.Service.Calls.{
  Call, creates_session, terminates, acquires, releases, allocates, creates_workspace,
  removes_workspace, detects, executes, runtime_acquires, runtime_allocates, begins_exec,
  launches_detached, times_out, concludes, cancels, exits, sweeps, step,
}

-- The caller and the capability that a call needs, where it asks the policy.
unfoldable pub gate : Call → Option (Text × Text)
gate (creates_session o b) = some (o.owner, text "session.create")
gate (acquires owner sid rid ttl now e ok) = some (owner, text "lease.acquire")
gate (releases owner sid lease_id now ok) = some (owner, text "lease.release")
gate (allocates owner sid protocol name ask) = some (owner, text "port.allocate")
gate (creates_workspace owner o w) = some (owner, text "workspace.create")
gate (removes_workspace owner name ok) = some (owner, text "workspace.remove")
gate (executes o w) = some (o.owner, text "tool.execute")
gate _ = none

-- A call that the policy denies its caller changes nothing: the calls that ask it are CreateSession,
-- AcquireLease, ReleaseLease, AllocatePort, CreateWorkspace, RemoveWorkspace and Execute.
pub step_denied :
    (s : Service) (c : Call) (owner capability : Text) (d : DenyError)
    → gate c ≡ some (owner, capability)
    → evaluate s.rules owner capability ≡ some d
    → step s c ≡ s
unfolding gate step create_session acquire_lease release_lease allocate_port create_workspace
    remove_workspace execute
step_denied s (creates_session o b) owner capability d g e = ground arith
step_denied s (terminates key reason w) owner capability d g e = absurd (ground arith)
step_denied s (acquires o sid rid ttl now f ok) owner capability d g e = ground arith
step_denied s (releases o sid lease_id now ok) owner capability d g e = ground arith
step_denied s (allocates o sid protocol name ask) owner capability d g e = ground arith
step_denied s (creates_workspace o opts w) owner capability d g e = ground arith
step_denied s (removes_workspace o name ok) owner capability d g e = ground arith
step_denied s (detects found) owner capability d g e = absurd (ground arith)
step_denied s (executes o w) owner capability d g e = ground arith
step_denied s (runtime_acquires r sid rid ttl now ok) owner capability d g e = absurd (ground arith)
step_denied s (runtime_allocates sid protocol name ask) owner capability d g e =
    absurd (ground arith)
step_denied s (begins_exec r o w) owner capability d g e = absurd (ground arith)
step_denied s (launches_detached r o w) owner capability d g e = absurd (ground arith)
step_denied s (times_out r note) owner capability d g e = absurd (ground arith)
step_denied s (concludes r res now duration) owner capability d g e = absurd (ground arith)
step_denied s (cancels rid t) owner capability d g e = absurd (ground arith)
step_denied s (exits sid pid) owner capability d g e = absurd (ground arith)
step_denied s (sweeps now order ok) owner capability d g e = absurd (ground arith)
