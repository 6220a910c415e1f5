-- ===== src/Service/Examples.antt =====
-- Runs of the daemon of internal/daemon/service.go, and the theorems about it at them.
use agent_runtime_harness.Prelude.{
  ℕ, ◌≡◌, ◌≢◌, refl, Text, text, eq_text, Option, none, some, true, false, [], ◌∷◌, ◌++◌, lookup,
  if◌then◌else◌, mem_text, arith,
}
use agent_runtime_harness.Model.{
  Session, SessionState, is_terminal, Lease, is_active, Workspace, Run, RunStatus, is_finished,
}
use agent_runtime_harness.Config.{default, normalize}
use agent_runtime_harness.Policy
use agent_runtime_harness.Policy.{PolicyRule, DenyError, evaluate}
use agent_runtime_harness.Leases
use agent_runtime_harness.Leases.{acquired, new_lease}
use agent_runtime_harness.Leases.Endings.{owned_waiters}
use agent_runtime_harness.Sessions
use agent_runtime_harness.Service.{get_session, terminate_session}
use agent_runtime_harness.Service.Startup.{new, new_service-IsValid}
use agent_runtime_harness.Service.Work.{acquire_lease, answered, release_lease, remove_workspace}
use agent_runtime_harness.Service.Recovery.{Disk, recover}
use agent_runtime_harness.Service.Composition.{IsValid}
use agent_runtime_harness.Service.Calls.{Call, acquires, step, run_calls}
use agent_runtime_harness.Service.Adapters.{run_calls-IsValid}
use agent_runtime_harness.Service.Departure.{
  IsCleared, IsSpared, terminate_session-IsCleared, terminate_session-IsSpared,
}
use agent_runtime_harness.Service.Gates.{gate, step_denied}
use agent_runtime_harness.Service.Ownership.{release_lease_own, remove_workspace_in_use}
use agent_runtime_harness.Service.Names.{named_lease_survives}
use agent_runtime_harness.Service.Restart.{recover_settles}
use agent_runtime_harness.Ports
use agent_runtime_harness.Workspaces
use agent_runtime_harness.Service.{Ending}
use agent_runtime_harness.Service.Worlds.{config, world, ending, calls, busy}

run_calls-IsValid_example : IsValid busy
run_calls-IsValid_example = run_calls-IsValid (new config []) calls (new_service-IsValid config [])

abbrev session : Text → Text → SessionState → Option ℕ → Session
session id name state started = record {
  id = id;
  name = name;
  owner = text "agent";
  workspace_id = text "app";
  workspace_dir = text "/work";
  state = state;
  created_at = 10;
  started_at = started;
  stopped_at = none;
  failure = [];
  home_dir = text "/root/.agent-runtime/sessions/" ++ id ++ text "/home";
  temp_dir = text "/root/.agent-runtime/sessions/" ++ id ++ text "/tmp";
  runtime_dir = text "/root/.agent-runtime/sessions/" ++ id;
}

abbrev first : Session
first = session (text "sess-000001") (text "build") SessionState.running (some 20)

first_found : get_session busy (text "build") ≡ some first
unfolding get_session run_calls new default normalize lookup eq_text
first_found = refl

abbrev lease : ℕ → Text → Text → ℕ → Lease
lease n rid sid now = new_lease n rid sid 0 now

first_lease :
    lookup (text "lease-00000001") busy.leases.leases
    ≡ some (lease 1 (text "gpu") (text "sess-000001") 20)
unfolding run_calls new default normalize lookup eq_text new_lease Leases.at Leases.capacity_of
first_lease = refl

second_lease :
    lookup (text "lease-00000002") busy.leases.leases
    ≡ some (lease 2 (text "unity-license") (text "sess-000002") 21)
unfolding run_calls new default normalize lookup eq_text new_lease Leases.at Leases.capacity_of
second_lease = refl

no_waiters : owned_waiters (text "sess-000001") busy.leases.waiters ≡ []
unfolding run_calls new default normalize lookup eq_text owned_waiters Leases.at Leases.capacity_of
no_waiters = refl

leases_of_busy :
    busy.leases.leases
    ≡ (text "lease-00000001", lease 1 (text "gpu") (text "sess-000001") 20)
      ∷ (text "lease-00000002", lease 2 (text "unity-license") (text "sess-000002") 21)
      ∷ []
unfolding run_calls new default normalize lookup eq_text new_lease Leases.at Leases.capacity_of
leases_of_busy = refl

in_order :
    (k : Text) (v : Lease)
    → lookup k busy.leases.leases ≡ some v
    → is_active v.state ≡ true
    → eq_text v.session_id (text "sess-000001") ≡ true
    → mem_text k ending.lease_order ≡ true
unfolding lookup mem_text
in_order k v e active own = ground (arith, e, leases_of_busy)

terminate_session-IsCleared_example :
    IsCleared (text "sess-000001") (terminate_session busy (text "build") (text "done") ending).0
unfolding is_terminal
terminate_session-IsCleared_example =
    terminate_session-IsCleared busy (text "build") (text "done") ending first
      run_calls-IsValid_example first_found refl no_waiters in_order

apart : text "sess-000001" ≢ text "sess-000002"
apart e = absurd (ground arith)

named : text "sess-000001" ≢ []
named e = absurd (ground arith)

terminate_session-IsSpared_example :
    IsSpared
      (text "sess-000002")
      busy
      (terminate_session busy (text "build") (text "done") ending).0
terminate_session-IsSpared_example =
    terminate_session-IsSpared busy (text "build") (text "done") ending first (text "sess-000002")
      run_calls-IsValid_example first_found apart named

-- A guest is denied.
abbrev guest_call : Call
guest_call = acquires (text "guest") (text "sess-000001") (text "gpu") 0 30 true true

abbrev guest_refusal : DenyError
guest_refusal = record {
  subject = text "guest";
  capability = text "lease.acquire";
  reason = Policy.Reason.denied_by_rule (text "guest");
}

refused : evaluate busy.rules (text "guest") (text "lease.acquire") ≡ some guest_refusal
unfolding run_calls new default normalize lookup eq_text evaluate Leases.at Leases.capacity_of
refused = refl

gated : gate guest_call ≡ some (text "guest", text "lease.acquire")
unfolding gate
gated = refl

guest_powerless : step busy guest_call ≡ busy
guest_powerless =
    step_denied busy guest_call (text "guest") (text "lease.acquire") guest_refusal gated refused

-- The second session tries to release the lease of the first.
release_lease_own_example :
    lookup
      (text "lease-00000001")
      (release_lease busy
        (text "agent")
        (text "sess-000002")
        (text "lease-00000001")
        30
        true).0.leases.leases
    ≡ some (lease 1 (text "gpu") (text "sess-000001") 20)
unfolding new_lease
release_lease_own_example =
    release_lease_own busy (text "agent") (text "sess-000002") (text "lease-00000001") 30 true
      (text "lease-00000001") (lease 1 (text "gpu") (text "sess-000001") 20)
      run_calls-IsValid_example first_lease apart

abbrev app_workspace : Workspace
app_workspace = record {
  id = text "ws-000001";
  name = text "app";
  repo = text "/repo";
  branch = [];
  path = text "/work";
  created_at = 5;
  last_session_id = [];
  plain = false;
}

app_found : lookup (text "app") busy.workspaces.ws ≡ some app_workspace
unfolding run_calls new default normalize lookup eq_text Leases.at Leases.capacity_of
app_found = refl

first_in_map : lookup (text "sess-000001") busy.sessions.sessions ≡ some first
unfolding run_calls new default normalize lookup eq_text Leases.at Leases.capacity_of
first_in_map = refl

remove_workspace_in_use_example : (remove_workspace busy (text "agent") (text "app") true).0 ≡ busy
unfolding is_terminal
remove_workspace_in_use_example =
    remove_workspace_in_use busy (text "agent") (text "app") true app_workspace (text "sess-000001")
      first app_found first_in_map refl refl

-- The first session, called by its name, gets a build slot.
named_answer :
    (acquire_lease busy (text "agent") (text "build") (text "build-slot") 0 30 true true).1
    ≡ answered (acquired (lease 3 (text "build-slot") (text "build") 30))
unfolding run_calls new default normalize lookup eq_text acquire_lease new_lease Leases.at
    Leases.capacity_of
named_answer = refl

not_its_id : text "sess-000001" ≢ text "build"
not_its_id e = absurd (ground arith)

named_lease_survives_example :
    let l = lease 3 (text "build-slot") (text "build") 30 in
    let s' =
      (acquire_lease busy (text "agent") (text "build") (text "build-slot") 0 30 true true).0 in
    let n = (terminate_session s' (text "sess-000001") (text "done") ending).0 in
    (lookup l.id n.leases.leases ≡ some l) × (is_active l.state ≡ true)
named_lease_survives_example =
    named_lease_survives busy (text "agent") (text "build") (text "build-slot") 0 30 true true first
      (lease 3 (text "build-slot") (text "build") 30) (text "done") ending run_calls-IsValid_example
      first_found not_its_id named named_answer

-- A restart that finds the snapshots of the leases, the ports and the sessions, the workspaces, and the
-- directory of a run that had not finished.
abbrev interrupted_run : Run
interrupted_run = record {
  id = text "run-000001";
  session_id = text "sess-000001";
  tool_id = text "make";
  tool_type = text "command";
  command = text "run";
  args = [];
  status = RunStatus.running;
  started_at = 10;
  finished_at = none;
  duration_ms = 0;
  exit_code = none;
  dir = [];
  leases = [];
  env = [];
  error = [];
  pid = 100;
  proc_start_time = 7;
  attempt = 0;
}

abbrev disk : Disk
disk = record {
  leases = busy.leases.stored;
  ports = some (Ports.snapshot busy.ports);
  sessions = some (Sessions.snapshot busy.sessions);
  workspaces = some (Workspaces.snapshot busy.workspaces);
  runs = (text "run-000001", some interrupted_run) ∷ [];
}

-- The rounds of the loop have times of their own.
abbrev rounds : Text → Ending
rounds id = if eq_text id (text "sess-000001") then ending else record ending { now = 99 }

recover_settles_example :
    let n = (recover disk rounds ending (λ pid. true) world (new config [])).0 in
    ((k : Text) (x : Session) → lookup k n.sessions.sessions ≡ some x → is_terminal x.state ≡ true)
    × ((k : Text) (r : Run) → lookup k n.runs.by_id ≡ some r → is_finished r.status ≡ true)
recover_settles_example =
    recover_settles disk rounds ending (λ pid. true) world (new config [])
      (new_service-IsValid config [])
