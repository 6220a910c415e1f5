-- ===== src/Service/Composition.antt =====
-- internal/daemon/service.go: the managers' invariants under the calls of the service.
use agent_runtime_harness.Prelude.{
  ℕ, ◌≡◌, Text, none, some, false, List, [], ◌∷◌, lookup, arith, inl, inr, Option-cases, Bool-cases,
}
use agent_runtime_harness.Model.{Session, SessionState, is_terminal, Run, RunStatus, is_finished}
use agent_runtime_harness.Leases
use agent_runtime_harness.Leases.Operations.{release_all-IsValid}
use agent_runtime_harness.Ports
use agent_runtime_harness.Ports.Invariant.{free_where-IsValid}
use agent_runtime_harness.Sessions
use agent_runtime_harness.Sessions.Invariant.{
  mutate-IsValid, mark_stopping-IsValid, finish-IsValid, mark_running-IsValid,
}
use agent_runtime_harness.Sessions.Lookups.{lookup-mutate, get_by_name_found}
use agent_runtime_harness.Runs
use agent_runtime_harness.Runs.Invariant.{update-IsValid}
use agent_runtime_harness.Supervisor.{set_of}
use agent_runtime_harness.Supervisor.Reach.{live_pids, kill_session}
use agent_runtime_harness.Supervisor.Pairing
use agent_runtime_harness.Supervisor.Pairing.{mark_all-IsValid}
use agent_runtime_harness.Service.{
  Service, get_session, Ending, kill_runs, trim_owner, trim_space, end_session, terminate,
  terminate_session,
}

-- Every manager is valid.
pub record IsValid (s : Service) : Type 0 where
  pub leases : Leases.Invariant.IsValid s.leases
  pub ports : Ports.Invariant.IsValid s.ports
  pub sessions : Sessions.Invariant.IsValid s.sessions
  pub runs : Runs.Invariant.IsValid s.runs
  pub supervisor : Pairing.IsValid s.supervisor

-- GetSession finds a session under its own id, also by its name.
pub get_session_found :
    (s : Service) (key : Text) (u : Session)
    → Sessions.Invariant.IsValid s.sessions
    → get_session s key ≡ some u
    → lookup u.id s.sessions.sessions ≡ some u
unfolding get_session
get_session_found s key u v = elim (Option-cases (lookup key s.sessions.sessions)) [
  | inl missing ↦
      rw (missing, get_session) (get_by_name_found s.sessions.sessions key u v.unique v.named)
  | inr (w, found) ↦ rw (found, get_session) (λ e. ground (arith, e, v.named key w found))
]

kill_runs-IsValid :
    (m : Runs.Manager) (rs : List Run) (reason : Text) (now : ℕ) (duration : Text → ℕ)
    → Runs.Invariant.IsValid m
    → Runs.Invariant.IsValid (kill_runs m rs reason now duration)
unfolding kill_runs
kill_runs-IsValid m [] reason now duration v = v
kill_runs-IsValid m (r ∷ rs) reason now duration v = elim (Bool-cases (is_finished r.status)) [
  | inl over ↦ rw (over, kill_runs) (kill_runs-IsValid m rs reason now duration v)
  | inr going ↦
      rw (going, kill_runs)
        (kill_runs-IsValid (Runs.finish m r.id RunStatus.killed none reason now (duration r.id)) rs
          reason now duration
          (Runs.Invariant.finish-IsValid m r.id RunStatus.killed none reason now (duration r.id) v))
]

trim_owner-IsValid :
    (m : Sessions.Manager) (id : Text)
    → Sessions.Invariant.IsValid m
    → Sessions.Invariant.IsValid (trim_owner m id)
unfolding trim_owner
trim_owner-IsValid m id v =
    mutate-IsValid m id (λ u. some (record u { owner = trim_space u.owner }))
      (λ s s' found e. ground arith) v

trimmed_alive :
    (m : Sessions.Manager) (id : Text) (u w : Session)
    → lookup id m.sessions ≡ some u
    → is_terminal u.state ≡ false
    → lookup id (trim_owner m id).sessions ≡ some w
    → is_terminal w.state ≡ false
unfolding trim_owner
trimmed_alive m id u w found alive e =
    ground (arith, lookup-mutate m id id (λ v. some (record v { owner = trim_space v.owner })))

-- A session that has not ended is stopped without breaking the limit.
end_session-IsValid :
    (m : Sessions.Manager) (id reason : Text) (now : ℕ) (u : Session)
    → lookup id m.sessions ≡ some u
    → is_terminal u.state ≡ false
    → Sessions.Invariant.IsValid m
    → Sessions.Invariant.IsValid (end_session m id reason now)
unfolding end_session
end_session-IsValid m id reason now u found alive v =
    finish-IsValid (Sessions.mark_stopping (trim_owner m id) id) id SessionState.stopped reason now
      (mark_stopping-IsValid (trim_owner m id) id (λ w e. trimmed_alive m id u w found alive e)
        (trim_owner-IsValid m id v))

terminate-IsValid :
    (s : Service) (u : Session) (reason : Text) (w : Ending)
    → IsValid s
    → lookup u.id s.sessions.sessions ≡ some u
    → is_terminal u.state ≡ false
    → IsValid (terminate s u reason w)
unfolding terminate kill_session Ports.release_by_session
terminate-IsValid s u reason w v found alive = record {
  leases = release_all-IsValid s.leases u.id w.lease_order w.now w.save_ok v.leases;
  ports = free_where-IsValid (Ports.is_owner u.id) s.ports.taken s.ports v.ports;
  sessions = end_session-IsValid s.sessions u.id reason w.now u found alive v.sessions;
  runs = kill_runs-IsValid s.runs (Runs.list_of s.runs u.id) reason w.now w.duration v.runs;
  supervisor =
      mark_all-IsValid s.supervisor u.id (live_pids w.before (set_of u.id s.supervisor.sets))
        v.supervisor;
}

pub terminate_session-IsValid :
    (s : Service) (key reason : Text) (w : Ending)
    → IsValid s
    → IsValid (terminate_session s key reason w).0
unfolding terminate_session
terminate_session-IsValid s key reason w v = elim (Option-cases (get_session s key)) [
  | inl unknown ↦ rw (unknown, terminate_session) v
  | inr (u, found) ↦ elim (Bool-cases (is_terminal u.state)) [
    | inl over ↦ rw (found, terminate_session, over) v
    | inr alive ↦
        rw (found, terminate_session, alive)
          (terminate-IsValid s u reason w v (get_session_found s key u v.sessions found) alive)
  ]
]
