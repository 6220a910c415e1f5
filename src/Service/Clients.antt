-- ===== src/Service/Clients.antt =====
-- The calls of clients in internal/daemon/service.go keep the invariants of the managers.
use agent_runtime_harness.Prelude.{
  ℕ, Text, text, eq_text, has_prefix, Bool, lookup, inl, inr, Option-cases, Bool-cases,
}
use agent_runtime_harness.Model.{Session, LeaseMode}
use agent_runtime_harness.Policy.{evaluate}
use agent_runtime_harness.Leases
use agent_runtime_harness.Leases.Operations.{
  acquire-IsValid, release-IsValid, ensure_resource-IsValid,
}
use agent_runtime_harness.Ports
use agent_runtime_harness.Sessions
use agent_runtime_harness.Sessions.Invariant.{mark_running-IsValid, create-IsValid}
use agent_runtime_harness.Runs
use agent_runtime_harness.Runs.Invariant.{update-IsValid, new_run-IsValid}
use agent_runtime_harness.Workspaces
use agent_runtime_harness.Supervisor.Pairing
use agent_runtime_harness.Supervisor.Pairing.{launch-IsValid, exit-IsValid, mark_procs-IsValid}
use agent_runtime_harness.Service.{
  Service, get_session, CreateSessionOpts, Birth, mark_pending, uses_workspace, session_options,
  equip, after_create, create_session,
}
use agent_runtime_harness.Service.Work.{
  with_device, acquire_lease, release_lease, allocate_port, create_workspace, remove_workspace,
  user_of,
}
use agent_runtime_harness.Service.Composition.{IsValid, terminate_session-IsValid}

pub valid :
    {s : Service}
    → Leases.Invariant.IsValid s.leases
    → Ports.Invariant.IsValid s.ports
    → Sessions.Invariant.IsValid s.sessions
    → Runs.Invariant.IsValid s.runs
    → Pairing.IsValid s.supervisor
    → IsValid s
valid l p u r k = record { leases = l; ports = p; sessions = u; runs = r; supervisor = k }

with_device-IsValid :
    (m : Leases.Manager) (rid : Text) (ok : Bool)
    → Leases.Invariant.IsValid m
    → Leases.Invariant.IsValid (with_device m rid ok)
unfolding with_device
with_device-IsValid m rid ok v = elim (Bool-cases (has_prefix rid (text "adb:"))) [
  | inl device ↦ rw (device, with_device) (ensure_resource-IsValid m rid LeaseMode.exclusive ok v)
  | inr other ↦ rw (other, with_device) v
]

pub acquire_lease-IsValid :
    (s : Service) (owner sid rid : Text) (ttl now : ℕ) (e ok : Bool)
    → IsValid s
    → IsValid (acquire_lease s owner sid rid ttl now e ok).0
unfolding acquire_lease
acquire_lease-IsValid s owner sid rid ttl now e ok v =
    elim (Option-cases (evaluate s.rules owner (text "lease.acquire"))) [
      | inr (d, no') ↦ rw (no', acquire_lease) v
      | inl yes' ↦ elim (Option-cases (get_session s sid)) [
        | inl unknown ↦ rw (yes', acquire_lease, unknown) v
        | inr (u, found) ↦
            rw (yes', acquire_lease, found)
              (valid
                (acquire-IsValid (with_device s.leases rid e) rid sid ttl now ok
                  (with_device-IsValid s.leases rid e v.leases))
                v.ports v.sessions v.runs v.supervisor)
      ]
    ]

pub release_lease-IsValid :
    (s : Service) (owner sid lease_id : Text) (now : ℕ) (ok : Bool)
    → IsValid s
    → IsValid (release_lease s owner sid lease_id now ok).0
unfolding release_lease
release_lease-IsValid s owner sid lease_id now ok v =
    elim (Option-cases (evaluate s.rules owner (text "lease.release"))) [
      | inr (d, no') ↦ rw (no', release_lease) v
      | inl yes' ↦ elim (Option-cases (lookup lease_id s.leases.leases)) [
        | inl unknown ↦ rw (yes', release_lease, unknown) v
        | inr (l, found) ↦ elim (Bool-cases (eq_text l.session_id sid)) [
          | inl own ↦
              rw (yes', release_lease, found, own)
                (valid (release-IsValid s.leases lease_id now ok v.leases) v.ports v.sessions v.runs
                  v.supervisor)
          | inr other ↦ rw (yes', release_lease, found, other) v
        ]
      ]
    ]

pub allocate_port-IsValid :
    (s : Service) (owner sid protocol name : Text) (ask : ℕ → Ports.Answer)
    → IsValid s
    → IsValid (allocate_port s owner sid protocol name ask).0
unfolding allocate_port
allocate_port-IsValid s owner sid protocol name ask v =
    elim (Option-cases (evaluate s.rules owner (text "port.allocate"))) [
      | inr (d, no') ↦ rw (no', allocate_port) v
      | inl yes' ↦ elim (Option-cases (get_session s sid)) [
        | inl unknown ↦ rw (yes', allocate_port, unknown) v
        | inr (u, found) ↦
            rw (yes', allocate_port, found)
              (valid v.leases
                (Ports.Invariant.acquire-IsValid ask s.ports sid protocol name v.ports) v.sessions
                v.runs v.supervisor)
      ]
    ]

-- The workspaces have no invariant of their own.
pub create_workspace-IsValid :
    (s : Service) (owner : Text) (o : Workspaces.CreateOptions) (w : Workspaces.World)
    → IsValid s
    → IsValid (create_workspace s owner o w).0
unfolding create_workspace
create_workspace-IsValid s owner o w v =
    elim (Option-cases (evaluate s.rules owner (text "workspace.create"))) [
      | inr (d, no') ↦ rw (no', create_workspace) v
      | inl yes' ↦
          rw (yes', create_workspace) (valid v.leases v.ports v.sessions v.runs v.supervisor)
    ]

pub remove_workspace-IsValid :
    (s : Service) (owner name : Text) (ok : Bool)
    → IsValid s
    → IsValid (remove_workspace s owner name ok).0
unfolding remove_workspace
remove_workspace-IsValid s owner name ok v =
    elim (Option-cases (evaluate s.rules owner (text "workspace.remove"))) [
      | inr (d, no') ↦ rw (no', remove_workspace) v
      | inl yes' ↦ elim (Option-cases (Workspaces.get_by_name s.workspaces name)) [
        | inl unknown ↦ rw (yes', remove_workspace, unknown) v
        | inr (w, found) ↦ elim (Option-cases (user_of w.name s.sessions.sessions)) [
          | inr (u, used) ↦ rw (yes', remove_workspace, found, used) v
          | inl idle ↦
              rw (yes', remove_workspace, found, idle)
                (valid v.leases v.ports v.sessions v.runs v.supervisor)
        ]
      ]
    ]

mark_pending-IsValid :
    (s : Service) (o : CreateSessionOpts) → IsValid s → IsValid (mark_pending s o)
unfolding mark_pending
mark_pending-IsValid s o v = elim (Bool-cases (uses_workspace o)) [
  | inl uses ↦ rw (uses, mark_pending) (valid v.leases v.ports v.sessions v.runs v.supervisor)
  | inr free ↦ rw (free, mark_pending) v
]

equip-IsValid :
    (s : Service) (o : CreateSessionOpts) (b : Birth) (u : Session)
    → IsValid s
    → IsValid (equip s o b u).0
unfolding equip
equip-IsValid s o b u v = elim (Option-cases (b.prepare u.runtime_dir)) [
  | inl failed ↦
      rw (failed, equip) (terminate_session-IsValid s u.id (text "env prepare failed") b.ending v)
  | inr (spec, done) ↦ rw (done, equip) (valid v.leases v.ports v.sessions v.runs v.supervisor)
]

after_create-IsValid :
    (s : Service) (o : CreateSessionOpts) (b : Birth) (r : Sessions.Manager × Sessions.CreateResult)
    → IsValid s
    → Sessions.Invariant.IsValid r.0
    → IsValid (after_create s o b r).0
unfolding after_create
after_create-IsValid s o b (m, Sessions.CreateResult.created u) v n =
    equip-IsValid (record s { sessions = m }) o b u (valid v.leases v.ports n v.runs v.supervisor)
after_create-IsValid s o b (m, Sessions.CreateResult.max_reached) v n =
    valid v.leases v.ports n v.runs v.supervisor
after_create-IsValid s o b (m, Sessions.CreateResult.no_runtime_dir) v n =
    valid v.leases v.ports n v.runs v.supervisor
after_create-IsValid s o b (m, Sessions.CreateResult.no_isolated_dirs) v n =
    valid v.leases v.ports n v.runs v.supervisor
after_create-IsValid s o b (m, Sessions.CreateResult.save_failed) v n =
    valid v.leases v.ports n v.runs v.supervisor

pub create_session-IsValid :
    (s : Service) (o : CreateSessionOpts) (b : Birth) → IsValid s → IsValid (create_session s o b).0
unfolding create_session
create_session-IsValid s o b v =
    elim (Option-cases (evaluate s.rules o.owner (text "session.create"))) [
      | inr (d, no') ↦ rw (no', create_session) v
      | inl yes' ↦
          rw (yes', create_session)
            (after_create-IsValid (mark_pending s o) o b _ (mark_pending-IsValid s o v) (
              create-IsValid s.sessions (session_options s o b) b.now b.runtime_dir_ok
                b.isolated_dirs_ok b.save_ok v.sessions))
    ]
