-- ===== src/Service/Departure.antt =====
-- TerminateSession of internal/daemon/service.go as a whole: what a session that ends leaves behind, and what
-- the other sessions notice.
use agent_runtime_harness.Prelude.{
  ℕ, ◌≡◌, ◌≢◌, refl, sym, subst, Text, eq_text, eq_text_iff, eq_text_refl, none, some, true, false,
  not, ◌&&◌, ◌||◌, [], lookup, find, if◌then◌else◌, mem_text, arith, inl, inr, Option-cases,
  Bool-cases,
}
use agent_runtime_harness.Model.{
  Session, is_terminal, Run, RunStatus, is_finished, Lease, is_active,
}
use agent_runtime_harness.Leases.Endings.{owned_waiters}
use agent_runtime_harness.Leases.Departure.{release_all_clears}
use agent_runtime_harness.Leases.Sessions.{lookup-release_all, owned_waiters-release_all}
use agent_runtime_harness.Ports
use agent_runtime_harness.Ports.Allocations.{find-free_where}
use agent_runtime_harness.Runs
use agent_runtime_harness.Service.{
  Service, get_session, Ending, kill_runs, terminate, terminate_session,
}
use agent_runtime_harness.Service.Composition.{IsValid, get_session_found}
use agent_runtime_harness.Service.Killing.{
  stopped_record, lookup-end_session, lookup-kill_runs, kill_runs_missing, is_killed-keep,
}

port_left :
    (m : Ports.Manager) (sid : Text) (port : ℕ) (a : Ports.Allocation)
    → Ports.Invariant.IsValid m
    → find port (Ports.release_by_session m sid).0.taken ≡ some a
    → (find port m.taken ≡ some a) × (eq_text a.session_id sid ≡ false)
unfolding Ports.release_by_session Ports.is_owner
port_left m sid port a v e = elim (Option-cases (find port m.taken)) [
  | inl free ↦
      absurd (ground (arith, find-free_where (Ports.is_owner sid) m.taken m port v.taken_once))
  | inr (b, found) ↦
      ground (arith, find-free_where (Ports.is_owner sid) m.taken m port v.taken_once)
]

port_kept :
    (m : Ports.Manager) (sid : Text) (port : ℕ) (a : Ports.Allocation)
    → Ports.Invariant.IsValid m
    → find port m.taken ≡ some a
    → eq_text a.session_id sid ≡ false
    → find port (Ports.release_by_session m sid).0.taken ≡ some a
unfolding Ports.release_by_session Ports.is_owner
port_kept m sid port a v e other =
    ground (arith, find-free_where (Ports.is_owner sid) m.taken m port v.taken_once)

-- The run under an id after the loop over the runs of the session.
run_after :
    (m : Runs.Manager) (sid reason : Text) (now : ℕ) (duration : Text → ℕ) (k : Text) (r : Run)
    → Runs.Invariant.IsValid m
    → lookup k m.by_id ≡ some r
    → lookup k (kill_runs m (Runs.list_of m sid) reason now duration).by_id
      ≡ some (
          if (eq_text sid [] || eq_text r.session_id sid) && not (is_finished r.status)
          then Runs.finished RunStatus.killed none reason now (duration k) r
          else r)
unfolding Runs.list_of
run_after m sid reason now duration k r v found = ground (
  arith,
  found,
  lookup-kill_runs m (Runs.list_of m sid) reason now duration k r found,
  is_killed-keep (λ q. eq_text sid [] || eq_text q.session_id sid) m.by_id k v.unique v.keyed,
)

run_over :
    (m : Runs.Manager) (sid reason : Text) (now : ℕ) (duration : Text → ℕ) (k : Text) (r : Run)
    → Runs.Invariant.IsValid m
    → lookup k (kill_runs m (Runs.list_of m sid) reason now duration).by_id ≡ some r
    → eq_text r.session_id sid ≡ true
    → is_finished r.status ≡ true
unfolding Runs.finished is_finished
run_over m sid reason now duration k r v e own = elim (Option-cases (lookup k m.by_id)) [
  | inl missing ↦
      absurd
        (ground (arith, kill_runs_missing m (Runs.list_of m sid) reason now duration k missing))
  | inr (q, found) ↦ ground (arith, run_after m sid reason now duration k q v found)
]

-- TerminateSession of a session that has not ended.
terminate_alive :
    (s : Service) (key reason : Text) (w : Ending) (u : Session)
    → get_session s key ≡ some u
    → is_terminal u.state ≡ false
    → (terminate_session s key reason w).0 ≡ terminate s u reason w
unfolding terminate_session
terminate_alive s key reason w u found alive = rw (found, terminate_session, alive) refl

-- Nothing is left with a session.
pub record IsCleared (sid : Text) (n : Service) : Type 0 where
  pub ended :
      (u : Session) × (lookup sid n.sessions.sessions ≡ some u) × (is_terminal u.state ≡ true)
  pub no_lease :
      (id : Text) (l : Lease)
      → lookup id n.leases.leases ≡ some l
      → eq_text l.session_id sid ≡ true
      → is_active l.state ≡ false
  no_waiter : owned_waiters sid n.leases.waiters ≡ []
  no_port :
      (port : ℕ) (a : Ports.Allocation)
      → find port n.ports.taken ≡ some a
      → eq_text a.session_id sid ≡ false
  no_run :
      (id : Text) (r : Run)
      → lookup id n.runs.by_id ≡ some r
      → eq_text r.session_id sid ≡ true
      → is_finished r.status ≡ true

-- What belongs to the session k is as before.
pub record IsSpared (k : Text) (s n : Service) : Type 0 where
  same_session :
      (x : Session) → lookup k s.sessions.sessions ≡ some x → lookup k n.sessions.sessions ≡ some x
  pub same_lease :
      (id : Text) (l : Lease)
      → lookup id s.leases.leases ≡ some l
      → l.session_id ≡ k
      → lookup id n.leases.leases ≡ some l
  same_port :
      (port : ℕ) (a : Ports.Allocation)
      → find port s.ports.taken ≡ some a
      → a.session_id ≡ k
      → find port n.ports.taken ≡ some a
  same_run :
      (id : Text) (r : Run)
      → lookup id s.runs.by_id ≡ some r
      → r.session_id ≡ k
      → lookup id n.runs.by_id ≡ some r

IsSpared-refl : (k : Text) (s : Service) → IsSpared k s s
IsSpared-refl k s = record {
  same_session = λ x e. e;
  same_lease = λ id l e own. e;
  same_port = λ port a e own. e;
  same_run = λ id r e own. e;
}

module _ (s : Service) (u : Session) (reason : Text) (w : Ending) (v : IsValid s) where
  abbrev n : Service
  n = terminate s u reason w

  terminate-IsCleared :
      lookup u.id s.sessions.sessions ≡ some u
      → owned_waiters u.id s.leases.waiters ≡ []
      → ((id : Text) (l : Lease)
          → lookup id s.leases.leases ≡ some l
          → is_active l.state ≡ true
          → eq_text l.session_id u.id ≡ true
          → mem_text id w.lease_order ≡ true)
      → IsCleared u.id n
  unfolding terminate is_terminal
  terminate-IsCleared found idle covered = record {
    ended = (
      stopped_record w.now u,
      ground
          (arith, lookup-end_session s.sessions u.id reason w.now u.id u found, eq_text_refl u.id),
      refl,
    );
    no_lease = λ id l e own.
        release_all_clears s.leases u.id w.lease_order w.now w.save_ok id l v.leases idle covered e
          own;
    no_waiter = owned_waiters-release_all s.leases u.id w.lease_order w.now w.save_ok;
    no_port = λ port a e. (port_left s.ports u.id port a v.ports e).1;
    no_run = λ id r e own. run_over s.runs u.id reason w.now w.duration id r v.runs e own;
  }

  terminate-IsSpared :
      (k : Text) → eq_text u.id k ≡ false → eq_text u.id [] ≡ false → IsSpared k s n
  unfolding terminate
  terminate-IsSpared k other named = record {
    same_session = λ x e. ground (arith, lookup-end_session s.sessions u.id reason w.now k x e);
    same_lease = λ id l e own. ground (
      arith,
      own,
      lookup-release_all s.leases u.id w.lease_order w.now w.save_ok id l v.leases e,
      eq_text_iff l.session_id u.id,
      eq_text_iff u.id k,
    );
    same_port = λ port a e own.
        port_kept s.ports u.id port a v.ports e
          (ground (arith, own, eq_text_iff a.session_id u.id, eq_text_iff u.id k));
    same_run = λ id r e own. ground (
      arith,
      own,
      run_after s.runs u.id reason w.now w.duration id r v.runs e,
      eq_text_iff r.session_id u.id,
      eq_text_iff u.id k,
    );
  }

-- TerminateSession, by the id or the name of a session that has not ended, leaves the session ended, without
-- an active lease, a place in a queue, a port or an unfinished run, if every manager is valid, the session
-- waits in no queue, and the range over the leases visits its active ones.
pub terminate_session-IsCleared :
    (s : Service) (key reason : Text) (w : Ending) (u : Session)
    → IsValid s
    → get_session s key ≡ some u
    → is_terminal u.state ≡ false
    → owned_waiters u.id s.leases.waiters ≡ []
    → ((id : Text) (l : Lease)
        → lookup id s.leases.leases ≡ some l
        → is_active l.state ≡ true
        → eq_text l.session_id u.id ≡ true
        → mem_text id w.lease_order ≡ true)
    → IsCleared u.id (terminate_session s key reason w).0
terminate_session-IsCleared s key reason w u v found alive idle covered =
    subst (IsCleared u.id) (sym (terminate_alive s key reason w u found alive))
      (terminate-IsCleared s u reason w v (get_session_found s key u v.sessions found) idle covered)

-- TerminateSession, whether or not the session has ended already, leaves the record, the leases, the ports and
-- the runs of every other session as they were, if every manager is valid and the id is not empty.
pub terminate_session-IsSpared :
    (s : Service) (key reason : Text) (w : Ending) (u : Session) (k : Text)
    → IsValid s
    → get_session s key ≡ some u
    → u.id ≢ k
    → u.id ≢ []
    → IsSpared k s (terminate_session s key reason w).0
unfolding terminate_session
terminate_session-IsSpared s key reason w u k v found other named =
    elim (Bool-cases (is_terminal u.state)) [
      | inl over ↦ rw (found, terminate_session, over) (IsSpared-refl k s)
      | inr alive ↦
          rw (found, terminate_session, alive)
            (terminate-IsSpared s u reason w v k (ground (arith, eq_text_iff u.id k))
              (ground (arith, eq_text_iff u.id [])))
    ]
