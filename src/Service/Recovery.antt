-- ===== src/Service/Recovery.antt =====
-- internal/daemon/service.go: Recover, collectPreviousProcs and Shutdown. The files that the managers read
-- at the start, and the order of each range, are arguments.
use agent_runtime_harness.Prelude.{
  ℕ, ◌==◌, Text, text, Option, none, some, Bool, false, not, List, [], ◌∷◌, map, keep,
  if◌then◌else◌, mem_text,
}
use agent_runtime_harness.Model.{Session, SessionState, is_terminal, Run, Workspace}
use agent_runtime_harness.Leases
use agent_runtime_harness.Leases.Startup.{restore_from_store}
use agent_runtime_harness.Leases.Endings.{release_all, reap_orphans}
use agent_runtime_harness.Ports
use agent_runtime_harness.Sessions
use agent_runtime_harness.Workspaces
use agent_runtime_harness.Runs.{DirEntry, list_of, sort_runs, restore_from_disk}
use agent_runtime_harness.Supervisor.{ProcInfo}
use agent_runtime_harness.Supervisor.Reach.{World, kill_session, reconcile_orphans}
use agent_runtime_harness.Service.{Service, Ending, kill_runs, terminate_session}

-- What the managers find on the disk; none is a missing file.
pub record Disk : Type 0 where
  pub leases : Option Leases.State
  pub ports : Option (List Ports.Allocation)
  pub sessions : Option (List Session)
  pub workspaces : Option (List Workspace)
  pub runs : List DirEntry

-- The five restores at the head of Recover.
unfoldable pub reload : Disk → Service → Service
unfolding restore_from_store Ports.restore Sessions.restore Workspaces.restore restore_from_disk
reload d s = record s {
  leases = restore_from_store d.leases s.leases;
  ports = elim d.ports [ none ↦ s.ports | some l ↦ Ports.restore l s.ports ];
  sessions = elim d.sessions [ none ↦ s.sessions | some l ↦ Sessions.restore l s.sessions ];
  workspaces = elim d.workspaces [
    | none ↦ s.workspaces
    | some l ↦ Workspaces.restore l s.workspaces
  ];
  runs = restore_from_disk d.runs s.runs;
}

abbrev pub restart_reason : Text
restart_reason = text "daemon restart: session interrupted"

-- One round of the loop over the sessions: an interrupted one is finalized.
unfoldable pub interrupt : Ending → Service → Session → Service
unfolding is_terminal kill_session release_all Ports.release_by_session Sessions.finish
interrupt w s u = if is_terminal u.state then s else record s {
  supervisor = (kill_session s.supervisor u.id w.before w.after).0;
  leases = release_all s.leases u.id w.lease_order w.now w.save_ok;
  ports = (Ports.release_by_session s.ports u.id).0;
  sessions = Sessions.finish s.sessions u.id SessionState.stopped restart_reason w.now;
  removed_dirs = u.runtime_dir ∷ s.removed_dirs;
}

-- The loop: what each round finds of the clock, the processes and the order of the range is an own argument, by
-- the id of the session.
unfoldable pub interrupt_all : (Text → Ending) → Service → List Session → Service
unfolding interrupt
interrupt_all at_round s [] = s
interrupt_all at_round s (u ∷ us) = interrupt_all at_round (interrupt (at_round u.id) s u) us

-- collectPreviousProcs
unfoldable previous_proc : Run → ProcInfo
previous_proc r = record {
  pid = r.pid;
  start_time = r.proc_start_time;
  exe = r.tool_id;
  cmdline = [];
  session_id = r.session_id;
  run_id = [];
  label = [];
  started_at = 0;
  exited_at = none;
  exit_code = none;
  killed = false;
  kill_reason = [];
  cmd_hash = r.id;
}

unfoldable previous_procs : List Run → List ProcInfo
unfolding previous_proc
previous_procs rs = map previous_proc (keep (λ r. not (r.pid == 0)) rs)

-- The ids of the sessions, and of those that live.
unfoldable pub all_ids : List Session → List Text
all_ids us = map (λ u. u.id) us

unfoldable live_ids : List Session → List Text
unfolding is_terminal all_ids
live_ids us = all_ids (keep (λ u. not (is_terminal u.state)) us)

-- Recover, if every file is missing or can be read: the state it leaves, and the pids that ReconcileOrphans
-- reaps. The files of the ports and the sessions that Persist writes are no part of the state.
unfoldable pub recover :
    Disk → (Text → Ending) → Ending → (ℕ → Bool) → World → Service → Service × List ℕ
unfolding reload interrupt_all Sessions.list_sessions Leases.save live_ids all_ids previous_procs
    reconcile_orphans reap_orphans Ports.reap_orphans kill_runs sort_runs list_of mem_text
recover d at_round w kill_ok world s0 =
    let s1 = reload d s0 in
    let s = interrupt_all at_round s1 (Sessions.list_sessions s1.sessions) in
    let us = Sessions.list_sessions s.sessions in
    (
      record s {
        leases = Leases.save w.save_ok (
            reap_orphans s.leases (λ sid. mem_text sid (all_ids us)) w.lease_order w.now w.save_ok);
        ports = (Ports.reap_orphans s.ports (all_ids us)).0;
        runs =
            kill_runs s.runs (sort_runs (list_of s.runs [])) (text "daemon restart") w.now
              w.duration;
      },
      reconcile_orphans kill_ok (λ sid. mem_text sid (live_ids us)) world
          (previous_procs (sort_runs (list_of s.runs []))),
    )

-- The loop of Shutdown.
unfoldable stop_all : (Text → Ending) → Service → List Session → Service
unfolding is_terminal terminate_session
stop_all at_round s [] = s
stop_all at_round s (u ∷ us) =
    stop_all at_round
      (if is_terminal u.state
        then s
        else (terminate_session s u.id (text "daemon shutdown") (at_round u.id)).0)
      us

-- Shutdown: the list is taken at its start.
unfoldable pub shutdown : (Text → Ending) → Service → Service
unfolding stop_all Sessions.list_sessions
shutdown at_round s = stop_all at_round s (Sessions.list_sessions s.sessions)
