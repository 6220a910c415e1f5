-- ===== src/Supervisor/Reach.antt =====
-- internal/supervisor/supervisor.go: the kills of a session and of a run, the counts, and ReconcileOrphans.
use agent_runtime_harness.Prelude.{
  ℕ, ◌==◌, Text, text, eq_text, Bool, true, false, not, ◌&&◌, ◌||◌, List, [], ◌∷◌, ◌++◌, map, keep,
  length, if◌then◌else◌,
}
use agent_runtime_harness.Supervisor.{ProcInfo, Set, Supervisor, mark_killed, set_of}

-- The system's view of the pids at one time: processExists and ProcessIdentity.
pub record World : Type 0 where
  pub exists : ℕ → Bool
  pub identity : ℕ → ℕ

-- AliveWithIdentity
unfoldable pub alive_with_identity : World → ℕ → ℕ → Bool
alive_with_identity w pid start_time =
    if pid == 0
    then false
    else if not (w.exists pid)
    then false
    else if start_time == 0
    then true
    else w.identity pid == start_time

-- The pids of the set that are alive with their identity, in the order of the range.
unfoldable pub live_pids : World → Set → List ℕ
unfolding alive_with_identity
live_pids w [] = []
live_pids w ((pid, i) ∷ t) =
    let rest = live_pids w t in
    if alive_with_identity w i.pid i.start_time then i.pid ∷ rest else rest

unfoldable pub mark_all : Supervisor → Text → List ℕ → Supervisor
unfolding mark_killed
mark_all s sid [] = s
mark_all s sid (pid ∷ pids) = mark_all (mark_killed s sid pid (text "session kill")) sid pids

-- Final sweep for stragglers: the identity 0 asks whether the pid exists.
unfoldable pub stragglers : World → List ℕ → List ℕ
unfolding alive_with_identity
stragglers w [] = []
stragglers w (pid ∷ pids) =
    let rest = stragglers w pids in if alive_with_identity w pid 0 then pid ∷ rest else rest

-- What KillSession returns, and the pids of its calls of KillTree, in order.
pub record Killing : Type 0 where
  pub killed : List ℕ
  pub kill_tree_calls : List ℕ

-- KillSession, with the system before the kills and after the grace.
unfoldable pub kill_session : Supervisor → Text → World → World → Supervisor × Killing
unfolding live_pids mark_all stragglers set_of
kill_session s sid before after =
    let pids = live_pids before (set_of sid s.sets) in
    (mark_all s sid pids, record { killed = pids; kill_tree_calls = pids ++ stragglers after pids })

-- LiveCount
unfoldable pub live_count : Supervisor → Text → World → ℕ
unfolding live_pids set_of
live_count s sid w = length (live_pids w (set_of sid s.sets))

-- List and Snapshot
unfoldable pub list : Supervisor → List ProcInfo
list s = map (λ e. e.1) s.recs

-- SessionProcs
unfoldable pub session_procs : Supervisor → Text → List ProcInfo
unfolding list eq_text
session_procs s sid = keep (λ r. eq_text r.session_id sid) (list s)

-- The targets of KillRun.
unfoldable pub run_procs : Supervisor → Text → List ProcInfo
unfolding list eq_text
run_procs s run_id = keep (λ r. eq_text r.run_id run_id) (list s)

unfoldable pub mark_procs : Supervisor → List ProcInfo → Supervisor
unfolding mark_killed
mark_procs s [] = s
mark_procs s (r ∷ rs) = mark_procs (mark_killed s r.session_id r.pid (text "run kill")) rs

-- KillRun: KillTree is called for each of the pids, which are returned whether or not it fails.
unfoldable pub kill_run : Supervisor → Text → Supervisor × List ℕ
unfolding run_procs mark_procs
kill_run s run_id =
    let targets = run_procs s run_id in (mark_procs s targets, map (λ r. r.pid) targets)

unfoldable pub mem_nat : ℕ → List ℕ → Bool
mem_nat n [] = false
mem_nat n (x ∷ xs) = x == n || mem_nat n xs

-- The tests of ReconcileOrphans on the first record of a pid.
unfoldable pub is_orphan : (Text → Bool) → World → ProcInfo → Bool
unfolding alive_with_identity
is_orphan live w r =
    not (live r.session_id) && not (r.start_time == 0) && alive_with_identity w r.pid r.start_time

-- The loop of ReconcileOrphans: the pids of its calls of KillTree, from the pids that it has seen.
unfoldable pub orphans_from : List ℕ → (Text → Bool) → World → List ProcInfo → List ℕ
unfolding mem_nat is_orphan
orphans_from seen live w [] = []
orphans_from seen live w (r ∷ rs) =
    let again = orphans_from seen live w rs in
    let rest = orphans_from (r.pid ∷ seen) live w rs in
    if mem_nat r.pid seen then again else if is_orphan live w r then r.pid ∷ rest else rest

unfoldable pub orphans : (Text → Bool) → World → List ProcInfo → List ℕ
unfolding orphans_from
orphans = orphans_from []

-- ReconcileOrphans: the pids whose KillTree did not fail.
unfoldable pub reconcile_orphans : (ℕ → Bool) → (Text → Bool) → World → List ProcInfo → List ℕ
unfolding orphans
reconcile_orphans kill_ok live w prev = keep kill_ok (orphans live w prev)
