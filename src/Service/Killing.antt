-- ===== src/Service/Killing.antt =====
-- What TerminateSession of internal/daemon/service.go leaves of the session's record and of its runs.
use agent_runtime_harness.Prelude.{
  ℕ, ◌≡◌, refl, ◌∙◌, Text, eq_text, eq_text_iff, Option, none, some, Bool, false, not, ◌&&◌, ◌||◌,
  List, [], ◌∷◌, map, keep, Map, lookup, Unique, IsKeyed, IsKeyed-head, IsKeyed-tail, if◌then◌else◌,
  arith, inl, inr, Bool-cases,
}
use agent_runtime_harness.Model.{Session, SessionState, is_terminal, Run, RunStatus, is_finished}
use agent_runtime_harness.Sessions
use agent_runtime_harness.Sessions.{finished}
use agent_runtime_harness.Sessions.Lookups.{lookup-mutate}
use agent_runtime_harness.Runs
use agent_runtime_harness.Runs.Invariant.{lookup-update}
use agent_runtime_harness.Service.{kill_runs, trim_space, trim_owner, end_session}

-- The record of a session that was ended.
abbrev pub stopped_record : ℕ → Session → Session
stopped_record now u = record u {
  owner = trim_space u.owner;
  state = SessionState.stopped;
  stopped_at = some now;
}

pub lookup-end_session :
    (m : Sessions.Manager) (id reason : Text) (now : ℕ) (k : Text) (u : Session)
    → lookup k m.sessions ≡ some u
    → lookup k (end_session m id reason now).sessions
      ≡ some (if eq_text id k then stopped_record now u else u)
unfolding end_session trim_owner Sessions.mark_stopping Sessions.finish finished is_terminal
lookup-end_session m id reason now k u found = ground (
  arith,
  found,
  lookup-mutate m id k (λ v. some (record v { owner = trim_space v.owner })),
  lookup-mutate (trim_owner m id) id k (λ v. some (record v { state = SessionState.stopping })),
  lookup-mutate (Sessions.mark_stopping (trim_owner m id) id) id k
      (finished SessionState.stopped reason now),
)

-- What Finish makes of a run that is killed.
abbrev pub killed_run : Text → ℕ → (Text → ℕ) → Text → Run → Run
killed_run reason now duration k r = Runs.finished RunStatus.killed none reason now (duration k) r

-- Whether the loop finishes the run: it is in the list, and had not ended.
unfoldable pub is_killed : Text → List Run → Bool
unfolding is_finished
is_killed k [] = false
is_killed k (r ∷ rs) = (eq_text r.id k && not (is_finished r.status)) || is_killed k rs

finished_twice :
    (reason : Text) (now : ℕ) (duration : Text → ℕ) (k : Text) (r : Run)
    → killed_run reason now duration k (killed_run reason now duration k r)
      ≡ killed_run reason now duration k r
unfolding Runs.finished
finished_twice reason now duration k r = ground arith

lookup-finish :
    (m : Runs.Manager) (reason : Text) (now : ℕ) (duration : Text → ℕ) (id k : Text) (r : Run)
    → lookup k m.by_id ≡ some r
    → lookup k (Runs.finish m id RunStatus.killed none reason now (duration id)).by_id
      ≡ some (if eq_text id k then killed_run reason now duration k r else r)
unfolding Runs.finish
lookup-finish m reason now duration id k r found = ground (
  arith,
  found,
  eq_text_iff id k,
  lookup-update m id k (Runs.finished RunStatus.killed none reason now (duration id)),
)

-- The loop kills exactly the runs of its list that had not ended.
pub lookup-kill_runs :
    (m : Runs.Manager) (rs : List Run) (reason : Text) (now : ℕ) (duration : Text → ℕ) (k : Text)
    (r : Run)
    → lookup k m.by_id ≡ some r
    → lookup k (kill_runs m rs reason now duration).by_id
      ≡ some (if is_killed k rs then killed_run reason now duration k r else r)
unfolding kill_runs is_killed
lookup-kill_runs m [] reason now duration k r found = ground (arith, found)
lookup-kill_runs m (q ∷ rs) reason now duration k r found =
    elim (Bool-cases (is_finished q.status)) [
      | inl over ↦
          rw (over, kill_runs, is_killed)
            (lookup-kill_runs m rs reason now duration k r found ∙ ground arith)
      | inr going ↦
          let m' = Runs.finish m q.id RunStatus.killed none reason now (duration q.id) in
          let after = lookup-finish m reason now duration q.id k r found in
          elim (Bool-cases (eq_text q.id k)) [
            | inl same ↦
                rw (going, kill_runs, is_killed, same)
                  (lookup-kill_runs m' rs reason now duration k (killed_run reason now duration k r)
                      (ground (arith, after))
                    ∙ ground (arith, finished_twice reason now duration k r))
            | inr other ↦
                rw (going, kill_runs, is_killed, other)
                  (lookup-kill_runs m' rs reason now duration k r (ground (arith, after)))
          ]
    ]

-- What the loop does to a run of a filtered table.
abbrev is_unfinished : (Run → Bool) → Option Run → Bool
is_unfinished p none = false
is_unfinished p (some r) = p r && not (is_finished r.status)

pub is_killed-keep :
    (p : Run → Bool) (m : Map Run) (k : Text)
    → Unique m
    → IsKeyed (λ r. r.id) m
    → is_killed k (keep p (map (λ e. e.1) m)) ≡ is_unfinished p (lookup k m)
unfolding is_killed lookup
is_killed-keep p [] k once keyed = refl
is_killed-keep p ((j, v) ∷ m) k once keyed = ground (
  arith,
  is_killed-keep p m k once.1 (IsKeyed-tail (λ r. r.id) j v m once keyed),
  IsKeyed-head (λ r. r.id) j v m keyed,
  eq_text_iff j k,
  once.0,
)

pub kill_runs_missing :
    (m : Runs.Manager) (rs : List Run) (reason : Text) (now : ℕ) (duration : Text → ℕ) (k : Text)
    → lookup k m.by_id ≡ none
    → lookup k (kill_runs m rs reason now duration).by_id ≡ none
unfolding kill_runs Runs.finish
kill_runs_missing m [] reason now duration k e = e
kill_runs_missing m (q ∷ rs) reason now duration k e = elim (Bool-cases (is_finished q.status)) [
  | inl over ↦ rw (over, kill_runs) (kill_runs_missing m rs reason now duration k e)
  | inr going ↦
      rw (going, kill_runs)
        (kill_runs_missing (Runs.finish m q.id RunStatus.killed none reason now (duration q.id)) rs
          reason now duration k
          (ground (
            arith,
            lookup-update m q.id k (Runs.finished RunStatus.killed none reason now (duration q.id)),
          )))
]
