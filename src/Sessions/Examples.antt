-- ===== src/Sessions/Examples.antt =====
-- Runs of the session manager of internal/session/manager.go, and its theorems at them.
use agent_runtime_harness.Prelude.{
  ℕ, ◌≡◌, ◌<◌, refl, text, eq_text, some, true, List, [], ◌∷◌, lookup,
}
use agent_runtime_harness.Model.{Session, SessionState, is_terminal}
use agent_runtime_harness.Sessions.{
  Manager, new, CreateOptions, live_count, mark_stopping, snapshot, restore,
}
use agent_runtime_harness.Sessions.Invariant.{IsValid, new-IsValid}
use agent_runtime_harness.Sessions.Lifecycle.{
  Call, creates, starts, stops, finishes, step, run_history, run_history-IsValid, AreGuarded,
  Change,
}
use agent_runtime_harness.Sessions.Changes.{step-Change}
use agent_runtime_harness.Sessions.Restart.{restore-snapshot-IsValid, mark_stopping_revives}

abbrev options : CreateOptions
options = record {
  owner = text "agent";
  name = text "build";
  workspace_id = [];
  workspace_dir = text "/work";
}

abbrev empty : Manager
empty = new 1 (text "/var/arh/sessions")

-- A session runs and is ended.
abbrev ended : List (ℕ × Call)
ended =
    (10, creates options true true true)
    ∷ (11, starts (text "sess-000001"))
    ∷ (12, finishes (text "sess-000001") SessionState.stopped [])
    ∷ []

-- Another one takes its place.
abbrev replaced : List (ℕ × Call)
replaced = (13, creates options true true true) ∷ []

ended-AreGuarded : AreGuarded empty ended
ended-AreGuarded = (tt, (tt, (tt, tt)))

run_history-IsValid_example : IsValid (run_history empty ended)
run_history-IsValid_example =
    run_history-IsValid empty ended ended-AreGuarded (new-IsValid 1 (text "/var/arh/sessions"))

abbrev full : Manager
full = run_history (run_history empty ended) replaced

full-IsValid : IsValid full
full-IsValid =
    run_history-IsValid (run_history empty ended) replaced (tt, tt) run_history-IsValid_example

abbrev first : Session
first = record {
  id = text "sess-000001";
  name = text "build";
  owner = text "agent";
  workspace_id = [];
  workspace_dir = text "/work";
  state = SessionState.stopped;
  created_at = 10;
  started_at = some 11;
  stopped_at = some 12;
  failure = [];
  home_dir = text "/var/arh/sessions/sess-000001/home";
  temp_dir = text "/var/arh/sessions/sess-000001/tmp";
  runtime_dir = text "/var/arh/sessions/sess-000001";
}

lookup-full : lookup (text "sess-000001") full.sessions ≡ some first
unfolding run_history new lookup eq_text
lookup-full = refl

live_count-full : live_count full.sessions ≡ full.max_sessions
unfolding run_history new live_count eq_text
live_count-full = refl

mark_stopping_revives_example :
    full.max_sessions < live_count (mark_stopping full (text "sess-000001")).sessions
unfolding is_terminal
mark_stopping_revives_example =
    mark_stopping_revives full (text "sess-000001") first lookup-full refl live_count-full

revived :
    lookup (text "sess-000001") (step full (14, stops (text "sess-000001"))).sessions
    ≡ some (record first { state = SessionState.stopping })
unfolding step run_history new lookup eq_text
revived = refl

step-Change_example : Change first (record first { state = SessionState.stopping })
step-Change_example =
    step-Change full (14, stops (text "sess-000001")) (text "sess-000001") first
      (record first { state = SessionState.stopping }) full-IsValid lookup-full revived

same_limit : empty.max_sessions ≡ full.max_sessions
unfolding run_history new eq_text
same_limit = refl

restore-snapshot-IsValid_example :
    ((restore (snapshot full) empty).sessions ≡ full.sessions)
    × IsValid (restore (snapshot full) empty)
restore-snapshot-IsValid_example = restore-snapshot-IsValid full empty full-IsValid same_limit
