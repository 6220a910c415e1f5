-- ===== src/Supervisor/Examples.antt =====
-- Runs of internal/supervisor/supervisor.go, and its theorems at them.
use agent_runtime_harness.Prelude.{
  ℕ, ◌==◌, ◌≡◌, ◌≢◌, ◌↔◌, refl, Text, text, eq_text, some, true, false, List, [], ◌∷◌, lookup,
}
use agent_runtime_harness.Supervisor.{
  ProcInfo, Supervisor, new, LaunchOptions, Start, set_of, new_record,
}
use agent_runtime_harness.Supervisor.Reach.{World, kill_session, mem_nat, orphans}
use agent_runtime_harness.Supervisor.Pairing.{
  Event, launches, exits, run_events, IsValid, new-IsValid, run_events-IsValid,
}
use agent_runtime_harness.Supervisor.Kills.{first_of, orphans_exact}

abbrev options : Text → LaunchOptions
options sid = record {
  session_id = sid;
  run_id = text "run-000001";
  label = text "build";
  exe = text "/bin/sleep";
  args = text "60" ∷ [];
}

abbrev start : ℕ → ℕ → Start
start pid identity = record {
  stdout_ok = true;
  stderr_ok = true;
  process = some (pid, identity, 7);
  cmd_hash = text "00";
}

-- Two sessions start a process each, and one more ends.
abbrev events : List Event
events =
    launches (options (text "sess-000001")) (start 100 5)
    ∷ launches (options (text "sess-000002")) (start 101 6)
    ∷ launches (options (text "sess-000001")) (start 102 8)
    ∷ exits (text "sess-000001") 102
    ∷ []

abbrev busy : Supervisor
busy = run_events new events

run_events-IsValid_example : IsValid busy
run_events-IsValid_example = run_events-IsValid new events new-IsValid

-- The pid 100 is still the process that was started.
abbrev world : World
world = record { exists = λ pid. pid == 100; identity = λ pid. 5 }

abbrev gone : World
gone = record { exists = λ pid. false; identity = λ pid. 0 }

abbrev first : ProcInfo
first = new_record (options (text "sess-000001")) (text "00") 100 5 7

killed_first : (kill_session busy (text "sess-000001") world gone).1.killed ≡ 100 ∷ []
unfolding run_events new kill_session set_of lookup eq_text
killed_first = refl

orphans_exact_example : (mem_nat 100 (orphans (λ sid. false) world (first ∷ [])) ≡ true) ↔ (
    (r : ProcInfo) × (first_of 100 (first ∷ []) ≡ some r)
    × (false ≡ false)
    × (r.start_time ≢ 0)
    × (world.exists r.pid ≡ true)
    × (world.identity r.pid ≡ r.start_time)
    × (r.pid ≢ 0))
orphans_exact_example = orphans_exact (λ sid. false) world (first ∷ []) 100

reaped : orphans (λ sid. false) world (first ∷ []) ≡ 100 ∷ []
unfolding orphans new_record
reaped = refl

-- A record without a start time, as LaunchDetached leaves it in a run, is never reaped.
abbrev detached : ProcInfo
detached = record first { start_time = 0 }

not_reaped : orphans (λ sid. false) world (detached ∷ []) ≡ []
unfolding orphans new_record
not_reaped = refl

-- The first record of a pid decides: here it hides the process that now has the pid.
hidden : orphans (λ sid. false) world (record first { start_time = 3 } ∷ first ∷ []) ≡ []
unfolding orphans new_record
hidden = refl
