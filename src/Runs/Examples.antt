-- ===== src/Runs/Examples.antt =====
-- The run records of internal/runs/runs.go at one disk and one log.
use agent_runtime_harness.Prelude.{
  ◌≡◌, ◌<◌, refl, Text, text, some, none, List, [], ◌∷◌, ◌++◌, lookup, All, arith,
}
use agent_runtime_harness.Model.{Run, RunStatus}
use agent_runtime_harness.Runs.{new, run_id, scan_run_seq, DirEntry, restore_from_disk}
use agent_runtime_harness.Runs.Numbering.{IsOwn, IsAvoided, restore_from_disk_fresh}

abbrev third : Run
third = record {
  id = run_id 3;
  session_id = text "sess-000001";
  tool_id = text "go";
  tool_type = text "command";
  command = text "test";
  args = [];
  status = RunStatus.succeeded;
  started_at = 10;
  finished_at = some 20;
  duration_ms = 0;
  exit_code = some 0;
  dir = text "/runs/run-000003";
  leases = [];
  env = [];
  error = [];
  pid = 77;
  proc_start_time = 9;
  attempt = 1;
}

abbrev disk : List DirEntry
disk = (text "tmp", none) ∷ (run_id 3, some third) ∷ []

disk-All : All IsOwn disk
disk-All = (tt, ((3, omega arith, refl, refl), tt))

after_third : (restore_from_disk disk (new (text "/runs"))).seq < 4
unfolding restore_from_disk new run_id
after_third = omega arith

restore_from_disk_fresh_example :
    All (IsAvoided 4) disk
    × (lookup (run_id 4) (restore_from_disk disk (new (text "/runs"))).by_id ≡ none)
restore_from_disk_fresh_example = restore_from_disk_fresh (text "/runs") disk 4 disk-All after_third

-- The id of the run number one million is read back as one hundred thousand.
scan_run_seq_million : scan_run_seq (run_id 1000000) ≡ 100000
unfolding scan_run_seq run_id
scan_run_seq_million = refl

abbrev log : Text
log = text "one" ++ 10 ∷ text "two"
