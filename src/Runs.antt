-- ===== src/Runs.antt =====
-- internal/runs/runs.go: the run records. The clock, the outcome of os.MkdirAll, and what the scan of the
-- runs directory finds are arguments; the metadata file is written after each section. An exit code is
-- its 64-bit pattern.
pub mod Numbering
pub mod Invariant
pub mod Logs
mod Examples
use agent_runtime_harness.Prelude.{
  ℕ, zero, suc, ◌+◌, ◌==◌, ltb, ◌-◌, length, Text, text, eq_text, has_prefix, trim_prefix, Option,
  none, some, Bool, true, false, not, ◌&&◌, ◌||◌, List, [], ◌∷◌, ◌++◌, keep, map, Map, lookup,
  insert, if◌then◌else◌,
}
use agent_runtime_harness.Model.{Run, RunStatus}
use agent_runtime_harness.Ids.{format, scan_digits}

pub record Manager : Type 0 where
  pub by_id : Map Run
  pub root : Text
  pub seq : ℕ

-- New
unfoldable pub new : Text → Manager
new root = record { by_id = []; root = root; seq = 0 }

-- "run-%06d" in Sprintf
unfoldable pub run_id : ℕ → Text
unfolding format
run_id n = text "run-" ++ format 10 6 n

unfoldable pub first_bytes : ℕ → Text → Text
first_bytes zero s = []
first_bytes (suc n) [] = []
first_bytes (suc n) (c ∷ s) = c ∷ first_bytes n s

-- "run-%06d" in Sscanf, whose width is a limit: at most six digits are read.
unfoldable pub scan_run_seq : Text → ℕ
unfolding scan_digits first_bytes has_prefix trim_prefix
scan_run_seq name =
    if has_prefix name (text "run-")
    then scan_digits 10 0 (first_bytes 6 (trim_prefix name (text "run-")))
    else 0

unfoldable pub new_record : Manager → Text → Text → Text → Text → ℕ → Run
unfolding run_id
new_record m sid tool_id tool_type command now = record {
  id = run_id (suc m.seq);
  session_id = sid;
  tool_id = tool_id;
  tool_type = tool_type;
  command = command;
  args = [];
  status = RunStatus.queued;
  started_at = now;
  finished_at = none;
  duration_ms = 0;
  exit_code = none;
  dir = m.root ++ text "/" ++ run_id (suc m.seq);
  leases = [];
  env = [];
  error = [];
  pid = 0;
  proc_start_time = 0;
  attempt = 0;
}

-- NewRun: a failed MkdirAll leaves the number taken.
unfoldable pub new_run : Manager → Text → Text → Text → Text → ℕ → Bool → Manager × Option Run
unfolding new_record insert
new_run m sid tool_id tool_type command now dir_ok =
    let r = new_record m sid tool_id tool_type command now in
    if dir_ok
    then (record m { seq = suc m.seq; by_id = insert r.id r m.by_id }, some r)
    else (record m { seq = suc m.seq }, none)

-- Update
unfoldable pub update : Manager → Text → (Run → Run) → Manager
unfolding lookup insert
update m id fn = elim (lookup id m.by_id) [
  | none ↦ m
  | some r ↦ record m { by_id = insert id (fn r) m.by_id }
]

-- The function that Finish applies; the milliseconds since StartedAt are the clock's.
unfoldable pub finished : RunStatus → Option ℕ → Text → ℕ → ℕ → Run → Run
unfolding eq_text
finished status exit_code message now duration r = record r {
  finished_at = some now;
  status = status;
  exit_code = exit_code;
  duration_ms = duration;
  error = if not (eq_text message []) then message else r.error;
}

-- Finish
unfoldable pub finish : Manager → Text → RunStatus → Option ℕ → Text → ℕ → ℕ → Manager
unfolding update finished
finish m id status exit_code message now duration =
    update m id (finished status exit_code message now duration)

-- List before its sort by StartedAt, which `sort_runs` is.
unfoldable pub list_of : Manager → Text → List Run
unfolding eq_text
list_of m sid = keep (λ r. eq_text sid [] || eq_text r.session_id sid) (map (λ e. e.1) m.by_id)

-- sort.Slice by StartedAt, the latest first, by insertion; it fixes no order of runs of the same time.
unfoldable pub insert_by_start : Run → List Run → List Run
insert_by_start r [] = r ∷ []
insert_by_start r (q ∷ rs) =
    let rest = q ∷ insert_by_start r rs in
    if ltb r.started_at q.started_at then rest else r ∷ q ∷ rs

unfoldable pub sort_runs : List Run → List Run
unfolding insert_by_start
sort_runs [] = []
sort_runs (r ∷ rs) = insert_by_start r (sort_runs rs)

-- One entry of the directory: its name, and the record of its metadata.json if it is a directory with a
-- file that can be read and parsed.
abbrev pub DirEntry : Type 0
DirEntry = Text × Option Run

unfoldable pub restore_entry : DirEntry → Manager → Manager
unfolding scan_run_seq insert eq_text
restore_entry (name, none) m = m
restore_entry (name, some r) m =
    let r' = (if eq_text r.dir [] then record r { dir = m.root ++ text "/" ++ name } else r) in
    record m {
      seq = if ltb m.seq (scan_run_seq name) then scan_run_seq name else m.seq;
      by_id = insert r.id r' m.by_id;
    }

-- RestoreFromDisk
unfoldable pub restore_from_disk : List DirEntry → Manager → Manager
unfolding restore_entry
restore_from_disk [] m = m
restore_from_disk (e ∷ entries) m = restore_from_disk entries (restore_entry e m)

-- splitLines, after the bytes of the line that is being read
unfoldable pub lines_from : Text → Text → List Text
lines_from line [] = line ∷ []
lines_from line (c ∷ s) =
    let next = line ∷ lines_from [] s in
    let along = lines_from (line ++ c ∷ []) s in if c == 10 then next else along

-- splitLines
unfoldable pub split_lines : Text → List Text
unfolding lines_from
split_lines s = lines_from [] s

-- joinLines
unfoldable pub join_lines : List Text → Text
join_lines [] = []
join_lines (l ∷ []) = l
join_lines (l ∷ k ∷ ls) = l ++ 10 ∷ join_lines (k ∷ ls)

unfoldable pub drop_lines : ℕ → List Text → List Text
drop_lines zero ls = ls
drop_lines (suc n) [] = []
drop_lines (suc n) (l ∷ ls) = drop_lines n ls

-- ReadLog after the file is read; a tail that is not positive is 0.
unfoldable pub read_log : Text → ℕ → Text
unfolding split_lines join_lines drop_lines
read_log contents tail =
    let n = (if tail == 0 then 200 else tail) in
    let ls = split_lines contents in join_lines (drop_lines (length ls - n) ls)
