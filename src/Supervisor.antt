-- ===== src/Supervisor.antt =====
-- internal/supervisor/supervisor.go, with the process sets of internal/proc/proc.go: who owns which
-- process, and what ends it. What the operating system answers (the pid and the start time of a new
-- process, which pids exist with which start time, whether a kill fails) is an argument. A section under the
-- mutex is one definition. Output files are opened by `open_files`, whose answer is an argument too.
pub mod Keys
pub mod Reach
pub mod Pairing
pub mod Kills
mod Examples
use agent_runtime_harness.Prelude.{
  ℕ, ◌==◌, Text, text, eq_text, Option, none, some, Bool, true, false, not, ◌&&◌, ◌||◌, List, [],
  ◌∷◌, ◌++◌, map, keep, length, Map, lookup, insert, delete, Table, find, put, drop_key,
  if◌then◌else◌,
}
use agent_runtime_harness.Ids.{format}

-- proc.Info
pub record Info : Type 0 where
  pub pid : ℕ
  pub start_time : ℕ
  pub exe : Text
  pub cmdline : List Text
  pub session_id : Text
  pub label : Text
  pub started_at : ℕ

-- model.ProcInfo; an exit code is its 64-bit pattern, and hashCmd an argument of Launch.
pub record ProcInfo : Type 0 where
  pub pid : ℕ
  pub start_time : ℕ
  pub exe : Text
  pub cmdline : List Text
  pub session_id : Text
  pub run_id : Text
  pub label : Text
  pub started_at : ℕ
  pub exited_at : Option ℕ
  pub exit_code : Option ℕ
  pub killed : Bool
  pub kill_reason : Text
  pub cmd_hash : Text

-- proc.Set, by pid
abbrev pub Set : Type 0
Set = Table Info

pub record Supervisor : Type 0 where
  pub sets : Map Set
  pub recs : Map ProcInfo

-- New
unfoldable pub new : Supervisor
new = record { sets = []; recs = [] }

-- pkey: "%s/%d"
unfoldable pub pkey : Text → ℕ → Text
unfolding format
pkey sid pid = sid ++ b'/' ∷ format 10 1 pid

-- s.sets[sid]; nil where the session has started nothing, which reads like an empty set.
unfoldable pub set_of : Text → Map Set → Set
unfolding lookup
set_of sid sets = elim (lookup sid sets) [ none ↦ [] | some t ↦ t ]

pub record LaunchOptions : Type 0 where
  pub session_id : Text
  pub run_id : Text
  pub label : Text
  pub exe : Text
  pub args : List Text

-- What the system answers to a Launch: whether the two output files open, and the pid, the start time and
-- the clock of the process if it starts.
pub record Start : Type 0 where
  pub stdout_ok : Bool
  pub stderr_ok : Bool
  pub process : Option (ℕ × ℕ × ℕ)
  pub cmd_hash : Text

pub data LaunchResult : Type 0 where
  launched : ProcInfo → LaunchResult
  no_session : LaunchResult
  no_stdout : LaunchResult
  no_stderr : LaunchResult
  not_started : LaunchResult

unfoldable pub new_record : LaunchOptions → Text → ℕ → ℕ → ℕ → ProcInfo
new_record o cmd_hash pid identity now = record {
  pid = pid;
  start_time = identity;
  exe = o.exe;
  cmdline = o.exe ∷ o.args;
  session_id = o.session_id;
  run_id = o.run_id;
  label = o.label;
  started_at = now;
  exited_at = none;
  exit_code = none;
  killed = false;
  kill_reason = [];
  cmd_hash = cmd_hash;
}

unfoldable pub new_info : LaunchOptions → ℕ → ℕ → ℕ → Info
new_info o pid identity now = record {
  pid = pid;
  start_time = identity;
  exe = o.exe;
  cmdline = o.exe ∷ o.args;
  session_id = o.session_id;
  label = o.label;
  started_at = now;
}

-- The section of Launch: Set.Add, and the record.
unfoldable pub add : LaunchOptions → Text → ℕ → ℕ → ℕ → Supervisor → Supervisor
unfolding set_of new_record new_info pkey insert put
add o cmd_hash pid identity now s = record {
  sets =
      insert o.session_id (put pid (new_info o pid identity now) (set_of o.session_id s.sets))
        s.sets;
  recs = insert (pkey o.session_id pid) (new_record o cmd_hash pid identity now) s.recs;
}

-- Launch
unfoldable pub launch : Supervisor → LaunchOptions → Start → Supervisor × LaunchResult
unfolding add new_record eq_text
launch s o w =
    if eq_text o.session_id (text "")
    then (s, no_session)
    else if not w.stdout_ok
    then (s, no_stdout)
    else if not w.stderr_ok
    then (s, no_stderr)
    else elim w.process [
      | none ↦ (s, not_started)
      | some (pid, identity, now) ↦
          (add o w.cmd_hash pid identity now s, launched (new_record o w.cmd_hash pid identity now))
    ]

-- ExitStatus
pub record ExitStatus : Type 0 where
  pub pid : ℕ
  pub code : Option ℕ
  pub killed : Bool
  pub reason : Text

-- What await reports of a process with this record and this exit code.
unfoldable exit_status : ProcInfo → Option ℕ → ExitStatus
exit_status r code = record {
  pid = r.pid;
  code = code;
  killed = r.killed;
  reason = if r.killed then r.kill_reason else [];
}

-- Set.Remove, where the session has a set.
unfoldable pub drop_proc : Text → ℕ → Map Set → Map Set
unfolding lookup insert drop_key
drop_proc sid pid sets = elim (lookup sid sets) [
  | none ↦ sets
  | some t ↦ insert sid (drop_key pid t) sets
]

-- The section of await: the process leaves both tables.
unfoldable pub exit : Supervisor → Text → ℕ → Supervisor
unfolding drop_proc pkey delete
exit s sid pid = record { sets = drop_proc sid pid s.sets; recs = delete (pkey sid pid) s.recs }

-- markKilled
unfoldable pub mark_killed : Supervisor → Text → ℕ → Text → Supervisor
unfolding pkey lookup insert
mark_killed s sid pid reason = elim (lookup (pkey sid pid) s.recs) [
  | none ↦ s
  | some r ↦ record s {
    recs = insert (pkey sid pid) (record r { killed = true; kill_reason = reason }) s.recs;
  }
]
