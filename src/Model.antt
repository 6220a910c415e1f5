-- ===== src/Model.antt =====
-- internal/model/model.go: the data that the components share. A time is a number of nanoseconds,
-- and 0 is the zero time; a Go string is a Text; a pointer that may be nil is an Option.
use agent_runtime_harness.Prelude.{ℕ, Text, Option, Bool, true, false, List, Map}

pub data SessionState : Type 0 where
  created preparing ready running stopping stopped failed : SessionState

-- SessionState.Terminal
unfoldable pub is_terminal : SessionState → Bool
is_terminal stopped = true
is_terminal failed = true
is_terminal _ = false

pub record Session : Type 0 where
  pub id : Text
  pub name : Text
  pub owner : Text
  pub workspace_id : Text
  pub workspace_dir : Text
  pub state : SessionState
  pub created_at : ℕ
  pub started_at : Option ℕ
  pub stopped_at : Option ℕ
  pub failure : Text
  pub home_dir : Text
  pub temp_dir : Text
  pub runtime_dir : Text

-- A mode is a string: the three constants, or another text that a configuration wrote.
pub data LeaseMode : Type 0 where
  exclusive shared capacity : LeaseMode
  other : Text → LeaseMode

pub record Resource : Type 0 where
  pub id : Text
  pub mode : LeaseMode
  pub capacity : ℕ
  pub provider : Text
  pub meta : Map Text

pub data LeaseState : Type 0 where
  leased released expired : LeaseState

unfoldable pub is_active : LeaseState → Bool
is_active leased = true
is_active _ = false

pub record Lease : Type 0 where
  pub id : Text
  pub resource_id : Text
  pub session_id : Text
  pub created_at : ℕ
  pub expires_at : ℕ
  pub state : LeaseState
  pub released_at : Option ℕ

pub data RunStatus : Type 0 where
  waiting_resources queued running succeeded failed timeout killed error : RunStatus

-- RunStatus.Terminal
unfoldable pub is_finished : RunStatus → Bool
is_finished RunStatus.succeeded = true
is_finished RunStatus.failed = true
is_finished RunStatus.timeout = true
is_finished RunStatus.killed = true
is_finished RunStatus.error = true
is_finished _ = false

pub record Tool : Type 0 where
  pub id : Text
  pub kind : Text
  pub version : Text
  pub executable : Text
  pub version_command : List Text
  pub args : List Text
  pub env : Map Text
  pub capabilities : List Text
  pub source : Text
  pub disabled : Bool
  pub meta : Map Text

-- The fields of a run that the run manager touches, and those that it stores.
pub record Run : Type 0 where
  pub id : Text
  pub session_id : Text
  pub tool_id : Text
  pub tool_type : Text
  pub command : Text
  pub args : List Text
  pub status : RunStatus
  pub started_at : ℕ
  pub finished_at : Option ℕ
  pub duration_ms : ℕ
  pub exit_code : Option ℕ
  pub dir : Text
  pub leases : List Text
  pub env : Map Text
  pub error : Text
  pub pid : ℕ
  pub proc_start_time : ℕ
  pub attempt : ℕ

pub record Workspace : Type 0 where
  pub id : Text
  pub name : Text
  pub repo : Text
  pub branch : Text
  pub path : Text
  pub created_at : ℕ
  pub last_session_id : Text
  pub plain : Bool
