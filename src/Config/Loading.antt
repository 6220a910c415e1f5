-- ===== src/Config/Loading.antt =====
-- internal/config/config.go: Validate, Load and StatePath. The contents of the file and the YAML library are
-- arguments.
use agent_runtime_harness.Prelude.{
  Text, text, eq_text, Option, none, some, not, ◌&&◌, ◌||◌, [], ◌∷◌, ◌++◌, Map, if◌then◌else◌,
}
use agent_runtime_harness.Config.{
  Config, Platform, ResourceConfig, ToolConfig, default, is_not_positive, normalize,
}

pub data ConfigError : Type 0 where
  no_capacity : Text → ConfigError
  unknown_mode : Text → ConfigError
  no_type : Text → ConfigError
  no_executable : Text → ConfigError
  not_readable : ConfigError
  not_parsed : ConfigError

-- The switch of Validate.
unfoldable pub resource_error : Text → ResourceConfig → Option ConfigError
unfolding is_not_positive eq_text
resource_error id r =
    if eq_text r.mode (text "exclusive") || eq_text r.mode (text "shared")
    then none
    else if eq_text r.mode (text "capacity")
    then (if is_not_positive r.capacity then some (no_capacity id) else none)
    else some (unknown_mode id)

unfoldable pub tool_error : Text → ToolConfig → Option ConfigError
unfolding eq_text
tool_error id t =
    if eq_text t.kind []
    then some (no_type id)
    else if eq_text t.executable []
        && not (eq_text t.kind (text "unity"))
        && not (eq_text t.kind (text "android"))
    then some (no_executable id)
    else none

-- A range over a map that returns the first error; Go fixes no order, here it is that of the list.
unfoldable pub first_error {ℓ} :
    {V : Type ℓ} → (Text → V → Option ConfigError) → Map V → Option ConfigError
first_error check [] = none
first_error check ((id, v) ∷ m) =
    let rest = first_error check m in elim (check id v) [ none ↦ rest | some e ↦ some e ]

-- Validate; none is the nil error.
unfoldable pub validate : Config → Option ConfigError
unfolding first_error resource_error tool_error
validate c = elim (first_error resource_error c.resources) [
  | some e ↦ some e
  | none ↦ first_error tool_error c.tools
]

-- What os.ReadFile gives.
pub data File : Type 0 where
  missing : File
  unreadable : File
  contents : Text → File

pub data LoadResult : Type 0 where
  loaded : Config → LoadResult
  failed : ConfigError → LoadResult

-- Load after the file is read.
unfoldable pub load_file : Platform → (Text → Config → Option Config) → File → LoadResult
unfolding default normalize validate
load_file p unmarshal missing = loaded (default p)
load_file p unmarshal unreadable = failed not_readable
load_file p unmarshal (contents s) = elim (unmarshal s (default p)) [
  | none ↦ failed not_parsed
  | some c ↦ elim (validate (normalize p c)) [ some e ↦ failed e | none ↦ loaded (normalize p c) ]
]

-- Load, with yaml.Unmarshal over the configuration that it is given.
unfoldable pub load : Platform → (Text → Config → Option Config) → Text → (Text → File) → LoadResult
unfolding default load_file eq_text
load p unmarshal path read_file =
    if eq_text path [] then loaded (default p) else load_file p unmarshal (read_file path)

-- RunsDir, SessionsDir, LogsDir and SocketPath, by the last element; the state directory is clean.
unfoldable pub state_path : Config → Text → Text
state_path c name = c.runtime.state_dir ++ b'/' ∷ name
