-- ===== src/Config.antt =====
-- internal/config/config.go: the defaults and Normalize. The home directory and the platform are arguments. An int that the file gives is a ℤ, since a
-- configuration may hold a negative number. A nil slice or map reads like an empty one.
pub mod Normal
pub mod Loading
pub mod Limits
mod Examples
use agent_runtime_harness.Prelude.{
  ℕ, ltb, Text, text, eq_text, Option, none, some, Bool, true, false, not, ◌&&◌, ◌||◌, List, [],
  ◌∷◌, ◌++◌, Map, lookup, insert, if◌then◌else◌,
}
use agent_runtime_harness.Policy.{PolicyRule}

-- An int, with its sign.
pub data ℤ : Type 0 where
  pos : ℕ → ℤ
  negsuc : ℕ → ℤ

-- x <= 0
unfoldable pub is_not_positive : ℤ → Bool
is_not_positive (pos n) = not (ltb 0 n)
is_not_positive (negsuc n) = true

pub record RuntimeConfig : Type 0 where
  pub state_dir : Text
  pub max_sessions : ℤ

pub record DaemonConfig : Type 0 where
  endpoint : Text
  host : Text
  pub port : ℤ
  stop_sessions_on_shutdown : Option Bool

pub record EnvConfig : Type 0 where
  pub isolate_home : Bool
  pub isolate_temp : Bool
  pub isolate_xdg : Bool
  pub inherit : List Text
  pub deny : List Text
  pub set : Map Text
  pub redact : List Text

pub record ToolConfig : Type 0 where
  pub kind : Text
  pub version : Text
  pub executable : Text
  pub version_command : List Text
  pub args : List Text
  pub env : Map Text
  pub capabilities : List Text
  pub disabled : Bool

pub record ResourceConfig : Type 0 where
  pub mode : Text
  pub capacity : ℤ
  pub provider : Text
  pub meta : Map Text

pub record PolicyConfig : Type 0 where
  pub max_processes_per_session : ℤ
  pub max_runtime_minutes : ℤ
  pub max_concurrent_runs : ℤ
  pub rules : List PolicyRule

pub record UnityCacheConfig : Type 0 where
  accelerator_enabled : Bool
  accelerator_host : Text
  shared_package_cache : Text

pub record UnityConfig : Type 0 where
  pub editors : Map Text
  default_version : Text
  pub cache : UnityCacheConfig

pub record Config : Type 0 where
  pub runtime : RuntimeConfig
  pub daemon : DaemonConfig
  pub tools : Map ToolConfig
  pub resources : Map ResourceConfig
  pub environment : EnvConfig
  pub policy : PolicyConfig
  pub unity : Option UnityConfig

-- What the process finds: os.UserHomeDir, and whether runtime.GOOS is "windows".
pub record Platform : Type 0 where
  pub home : Option Text
  pub is_windows : Bool

-- DefaultStateDir; filepath.Join of a clean directory, of which "." vanishes.
unfoldable pub default_state_dir : Platform → Text
default_state_dir p = elim p.home [
  | none ↦ text ".agent-runtime"
  | some home ↦ home ++ text "/.agent-runtime"
]

-- defaultInherit
unfoldable pub default_inherit : Platform → List Text
default_inherit p =
    (text "PATH"
      ∷ text "LANG"
      ∷ text "LC_*"
      ∷ text "TERM"
      ∷ text "TERMINFO"
      ∷ text "SHELL"
      ∷ text "USER"
      ∷ text "LOGNAME"
      ∷ text "HOME_ORIG"
      ∷ [])
    ++ (if p.is_windows
        then text "SYSTEMROOT"
          ∷ text "SYSTEMDRIVE"
          ∷ text "COMSPEC"
          ∷ text "PATHEXT"
          ∷ text "USERPROFILE_ORIG"
          ∷ text "PROGRAMFILES"
          ∷ text "PROGRAMDATA"
          ∷ text "WINDIR"
          ∷ text "NUMBER_OF_PROCESSORS"
          ∷ text "PROCESSOR_ARCHITECTURE"
          ∷ text "APPDATA_ORIG"
          ∷ text "LOCALAPPDATA_ORIG"
          ∷ text "TMP_ORIG"
          ∷ text "TEMP_ORIG"
          ∷ []
        else text "TZ" ∷ text "XDG_SESSION_TYPE" ∷ text "DISPLAY" ∷ text "WAYLAND_DISPLAY" ∷ [])

-- Default
unfoldable pub default : Platform → Config
unfolding default_state_dir default_inherit
default p = record {
  runtime = record { state_dir = default_state_dir p; max_sessions = pos 16 };
  daemon = record {
    endpoint = text "unix";
    host = [];
    port = pos 0;
    stop_sessions_on_shutdown = none;
  };
  tools = [];
  resources = [];
  environment = record {
    isolate_home = true;
    isolate_temp = true;
    isolate_xdg = true;
    inherit = default_inherit p;
    deny = text "AWS_SECRET_ACCESS_KEY" ∷ text "PROD_TOKEN" ∷ [];
    set = [];
    redact = [];
  };
  policy = record {
    max_processes_per_session = pos 32;
    max_runtime_minutes = pos 120;
    max_concurrent_runs = pos 8;
    rules = [];
  };
  unity = none;
}

-- if x <= 0 { x = n }
unfoldable pub or_default : ℤ → ℕ → ℤ
unfolding is_not_positive
or_default x n = if is_not_positive x then pos n else x

unfoldable pub or_default_inherit : Platform → List Text → List Text
unfolding default_inherit
or_default_inherit p [] = default_inherit p
or_default_inherit p (x ∷ xs) = x ∷ xs

unfoldable pub bare_resource : Text → ℤ → Text → ResourceConfig
bare_resource mode capacity provider = record {
  mode = mode;
  capacity = capacity;
  provider = provider;
  meta = [];
}

-- The resources that Normalize adds where the configuration has none of the name.
unfoldable pub default_resources : List (Text × ResourceConfig)
unfolding bare_resource
default_resources =
    (text "build-slot", bare_resource (text "capacity") (pos 2) [])
    ∷ (text "unity-license", bare_resource (text "exclusive") (pos 0) [])
    ∷ (text "gpu", bare_resource (text "exclusive") (pos 0) (text "local-gpu"))
    ∷ (text "unity-process-slot", bare_resource (text "capacity") (pos 2) [])
    ∷ (text "android-emulator-slot", bare_resource (text "capacity") (pos 2) [])
    ∷ []

-- if _, ok := c.Resources[id]; !ok { c.Resources[id] = r }, for each of a list
unfoldable pub add_missing : List (Text × ResourceConfig) → Map ResourceConfig → Map ResourceConfig
unfolding lookup insert
add_missing [] m = m
add_missing ((id, r) ∷ rest) m =
    add_missing rest (elim (lookup id m) [ none ↦ insert id r m | some old ↦ m ])

unfoldable pub normal_daemon : DaemonConfig → DaemonConfig
unfolding eq_text
normal_daemon d =
    let endpoint = (if eq_text d.endpoint [] then text "unix" else d.endpoint) in
    record d {
      endpoint = endpoint;
      host =
          if eq_text endpoint (text "tcp") && eq_text d.host [] then text "127.0.0.1" else d.host;
    }

-- Normalize
unfoldable pub normalize : Platform → Config → Config
unfolding or_default or_default_inherit normal_daemon add_missing default_resources
    default_state_dir eq_text
normalize p c = record c {
  runtime = record {
    state_dir = if eq_text c.runtime.state_dir [] then default_state_dir p else c.runtime.state_dir;
    max_sessions = or_default c.runtime.max_sessions 16;
  };
  daemon = normal_daemon c.daemon;
  environment = record c.environment { inherit = or_default_inherit p c.environment.inherit };
  policy = record c.policy {
    max_processes_per_session = or_default c.policy.max_processes_per_session 32;
    max_runtime_minutes = or_default c.policy.max_runtime_minutes 120;
    max_concurrent_runs = or_default c.policy.max_concurrent_runs 8;
  };
  resources = add_missing default_resources c.resources;
}
