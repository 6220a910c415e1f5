-- ===== src/Env/Examples.antt =====
-- The environment of internal/env/env.go at one configuration.
use agent_runtime_harness.Prelude.{
  ◌≡◌, refl, Text, text, eq_text, some, none, true, false, List, [], ◌∷◌, ◌++◌, Map, lookup, Unique,
  All,
}
use agent_runtime_harness.Env.{EnvConfig, Spec, is_denied, lookup_env, build}
use agent_runtime_harness.Env.Entries.{has_equals, IsNamed}
use agent_runtime_harness.Env.Isolation.{IsClean, build_denies, build_home}

abbrev config : EnvConfig
config = record {
  isolate_home = true;
  isolate_temp = true;
  isolate_xdg = false;
  inherit = text "PATH" ∷ text "LC_*" ∷ [];
  deny = text "AWS_*" ∷ [];
  set = (text "CI", text "1") ∷ [];
  redact = [];
}

abbrev spec : Spec
spec = record {
  home_dir = text "/run/home";
  temp_dir = text "/run/tmp";
  config_dir = text "/run/xdg/config";
  cache_dir = text "/run/xdg/cache";
  state_dir = text "/run/xdg/state";
  log_dir = text "/run/xdg/state/log";
}

abbrev base : List Text
base = text "HOME=/root" ∷ text "PATH=/bin" ∷ text "AWS_KEY=a=b" ∷ []

abbrev slash : Text → Text → Text
slash dir name = dir ++ text "/" ++ name

set-IsNamed : IsNamed config.set
unfolding has_equals
set-IsNamed = (refl, tt)

build_denies_example : All (IsClean config.deny) (build slash true config base (some spec))
build_denies_example = build_denies slash true config base (some spec) set-IsNamed

built :
    build slash true config base (some spec)
    ≡ text "APPDATA=/run/home/AppData/Roaming"
      ∷ text "CI=1"
      ∷ text "HOME=/run/home"
      ∷ text "HOME_ORIG=/root"
      ∷ text "LOCALAPPDATA=/run/home/AppData/Local"
      ∷ text "PATH=/bin"
      ∷ text "TEMP=/run/tmp"
      ∷ text "TMP=/run/tmp"
      ∷ text "TMPDIR=/run/tmp"
      ∷ text "USERPROFILE=/run/home"
      ∷ []
unfolding build
built = refl

abbrev secrets : Map Text
secrets = (text "AWS_KEY", text "k") ∷ (text "CI", text "1") ∷ []

ci_allowed : is_denied config.deny (text "CI") ≡ false
unfolding is_denied
ci_allowed = refl

ci_set : lookup (text "CI") config.set ≡ some (text "1")
unfolding lookup eq_text
ci_set = refl

set_once : Unique config.set
unfolding lookup
set_once = (refl, tt)

home_allowed : is_denied config.deny (text "HOME") ≡ false
unfolding is_denied
home_allowed = refl

home_unset : lookup (text "HOME") config.set ≡ none
unfolding lookup eq_text
home_unset = refl

build_home_example :
    lookup_env (build slash true config base (some spec)) (text "HOME") ≡ some (text "/run/home")
build_home_example = build_home slash true config base spec refl home_allowed home_unset set-IsNamed
