-- ===== src/Config/Examples.antt =====
-- Configurations of internal/config/config.go, and the theorems at them.
use agent_runtime_harness.Prelude.{
  ◌≡◌, refl, Text, text, eq_text, Option, none, some, false, [], ◌∷◌, lookup, length,
}
use agent_runtime_harness.Config.{Config, Platform, default, normalize, bare_resource, pos, negsuc}
use agent_runtime_harness.Config.Loading.{File, contents, loaded, load, failed, no_capacity}
use agent_runtime_harness.Config.Limits.{IsSound, load-IsSound}

abbrev linux : Platform
linux = record { home = some (text "/root"); is_windows = false }

-- A file that sets a limit below zero and one resource.
abbrev unmarshal : Text → Config → Option Config
unmarshal s c = some (record c {
  resources = (text "gpu", bare_resource (text "shared") (pos 0) []) ∷ [];
  runtime = record c.runtime { max_sessions = negsuc 3 };
})

abbrev files : Text → File
files path = contents (text "runtime: {max_sessions: -4}")

abbrev effective : Config
effective = normalize linux (record (default linux) {
  resources = (text "gpu", bare_resource (text "shared") (pos 0) []) ∷ [];
  runtime = record (default linux).runtime { max_sessions = negsuc 3 };
})

loads : load linux unmarshal (text "/etc/arh.yaml") files ≡ loaded effective
unfolding load default normalize bare_resource eq_text lookup
loads = refl

load-IsSound_example : IsSound effective
load-IsSound_example = load-IsSound linux unmarshal (text "/etc/arh.yaml") files effective loads

-- The configuration in the file wins, and the other four resources are added.
resources_effective : length effective.resources ≡ 5
unfolding normalize default bare_resource eq_text lookup
resources_effective = refl

-- Without a file there is no resource at all.
no_resources : lookup (text "build-slot") (default linux).resources ≡ none
unfolding default lookup
no_resources = refl

-- A capacity of zero is refused.
refused :
    load linux
      (λ s c.
        some
          (record c { resources = (text "farm", bare_resource (text "capacity") (pos 0) []) ∷ [] }))
      (text "/etc/arh.yaml")
      files
    ≡ failed (no_capacity (text "farm"))
unfolding load default normalize bare_resource eq_text lookup
refused = refl
