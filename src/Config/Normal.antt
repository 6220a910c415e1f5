-- ===== src/Config/Normal.antt =====
-- Normalize of internal/config/config.go: what it adds, what it keeps, and that once is enough.
use agent_runtime_harness.Prelude.{
  ℕ, ◌≡◌, ◌<◌, refl, Text, text, eq_text, eq_text_iff, Option, none, some, false, List, [], ◌∷◌,
  ◌++◌, Map, lookup, insert, lookup-insert, All, arith, inl, inr, Option-cases,
}
use agent_runtime_harness.Config.{
  ℤ, pos, negsuc, is_not_positive, ResourceConfig, DaemonConfig, Config, Platform,
  default_state_dir, default_inherit, or_default, or_default_inherit, default_resources,
  add_missing, normal_daemon, normalize,
}

pub or_default_positive : (x : ℤ) (n : ℕ) → 0 < n → is_not_positive (or_default x n) ≡ false
unfolding or_default is_not_positive
or_default_positive (pos k) n lt = ground arith
or_default_positive (negsuc k) n lt = ground arith

or_default_idem : (x : ℤ) (n : ℕ) → 0 < n → or_default (or_default x n) n ≡ or_default x n
unfolding or_default
or_default_idem x n lt = ground (arith, or_default_positive x n lt)

or_default_inherit_idem :
    (p : Platform) (xs : List Text)
    → or_default_inherit p (or_default_inherit p xs) ≡ or_default_inherit p xs
unfolding or_default_inherit default_inherit
or_default_inherit_idem p [] = refl
or_default_inherit_idem p (x ∷ xs) = refl

normal_daemon_idem : (d : DaemonConfig) → normal_daemon (normal_daemon d) ≡ normal_daemon d
unfolding normal_daemon eq_text
normal_daemon_idem d = ground arith

home_present :
    (o : Option Text)
    → eq_text
        (elim o [ none ↦ text ".agent-runtime" | some home ↦ home ++ text "/.agent-runtime" ])
        []
      ≡ false
unfolding eq_text
home_present none = refl
home_present (some []) = refl
home_present (some (c ∷ s)) = refl

state_dir_present : (p : Platform) → eq_text (default_state_dir p) [] ≡ false
unfolding default_state_dir
state_dir_present p = home_present p.home

-- A resource that is configured is kept, and one of the list that is not configured is added.
lookup-add_missing :
    (rs : List (Text × ResourceConfig)) (m : Map ResourceConfig) (id : Text)
    → lookup id (add_missing rs m) ≡ (elim (lookup id m) [ none ↦ lookup id rs | some r ↦ some r ])
unfolding add_missing lookup
lookup-add_missing [] m id = ground arith
lookup-add_missing ((k, r) ∷ rs) m id = ground (
  arith,
  lookup-add_missing rs (insert k r m) id,
  lookup-add_missing rs m id,
  lookup-insert k id r m,
  eq_text_iff k id,
)

-- Each name of the list has a resource.
abbrev ArePresent : List (Text × ResourceConfig) → Map ResourceConfig → Type 0
ArePresent rs m = All (λ e. (r : ResourceConfig) × (lookup e.0 m ≡ some r)) rs

add_missing_idle :
    (rs : List (Text × ResourceConfig)) (m : Map ResourceConfig)
    → ArePresent rs m
    → add_missing rs m ≡ m
unfolding add_missing
add_missing_idle [] m h = refl
add_missing_idle ((k, r) ∷ rs) m h = ground (arith, add_missing_idle rs m h.1, h.0.1)

add_missing_present :
    (rs : List (Text × ResourceConfig)) (m : Map ResourceConfig) (id : Text) (r : ResourceConfig)
    → lookup id rs ≡ some r
    → (r' : ResourceConfig) × (lookup id (add_missing rs m) ≡ some r')
add_missing_present rs m id r e = elim (Option-cases (lookup id m)) [
  | inl new ↦ (r, ground (arith, lookup-add_missing rs m id))
  | inr (old, found) ↦ (old, ground (arith, lookup-add_missing rs m id))
]

-- After Normalize each of the five resources has an entry.
default_resources_present :
    (m : Map ResourceConfig) → ArePresent default_resources (add_missing default_resources m)
unfolding default_resources lookup eq_text
default_resources_present m = (
  add_missing_present default_resources m (text "build-slot") _ refl,
  (
    add_missing_present default_resources m (text "unity-license") _ refl,
    (
      add_missing_present default_resources m (text "gpu") _ refl,
      (
        add_missing_present default_resources m (text "unity-process-slot") _ refl,
        (add_missing_present default_resources m (text "android-emulator-slot") _ refl, tt),
      ),
    ),
  ),
)

-- Normalize of a normal configuration changes nothing.
normalize_idempotent : (p : Platform) (c : Config) → normalize p (normalize p c) ≡ normalize p c
unfolding normalize
normalize_idempotent p c = ground (
  arith,
  state_dir_present p,
  or_default_idem c.runtime.max_sessions 16 (omega arith),
  or_default_idem c.policy.max_processes_per_session 32 (omega arith),
  or_default_idem c.policy.max_runtime_minutes 120 (omega arith),
  or_default_idem c.policy.max_concurrent_runs 8 (omega arith),
  or_default_inherit_idem p c.environment.inherit,
  normal_daemon_idem c.daemon,
  add_missing_idle default_resources (add_missing default_resources c.resources)
      (default_resources_present c.resources),
)
