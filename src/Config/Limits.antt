-- ===== src/Config/Limits.antt =====
-- What a configuration that Load of internal/config/config.go gives promises to the managers.
use agent_runtime_harness.Prelude.{
  ◌≡◌, refl, subst, Text, text, eq_text, eq_text_iff, Option, none, some, false, [], ◌∷◌, Map,
  lookup, arith, inl, inr, Bool-cases, Option-cases,
}
use agent_runtime_harness.Config.{
  is_not_positive, ResourceConfig, ToolConfig, Config, Platform, default, normalize,
}
use agent_runtime_harness.Config.Loading.{
  first_error, ConfigError, resource_error, tool_error, validate, File, missing, unreadable,
  contents, loaded, load_file, load,
}
use agent_runtime_harness.Config.Normal.{or_default_positive}

first_error-none {ℓ} :
    {V : Type ℓ} (check : Text → V → Option ConfigError) (m : Map V) (id : Text) (v : V)
    → first_error check m ≡ none
    → lookup id m ≡ some v
    → check id v ≡ none
unfolding first_error lookup
first_error-none check [] id v ok found = absurd (ground arith)
first_error-none check ((j, u) ∷ m) id v ok found = elim (Option-cases (check j u)) [
  | inl fine ↦ ground (arith, first_error-none check m id v, eq_text_iff j id)
  | inr (e, bad) ↦ absurd (ground arith)
]

-- A mode that the lease manager knows, and a capacity where the mode counts it.
pub data IsUsable (r : ResourceConfig) : Type 0 where
  exclusive : r.mode ≡ text "exclusive" → IsUsable r
  shared : r.mode ≡ text "shared" → IsUsable r
  counted : r.mode ≡ text "capacity" → is_not_positive r.capacity ≡ false → IsUsable r

resource_error-IsUsable : (id : Text) (r : ResourceConfig) → resource_error id r ≡ none → IsUsable r
unfolding resource_error
resource_error-IsUsable id r ok = elim (Bool-cases (eq_text r.mode (text "exclusive"))) [
  | inl e ↦ exclusive (ground (arith, eq_text_iff r.mode (text "exclusive")))
  | inr n ↦ elim (Bool-cases (eq_text r.mode (text "shared"))) [
    | inl e ↦ shared (ground (arith, eq_text_iff r.mode (text "shared")))
    | inr n' ↦ elim (Bool-cases (eq_text r.mode (text "capacity"))) [
      | inl e ↦ counted (ground (arith, eq_text_iff r.mode (text "capacity"))) (ground arith)
      | inr n'' ↦ absurd (ground arith)
    ]
  ]
]

-- The limits are positive, every resource is usable, and every tool has a type.
pub record IsSound (c : Config) : Type 0 where
  pub max_sessions : is_not_positive c.runtime.max_sessions ≡ false
  max_processes : is_not_positive c.policy.max_processes_per_session ≡ false
  max_runtime : is_not_positive c.policy.max_runtime_minutes ≡ false
  max_runs : is_not_positive c.policy.max_concurrent_runs ≡ false
  pub usable : (id : Text) (r : ResourceConfig) → lookup id c.resources ≡ some r → IsUsable r
  pub typed : (id : Text) (t : ToolConfig) → lookup id c.tools ≡ some t → eq_text t.kind [] ≡ false

default-IsSound : (p : Platform) → IsSound (default p)
unfolding default is_not_positive lookup
default-IsSound p = record {
  max_sessions = refl;
  max_processes = refl;
  max_runtime = refl;
  max_runs = refl;
  usable = λ id r e. absurd (ground arith);
  typed = λ id t e. absurd (ground arith);
}

tool_error_typed : (id : Text) (t : ToolConfig) → tool_error id t ≡ none → eq_text t.kind [] ≡ false
unfolding tool_error
tool_error_typed id t ok = ground arith

validate_resources :
    (c : Config) → validate c ≡ none → first_error resource_error c.resources ≡ none
unfolding validate
validate_resources c ok = ground arith

validate_tools : (c : Config) → validate c ≡ none → first_error tool_error c.tools ≡ none
unfolding validate
validate_tools c ok = ground arith

normalize-IsSound :
    (p : Platform) (c : Config) → validate (normalize p c) ≡ none → IsSound (normalize p c)
unfolding normalize
normalize-IsSound p c ok = record {
  max_sessions = or_default_positive c.runtime.max_sessions 16 (omega arith);
  max_processes = or_default_positive c.policy.max_processes_per_session 32 (omega arith);
  max_runtime = or_default_positive c.policy.max_runtime_minutes 120 (omega arith);
  max_runs = or_default_positive c.policy.max_concurrent_runs 8 (omega arith);
  usable = λ id r e.
      resource_error-IsUsable id r
        (first_error-none resource_error _ id r (validate_resources (normalize p c) ok) e);
  typed = λ id t e.
      tool_error_typed id t
        (first_error-none tool_error _ id t (validate_tools (normalize p c) ok) e);
}

load_file-IsSound :
    (p : Platform) (unmarshal : Text → Config → Option Config) (f : File) (c : Config)
    → load_file p unmarshal f ≡ loaded c
    → IsSound c
unfolding load_file
load_file-IsSound p unmarshal missing c = λ e. subst IsSound (ground (arith, e)) (default-IsSound p)
load_file-IsSound p unmarshal unreadable c = λ e. absurd (ground arith)
load_file-IsSound p unmarshal (contents s) c = elim (Option-cases (unmarshal s (default p))) [
  | inl bad ↦ rw (bad, load_file) (λ e. absurd (ground arith))
  | inr (d, parsed) ↦ elim (Option-cases (validate (normalize p d))) [
    | inl ok ↦
        rw (parsed, load_file, ok)
          (λ e. subst IsSound (ground (arith, e)) (normalize-IsSound p d ok))
    | inr (why, bad) ↦ rw (parsed, load_file, bad) (λ e. absurd (ground arith))
  ]
]

-- What Load gives, whatever the file and the YAML library make of it, has positive limits, resources
-- with a known mode (and a positive capacity for the mode capacity), and tools with a type.
pub load-IsSound :
    (p : Platform) (unmarshal : Text → Config → Option Config) (path : Text)
    (read_file : Text → File) (c : Config)
    → load p unmarshal path read_file ≡ loaded c
    → IsSound c
unfolding load
load-IsSound p unmarshal path read_file c = elim (Bool-cases (eq_text path [])) [
  | inl bare ↦ rw (bare, load) (λ e. subst IsSound (ground (arith, e)) (default-IsSound p))
  | inr given ↦ rw (given, load) (load_file-IsSound p unmarshal (read_file path) c)
]
