-- ===== src/Env/Isolation.antt =====
-- What Build and Redact of internal/env/env.go let through.
use agent_runtime_harness.Prelude.{
  ◌≡◌, refl, ◌∙◌, Text, text, eq_text, eq_text_iff, Option, none, some, Bool, true, false, ◌||◌,
  List, [], ◌∷◌, ◌++◌, map, Map, lookup, insert, lookup-insert, Unique, if◌then◌else◌, All, arith,
  inl, inr, Option-cases, Bool-cases,
}
use agent_runtime_harness.Env.Entries.{
  has_equals, IsNamed, All-sort_entries, lookup-drop_denied, variables-IsEnv, lookup_env-build,
}
use agent_runtime_harness.Env.{
  EnvConfig, Spec, is_denied, lookup_env, keep_orig, isolate_home, isolate_temp, isolate_xdg,
  isolate, inherit_all, apply_set, drop_denied, variables, sort_entries, build, redact,
}

All-drop_denied :
    (deny : List Text) (m : Map Text) → All (λ e. is_denied deny e.0 ≡ false) (drop_denied deny m)
unfolding drop_denied
All-drop_denied deny [] = tt
All-drop_denied deny ((k, v) ∷ m) = elim (Bool-cases (is_denied deny k)) [
  | inl out ↦ rw (out, drop_denied) (All-drop_denied deny m)
  | inr kept ↦ rw (kept, drop_denied) (kept, All-drop_denied deny m)
]

-- An entry of the environment whose name, the bytes before its first '=', is not denied.
abbrev pub IsClean : List Text → Text → Type 0
IsClean deny kv =
    (k : Text) × (v : Text) × (kv ≡ k ++ b'=' ∷ v)
    × (has_equals k ≡ false)
    × (is_denied deny k ≡ false)

All-IsClean :
    (deny : List Text) (m : Map Text)
    → All (λ e. is_denied deny e.0 ≡ false) m
    → All (λ e. has_equals e.0 ≡ false) m
    → All (IsClean deny) (map (λ e. e.0 ++ b'=' ∷ e.1) m)
All-IsClean deny [] a h = tt
All-IsClean deny ((k, v) ∷ m) a h = ((k, v, refl, h.0, a.0), All-IsClean deny m a.1 h.1)

module _ (join : Text → Text → Text) (is_unix : Bool) (cfg : EnvConfig) (base : List Text) where
  -- No variable with a denied name reaches a child, wherever it comes from: the daemon's environment, the
  -- isolated directories or the static entries, if the names of the static entries hold no '='. The name of
  -- an entry ends at its first '='.
  pub build_denies :
      (spec : Option Spec)
      → IsNamed cfg.set
      → All (IsClean cfg.deny) (build join is_unix cfg base spec)
  unfolding build variables
  build_denies spec named =
      let clean =
        apply_set cfg.deny cfg.set (isolate join is_unix cfg base spec (inherit_all cfg base [])) in
      All-IsClean cfg.deny (sort_entries (drop_denied cfg.deny clean))
        (All-sort_entries (λ e. is_denied cfg.deny e.0 ≡ false) (drop_denied cfg.deny clean)
          (All-drop_denied cfg.deny clean))
        (All-sort_entries (λ e. has_equals e.0 ≡ false) (drop_denied cfg.deny clean)
          (variables-IsEnv join is_unix cfg base spec named).1)

lookup-apply_set_missing :
    (deny : List Text) (k : Text) (set out : Map Text)
    → lookup k set ≡ none
    → lookup k (apply_set deny set out) ≡ lookup k out
unfolding apply_set lookup
lookup-apply_set_missing deny k [] out h = refl
lookup-apply_set_missing deny k ((j, v) ∷ set) out h = ground (
  arith,
  lookup-apply_set_missing deny k set out,
  lookup-apply_set_missing deny k set (insert j v out),
  lookup-insert j k v out,
)

lookup-apply_set_present :
    (deny : List Text) (k v : Text) (set out : Map Text)
    → Unique set
    → lookup k set ≡ some v
    → is_denied deny k ≡ false
    → lookup k (apply_set deny set out) ≡ some v
unfolding apply_set lookup
lookup-apply_set_present deny k v [] out u h d = absurd (ground arith)
lookup-apply_set_present deny k v ((j, w) ∷ set) out u h d = ground (
  arith,
  eq_text_iff j k,
  u.0,
  lookup-apply_set_present deny k v set out u.1,
  lookup-apply_set_present deny k v set (insert j w out) u.1,
  lookup-apply_set_missing deny k set (insert j w out),
  lookup-insert j k w out,
)

lookup-keep_orig :
    (base : List Text) (name k : Text) (out : Map Text)
    → eq_text (name ++ text "_ORIG") k ≡ false
    → lookup k (keep_orig base name out) ≡ lookup k out
unfolding keep_orig
lookup-keep_orig base name k out other = elim (Option-cases (lookup_env base name)) [
  | inl missing ↦ rw (missing, keep_orig) refl
  | inr (v, found) ↦
      rw (found, keep_orig) (ground (arith, lookup-insert (name ++ text "_ORIG") k v out))
]

-- Redact keeps the names, masks the values of redlisted and denied names, and keeps the other values.
lookup-redact :
    (cfg : EnvConfig) (pairs : Map Text) (k : Text)
    → lookup k (redact cfg pairs) ≡ (elim (lookup k pairs) [
      | none ↦ none
      | some v ↦
          some (if is_denied cfg.redact k || is_denied cfg.deny k then text "***REDACTED***" else v)
    ])
unfolding redact lookup
lookup-redact cfg [] k = refl
lookup-redact cfg ((j, v) ∷ pairs) k = ground (arith, lookup-redact cfg pairs k, eq_text_iff j k)

module _ (join : Text → Text → Text) (is_unix : Bool) (cfg : EnvConfig) (base : List Text)
    (spec : Spec) (k : Text) (allowed : is_denied cfg.deny k ≡ false) where
  -- A static entry has the last word: unless its name is denied, the child gets its value.
  variables_set :
      (v : Text)
      → Unique cfg.set
      → lookup k cfg.set ≡ some v
      → lookup k (variables join is_unix cfg base (some spec)) ≡ some v
  unfolding variables
  variables_set v once found =
      let out = isolate join is_unix cfg base (some spec) (inherit_all cfg base []) in
      ground (
        arith,
        allowed,
        lookup-drop_denied cfg.deny k (apply_set cfg.deny cfg.set out),
        lookup-apply_set_present cfg.deny k v cfg.set out once found allowed,
      )

  variables-isolate :
      lookup k cfg.set ≡ none
      → lookup k (variables join is_unix cfg base (some spec))
        ≡ lookup k (isolate join is_unix cfg base (some spec) (inherit_all cfg base []))
  unfolding variables
  variables-isolate missing =
      let out = isolate join is_unix cfg base (some spec) (inherit_all cfg base []) in
      ground (
        arith,
        allowed,
        lookup-drop_denied cfg.deny k (apply_set cfg.deny cfg.set out),
        lookup-apply_set_missing cfg.deny k cfg.set out missing,
      )

lookup-insert_other :
    (j k v : Text) (out : Map Text) → eq_text j k ≡ false → lookup k (insert j v out) ≡ lookup k out
lookup-insert_other j k v out other = ground (arith, lookup-insert j k v out)

-- The isolations of temp and xdg leave HOME alone.
home-isolate_temp :
    (base : List Text) (spec : Spec) (out : Map Text)
    → lookup (text "HOME") (isolate_temp base spec out) ≡ lookup (text "HOME") out
unfolding isolate_temp eq_text
home-isolate_temp base spec out =
    lookup-insert_other (text "TMPDIR") _ spec.temp_dir _ refl
    ∙ lookup-insert_other (text "TEMP") _ spec.temp_dir _ refl
    ∙ lookup-insert_other (text "TMP") _ spec.temp_dir _ refl
    ∙ lookup-keep_orig base (text "TMPDIR") _ _ refl
    ∙ lookup-keep_orig base (text "TEMP") _ _ refl
    ∙ lookup-keep_orig base (text "TMP") _ out refl

home-isolate_xdg :
    (base : List Text) (spec : Spec) (out : Map Text)
    → lookup (text "HOME") (isolate_xdg base spec out) ≡ lookup (text "HOME") out
unfolding isolate_xdg eq_text
home-isolate_xdg base spec out =
    lookup-insert_other (text "XDG_STATE_HOME") _ spec.state_dir _ refl
    ∙ lookup-insert_other (text "XDG_CACHE_HOME") _ spec.cache_dir _ refl
    ∙ lookup-insert_other (text "XDG_CONFIG_HOME") _ spec.config_dir _ refl
    ∙ lookup-keep_orig base (text "XDG_CONFIG_HOME") _ out refl

home-isolate_home :
    (join : Text → Text → Text) (is_unix : Bool) (base : List Text) (spec : Spec) (out : Map Text)
    → lookup (text "HOME") (isolate_home join is_unix base spec out) ≡ some spec.home_dir
unfolding isolate_home eq_text
home-isolate_home join is_unix base spec out =
    let app_data = join spec.home_dir (text "AppData") in
    let start = (if is_unix then keep_orig base (text "HOME") out else out) in
    let kept =
      keep_orig base (text "LOCALAPPDATA")
        (keep_orig base (text "APPDATA") (keep_orig base (text "USERPROFILE") start)) in
    lookup-insert_other (text "LOCALAPPDATA") _ (join app_data (text "Local")) _ refl
    ∙ lookup-insert_other (text "APPDATA") _ (join app_data (text "Roaming")) _ refl
    ∙ lookup-insert_other (text "USERPROFILE") _ spec.home_dir _ refl
    ∙ lookup-insert (text "HOME") (text "HOME") spec.home_dir kept

variables_home :
    (join : Text → Text → Text) (is_unix : Bool) (cfg : EnvConfig) (base : List Text) (spec : Spec)
    → cfg.isolate_home ≡ true
    → is_denied cfg.deny (text "HOME") ≡ false
    → lookup (text "HOME") cfg.set ≡ none
    → lookup (text "HOME") (variables join is_unix cfg base (some spec)) ≡ some spec.home_dir
unfolding isolate
variables_home join is_unix cfg base spec on allowed unset =
    let out = inherit_all cfg base [] in
    let out1 = isolate_home join is_unix base spec out in
    let out2 = (if cfg.isolate_temp then isolate_temp base spec out1 else out1) in
    ground (
      arith,
      variables-isolate join is_unix cfg base spec (text "HOME") allowed unset,
      home-isolate_home join is_unix base spec out,
      home-isolate_temp base spec out1,
      home-isolate_xdg base spec out2,
    )

-- With isolate_home a child that looks HOME up in the environment that Build gives it finds the session's own
-- directory, whatever else is isolated, unless the configuration sets or denies HOME, and if the names of the
-- static entries hold no '='.
pub build_home :
    (join : Text → Text → Text) (is_unix : Bool) (cfg : EnvConfig) (base : List Text) (spec : Spec)
    → cfg.isolate_home ≡ true
    → is_denied cfg.deny (text "HOME") ≡ false
    → lookup (text "HOME") cfg.set ≡ none
    → IsNamed cfg.set
    → lookup_env (build join is_unix cfg base (some spec)) (text "HOME") ≡ some spec.home_dir
build_home join is_unix cfg base spec on allowed unset named =
    lookup_env-build join is_unix cfg base (some spec) (text "HOME") named
      (unfold has_equals in refl)
    ∙ variables_home join is_unix cfg base spec on allowed unset
