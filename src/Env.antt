-- ===== src/Env.antt =====
-- internal/env/env.go: the environment of a session's processes. The directories of the layout, the test
-- for Unix and filepath.Join are arguments. cfg.Set has each key once, so the order of its range does not count.
pub mod Entries
pub mod Isolation
mod Examples
use agent_runtime_harness.Prelude.{
  ℕ, ◌==◌, Text, text, eq_text, equal_fold, to_lower, has_prefix, has_last, trim_last, Option, none,
  some, Bool, true, false, not, ◌&&◌, ◌||◌, List, [], ◌∷◌, ◌++◌, map, Map, lookup, insert,
  if◌then◌else◌,
}
use agent_runtime_harness.Versions.{text_ltb}

-- config.EnvConfig
pub record EnvConfig : Type 0 where
  pub isolate_home : Bool
  pub isolate_temp : Bool
  pub isolate_xdg : Bool
  pub inherit : List Text
  pub deny : List Text
  pub set : Map Text
  pub redact : List Text

-- Spec
pub record Spec : Type 0 where
  pub home_dir : Text
  pub temp_dir : Text
  pub config_dir : Text
  pub cache_dir : Text
  pub state_dir : Text
  pub log_dir : Text

-- One entry of the allowlist. TrimSuffix(name, "") is name.
unfoldable pub allows : Text → Text → Bool
unfolding eq_text has_last trim_last equal_fold to_lower has_prefix
allows a name =
    eq_text a (text "*")
    || (if not (has_last a b'*')
        then equal_fold a name
        else equal_fold (trim_last a b'*') name
          && has_prefix (to_lower name) (to_lower (trim_last a b'*')))

-- matchesAllow
unfoldable pub matches_allow : List Text → Text → Bool
unfolding allows
matches_allow [] name = false
matches_allow (a ∷ allow) name = allows a name || matches_allow allow name

-- isDenied
unfoldable pub is_denied : List Text → Text → Bool
unfolding equal_fold has_last has_prefix to_lower trim_last
is_denied [] name = false
is_denied (d ∷ deny) name =
    equal_fold d name
    || (has_last d b'*' && has_prefix (to_lower name) (to_lower (trim_last d b'*')))
    || is_denied deny name

unfoldable add_byte : ℕ → Option (Text × Text) → Option (Text × Text)
add_byte c none = none
add_byte c (some (name, val)) = some (c ∷ name, val)

-- kv[:i] and kv[i+1:] at the first '='
unfoldable pub cut_at_equals : Text → Option (Text × Text)
unfolding add_byte
cut_at_equals [] = none
cut_at_equals (c ∷ s) = if c == b'=' then some ([], s) else add_byte c (cut_at_equals s)

-- The first loop of Build.
unfoldable pub inherit_all : EnvConfig → List Text → Map Text → Map Text
unfolding cut_at_equals is_denied matches_allow insert
inherit_all cfg [] out = out
inherit_all cfg (kv ∷ base) out = elim (cut_at_equals kv) [
  | none ↦ inherit_all cfg base out
  | some (name, val) ↦ inherit_all cfg base (
      if not (eq_text name []) && not (is_denied cfg.deny name) && matches_allow cfg.inherit name
      then insert name val out
      else out)
]

-- The text after a prefix that is there.
unfoldable pub after : Text → Text → Text
after [] s = s
after (c ∷ p) [] = []
after (c ∷ p) (d ∷ s) = after p s

-- lookup
unfoldable pub lookup_env : List Text → Text → Option Text
unfolding has_prefix after
lookup_env [] name = none
lookup_env (kv ∷ base) name =
    if has_prefix kv (name ++ b'=' ∷ [])
    then some (after (name ++ b'=' ∷ []) kv)
    else lookup_env base name

-- if v, ok := lookup(base, name); ok { out[name+"_ORIG"] = v }
unfoldable pub keep_orig : List Text → Text → Map Text → Map Text
unfolding lookup_env insert
keep_orig base name out = elim (lookup_env base name) [
  | none ↦ out
  | some v ↦ insert (name ++ text "_ORIG") v out
]

unfoldable pub isolate_home : (Text → Text → Text) → Bool → List Text → Spec → Map Text → Map Text
unfolding keep_orig insert
isolate_home join is_unix base spec out =
    let out1 = (if is_unix then keep_orig base (text "HOME") out else out) in
    let out2 = keep_orig base (text "USERPROFILE") out1 in
    let out3 = keep_orig base (text "APPDATA") out2 in
    let out4 = keep_orig base (text "LOCALAPPDATA") out3 in
    let out5 = insert (text "HOME") spec.home_dir out4 in
    let out6 = insert (text "USERPROFILE") spec.home_dir out5 in
    let out7 =
      insert (text "APPDATA") (join (join spec.home_dir (text "AppData")) (text "Roaming")) out6 in
    insert (text "LOCALAPPDATA") (join (join spec.home_dir (text "AppData")) (text "Local")) out7

unfoldable pub isolate_temp : List Text → Spec → Map Text → Map Text
unfolding keep_orig insert
isolate_temp base spec out =
    let out1 = keep_orig base (text "TMP") out in
    let out2 = keep_orig base (text "TEMP") out1 in
    let out3 = keep_orig base (text "TMPDIR") out2 in
    let out4 = insert (text "TMP") spec.temp_dir out3 in
    let out5 = insert (text "TEMP") spec.temp_dir out4 in insert (text "TMPDIR") spec.temp_dir out5

unfoldable pub isolate_xdg : List Text → Spec → Map Text → Map Text
unfolding keep_orig insert
isolate_xdg base spec out =
    let out1 = keep_orig base (text "XDG_CONFIG_HOME") out in
    let out2 = insert (text "XDG_CONFIG_HOME") spec.config_dir out1 in
    let out3 = insert (text "XDG_CACHE_HOME") spec.cache_dir out2 in
    insert (text "XDG_STATE_HOME") spec.state_dir out3

-- The second part of Build; none is a nil spec.
unfoldable pub isolate :
    (Text → Text → Text) → Bool → EnvConfig → List Text → Option Spec → Map Text → Map Text
unfolding isolate_home isolate_temp isolate_xdg
isolate join is_unix cfg base none out = out
isolate join is_unix cfg base (some spec) out =
    let out1 = (if cfg.isolate_home then isolate_home join is_unix base spec out else out) in
    let out2 = (if cfg.isolate_temp then isolate_temp base spec out1 else out1) in
    if cfg.isolate_xdg then isolate_xdg base spec out2 else out2

-- The range over cfg.Set.
unfoldable pub apply_set : List Text → Map Text → Map Text → Map Text
unfolding is_denied insert
apply_set deny [] out = out
apply_set deny ((k, v) ∷ set) out =
    apply_set deny set (if is_denied deny k then out else insert k v out)

-- The last loop over out.
unfoldable pub drop_denied : List Text → Map Text → Map Text
unfolding is_denied
drop_denied deny [] = []
drop_denied deny ((k, v) ∷ out) =
    let rest = drop_denied deny out in if is_denied deny k then rest else (k, v) ∷ rest

-- The variables that Build ends with.
unfoldable pub variables :
    (Text → Text → Text) → Bool → EnvConfig → List Text → Option Spec → Map Text
unfolding inherit_all isolate apply_set drop_denied
variables join is_unix cfg base spec =
    drop_denied cfg.deny
      (apply_set cfg.deny cfg.set (isolate join is_unix cfg base spec (inherit_all cfg base [])))

-- sort.Strings by insertion; the names are different.
unfoldable pub sort_entry : Text × Text → Map Text → Map Text
unfolding text_ltb
sort_entry e [] = e ∷ []
sort_entry e (f ∷ m) = let rest = f ∷ sort_entry e m in if text_ltb f.0 e.0 then rest else e ∷ f ∷ m

unfoldable pub sort_entries : Map Text → Map Text
unfolding sort_entry
sort_entries [] = []
sort_entries (e ∷ m) = sort_entry e (sort_entries m)

-- Build
unfoldable pub build : (Text → Text → Text) → Bool → EnvConfig → List Text → Option Spec → List Text
unfolding variables sort_entries
build join is_unix cfg base spec =
    map (λ e. e.0 ++ b'=' ∷ e.1) (sort_entries (variables join is_unix cfg base spec))

-- Redact
unfoldable pub redact : EnvConfig → Map Text → Map Text
unfolding is_denied
redact cfg [] = []
redact cfg ((k, v) ∷ pairs) =
    (k, if is_denied cfg.redact k || is_denied cfg.deny k then text "***REDACTED***" else v)
    ∷ redact cfg pairs
