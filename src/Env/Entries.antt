-- ===== src/Env/Entries.antt =====
-- internal/env/env.go: the entries "name=value" that Build gives, and how a child reads them.
use agent_runtime_harness.Prelude.{
  ◌==◌, ◌≡◌, refl, sym, ap, ◌∙◌, Text, text, eq_text, eq_text_iff, has_prefix, Option, none, some,
  Bool, true, false, not, ◌&&◌, ◌||◌, List, [], ◌∷◌, ◌++◌, map, Map, lookup, insert, insert-Unique,
  Unique, if◌then◌else◌, All, arith, inl, inr, Option-cases, Bool-cases,
}
use agent_runtime_harness.Env.{
  EnvConfig, Spec, is_denied, matches_allow, cut_at_equals, add_byte, after, lookup_env, keep_orig,
  isolate_home, isolate_temp, isolate_xdg, isolate, inherit_all, apply_set, drop_denied, variables,
  sort_entry, sort_entries, build,
}

-- A name with '=' in it.
unfoldable pub has_equals : Text → Bool
has_equals [] = false
has_equals (c ∷ s) = c == b'=' || has_equals s

-- Variables, each name once and without '='.
abbrev pub IsEnv : Map Text → Type 0
IsEnv m = Unique m × All (λ e. has_equals e.0 ≡ false) m

All-insert :
    (k v : Text) (m : Map Text)
    → has_equals k ≡ false
    → All (λ e. has_equals e.0 ≡ false) m
    → All (λ e. has_equals e.0 ≡ false) (insert k v m)
unfolding insert
All-insert k v [] h a = (h, tt)
All-insert k v ((j, w) ∷ m) h a = elim (Bool-cases (eq_text j k)) [
  | inl same ↦ rw (same, insert) a
  | inr other ↦ rw (other, insert) (a.0, All-insert k v m h a.1)
]

insert-IsEnv : (k v : Text) (m : Map Text) → has_equals k ≡ false → IsEnv m → IsEnv (insert k v m)
insert-IsEnv k v m h e = (insert-Unique k v m e.0, All-insert k v m h e.1)

cut_at_equals_name : (s k v : Text) → cut_at_equals s ≡ some (k, v) → has_equals k ≡ false
unfolding cut_at_equals add_byte has_equals
cut_at_equals_name [] k v e = absurd (ground arith)
cut_at_equals_name (c ∷ s) k v e = elim (Option-cases (cut_at_equals s)) [
  | inl missing ↦ elim (Bool-cases (c == b'=')) [
    | inl here ↦ ground (arith, e)
    | inr there ↦ absurd (ground (arith, e))
  ]
  | inr ((k', v'), found) ↦ elim (Bool-cases (c == b'=')) [
    | inl here ↦ ground (arith, e)
    | inr there ↦ ground (arith, e, cut_at_equals_name s k' v' found)
  ]
]

keep_orig-IsEnv :
    (base : List Text) (name : Text) (out : Map Text)
    → has_equals (name ++ text "_ORIG") ≡ false
    → IsEnv out
    → IsEnv (keep_orig base name out)
unfolding keep_orig
keep_orig-IsEnv base name out h e = elim (Option-cases (lookup_env base name)) [
  | inl missing ↦ rw (missing, keep_orig) e
  | inr (v, found) ↦ rw (found, keep_orig) (insert-IsEnv (name ++ text "_ORIG") v out h e)
]

inherit_all-IsEnv :
    (cfg : EnvConfig) (base : List Text) (out : Map Text)
    → IsEnv out
    → IsEnv (inherit_all cfg base out)
unfolding inherit_all
inherit_all-IsEnv cfg [] out e = e
inherit_all-IsEnv cfg (kv ∷ base) out e = elim (Option-cases (cut_at_equals kv)) [
  | inl none_there ↦ rw (none_there, inherit_all) (inherit_all-IsEnv cfg base out e)
  | inr ((name, val), found) ↦
      rw (found, inherit_all)
        (inherit_all-IsEnv cfg base _
          (elim (Bool-cases (
            not (eq_text name [])
            && not (is_denied cfg.deny name)
            && matches_allow cfg.inherit name)) [
              | inl taken ↦
                  rw taken (insert-IsEnv name val out (cut_at_equals_name kv name val found) e)
              | inr left ↦ rw left e
            ]))
]

isolate_home-IsEnv :
    (join : Text → Text → Text) (is_unix : Bool) (base : List Text) (spec : Spec) (out : Map Text)
    → IsEnv out
    → IsEnv (isolate_home join is_unix base spec out)
unfolding isolate_home has_equals
isolate_home-IsEnv join is_unix base spec out e = insert-IsEnv (text "LOCALAPPDATA") _ _ refl (
    insert-IsEnv (text "APPDATA") _ _ refl (
      insert-IsEnv (text "USERPROFILE") _ _ refl (
        insert-IsEnv (text "HOME") _ _ refl (
          keep_orig-IsEnv base (text "LOCALAPPDATA") _ refl (
            keep_orig-IsEnv base (text "APPDATA") _ refl
              (keep_orig-IsEnv base (text "USERPROFILE") _ refl (start is_unix)))))))
  where
    start : (u : Bool) → IsEnv (if u then keep_orig base (text "HOME") out else out)
    start true = keep_orig-IsEnv base (text "HOME") out refl e
    start false = e

isolate_temp-IsEnv :
    (base : List Text) (spec : Spec) (out : Map Text)
    → IsEnv out
    → IsEnv (isolate_temp base spec out)
unfolding isolate_temp has_equals
isolate_temp-IsEnv base spec out e = insert-IsEnv (text "TMPDIR") _ _ refl (
    insert-IsEnv (text "TEMP") _ _ refl (
      insert-IsEnv (text "TMP") _ _ refl (
        keep_orig-IsEnv base (text "TMPDIR") _ refl (
          keep_orig-IsEnv base (text "TEMP") _ refl
            (keep_orig-IsEnv base (text "TMP") out refl e)))))

isolate_xdg-IsEnv :
    (base : List Text) (spec : Spec) (out : Map Text)
    → IsEnv out
    → IsEnv (isolate_xdg base spec out)
unfolding isolate_xdg has_equals
isolate_xdg-IsEnv base spec out e = insert-IsEnv (text "XDG_STATE_HOME") _ _ refl (
    insert-IsEnv (text "XDG_CACHE_HOME") _ _ refl (
      insert-IsEnv (text "XDG_CONFIG_HOME") _ _ refl
        (keep_orig-IsEnv base (text "XDG_CONFIG_HOME") out refl e)))

when-IsEnv : (b : Bool) (m n : Map Text) → IsEnv m → IsEnv n → IsEnv (if b then m else n)
when-IsEnv true m n p q = p
when-IsEnv false m n p q = q

isolate-IsEnv :
    (join : Text → Text → Text) (is_unix : Bool) (cfg : EnvConfig) (base : List Text)
    (spec : Option Spec) (out : Map Text)
    → IsEnv out
    → IsEnv (isolate join is_unix cfg base spec out)
unfolding isolate
isolate-IsEnv join is_unix cfg base none out e = e
isolate-IsEnv join is_unix cfg base (some spec) out e =
    let e1 = when-IsEnv cfg.isolate_home _ _ (isolate_home-IsEnv join is_unix base spec out e) e in
    let e2 = when-IsEnv cfg.isolate_temp _ _ (isolate_temp-IsEnv base spec _ e1) e1 in
    when-IsEnv cfg.isolate_xdg _ _ (isolate_xdg-IsEnv base spec _ e2) e2

apply_set-IsEnv :
    (deny : List Text) (set out : Map Text)
    → All (λ e. has_equals e.0 ≡ false) set
    → IsEnv out
    → IsEnv (apply_set deny set out)
unfolding apply_set
apply_set-IsEnv deny [] out named e = e
apply_set-IsEnv deny ((k, v) ∷ set) out named e =
    apply_set-IsEnv deny set _ named.1
      (when-IsEnv (is_denied deny k) _ _ e (insert-IsEnv k v out named.0 e))

pub lookup-drop_denied :
    (deny : List Text) (k : Text) (m : Map Text)
    → lookup k (drop_denied deny m) ≡ (if is_denied deny k then none else lookup k m)
unfolding drop_denied lookup
lookup-drop_denied deny k [] = ground arith
lookup-drop_denied deny k ((j, v) ∷ m) =
    ground (arith, lookup-drop_denied deny k m, eq_text_iff j k)

drop_denied-IsEnv : (deny : List Text) (m : Map Text) → IsEnv m → IsEnv (drop_denied deny m)
unfolding drop_denied
drop_denied-IsEnv deny [] e = e
drop_denied-IsEnv deny ((k, v) ∷ m) e =
    let rest = drop_denied-IsEnv deny m (e.0.1, e.1.1) in
    when-IsEnv (is_denied deny k) _ _ rest
      ((ground (arith, lookup-drop_denied deny k m, e.0.0), rest.0), (e.1.0, rest.1))

-- The static entries of the configuration have names without '='.
abbrev pub IsNamed : Map Text → Type 0
IsNamed set = All (λ e. has_equals e.0 ≡ false) set

pub variables-IsEnv :
    (join : Text → Text → Text) (is_unix : Bool) (cfg : EnvConfig) (base : List Text)
    (spec : Option Spec)
    → IsNamed cfg.set
    → IsEnv (variables join is_unix cfg base spec)
unfolding variables
variables-IsEnv join is_unix cfg base spec named = drop_denied-IsEnv cfg.deny _ (
    apply_set-IsEnv cfg.deny cfg.set _ named
      (isolate-IsEnv join is_unix cfg base spec _ (inherit_all-IsEnv cfg base [] (tt, tt))))

-- The sort keeps what a name stands for.
lookup-sort_entry :
    (x : Text) (e : Text × Text) (m : Map Text)
    → lookup e.0 m ≡ none
    → lookup x (sort_entry e m) ≡ lookup x (e ∷ m)
unfolding sort_entry lookup
lookup-sort_entry x e [] h = refl
lookup-sort_entry x e (f ∷ m) h =
    ground
      (arith, h, lookup-sort_entry x e m, eq_text_iff e.0 x, eq_text_iff f.0 x, eq_text_iff f.0 e.0)

lookup-sort_entries : (x : Text) (m : Map Text) → Unique m → lookup x (sort_entries m) ≡ lookup x m
unfolding sort_entries lookup
lookup-sort_entries x [] u = refl
lookup-sort_entries x ((k, v) ∷ m) u =
    lookup-sort_entry x (k, v) (sort_entries m) (lookup-sort_entries k m u.1 ∙ u.0)
    ∙ ground (arith, lookup-sort_entries x m u.1)

has_prefix-entry :
    (k v name : Text)
    → has_equals k ≡ false
    → has_equals name ≡ false
    → has_prefix (k ++ b'=' ∷ v) (name ++ b'=' ∷ []) ≡ eq_text k name
unfolding has_prefix has_equals eq_text
has_prefix-entry [] v [] h g = ground arith
has_prefix-entry [] v (d ∷ name) h g = ground arith
has_prefix-entry (c ∷ k) v [] h g = ground arith
has_prefix-entry (c ∷ k) v (d ∷ name) h g = ground (arith, has_prefix-entry k v name)

after-entry : (k v : Text) → after (k ++ b'=' ∷ []) (k ++ b'=' ∷ v) ≡ v
unfolding after
after-entry [] v = refl
after-entry (c ∷ k) v = after-entry k v

-- A child that reads its entries finds the variables.
lookup_env-entries :
    (m : Map Text) (name : Text)
    → All (λ e. has_equals e.0 ≡ false) m
    → has_equals name ≡ false
    → lookup_env (map (λ e. e.0 ++ b'=' ∷ e.1) m) name ≡ lookup name m
unfolding lookup_env lookup
lookup_env-entries [] name a h = refl
lookup_env-entries ((k, v) ∷ m) name a h = elim (Bool-cases (eq_text k name)) [
  | inl same ↦
      rw (has_prefix-entry k v name a.0 h, same)
        (ap (λ n. some (after (n ++ b'=' ∷ []) (k ++ b'=' ∷ v))) (sym ((eq_text_iff k name).0 same))
          ∙ ap some (after-entry k v))
  | inr other ↦ rw (has_prefix-entry k v name a.0 h, other) (lookup_env-entries m name a.1 h)
]

module _ {ℓ} (P : Text × Text → Type ℓ) where
  All-sort_entry : (e : Text × Text) (m : Map Text) → P e → All P m → All P (sort_entry e m)
  unfolding sort_entry
  All-sort_entry e [] p a = (p, tt)
  All-sort_entry e (f ∷ m) p a = ground (arith, All-sort_entry e m p a.1)

  pub All-sort_entries : (m : Map Text) → All P m → All P (sort_entries m)
  unfolding sort_entries
  All-sort_entries [] a = tt
  All-sort_entries (e ∷ m) a = All-sort_entry e (sort_entries m) a.0 (All-sort_entries m a.1)

-- What a child reads in the environment that Build gives it.
pub lookup_env-build :
    (join : Text → Text → Text) (is_unix : Bool) (cfg : EnvConfig) (base : List Text)
    (spec : Option Spec) (name : Text)
    → IsNamed cfg.set
    → has_equals name ≡ false
    → lookup_env (build join is_unix cfg base spec) name
      ≡ lookup name (variables join is_unix cfg base spec)
unfolding build
lookup_env-build join is_unix cfg base spec name named h =
    let m = variables join is_unix cfg base spec in
    let env = variables-IsEnv join is_unix cfg base spec named in
    lookup_env-entries (sort_entries m) name
      (All-sort_entries (λ e. has_equals e.0 ≡ false) m env.1) h
    ∙ lookup-sort_entries name m env.0
