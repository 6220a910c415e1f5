-- ===== src/Registry/Examples.antt =====
-- The registry of internal/registry/registry.go at two installed editors.
use agent_runtime_harness.Prelude.{
  ℕ, ◌≡◌, ◌≤◌, refl, Text, text, eq_text, eq_text_iff, some, true, false, [], ◌∷◌, Map, lookup,
  Unique, IsKeyed, arith, keep,
}
use agent_runtime_harness.Model.{Tool}
use agent_runtime_harness.Versions.{Requirement, score_version}
use agent_runtime_harness.Registry.{list_tools, is_candidate, resolved, resolve}
use agent_runtime_harness.Registry.Resolution.{resolve_best, resolve_finds}
use agent_runtime_harness.Registry.Ties.{is_scored, resolve_first}

abbrev editor : Text → Text → Tool
editor id version = record {
  id = id;
  kind = text "unity";
  version = version;
  executable = text "/opt/Unity";
  version_command = [];
  args = [];
  env = [];
  capabilities = [];
  source = text "config";
  disabled = false;
  meta = [];
}

abbrev old_editor : Tool
old_editor = editor (text "a") (text "6000.1")

abbrev new_editor : Tool
new_editor = editor (text "b") (text "6000.2")

abbrev tools : Map Tool
tools = (text "b", new_editor) ∷ (text "a", old_editor) ∷ []

-- unity > 6000.0
abbrev requirement : Requirement
requirement = record {
  kind = text "unity";
  constraint = text ">";
  version = text "6000.0";
  raw = text "unity > 6000.0";
}

tools_once : Unique tools
unfolding lookup eq_text
tools_once = (refl, (refl, tt))

tools-IsKeyed : IsKeyed (λ u. u.id) tools
unfolding lookup
tools-IsKeyed k v e = ground (arith, eq_text_iff (text "b") k, eq_text_iff (text "a") k)

chosen :
    keep (is_scored requirement) (keep (is_candidate requirement) (list_tools tools))
    ≡ old_editor ∷ new_editor ∷ []
unfolding is_scored is_candidate list_tools score_version
chosen = refl

-- The editor 6000.1, although 6000.2 is installed.
resolve_first_example : resolve tools requirement ≡ resolved old_editor
unfolding eq_text
resolve_first_example =
    resolve_first requirement refl (λ e. absurd (ground arith)) tools old_editor (new_editor ∷ [])
      chosen

resolve_best_example :
    (lookup old_editor.id tools ≡ some old_editor)
    × (is_candidate requirement old_editor ≡ true)
    × (s : ℕ) × (score_version old_editor.version requirement ≡ some s)
    × ((id : Text) (u : Tool) (k : ℕ)
        → lookup id tools ≡ some u
        → is_candidate requirement u ≡ true
        → score_version u.version requirement ≡ some k
        → k ≤ s)
resolve_best_example =
    resolve_best tools requirement old_editor tools_once tools-IsKeyed resolve_first_example

found : lookup (text "b") tools ≡ some new_editor
unfolding lookup eq_text
found = refl

fits : is_candidate requirement new_editor ≡ true
unfolding is_candidate
fits = refl

score : score_version new_editor.version requirement ≡ some 2
unfolding score_version
score = refl

resolve_finds_example : (t : Tool) × (resolve tools requirement ≡ resolved t)
resolve_finds_example = resolve_finds tools requirement (text "b") new_editor 2 found fits score
