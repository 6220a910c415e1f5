-- ===== src/Registry.antt =====
-- internal/registry/registry.go: the tool registry and the resolution of requirements. The detectors'
-- findings are an argument of Detect.
mod Listing
pub mod Resolution
pub mod Ties
mod Examples
use agent_runtime_harness.Prelude.{
  ℕ, ltb, Text, text, equal_fold, Option, none, some, Bool, true, false, not, ◌&&◌, List, [], ◌∷◌,
  Map, lookup, insert, if◌then◌else◌, keep,
}
use agent_runtime_harness.Model.{Tool}
use agent_runtime_harness.Versions.{Requirement, text_ltb, score_version}

-- The tools, in the order of List: sort.Slice by an id that is unique has one result, to which each
-- tool is added here.
unfoldable pub sort_in : Tool → List Tool → List Tool
unfolding text_ltb
sort_in t [] = t ∷ []
sort_in t (u ∷ us) = let rest = u ∷ sort_in t us in if text_ltb u.id t.id then rest else t ∷ u ∷ us

-- List
unfoldable pub list_tools : Map Tool → List Tool
unfolding sort_in
list_tools [] = []
list_tools ((id, t) ∷ m) = sort_in t (list_tools m)

-- Register
unfoldable pub register : Tool → Map Tool → Map Tool
unfolding insert
register t m = insert t.id t m

-- Detect, over all that the detectors find: a tool that is there stays, and the ids of the new ones are
-- returned.
unfoldable pub detect : List Tool → Map Tool → Map Tool × List Text
unfolding lookup register
detect [] m = (m, [])
detect (t ∷ ts) m = elim (lookup t.id m) [
  | some u ↦ detect ts m
  | none ↦
      let r = detect ts (register (record t { source = text "detected" }) m) in (r.0, t.id ∷ r.1)
]

-- A tool of the requirement's type that is not disabled.
unfoldable pub is_candidate : Requirement → Tool → Bool
unfolding equal_fold
is_candidate req t = not t.disabled && equal_fold t.kind req.kind

pub data ResolveResult : Type 0 where
  resolved : Tool → ResolveResult
  no_candidate : ResolveResult
  unsatisfied : ResolveResult

-- One round: a candidate with a higher score is the best one.
unfoldable pub improve : Option (ℕ × Tool) → Tool → Option ℕ → Option (ℕ × Tool)
improve best t none = best
improve none t (some score) = some (score, t)
improve (some (old, u)) t (some score) = if ltb old score then some (score, t) else some (old, u)

-- The loop over the candidates.
unfoldable pub best_of : Requirement → List Tool → Option (ℕ × Tool) → Option (ℕ × Tool)
unfolding improve score_version
best_of req [] best = best
best_of req (t ∷ ts) best = best_of req ts (improve best t (score_version t.version req))

unfoldable pub answer : Option (ℕ × Tool) → ResolveResult
answer none = unsatisfied
answer (some (score, best)) = resolved best

-- Resolve, after the candidates.
unfoldable pub resolve_among : Requirement → List Tool → ResolveResult
unfolding best_of answer
resolve_among req [] = no_candidate
resolve_among req (t ∷ ts) = answer (best_of req (t ∷ ts) none)

-- Resolve
unfoldable pub resolve : Map Tool → Requirement → ResolveResult
unfolding list_tools is_candidate resolve_among
resolve m req = resolve_among req (keep (is_candidate req) (list_tools m))
