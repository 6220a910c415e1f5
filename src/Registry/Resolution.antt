-- ===== src/Registry/Resolution.antt =====
-- Resolve of internal/registry/registry.go: the tool it gives, and when it gives one.
use agent_runtime_harness.Prelude.{
  ℕ, suc, ◌≡◌, ◌≤◌, ltb, refl, ap, ◌∙◌, Text, Option, none, some, true, List, [], ◌∷◌, Map, lookup,
  Unique, IsKeyed, keep, All, subst, arith, inl, inr, Bool-cases,
}
use agent_runtime_harness.Model.{Tool}
use agent_runtime_harness.Versions.{Requirement, score_version}
use agent_runtime_harness.Registry.{
  list_tools, is_candidate, resolved, improve, best_of, answer, resolve_among, resolve,
}
use agent_runtime_harness.Registry.Listing.{
  All-list_tools_elim, All-list_tools, All-keep, All-keep_elim,
}

-- A score, with 0 for -1.
abbrev rank : Option ℕ → ℕ
rank none = 0
rank (some n) = suc n

abbrev rank_best : Option (ℕ × Tool) → ℕ
rank_best none = 0
rank_best (some (n, t)) = suc n

rank-improve :
    (best : Option (ℕ × Tool)) (t : Tool) (s : Option ℕ)
    → (rank_best best ≤ rank_best (improve best t s)) × (rank s ≤ rank_best (improve best t s))
unfolding improve
rank-improve none t none = omega arith
rank-improve none t (some n) = ground arith
rank-improve (some (k, u)) t none = ground arith
rank-improve (some (k, u)) t (some n) = ground arith

rank-best_of :
    (req : Requirement) (ts : List Tool) (best : Option (ℕ × Tool))
    → (rank_best best ≤ rank_best (best_of req ts best))
      × All (λ u. rank (score_version u.version req) ≤ rank_best (best_of req ts best)) ts
unfolding best_of
rank-best_of req [] best = (omega arith, tt)
rank-best_of req (t ∷ ts) best =
    let sc = score_version t.version req in
    let next = rank-best_of req ts (improve best t sc) in
    let step = rank-improve best t sc in
    (omega (arith, next.0, step.0), (omega (arith, next.0, step.1), next.1))

module _ {ℓ} (P : Tool → Type ℓ) (req : Requirement) where
  -- The best one so far has the property, and its score is its own.
  abbrev IsFair : Option (ℕ × Tool) → Type ℓ
  IsFair best =
      (s : ℕ) (t : Tool) → best ≡ some (s, t) → P t × (score_version t.version req ≡ some s)

  improve-IsFair :
      (best : Option (ℕ × Tool)) (u : Tool) (sc : Option ℕ)
      → score_version u.version req ≡ sc
      → P u
      → IsFair best
      → IsFair (improve best u sc)
  unfolding improve
  improve-IsFair none u none own p fair s t = fair s t
  improve-IsFair (some b) u none own p fair s t = fair s t
  improve-IsFair none u (some n) own p fair s t = λ e. (subst P (ground arith) p, ground arith)
  improve-IsFair (some (k, v)) u (some n) own p fair s t = elim (Bool-cases (ltb k n)) [
    | inl higher ↦ rw higher (λ e. (subst P (ground arith) p, ground arith))
    | inr other ↦ rw other (fair s t)
  ]

  best_of-IsFair :
      (ts : List Tool) (best : Option (ℕ × Tool))
      → All P ts
      → IsFair best
      → IsFair (best_of req ts best)
  unfolding best_of
  best_of-IsFair [] best a fair = fair
  best_of-IsFair (u ∷ ts) best a fair =
      best_of-IsFair ts (improve best u (score_version u.version req)) a.1
        (improve-IsFair best u (score_version u.version req) refl a.0 fair)

-- The candidates of a requirement.
abbrev pub candidates : Map Tool → Requirement → List Tool
candidates m req = keep (is_candidate req) (list_tools m)

answer_best :
    (o : Option (ℕ × Tool)) (t : Tool) → answer o ≡ resolved t → (s : ℕ) × (o ≡ some (s, t))
unfolding answer
answer_best none t e = absurd (ground arith)
answer_best (some (s, u)) t e = (s, ground arith)

resolve_among-best :
    (req : Requirement) (ts : List Tool) (t : Tool)
    → resolve_among req ts ≡ resolved t
    → (s : ℕ) × (best_of req ts none ≡ some (s, t))
unfolding resolve_among best_of
resolve_among-best req [] t e = absurd (ground arith)
resolve_among-best req (u ∷ ts) t e = answer_best (best_of req (u ∷ ts) none) t e

rank_candidate :
    (m : Map Tool) (req : Requirement) (id : Text) (u : Tool)
    → lookup id m ≡ some u
    → is_candidate req u ≡ true
    → rank (score_version u.version req) ≤ rank_best (best_of req (candidates m req) none)
rank_candidate m req id u =
    let best = best_of req (candidates m req) none in
    All-list_tools_elim
      (λ v. is_candidate req v ≡ true → rank (score_version v.version req) ≤ rank_best best) m id u
      (All-keep_elim (λ v. rank (score_version v.version req) ≤ rank_best best) (is_candidate req)
        (list_tools m) (rank-best_of req (candidates m req) none).1)

-- The tool that Resolve gives is registered, enabled and of the type, its version has a score, and no
-- other such tool has a higher one.
pub resolve_best :
    (m : Map Tool) (req : Requirement) (t : Tool)
    → Unique m
    → IsKeyed (λ u. u.id) m
    → resolve m req ≡ resolved t
    → (lookup t.id m ≡ some t)
      × (is_candidate req t ≡ true)
      × (s : ℕ) × (score_version t.version req ≡ some s)
      × ((id : Text) (u : Tool) (k : ℕ)
          → lookup id m ≡ some u
          → is_candidate req u ≡ true
          → score_version u.version req ≡ some k
          → k ≤ s)
unfolding resolve
resolve_best m req t once keyed e =
    let P : Tool → Type 0 = λ u. lookup u.id m ≡ some u in
    let listed =
      All-list_tools P m (λ id u found. ap (λ j. lookup j m) (keyed id u found) ∙ found) once in
    let kept = All-keep P (is_candidate req) (list_tools m) listed in
    let (s, best) = resolve_among-best req (candidates m req) t e in
    let fair =
      best_of-IsFair (λ u. P u × (is_candidate req u ≡ true)) req (candidates m req) none kept
        (λ k u none'. absurd (ground arith)) s t best in
    (
      fair.0.0,
      fair.0.1,
      s,
      fair.1,
      λ id u k found fits score.
          omega (arith, rank_candidate m req id u found fits, ap rank score, ap rank_best best),
    )

resolve_among_some :
    (req : Requirement) (ts : List Tool)
    → 1 ≤ rank_best (best_of req ts none)
    → (t : Tool) × (resolve_among req ts ≡ resolved t)
unfolding resolve_among best_of
resolve_among_some req [] le = absurd (ground arith)
resolve_among_some req (u ∷ ts) le = answer_some (best_of req (u ∷ ts) none) le
  where
    answer_some : (o : Option (ℕ × Tool)) → 1 ≤ rank_best o → (t : Tool) × (answer o ≡ resolved t)
    answer_some none le = absurd (ground arith)
    answer_some (some (s, t)) le = (t, refl)

-- Resolve gives a tool as soon as one that is registered, enabled and of the type has a score.
pub resolve_finds :
    (m : Map Tool) (req : Requirement) (id : Text) (u : Tool) (k : ℕ)
    → lookup id m ≡ some u
    → is_candidate req u ≡ true
    → score_version u.version req ≡ some k
    → (t : Tool) × (resolve m req ≡ resolved t)
unfolding resolve
resolve_finds m req id u k found fits score =
    resolve_among_some req (candidates m req)
      (omega (arith, rank_candidate m req id u found fits, ap rank score))
