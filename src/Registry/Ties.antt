-- ===== src/Registry/Ties.antt =====
-- The scores of Resolve of internal/registry/registry.go are -1, 0, 1 and 2 only, so that they do not tell
-- two versions above the required one apart; and what Detect adds.
use agent_runtime_harness.Prelude.{
  ℕ, ◌≡◌, ◌≢◌, refl, sym, ap, ◌∙◌, subst, Text, text, eq_text, eq_text_iff, eq_text_refl, none,
  some, Bool, true, false, List, [], ◌∷◌, Map, lookup, insert, lookup-insert, if◌then◌else◌, keep,
  All, arith, inl, inr, Option-cases,
}
use agent_runtime_harness.Model.{Tool}
use agent_runtime_harness.Versions.{
  Requirement, Comparison, less, same, more, score_version, passes, is_more, score_of,
  compare_versions, same_major,
}
use agent_runtime_harness.Registry.{
  list_tools, register, detect, is_candidate, resolved, improve, best_of, answer, resolve_among,
  resolve,
}
use agent_runtime_harness.Registry.Resolution.{candidates}

unfoldable pub is_scored : Requirement → Tool → Bool
unfolding score_version
is_scored req t = elim (score_version t.version req) [ none ↦ false | some k ↦ true ]

score_of_more : (c : Comparison) (b : Bool) → passes (text ">") c b ≡ true → score_of c ≡ 2
unfolding passes score_of eq_text is_more
score_of_more less b e = absurd (ground arith)
score_of_more same b e = absurd (ground arith)
score_of_more more b e = refl

scored :
    (b c d : Bool) (n k : ℕ)
    → b ≡ false
    → (if b then some 0 else if c then none else if d then some n else none) ≡ some k
    → (d ≡ true) × (n ≡ k)
scored b c d n k e = ground arith

-- Above ">" there is only one score.
score_above :
    (v : Text) (req : Requirement) (k : ℕ)
    → req.constraint ≡ text ">"
    → req.version ≢ []
    → score_version v req ≡ some k
    → k ≡ 2
unfolding score_version
score_above v req k above named e =
    let c = compare_versions v req.version in
    let major = same_major v req.version in
    let r =
      scored (eq_text req.version []) (eq_text v []) (passes req.constraint c major) (score_of c) k
        (ground (arith, eq_text_iff req.version [])) e in
    sym r.1 ∙ score_of_more c major (subst (λ x. passes x c major ≡ true) above r.0)

module _ (req : Requirement) (above : req.constraint ≡ text ">") (named : req.version ≢ []) where
  best_of_stays : (ts : List Tool) (t : Tool) → best_of req ts (some (2, t)) ≡ some (2, t)
  unfolding best_of improve
  best_of_stays [] t = refl
  best_of_stays (u ∷ ts) t = elim (Option-cases (score_version u.version req)) [
    | inl no' ↦ rw (no', best_of, improve) (best_of_stays ts t)
    | inr (k, yes') ↦
        rw (yes', best_of, improve, score_above u.version req k above named yes')
          (best_of_stays ts t)
  ]

  best_of_first :
      (ts : List Tool) (t : Tool) (rest : List Tool)
      → keep (is_scored req) ts ≡ t ∷ rest
      → best_of req ts none ≡ some (2, t)
  unfolding best_of improve is_scored
  best_of_first [] t rest = λ e. absurd (ground arith)
  best_of_first (u ∷ ts) t rest = elim (Option-cases (score_version u.version req)) [
    | inl no' ↦ rw (no', best_of, improve, is_scored) (best_of_first ts t rest)
    | inr (k, yes') ↦
        rw (yes', best_of, improve, is_scored, score_above u.version req k above named yes')
          (λ e. best_of_stays ts u ∙ ap (λ x. some (2, x)) (ground arith))
  ]

  resolve_among_first :
      (ts : List Tool) (t : Tool) (rest : List Tool)
      → keep (is_scored req) ts ≡ t ∷ rest
      → resolve_among req ts ≡ resolved t
  unfolding resolve_among answer
  resolve_among_first [] t rest e = absurd (ground arith)
  resolve_among_first (u ∷ ts) t rest e = ap answer (best_of_first (u ∷ ts) t rest e)

  -- For "type > version" Resolve gives the first tool, by id, that satisfies the requirement, whatever
  -- the others' versions: it does not look for the highest.
  pub resolve_first :
      (m : Map Tool) (t : Tool) (rest : List Tool)
      → keep (is_scored req) (keep (is_candidate req) (list_tools m)) ≡ t ∷ rest
      → resolve m req ≡ resolved t
  unfolding resolve
  resolve_first m t rest e = resolve_among_first (candidates m req) t rest e

All-weaken : {P Q : Text → Type 0} (xs : List Text) → ((x : Text) → P x → Q x) → All P xs → All Q xs
All-weaken [] f a = tt
All-weaken (x ∷ xs) f a = (f x a.0, All-weaken xs f a.1)

abbrev Keeps : List Tool → Map Tool → Map Tool × List Text → Type 0
Keeps ts m r =
    ((id : Text) (t : Tool) → lookup id m ≡ some t → lookup id r.0 ≡ some t)
    × All (λ id. lookup id m ≡ none) r.1
    × All (λ t. lookup t.id r.0 ≢ none) ts

detect_known :
    (u w : Tool) (ts : List Tool) (m : Map Tool)
    → lookup u.id m ≡ some w
    → detect (u ∷ ts) m ≡ detect ts m
unfolding detect
detect_known u w ts m there = rw (there, detect) refl

detect_new :
    (u : Tool) (ts : List Tool) (m : Map Tool)
    → lookup u.id m ≡ none
    → let r = detect ts (insert u.id (record u { source = text "detected" }) m) in
      detect (u ∷ ts) m ≡ (r.0, u.id ∷ r.1)
unfolding detect register
detect_new u ts m new = rw (new, detect) refl

-- Detect leaves every tool that is registered as it is, the ids that it returns were all free, and
-- after it every tool that was found has its id registered.
detect_keeps :
    (ts : List Tool) (m : Map Tool)
    → ((id : Text) (t : Tool) → lookup id m ≡ some t → lookup id (detect ts m).0 ≡ some t)
      × All (λ id. lookup id m ≡ none) (detect ts m).1
      × All (λ t. lookup t.id (detect ts m).0 ≢ none) ts
unfolding detect
detect_keeps [] m = (λ id t e. e, tt, tt)
detect_keeps (u ∷ ts) m = elim (Option-cases (lookup u.id m)) [
  | inr (w, there) ↦
      let r = detect_keeps ts m in
      subst (Keeps (u ∷ ts) m) (sym (detect_known u w ts m there))
        (r.0, r.1, ((λ gone. absurd (ground (arith, r.0 u.id w there))), r.2))
  | inl new ↦
      let u' : Tool = record u { source = text "detected" } in
      let r = detect_keeps ts (insert u.id u' m) in
      let added = r.0 u.id u' (ground (arith, lookup-insert u.id u.id u' m, eq_text_refl u.id)) in
      subst (Keeps (u ∷ ts) m) (sym (detect_new u ts m new)) (
        λ id t e. r.0 id t (ground (arith, lookup-insert u.id id u' m, eq_text_iff u.id id)),
        (new, All-weaken _ (λ id e. ground (arith, lookup-insert u.id id u' m)) r.1),
        ((λ gone. absurd (ground (arith, added))), r.2),
      )
]
