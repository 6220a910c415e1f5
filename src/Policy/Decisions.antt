-- ===== src/Policy/Decisions.antt =====
-- What Evaluate of internal/policy/policy.go allows.
use agent_runtime_harness.Prelude.{
  ◌≤◌, ◌<◌, ◌≡◌, refl, Text, Option, none, some, Bool, true, false, ◌&&◌, List, [], ◌∷◌, ◌++◌,
  length, arith, All, ◌⊎◌, inl, inr, Bool-cases, Option-cases, subst, mem_text,
}
use agent_runtime_harness.Policy.{
  PolicyRule, matches, is_longer, choose, lists, apply_rule, judge, refusal, evaluate, always_deny,
  default_allow,
}
use agent_runtime_harness.Policy.Choice.{IsBest, IsMatch, choose_longest, choose_ignores}

-- A rule stands in a list.
abbrev pub Stands : PolicyRule → List PolicyRule → Type 0
Stands r [] = ⊥
Stands r (s ∷ rules) = (r ≡ s) ⊎ Stands r rules

-- The rule that decides about a subject: one of the rules that match it, and no matching rule has a
-- longer subject.
pub record Decides (subject : Text) (rules : List PolicyRule) (r : PolicyRule) : Type 0 where
  pub stands : Stands r rules
  pub matching : matches subject r ≡ true
  pub longest : All (λ s. matches subject s ≡ true → length s.subject ≤ length r.subject) rules

choose-Stands :
    (subject : Text) (chosen : Option PolicyRule) (rules : List PolicyRule) (r : PolicyRule)
    → choose subject chosen rules ≡ some r
    → (chosen ≡ some r) ⊎ Stands r rules
unfolding choose
choose-Stands subject chosen [] r e = inl e
choose-Stands subject chosen (s ∷ rules) r e =
    elim (Bool-cases (matches subject s && is_longer s chosen)) [
      | inl better ↦ elim (choose-Stands subject (some s) rules r (rw better at e)) [
        | inl here ↦ inr (inl (ground arith))
        | inr there ↦ inr (inr there)
      ]
      | inr worse ↦ elim (choose-Stands subject chosen rules r (rw worse at e)) [
        | inl before ↦ inl before
        | inr there ↦ inr (inr there)
      ]
    ]

choose-Decides :
    (subject : Text) (rules : List PolicyRule) (r : PolicyRule)
    → choose subject none rules ≡ some r
    → Decides subject rules r
choose-Decides subject rules r e =
    let best =
      subst (λ c. IsMatch subject c × All (IsBest subject c) rules) e
        (choose_longest subject rules) in
    record {
      stands = elim (choose-Stands subject none rules r e) [
        | inl start ↦ absurd (ground arith)
        | inr there ↦ there
      ];
      matching = best.0;
      longest = best.1;
    }

judge_sound :
    (is_reserved is_default : Bool) (chosen : Option PolicyRule) (capability : Text)
    → judge is_reserved is_default chosen capability ≡ none
    → (is_reserved ≡ false)
      × (((r : PolicyRule) × (chosen ≡ some r)
            × (lists capability r.deny ≡ false)
            × (lists capability r.allow ≡ true))
          ⊎ ((chosen ≡ none) × (is_default ≡ true)))
unfolding judge apply_rule
judge_sound true d chosen capability e = absurd (ground arith)
judge_sound false d none capability e = (refl, inr (refl, ground arith))
judge_sound false d (some r) capability e = (refl, inl (r, refl, ground arith, ground arith))

evaluate-refusal :
    (rules : List PolicyRule) (subject capability : Text)
    → evaluate rules subject capability ≡ none
    → refusal rules subject capability ≡ none
unfolding evaluate
evaluate-refusal rules subject capability e =
    elim (Option-cases (refusal rules subject capability)) [
      | inl nothing ↦ nothing
      | inr (why, refused) ↦ absurd (ground arith)
    ]

-- A call that Evaluate allows is not reserved; and either the rule that decides about the subject
-- lists it under allow and not under deny, or no rule matches the subject and the call stands in
-- the default allowlist.
pub evaluate_sound :
    (rules : List PolicyRule) (subject capability : Text)
    → evaluate rules subject capability ≡ none
    → (mem_text capability always_deny ≡ false)
      × (((r : PolicyRule) × Decides subject rules r
            × (lists capability r.deny ≡ false)
            × (lists capability r.allow ≡ true))
          ⊎ (All (λ s. matches subject s ≡ false) rules
              × (mem_text capability default_allow ≡ true)))
unfolding refusal
evaluate_sound rules subject capability e =
    let j =
      judge_sound (mem_text capability always_deny) (mem_text capability default_allow)
        (choose subject none rules) capability (evaluate-refusal rules subject capability e) in
    (
      j.0,
      elim j.1 [
        | inl (r, chosen, not_denied, allowed) ↦
            inl (r, choose-Decides subject rules r chosen, not_denied, allowed)
        | inr (nothing, default) ↦ inr (
          (subst (λ c. IsMatch subject c × All (IsBest subject c) rules) nothing
              (choose_longest subject rules)).1,
          default,
        )
      ],
    )

-- A rule whose subject is shorter than that of the deciding rule is not consulted, wherever it stands: what
-- it denies is allowed all the same.
pub evaluate_skips :
    (d r : PolicyRule) (front rules : List PolicyRule) (subject capability : Text)
    → choose subject none (front ++ rules) ≡ some r
    → length d.subject < length r.subject
    → evaluate (front ++ d ∷ rules) subject capability
      ≡ evaluate (front ++ rules) subject capability
unfolding evaluate refusal
evaluate_skips d r front rules subject capability e shorter =
    rw (choose_ignores subject d r none front rules e shorter, e) refl
