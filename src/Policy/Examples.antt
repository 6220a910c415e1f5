-- ===== src/Policy/Examples.antt =====
-- Decisions of internal/policy/policy.go, and its theorems at them.
use agent_runtime_harness.Prelude.{
  ◌≡◌, refl, text, none, true, false, [], ◌∷◌, arith, All, ◌⊎◌, mem_text,
}
use agent_runtime_harness.Policy.{
  PolicyRule, matches, choose, lists, evaluate, always_deny, default_allow,
}
use agent_runtime_harness.Policy.Decisions.{Decides, evaluate_sound, evaluate_skips}

-- "*" may not execute tools, and the agents may do all.
abbrev everybody : PolicyRule
everybody = record { subject = text "*"; allow = text "*" ∷ []; deny = text "tool.execute" ∷ [] }

abbrev agents : PolicyRule
agents = record { subject = text "mcp:*"; allow = text "*" ∷ []; deny = [] }

evaluate_sound_example :
    (mem_text (text "tool.execute") always_deny ≡ false)
    × (((r : PolicyRule) × Decides (text "mcp:a") (everybody ∷ agents ∷ []) r
          × (lists (text "tool.execute") r.deny ≡ false)
          × (lists (text "tool.execute") r.allow ≡ true))
        ⊎ (All (λ s. matches (text "mcp:a") s ≡ false) (everybody ∷ agents ∷ [])
            × (mem_text (text "tool.execute") default_allow ≡ true)))
unfolding evaluate
evaluate_sound_example =
    evaluate_sound (everybody ∷ agents ∷ []) (text "mcp:a") (text "tool.execute") refl

evaluate_skips_example :
    evaluate (agents ∷ everybody ∷ []) (text "mcp:a") (text "tool.execute")
    ≡ evaluate (agents ∷ []) (text "mcp:a") (text "tool.execute")
unfolding choose
evaluate_skips_example =
    evaluate_skips everybody agents (agents ∷ []) [] (text "mcp:a") (text "tool.execute") refl
      (omega arith)

denied_for_others :
    (evaluate (everybody ∷ agents ∷ []) (text "cli:b") (text "tool.execute") ≡ none) → ⊥
unfolding evaluate
denied_for_others e = ground arith

admin_denied : (evaluate [] (text "cli:b") (text "daemon.admin") ≡ none) → ⊥
unfolding evaluate
admin_denied e = ground arith
