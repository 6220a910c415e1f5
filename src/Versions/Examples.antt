-- ===== src/Versions/Examples.antt =====
-- The comparison of versions in internal/registry/registry.go at versions.
use agent_runtime_harness.Prelude.{◌≡◌, refl, text, [], ◌∷◌}
use agent_runtime_harness.Versions.{less, compare_versions}
use agent_runtime_harness.Versions.Numbers.{decimal, dotted}

dotted-text : dotted (6000 ∷ 10 ∷ []) ≡ text "6000.10"
unfolding dotted decimal
dotted-text = refl

-- A word between the numbers: 2 is below 10, 10 is below 1a, and 1a is below 2.
cycle :
    (compare_versions (text "2") (text "10") ≡ less)
    × (compare_versions (text "10") (text "1a") ≡ less)
    × (compare_versions (text "1a") (text "2") ≡ less)
unfolding compare_versions
cycle = (refl, refl, refl)
