-- ===== src/Versions/Numbers.antt =====
-- compareVersions of internal/registry/registry.go on versions that are dotted numbers.
use agent_runtime_harness.Prelude.{
  ℕ, suc, ◌^◌, ◌==◌, ◌≡◌, ◌<◌, ltb, Text, false, List, [], ◌∷◌, ◌++◌, if◌then◌else◌,
}
use agent_runtime_harness.Ids.{digits}
use agent_runtime_harness.Versions.{Comparison, less, same, more, is_separator, or_else}

-- A number as the decimal text that fmt.Sprint makes of it.
unfoldable pub decimal : ℕ → Text
unfolding digits
decimal n = digits 10 (suc n) n []

-- Numbers with dots between them.
unfoldable pub dotted : List ℕ → Text
dotted [] = []
dotted (n ∷ []) = decimal n
dotted (n ∷ k ∷ ns) = decimal n ++ 46 ∷ dotted (k ∷ ns)

unfoldable compare_nats : ℕ → ℕ → Comparison
compare_nats a b = if a == b then same else if ltb a b then less else more

-- The numbers compare from the left, and a list that has ended goes on with zeros.
unfoldable pub compare_numbers : List ℕ → List ℕ → Comparison
unfolding compare_nats or_else
compare_numbers [] [] = same
compare_numbers (a ∷ as') [] = or_else (compare_nats a 0) (compare_numbers as' [])
compare_numbers [] (b ∷ bs) = or_else (compare_nats 0 b) (compare_numbers [] bs)
compare_numbers (a ∷ as') (b ∷ bs) = or_else (compare_nats a b) (compare_numbers as' bs)

-- Texts of digits, which split_ver keeps together.
unfoldable IsWord : Text → Type 0
IsWord [] = Unit
IsWord (c ∷ s) = (is_separator c ≡ false) × IsWord s

-- An int that is not negative.
abbrev pub IsSmall : ℕ → Type 0
IsSmall n = n < 2 ^ 63

-- A text that is one field.
abbrev IsField : Text → Type 0
IsField s = IsWord s × (c : ℕ) × (r : Text) × (s ≡ c ∷ r)
