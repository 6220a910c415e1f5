-- ===== src/Prelude/Strings.antt =====
-- Go strings as lists of bytes (ASCII text), with the functions of the package strings that the
-- program calls.
use Prim.Native.Nat.{ℕ, ◌+◌}
use Prim.Native.Char.{code}
use Prim.Native.String.{String}
use mathlib.Core.Path.{◌≡◌, refl, ap}
use mathlib.Core.Logic.{◌↔◌}
use mathlib.Core.Bool.{Bool, true, false, ◌&&◌, ◌||◌}
use mathlib.Core.List.{List, [], ◌∷◌, ◌++◌, map}
use native.Mathlib.Omega.{arith}
use agent_runtime_harness.Prelude.Tests.{◌==◌, leb, if◌then◌else◌}

abbrev pub Text : Type 0
Text = List ℕ

-- The bytes of a literal.
abbrev pub text : String → Text
text String.[] = []
text (String.◌∷◌ c s) = code c ∷ text s

-- s == t on strings
unfoldable pub eq_text : Text → Text → Bool
eq_text [] [] = true
eq_text [] (d ∷ t) = false
eq_text (c ∷ s) [] = false
eq_text (c ∷ s) (d ∷ t) = c == d && eq_text s t

pub eq_text_iff : (s t : Text) → (eq_text s t ≡ true) ↔ (s ≡ t)
unfolding eq_text
eq_text_iff [] [] = ground arith
eq_text_iff [] (d ∷ t) = ground arith
eq_text_iff (c ∷ s) [] = ground arith
eq_text_iff (c ∷ s) (d ∷ t) = ground (arith, eq_text_iff s t)

pub eq_text_refl : (s : Text) → eq_text s s ≡ true
eq_text_refl s = (eq_text_iff s s).1 refl

-- strings.HasPrefix(s, p)
unfoldable pub has_prefix : Text → Text → Bool
has_prefix s [] = true
has_prefix [] (d ∷ p) = false
has_prefix (c ∷ s) (d ∷ p) = c == d && has_prefix s p

pub has_prefix-append : (p r : Text) → has_prefix (p ++ r) p ≡ true
unfolding has_prefix
has_prefix-append [] r = refl
has_prefix-append (c ∷ p) r = ground (arith, has_prefix-append p r)

-- A prefix is what the text begins with.
has_prefix_split : (s p : Text) → has_prefix s p ≡ true → (r : Text) × (s ≡ p ++ r)
unfolding has_prefix
has_prefix_split s [] h = (s, refl)
has_prefix_split [] (d ∷ p) h = absurd (ground arith)
has_prefix_split (c ∷ s) (d ∷ p) h =
    let (r, e) = has_prefix_split s p (ground arith) in (r, ground arith)

-- strings.TrimPrefix(s, p)
unfoldable pub trim_prefix : Text → Text → Text
trim_prefix s [] = s
trim_prefix [] (d ∷ p) = []
trim_prefix (c ∷ s) (d ∷ p) =
    let rest = trim_prefix s p in if c == d && has_prefix s p then rest else c ∷ s

-- strings.HasSuffix(s, p) and strings.TrimSuffix(s, p) for a suffix of one byte
unfoldable pub has_last : Text → ℕ → Bool
has_last [] c = false
has_last (d ∷ []) c = d == c
has_last (d ∷ e ∷ s) c = has_last (e ∷ s) c

unfoldable pub trim_last : Text → ℕ → Text
trim_last [] c = []
trim_last (d ∷ []) c = if d == c then [] else d ∷ []
trim_last (d ∷ e ∷ s) c = d ∷ trim_last (e ∷ s) c

pub trim_last-append : (s : Text) (c : ℕ) → trim_last (s ++ c ∷ []) c ≡ s
unfolding trim_last
trim_last-append [] c = ground arith
trim_last-append (d ∷ []) c = ground arith
trim_last-append (d ∷ e ∷ s) c = ap (◌∷◌ d) (trim_last-append (e ∷ s) c)

-- strings.ToLower on ASCII
unfoldable lower : ℕ → ℕ
lower c = if leb 65 c && leb c 90 then c + 32 else c

unfoldable pub to_lower : Text → Text
unfolding lower
to_lower = map lower

-- strings.EqualFold(s, t) on ASCII
unfoldable pub equal_fold : Text → Text → Bool
unfolding to_lower eq_text
equal_fold s t = eq_text (to_lower s) (to_lower t)

-- Whether a text stands in a list.
unfoldable pub mem_text : Text → List Text → Bool
mem_text s [] = false
mem_text s (t ∷ ts) = eq_text t s || mem_text s ts
