-- ===== src/Versions.antt =====
-- internal/registry/registry.go: versions of tools, how they compare, and requirements on them. An int
-- is its 64-bit pattern. The comparison of two strings is that of their bytes.
pub mod Order
pub mod Numbers
mod Examples
use agent_runtime_harness.Prelude.{
  ℕ, zero, suc, ◌+◌, ◌-◌, ◌*◌, ◌%◌, ◌^◌, ◌==◌, ltb, leb, Text, text, eq_text, Option, none, some,
  Bool, true, false, not, ◌&&◌, ◌||◌, List, [], ◌∷◌, ◌++◌, if◌then◌else◌,
}

-- Requirement
pub record Requirement : Type 0 where
  pub kind : Text
  pub constraint : Text
  pub version : Text
  pub raw : Text

-- The results -1, 0 and 1.
pub data Comparison : Type 0 where
  less same more : Comparison

unfoldable pub is_separator : ℕ → Bool
is_separator c = c == 46 || c == 45 || c == 95 || c == 32

-- A field that ends, where it is not empty.
unfoldable pub flush : Text → List Text → List Text
flush [] fields = fields
flush (c ∷ s) fields = (c ∷ s) ∷ fields

-- strings.FieldsFunc, after the bytes of the field that is being read.
unfoldable pub fields_from : Text → Text → List Text
unfolding is_separator flush
fields_from field [] = flush field []
fields_from field (c ∷ s) =
    let apart = flush field (fields_from [] s) in
    let along = fields_from (field ++ c ∷ []) s in if is_separator c then apart else along

-- splitVer
unfoldable pub split_ver : Text → List Text
unfolding fields_from
split_ver v = fields_from [] v

-- The loop of parseNum after the digits that made n.
unfoldable pub parse_num_from : ℕ → Text → Option ℕ
parse_num_from n [] = some n
parse_num_from n (c ∷ s) =
    let rest = parse_num_from ((n * 10 + (c - 48)) % 2 ^ 64) s in
    if leb 48 c && leb c 57 then rest else none

-- parseNum
unfoldable pub parse_num : Text → Option ℕ
unfolding parse_num_from
parse_num s = parse_num_from 0 s

-- a < b on ints
unfoldable pub int_ltb : ℕ → ℕ → Bool
int_ltb a b = ltb ((a + 2 ^ 63) % 2 ^ 64) ((b + 2 ^ 63) % 2 ^ 64)

-- s < t on strings
unfoldable pub text_ltb : Text → Text → Bool
text_ltb s [] = false
text_ltb [] (d ∷ t) = true
text_ltb (c ∷ s) (d ∷ t) = let rest = text_ltb s t in if c == d then rest else ltb c d

unfoldable pub compare_ints : ℕ → ℕ → Comparison
unfolding int_ltb
compare_ints a b = if a == b then same else if int_ltb a b then less else more

unfoldable pub compare_texts : Text → Text → Comparison
unfolding text_ltb eq_text
compare_texts s t = if eq_text s t then same else if text_ltb s t then less else more

-- One round of the loop of compareVersions, where same goes on.
unfoldable pub compare_segments : Text → Text → Comparison
unfolding parse_num compare_ints compare_texts
compare_segments s t = elim (parse_num s) [
  | none ↦ compare_texts s t
  | some a ↦ elim (parse_num t) [ none ↦ compare_texts s t | some b ↦ compare_ints a b ]
]

unfoldable pub or_else : Comparison → Comparison → Comparison
or_else same c = c
or_else less c = less
or_else more c = more

-- The loop; a version that has ended goes on with "0".
unfoldable pub compare_fields : List Text → List Text → Comparison
unfolding compare_segments or_else
compare_fields [] [] = same
compare_fields (s ∷ ss) [] = or_else (compare_segments s (text "0")) (compare_fields ss [])
compare_fields [] (t ∷ ts) = or_else (compare_segments (text "0") t) (compare_fields [] ts)
compare_fields (s ∷ ss) (t ∷ ts) = or_else (compare_segments s t) (compare_fields ss ts)

-- compareVersions
unfoldable pub compare_versions : Text → Text → Comparison
unfolding split_ver compare_fields
compare_versions a b = compare_fields (split_ver a) (split_ver b)

unfoldable same_head : List Text → List Text → Bool
unfolding eq_text
same_head (s ∷ ss) (t ∷ ts) = eq_text s t
same_head ss ts = false

-- sameMajor
unfoldable pub same_major : Text → Text → Bool
unfolding split_ver same_head
same_major a b = same_head (split_ver a) (split_ver b)

unfoldable is_same : Comparison → Bool
is_same same = true
is_same _ = false

unfoldable is_less : Comparison → Bool
is_less less = true
is_less _ = false

unfoldable pub is_more : Comparison → Bool
is_more more = true
is_more _ = false

-- The switch of scoreVersion.
unfoldable pub passes : Text → Comparison → Bool → Bool
unfolding eq_text is_same is_less is_more
passes constraint c major =
    if eq_text constraint (text "") || eq_text constraint (text "=")
    then is_same c
    else if eq_text constraint (text ">=")
    then not (is_less c)
    else if eq_text constraint (text ">")
    then is_more c
    else if eq_text constraint (text "<=")
    then not (is_more c)
    else if eq_text constraint (text "<")
    then is_less c
    else if eq_text constraint (text "^")
    then not (is_less c) && major
    else false

-- The comparison plus 1.
unfoldable pub score_of : Comparison → ℕ
score_of less = 0
score_of same = 1
score_of more = 2

-- scoreVersion, with none for -1.
unfoldable pub score_version : Text → Requirement → Option ℕ
unfolding compare_versions same_major passes score_of eq_text
score_version version req =
    if eq_text req.version (text "")
    then some 0
    else if eq_text version (text "")
    then none
    else if passes req.constraint (compare_versions version req.version)
        (same_major version req.version)
    then some (score_of (compare_versions version req.version))
    else none
