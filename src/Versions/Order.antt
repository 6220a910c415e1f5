-- ===== src/Versions/Order.antt =====
-- compareVersions of internal/registry/registry.go is symmetric: it turns round with its arguments.
use agent_runtime_harness.Prelude.{
  ℕ, ◌+◌, ◌*◌, ◌-◌, ◌%◌, ◌^◌, ◌≡◌, ◌<◌, refl, Text, text, eq_text, eq_text_iff, some, false, not,
  List, [], ◌∷◌, arith, inl, inr, Option-cases,
}
use agent_runtime_harness.Versions.{
  Comparison, less, same, more, parse_num_from, parse_num, int_ltb, text_ltb, compare_ints,
  compare_texts, compare_segments, or_else, compare_fields, compare_versions, split_ver,
}

-- The other way round.
unfoldable flip : Comparison → Comparison
flip less = more
flip same = same
flip more = less

parse_num_from_lt : (n v : ℕ) (s : Text) → n < 2 ^ 64 → parse_num_from n s ≡ some v → v < 2 ^ 64
unfolding parse_num_from
parse_num_from_lt n v [] lt e = ground arith
parse_num_from_lt n v (c ∷ s) lt e =
    ground (arith, parse_num_from_lt ((n * 10 + (c - 48)) % 2 ^ 64) v s (omega arith))

parse_num_lt : (v : ℕ) (s : Text) → parse_num s ≡ some v → v < 2 ^ 64
unfolding parse_num
parse_num_lt v s e = parse_num_from_lt 0 v s (omega arith) e

compare_ints-flip : (a b : ℕ) → a < 2 ^ 64 → b < 2 ^ 64 → compare_ints b a ≡ flip (compare_ints a b)
unfolding compare_ints int_ltb flip
compare_ints-flip a b la lb = ground arith

text_ltb_total : (s t : Text) → eq_text s t ≡ false → text_ltb t s ≡ not (text_ltb s t)
unfolding text_ltb eq_text
text_ltb_total [] [] e = absurd (ground arith)
text_ltb_total [] (d ∷ t) e = refl
text_ltb_total (c ∷ s) [] e = refl
text_ltb_total (c ∷ s) (d ∷ t) e = ground (arith, text_ltb_total s t)

compare_texts-flip : (s t : Text) → compare_texts t s ≡ flip (compare_texts s t)
unfolding compare_texts flip
compare_texts-flip s t = ground (arith, eq_text_iff s t, eq_text_iff t s, text_ltb_total s t)

compare_segments-flip : (s t : Text) → compare_segments t s ≡ flip (compare_segments s t)
unfolding compare_segments
compare_segments-flip s t = elim (Option-cases (parse_num s)) [
  | inl word ↦ elim (Option-cases (parse_num t)) [
    | inl word' ↦ rw (word, word', compare_segments) (compare_texts-flip s t)
    | inr (b, number') ↦ rw (word, number', compare_segments, word) (compare_texts-flip s t)
  ]
  | inr (a, number) ↦ elim (Option-cases (parse_num t)) [
    | inl word' ↦ rw (number, word', compare_segments) (compare_texts-flip s t)
    | inr (b, number') ↦
        rw (number, number', compare_segments, number)
          (compare_ints-flip a b (parse_num_lt a s number) (parse_num_lt b t number'))
  ]
]

or_else-flip : (c d : Comparison) → or_else (flip c) (flip d) ≡ flip (or_else c d)
unfolding or_else flip
or_else-flip less d = refl
or_else-flip same d = refl
or_else-flip more d = refl

compare_fields-flip : (ss ts : List Text) → compare_fields ts ss ≡ flip (compare_fields ss ts)
unfolding compare_fields flip
compare_fields-flip [] [] = refl
compare_fields-flip (s ∷ ss) [] =
    rw (compare_segments-flip s (text "0"), compare_fields-flip ss [])
      (or_else-flip (compare_segments s (text "0")) (compare_fields ss []))
compare_fields-flip [] (t ∷ ts) =
    rw (compare_segments-flip (text "0") t, compare_fields-flip [] ts)
      (or_else-flip (compare_segments (text "0") t) (compare_fields [] ts))
compare_fields-flip (s ∷ ss) (t ∷ ts) =
    rw (compare_segments-flip s t, compare_fields-flip ss ts)
      (or_else-flip (compare_segments s t) (compare_fields ss ts))

-- Comparing two versions the other way round gives the opposite result, words and overflowing numbers
-- included.
compare_versions-flip : (a b : Text) → compare_versions b a ≡ flip (compare_versions a b)
unfolding compare_versions
compare_versions-flip a b = compare_fields-flip (split_ver a) (split_ver b)
