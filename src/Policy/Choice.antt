-- ===== src/Policy/Choice.antt =====
-- The rule that Evaluate of internal/policy/policy.go goes by.
use agent_runtime_harness.Prelude.{
  ◌≤◌, ◌<◌, ◌≡◌, refl, Text, Option, none, some, true, false, ◌&&◌, List, [], ◌∷◌, ◌++◌, length,
  if◌then◌else◌, arith, All, inl, inr, Bool-cases, subst, sym,
}
use agent_runtime_harness.Policy.{PolicyRule, matches, is_longer, choose}

-- No matching rule has a longer subject than the chosen one; none is chosen if none matches.
abbrev pub IsBest : Text → Option PolicyRule → PolicyRule → Type 0
IsBest subject none r = matches subject r ≡ false
IsBest subject (some c) r = matches subject r ≡ true → length r.subject ≤ length c.subject

abbrev pub IsMatch : Text → Option PolicyRule → Type 0
IsMatch subject none = Unit {0}
IsMatch subject (some c) = matches subject c ≡ true

choose-IsMatch :
    (subject : Text) (chosen : Option PolicyRule) (rules : List PolicyRule)
    → IsMatch subject chosen
    → IsMatch subject (choose subject chosen rules)
unfolding choose is_longer
choose-IsMatch subject chosen [] h = h
choose-IsMatch subject chosen (r ∷ rules) h =
    elim (Bool-cases (matches subject r && is_longer r chosen)) [
      | inl better ↦ rw better (choose-IsMatch subject (some r) rules (ground arith))
      | inr worse ↦ rw worse (choose-IsMatch subject chosen rules h)
    ]

-- Being at least as good as a rule survives the rest of the loop.
choose_keeps :
    (subject : Text) (chosen : Option PolicyRule) (rules : List PolicyRule) (r : PolicyRule)
    → IsBest subject chosen r
    → IsMatch subject chosen
    → IsBest subject (choose subject chosen rules) r
unfolding choose is_longer
choose_keeps subject chosen [] r h m = h
choose_keeps subject chosen (s ∷ rules) r h m =
    elim (Bool-cases (matches subject s && is_longer s chosen)) [
      | inl better ↦
          rw better (choose_keeps subject (some s) rules r (improve chosen better h) (ground arith))
      | inr worse ↦ rw worse (choose_keeps subject chosen rules r h m)
    ]
  where
    improve :
        (c : Option PolicyRule)
        → (matches subject s && is_longer s c) ≡ true
        → IsBest subject c r
        → IsBest subject (some s) r
    improve none b k = λ e. absurd (ground arith)
    improve (some c) b k = λ e. ground (arith, k e)

not_better :
    (subject : Text) (r : PolicyRule) (c : Option PolicyRule)
    → (matches subject r && is_longer r c) ≡ false
    → IsBest subject c r
unfolding is_longer
not_better subject r none h = ground arith
not_better subject r (some c) h = λ e. ground arith

choose-cons :
    (subject : Text) (r : PolicyRule) (chosen : Option PolicyRule) (rules : List PolicyRule)
    → choose subject chosen (r ∷ rules)
      ≡ choose subject (if matches subject r && is_longer r chosen then some r else chosen) rules
unfolding choose
choose-cons subject r chosen rules = refl

-- Whatever was chosen before the loop, no matching rule is longer than the choice at its end.
choose-All :
    (subject : Text) (chosen : Option PolicyRule) (rules : List PolicyRule)
    → IsMatch subject chosen
    → All (IsBest subject (choose subject chosen rules)) rules
choose-All subject chosen [] m = tt
choose-All subject chosen (r ∷ rules) m =
    subst (λ c. IsBest subject c r × All (IsBest subject c) rules)
      (sym (choose-cons subject r chosen rules))
      (elim (Bool-cases (matches subject r && is_longer r chosen)) [
        | inl better ↦ rw better (
          choose_keeps subject (some r) rules r (λ e. omega arith) (ground arith),
          choose-All subject (some r) rules (ground arith),
        )
        | inr worse ↦ rw worse (
          choose_keeps subject chosen rules r (not_better subject r chosen worse) m,
          choose-All subject chosen rules m,
        )
      ])

-- The rule that the loop chooses matches the subject, and no matching rule has a longer subject; it
-- chooses none only where no rule matches.
pub choose_longest :
    (subject : Text) (rules : List PolicyRule)
    → IsMatch subject (choose subject none rules)
      × All (IsBest subject (choose subject none rules)) rules
choose_longest subject rules =
    (choose-IsMatch subject none rules tt, choose-All subject none rules tt)

-- The choice so far is no longer than d.
abbrev IsShort : Option PolicyRule → PolicyRule → Type 0
IsShort none d = Unit {0}
IsShort (some c) d = length c.subject ≤ length d.subject

IsShort-is_longer :
    (s d : PolicyRule) (c : Option PolicyRule)
    → IsShort c d
    → is_longer s (some d) ≡ true
    → is_longer s c ≡ true
unfolding is_longer
IsShort-is_longer s d none h e = refl
IsShort-is_longer s d (some c) h e = ground arith

-- Starting from a rule that is shorter than the one chosen in the end changes nothing.
choose_skips :
    (subject : Text) (d r : PolicyRule) (chosen : Option PolicyRule) (rules : List PolicyRule)
    → IsShort chosen d
    → choose subject chosen rules ≡ some r
    → length d.subject < length r.subject
    → choose subject (some d) rules ≡ some r
unfolding choose
choose_skips subject d r none [] k e h = absurd (ground arith)
choose_skips subject d r (some c) [] k e h = absurd (ground arith)
choose_skips subject d r chosen (s ∷ rules) k e h =
    elim (Bool-cases (matches subject s && is_longer s (some d))) [
      | inl longer ↦ ground (arith, IsShort-is_longer s d chosen k)
      | inr shorter ↦ elim (Bool-cases (matches subject s && is_longer s chosen)) [
        | inl better ↦
            rw shorter (
              choose_skips subject d r (some s) rules (not_longer shorter better) (rw better at e)
                h)
        | inr worse ↦ rw shorter (choose_skips subject d r chosen rules k (rw worse at e) h)
      ]
    ]
  where
    not_longer :
        (matches subject s && is_longer s (some d)) ≡ false
        → (matches subject s && is_longer s chosen) ≡ true
        → length s.subject ≤ length d.subject
    not_longer f g = unfold is_longer in ground arith

-- A rule in a list that is shorter than the one chosen in the end changes nothing.
pub choose_ignores :
    (subject : Text) (d r : PolicyRule) (chosen : Option PolicyRule) (front rules : List PolicyRule)
    → choose subject chosen (front ++ rules) ≡ some r
    → length d.subject < length r.subject
    → choose subject chosen (front ++ d ∷ rules) ≡ some r
unfolding choose
choose_ignores subject d r chosen [] rules e h =
    elim (Bool-cases (matches subject d && is_longer d chosen)) [
      | inl better ↦
          rw (better, choose)
            (choose_skips subject d r chosen rules (shorter_choice chosen better) e h)
      | inr worse ↦ rw (worse, choose) e
    ]
  where
    shorter_choice :
        (c : Option PolicyRule) → (matches subject d && is_longer d c) ≡ true → IsShort c d
    shorter_choice none b = tt
    shorter_choice (some c) b = unfold is_longer in ground arith
choose_ignores subject d r chosen (s ∷ front) rules e h =
    choose_ignores subject d r (if matches subject s && is_longer s chosen then some s else chosen)
      front rules e h
