-- ===== src/Runs/Logs.antt =====
-- The lines of a log in internal/runs/runs.go.
use agent_runtime_harness.Prelude.{
  ℕ, zero, suc, ◌-◌, ◌==◌, ◌≡◌, ◌≤◌, refl, sym, ap, ◌∙◌, Text, List, [], ◌∷◌, ◌++◌, length,
  if◌then◌else◌, arith, inl, inr, Bool-cases,
}
use mathlib.Core.List.{append-nil, append_assoc}
use agent_runtime_harness.Runs.{lines_from, split_lines, join_lines, drop_lines, read_log}

-- A line and more lines, joined.
join_lines-cons :
    (l s : Text) (line : Text)
    → join_lines (l ∷ lines_from line s) ≡ l ++ 10 ∷ join_lines (lines_from line s)
unfolding join_lines lines_from
join_lines-cons l [] line = refl
join_lines-cons l (c ∷ s) line = elim (Bool-cases (c == 10)) [
  | inl newline ↦ rw (newline, lines_from, join_lines) refl
  | inr other ↦ rw (other, lines_from) (join_lines-cons l s (line ++ c ∷ []))
]

join_lines-lines_from : (line s : Text) → join_lines (lines_from line s) ≡ line ++ s
unfolding lines_from join_lines
join_lines-lines_from line [] = sym (append-nil line)
join_lines-lines_from line (c ∷ s) = ground (
  arith,
  join_lines-lines_from [] s,
  join_lines-lines_from (line ++ c ∷ []) s,
  join_lines-cons line s [],
  append_assoc line (c ∷ []) s,
)

-- Joining the lines of a text gives the text back.
join_lines-split_lines : (s : Text) → join_lines (split_lines s) ≡ s
unfolding split_lines
join_lines-split_lines s = join_lines-lines_from [] s

drop_lines_zero : (n : ℕ) (ls : List Text) → n ≡ 0 → drop_lines n ls ≡ ls
unfolding drop_lines
drop_lines_zero zero ls e = refl
drop_lines_zero (suc n) ls e = absurd (omega (arith, e))

-- A tail of at least as many lines as the log has gives the whole log.
read_log_whole :
    (s : Text) (tail : ℕ) → 1 ≤ tail → length (split_lines s) ≤ tail → read_log s tail ≡ s
unfolding read_log
read_log_whole s tail pos le =
    let n = (if tail == 0 then 200 else tail) in
    ap join_lines (drop_lines_zero (length (split_lines s) - n) (split_lines s) (ground arith))
    ∙ join_lines-split_lines s
