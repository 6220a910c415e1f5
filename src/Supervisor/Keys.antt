-- ===== src/Supervisor/Keys.antt =====
-- The keys "session/pid" of internal/supervisor/supervisor.go, and what its tables hold under them.
use agent_runtime_harness.Prelude.{
  ℕ, zero, suc, ◌%◌, ◌/◌, ◌-◌, ◌==◌, ◌≡◌, refl, sym, ap, ◌∙◌, Text, eq_text, eq_text_iff, none,
  Bool, true, false, ◌||◌, [], ◌∷◌, ◌++◌, length, Map, lookup, insert, lookup-insert, if◌then◌else◌,
  arith, inl, inr, Option-cases, Bool-cases, find, drop_key, find-drop_key, IsTable,
  drop_key-IsTable,
}
use agent_runtime_harness.Ids.{digit, digits, pad, format, scan, scan-format, ten}
use agent_runtime_harness.Supervisor.{pkey, Set, set_of, drop_proc}

unfoldable has_slash : Text → Bool
has_slash [] = false
has_slash (c ∷ s) = c == b'/' || has_slash s

has_slash-append : (s t : Text) → has_slash (s ++ b'/' ∷ t) ≡ true
unfolding has_slash
has_slash-append [] t = refl
has_slash-append (c ∷ s) t = ground (arith, has_slash-append s t)

has_slash-digits :
    (f n : ℕ) (acc : Text) → has_slash acc ≡ false → has_slash (digits 10 f n acc) ≡ false
unfolding digits has_slash digit
has_slash-digits zero n acc h = h
has_slash-digits (suc f) n acc h =
    ground (arith, has_slash-digits f (n / 10) (digit (n % 10) ∷ acc))

has_slash-pad : (w : ℕ) (s : Text) → has_slash s ≡ false → has_slash (pad w s) ≡ false
unfolding pad has_slash
has_slash-pad zero s h = h
has_slash-pad (suc w) s h = ground (arith, has_slash-pad w s h)

has_slash-format : (w n : ℕ) → has_slash (format 10 w n) ≡ false
unfolding format has_slash
has_slash-format w n =
    let ds = digits 10 (suc n) n [] in
    has_slash-pad (w - length ds) ds (has_slash-digits (suc n) n [] refl)

-- The last slash splits a text in one way.
split_slash :
    (s s' t t' : Text)
    → has_slash t ≡ false
    → has_slash t' ≡ false
    → s ++ b'/' ∷ t ≡ s' ++ b'/' ∷ t'
    → (s ≡ s') × (t ≡ t')
unfolding has_slash
split_slash [] [] t t' h h' e = ground arith
split_slash [] (c ∷ s') t t' h h' e = absurd (ground (arith, has_slash-append s' t'))
split_slash (c ∷ s) [] t t' h h' e = absurd (ground (arith, has_slash-append s t))
split_slash (c ∷ s) (d ∷ s') t t' h h' e = ground (arith, split_slash s s' t t' h h')

format-injective : (m n : ℕ) → format 10 1 m ≡ format 10 1 n → m ≡ n
format-injective m n e = sym (scan-format ten [] 1 m) ∙ ap (scan 10 []) e ∙ scan-format ten [] 1 n

-- Two processes never share a key, whatever the session is called.
pkey-injective :
    (sid sid' : Text) (pid pid' : ℕ) → pkey sid pid ≡ pkey sid' pid' → (sid ≡ sid') × (pid ≡ pid')
unfolding pkey
pkey-injective sid sid' pid pid' e =
    let (same, digits') =
      split_slash sid sid' (format 10 1 pid) (format 10 1 pid') (has_slash-format 1 pid)
        (has_slash-format 1 pid') e in
    (same, format-injective pid pid' digits')

-- Whether two processes are the same.
abbrev pub same_proc : Text → ℕ → Text → ℕ → Bool
same_proc sid pid sid' pid' = if eq_text sid sid' then pid == pid' else false

pub eq_text-pkey :
    (sid sid' : Text) (pid pid' : ℕ)
    → eq_text (pkey sid pid) (pkey sid' pid') ≡ same_proc sid pid sid' pid'
eq_text-pkey sid sid' pid pid' = elim (Bool-cases (eq_text (pkey sid pid) (pkey sid' pid'))) [
  | inl same ↦
      let e = (eq_text_iff (pkey sid pid) (pkey sid' pid')).0 same in
      ground (arith, pkey-injective sid sid' pid pid' e, eq_text_iff sid sid')
  | inr other ↦ ground (arith, eq_text_iff sid sid', eq_text_iff (pkey sid pid) (pkey sid' pid'))
]

pub set_of-insert :
    (sid j : Text) (t : Set) (sets : Map Set)
    → set_of j (insert sid t sets) ≡ (if eq_text sid j then t else set_of j sets)
unfolding set_of
set_of-insert sid j t sets = ground (arith, lookup-insert sid j t sets)

pub find-drop_proc :
    (sid j : Text) (pid q : ℕ) (sets : Map Set)
    → find q (set_of j (drop_proc sid pid sets))
      ≡ (if same_proc sid pid j q then none else find q (set_of j sets))
unfolding drop_proc set_of find
find-drop_proc sid j pid q sets = elim (Option-cases (lookup sid sets)) [
  | inl missing ↦ rw (missing, drop_proc) (ground (arith, eq_text_iff sid j))
  | inr (t, found) ↦
      rw (found, drop_proc)
        (ground (
          arith,
          lookup-insert sid j (drop_key pid t) sets,
          find-drop_key pid q t,
          eq_text_iff sid j,
        ))
]

pub drop_proc-IsTable :
    (sid j : Text) (pid : ℕ) (sets : Map Set)
    → ((k : Text) → IsTable (set_of k sets))
    → IsTable (set_of j (drop_proc sid pid sets))
unfolding drop_proc set_of
drop_proc-IsTable sid j pid sets u = elim (Option-cases (lookup sid sets)) [
  | inl missing ↦ rw (missing, drop_proc) (u j)
  | inr (t, found) ↦
      rw (found, drop_proc)
        (ground
          (arith, lookup-insert sid j (drop_key pid t) sets, drop_key-IsTable pid t, u sid, u j))
]
