-- ===== src/Runs/Numbering.antt =====
-- The numbers of runs in internal/runs/runs.go, before and after a restart.
use agent_runtime_harness.Prelude.{
  ℕ, zero, suc, ◌+◌, ◌-◌, ◌*◌, ◌/◌, ◌%◌, ◌≡◌, ◌≢◌, ◌≤◌, ◌<◌, ltb, refl, sym, ap, ◌∙◌, Text, text,
  eq_text, eq_text_iff, has_prefix, trim_prefix, none, some, Bool, true, false, List, [], ◌∷◌,
  length, All, Map, lookup, insert, lookup-insert, arith, inl, inr, Option-cases, Bool-cases,
}
use agent_runtime_harness.Model.{Run}
use agent_runtime_harness.Ids.{format, scan, scan_digits, digit, digits, pad, scan-format, ten}
use agent_runtime_harness.Runs.{
  Manager, new, run_id, first_bytes, scan_run_seq, new_record, new_run, DirEntry, restore_entry,
  restore_from_disk,
}

run_id-injective : (m n : ℕ) → run_id m ≡ run_id n → m ≡ n
unfolding run_id
run_id-injective m n e =
    sym (scan-format ten (text "run-") 6 m)
    ∙ ap (scan 10 (text "run-")) e
    ∙ scan-format ten (text "run-") 6 n

-- 10 to the power k
bound : ℕ → ℕ
bound zero = 1
bound (suc k) = 10 * bound k

length-digits :
    (k f n : ℕ) (acc : Text)
    → n < f
    → n < bound (suc k)
    → length (digits 10 f n acc) ≤ suc k + length acc
unfolding digits bound
length-digits k zero n acc lt small = elim lt [ ]
length-digits zero (suc f) n acc lt small =
    let last : ltb n 10 ≡ true = ground arith in rw (last, digits) (omega arith)
length-digits (suc k) (suc f) n acc lt small = elim (Bool-cases (ltb n 10)) [
  | inl last ↦ rw (last, digits) (omega arith)
  | inr more ↦
      rw (more, digits)
        (omega (
          arith,
          length-digits k f (n / 10) (digit (n % 10) ∷ acc) (ground arith) (omega (arith, small)),
        ))
]

length-pad : (w : ℕ) (s : Text) → length (pad w s) ≡ w + length s
unfolding pad
length-pad zero s = omega arith
length-pad (suc w) s = omega (arith, length-pad w s)

first_bytes_all : (k : ℕ) (s : Text) → length s ≤ k → first_bytes k s ≡ s
unfolding first_bytes
first_bytes_all zero [] le = refl
first_bytes_all zero (c ∷ s) le = absurd (omega (arith, le))
first_bytes_all (suc k) [] le = refl
first_bytes_all (suc k) (c ∷ s) le = ap (◌∷◌ c) (first_bytes_all k s (omega (arith, le)))

length-format : (n : ℕ) → n < 1000000 → length (format 10 6 n) ≤ 6
unfolding format bound
length-format n small = omega (
  arith,
  length-pad (6 - length (digits 10 (suc n) n [])) (digits 10 (suc n) n []),
  length-digits 5 (suc n) n [] (omega arith) small,
)

scan-format-bare : (n : ℕ) → scan_digits 10 0 (format 10 6 n) ≡ n
unfolding scan has_prefix trim_prefix
scan-format-bare n = scan-format ten [] 6 n

-- The scan reads a run id below one million back.
scan_run_seq-run_id : (n : ℕ) → n < 1000000 → scan_run_seq (run_id n) ≡ n
unfolding scan_run_seq run_id has_prefix trim_prefix
scan_run_seq-run_id n small =
    ap (scan_digits 10 0) (first_bytes_all 6 (format 10 6 n) (length-format n small))
    ∙ scan-format-bare n

-- The entry of a run: its directory has the name of its id, and a number below one million.
abbrev pub IsOwn : DirEntry → Type 0
IsOwn (name, none) = Unit {0}
IsOwn (name, some r) = (n : ℕ) × (n < 1000000) × (name ≡ run_id n) × (r.id ≡ name)

-- Every id in the table is that of a number that was used.
abbrev pub IsNumbered : Manager → Type 0
IsNumbered m =
    (id : Text) (r : Run) → lookup id m.by_id ≡ some r → (n : ℕ) × (n ≤ m.seq) × (id ≡ run_id n)

lookup-insert_old :
    (j k : Text) (v w : Run) (m : Map Run)
    → eq_text j k ≡ false
    → lookup k (insert j v m) ≡ some w
    → lookup k m ≡ some w
lookup-insert_old j k v w m other e = ground (arith, lookup-insert j k v m)

restore_entry-IsNumbered :
    (e : DirEntry) (m : Manager) → IsOwn e → IsNumbered m → IsNumbered (restore_entry e m)
unfolding restore_entry
restore_entry-IsNumbered (name, none) m own numbered id s e = numbered id s e
restore_entry-IsNumbered (name, some r) m (n, small, named, same) numbered id s e =
    let seq' : scan_run_seq name ≡ n = ap scan_run_seq named ∙ scan_run_seq-run_id n small in
    elim (Bool-cases (eq_text r.id id)) [
      | inl this ↦ (n, ground (arith, seq'), sym ((eq_text_iff r.id id).0 this) ∙ same ∙ named)
      | inr other ↦
          let (k, le, own) = numbered id s (lookup-insert_old r.id id _ s m.by_id other e) in
          (k, ground arith, own)
    ]

new_run-IsNumbered :
    (m : Manager) (sid tool_id tool_type command : Text) (now : ℕ) (dir_ok : Bool)
    → IsNumbered m
    → IsNumbered (new_run m sid tool_id tool_type command now dir_ok).0
unfolding new_run new_record
new_run-IsNumbered m sid tool_id tool_type command now false numbered id s e =
    let (k, le, own) = numbered id s e in (k, omega (arith, le), own)
new_run-IsNumbered m sid tool_id tool_type command now true numbered id s e =
    elim (Bool-cases (eq_text (run_id (suc m.seq)) id)) [
      | inl this ↦ (suc m.seq, omega arith, sym ((eq_text_iff (run_id (suc m.seq)) id).0 this))
      | inr other ↦
          let (k, le, own) =
            numbered id s (lookup-insert_old (run_id (suc m.seq)) id _ s m.by_id other e) in
          (k, omega (arith, le), own)
    ]

IsNumbered-fresh :
    (m : Manager) (n : ℕ) → IsNumbered m → m.seq < n → lookup (run_id n) m.by_id ≡ none
IsNumbered-fresh m n numbered lt = elim (Option-cases (lookup (run_id n) m.by_id)) [
  | inl missing ↦ missing
  | inr (r, found) ↦
      let (k, le, e) = numbered (run_id n) r found in absurd (omega (arith, run_id-injective n k e))
]

restore_from_disk-IsNumbered :
    (entries : List DirEntry) (m : Manager)
    → All IsOwn entries
    → IsNumbered m
    → IsNumbered (restore_from_disk entries m)
unfolding restore_from_disk
restore_from_disk-IsNumbered [] m own numbered = numbered
restore_from_disk-IsNumbered (e ∷ entries) m own numbered =
    restore_from_disk-IsNumbered entries (restore_entry e m) own.1
      (restore_entry-IsNumbered e m own.0 numbered)

-- The number n is not that of the directory of a run.
abbrev pub IsAvoided : ℕ → DirEntry → Type 0
IsAvoided n (name, none) = Unit {0}
IsAvoided n (name, some r) = run_id n ≢ name

seq-restore_entry : (e : DirEntry) (m : Manager) → m.seq ≤ (restore_entry e m).seq
unfolding restore_entry
seq-restore_entry (name, none) m = omega arith
seq-restore_entry (name, some r) m = ground arith

seq-restore_from_disk :
    (entries : List DirEntry) (m : Manager) → m.seq ≤ (restore_from_disk entries m).seq
unfolding restore_from_disk
seq-restore_from_disk [] m = omega arith
seq-restore_from_disk (e ∷ entries) m =
    omega (arith, seq-restore_from_disk entries (restore_entry e m), seq-restore_entry e m)

restore_entry-IsAvoided :
    (e : DirEntry) (m : Manager) (n : ℕ) → IsOwn e → (restore_entry e m).seq < n → IsAvoided n e
unfolding restore_entry
restore_entry-IsAvoided (name, none) m n own lt = tt
restore_entry-IsAvoided (name, some r) m n (k, small, named, same) lt = λ e.
    let seq' : scan_run_seq name ≡ k = ap scan_run_seq named ∙ scan_run_seq-run_id k small in
    absurd (ground (arith, run_id-injective n k (e ∙ named), seq'))

restore_from_disk-IsAvoided :
    (entries : List DirEntry) (m : Manager) (n : ℕ)
    → All IsOwn entries
    → (restore_from_disk entries m).seq < n
    → All (IsAvoided n) entries
unfolding restore_from_disk
restore_from_disk-IsAvoided [] m n own lt = tt
restore_from_disk-IsAvoided (e ∷ entries) m n own lt = (
  restore_entry-IsAvoided e m n own.0
      (omega (arith, lt, seq-restore_from_disk entries (restore_entry e m))),
  restore_from_disk-IsAvoided entries (restore_entry e m) n own.1 lt,
)

-- After a restart over run directories that are named by their ids, with numbers below one million, the
-- number of the next run, and every later one, is that of no directory whose metadata can be read, and of no
-- run in the table. A directory without readable metadata is not counted.
pub restore_from_disk_fresh :
    (root : Text) (entries : List DirEntry) (n : ℕ)
    → All IsOwn entries
    → (restore_from_disk entries (new root)).seq < n
    → All (IsAvoided n) entries
      × (lookup (run_id n) (restore_from_disk entries (new root)).by_id ≡ none)
unfolding new lookup
restore_from_disk_fresh root entries n own lt = (
  restore_from_disk-IsAvoided entries (new root) n own lt,
  IsNumbered-fresh (restore_from_disk entries (new root)) n
      (restore_from_disk-IsNumbered entries (new root) own (λ id r e. absurd (ground arith))) lt,
)
