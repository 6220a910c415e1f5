-- ===== src/Runs/Invariant.antt =====
-- The invariant of the run records of internal/runs/runs.go, and what an update leaves.
use agent_runtime_harness.Prelude.{
  ℕ, suc, ◌≡◌, ◌<◌, refl, sym, ap, ◌∙◌, Text, text, eq_text, eq_text_iff, Option, none, some, Bool,
  true, false, lookup, lookup-insert, insert-Unique, Unique, IsKeyed, if◌then◌else◌, arith, inl,
  inr, Option-cases,
}
use agent_runtime_harness.Model.{Run, RunStatus}
use agent_runtime_harness.Ids.{scan, scan-format, ten}
use agent_runtime_harness.Runs.{Manager, new, run_id, new_record, new_run, update, finished, finish}

pub run_id-injective : (m n : ℕ) → run_id m ≡ run_id n → m ≡ n
unfolding run_id
run_id-injective m n e =
    sym (scan-format ten (text "run-") 6 m)
    ∙ ap (scan 10 (text "run-")) e
    ∙ scan-format ten (text "run-") 6 n

-- Each record stands under its id once, and the next numbers are free.
pub record IsValid (m : Manager) : Type 0 where
  pub unique : Unique m.by_id
  pub keyed : IsKeyed (λ r. r.id) m.by_id
  pub fresh : (n : ℕ) → m.seq < n → lookup (run_id n) m.by_id ≡ none

pub new-IsValid : (root : Text) → IsValid (new root)
unfolding new lookup
new-IsValid root = record {
  unique = tt;
  keyed = λ k r e. absurd (ground arith);
  fresh = λ n h. refl;
}

pub new_run-IsValid :
    (m : Manager) (sid tool_id tool_type command : Text) (now : ℕ) (dir_ok : Bool)
    → IsValid m
    → IsValid (new_run m sid tool_id tool_type command now dir_ok).0
unfolding new_run new_record
new_run-IsValid m sid tool_id tool_type command now false v = record {
  unique = v.unique;
  keyed = v.keyed;
  fresh = λ n h. v.fresh n (omega arith);
}
new_run-IsValid m sid tool_id tool_type command now true v =
    let r = new_record m sid tool_id tool_type command now in
    record {
      unique = insert-Unique r.id r m.by_id v.unique;
      keyed =
          λ k u e. ground (arith, lookup-insert r.id k r m.by_id, eq_text_iff r.id k, v.keyed k u);
      fresh = λ n h. ground (
        arith,
        lookup-insert r.id (run_id n) r m.by_id,
        eq_text_iff r.id (run_id n),
        run_id-injective (suc m.seq) n,
        v.fresh n,
      );
    }

-- The new record, where the directory could be made.
lookup-new_run :
    (m : Manager) (sid tool_id tool_type command : Text) (now : ℕ) (dir_ok : Bool) (k : Text)
    (r : Run)
    → IsValid m
    → lookup k m.by_id ≡ some r
    → lookup k (new_run m sid tool_id tool_type command now dir_ok).0.by_id ≡ some r
unfolding new_run new_record
lookup-new_run m sid tool_id tool_type command now false k r v e = e
lookup-new_run m sid tool_id tool_type command now true k r v e =
    let n = new_record m sid tool_id tool_type command now in
    ground
      (arith, lookup-insert n.id k n m.by_id, eq_text_iff n.id k, v.fresh (suc m.seq) (omega arith))

pub lookup-update :
    (m : Manager) (id k : Text) (fn : Run → Run)
    → lookup k (update m id fn).by_id ≡ (
        if eq_text id k
        then elim (lookup k m.by_id) [ none ↦ none | some r ↦ some (fn r) ]
        else lookup k m.by_id)
unfolding update
lookup-update m id k fn = elim (Option-cases (lookup id m.by_id)) [
  | inl missing ↦ rw (missing, update) (ground (arith, eq_text_iff id k))
  | inr (r, found) ↦
      rw (found, update) (ground (arith, eq_text_iff id k, lookup-insert id k (fn r) m.by_id))
]

-- An update that keeps the id keeps the table.
pub update-IsValid :
    (m : Manager) (id : Text) (fn : Run → Run)
    → ((r : Run) → (fn r).id ≡ r.id)
    → IsValid m
    → IsValid (update m id fn)
unfolding update
update-IsValid m id fn same v = elim (Option-cases (lookup id m.by_id)) [
  | inl missing ↦ rw (missing, update) v
  | inr (r, found) ↦
      rw (found, update)
        (record {
          unique = insert-Unique id (fn r) m.by_id v.unique;
          keyed = λ k u e. ground (
            arith,
            lookup-insert id k (fn r) m.by_id,
            eq_text_iff id k,
            v.keyed k u,
            v.keyed id r found,
            same r,
          );
          fresh = λ n h. ground (
            arith,
            lookup-insert id (run_id n) (fn r) m.by_id,
            eq_text_iff id (run_id n),
            v.fresh n h,
          );
        })
]

pub finish-IsValid :
    (m : Manager) (id : Text) (status : RunStatus) (code : Option ℕ) (message : Text)
    (now duration : ℕ)
    → IsValid m
    → IsValid (finish m id status code message now duration)
unfolding finish finished
finish-IsValid m id status code message now duration v =
    update-IsValid m id (finished status code message now duration) (λ r. refl) v
