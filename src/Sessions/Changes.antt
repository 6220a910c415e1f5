-- ===== src/Sessions/Changes.antt =====
-- What each call of internal/session/manager.go makes of a session that exists.
use agent_runtime_harness.Prelude.{
  ℕ, suc, ◌≡◌, refl, Text, eq_text, eq_text_iff, none, some, Bool, List, [], ◌∷◌, lookup,
  lookup-insert, lookup-delete, arith, inl, inr, Bool-cases, subst,
}
use agent_runtime_harness.Model.{Session, SessionState}
use agent_runtime_harness.Ids.{session_id}
use agent_runtime_harness.Sessions.{
  Manager, CreateOptions, new_session, create, count_up, add_session, mark_running, mark_stopping,
  started, finished, finish, remove, remove_all, prune, doomed,
}
use agent_runtime_harness.Sessions.Invariant.{IsValid}
use agent_runtime_harness.Sessions.Lifecycle.{
  Call, creates, starts, stops, finishes, removes, prunes, step, stop, Change, Change-of_eq,
  started-Change, finished-Change, mutate-Change,
}

lookup-create :
    (m : Manager) (o : CreateOptions) (now : ℕ) (d e k : Bool) (j : Text) (s : Session)
    → IsValid m
    → lookup j m.sessions ≡ some s
    → lookup j (create m o now d e k).0.sessions ≡ some s
unfolding create count_up add_session new_session
lookup-create m o now d e k j s v found =
    let id = session_id (suc m.seq) in
    ground (
      arith,
      lookup-insert id j (new_session m o now) m.sessions,
      eq_text_iff id j,
      v.fresh (suc m.seq) (omega arith),
    )

lookup-remove_all_missing :
    (m : Manager) (ids : List Text) (j : Text)
    → lookup j m.sessions ≡ none
    → lookup j (remove_all m ids).sessions ≡ none
unfolding remove_all remove
lookup-remove_all_missing m [] j e = e
lookup-remove_all_missing m (id ∷ ids) j e =
    lookup-remove_all_missing (remove m id) ids j (ground (arith, lookup-delete id j m.sessions))

lookup-remove_all :
    (m : Manager) (ids : List Text) (j : Text) (s s' : Session)
    → lookup j m.sessions ≡ some s
    → lookup j (remove_all m ids).sessions ≡ some s'
    → s ≡ s'
unfolding remove_all remove
lookup-remove_all m [] j s s' e e' = ground arith
lookup-remove_all m (id ∷ ids) j s s' e e' = elim (Bool-cases (eq_text id j)) [
  | inl same ↦
      let gone =
        lookup-remove_all_missing (remove m id) ids j
          (ground (arith, lookup-delete id j m.sessions)) in
      absurd (ground arith)
  | inr other ↦
      lookup-remove_all (remove m id) ids j s s' (ground (arith, lookup-delete id j m.sessions)) e'
]

stopping-Change :
    (s s' : Session) → some (record s { state = SessionState.stopping }) ≡ some s' → Change s s'
stopping-Change s s' e =
    let change : Change s (record s { state = SessionState.stopping }) = record {
      transition = stop;
      same_id = refl;
      same_owner = refl;
      same_workspace = refl;
      same_runtime_dir = refl;
      same_created_at = refl;
    } in
    subst (Change s) (ground arith) change

-- One call changes a session that exists before and after it along a transition, and never its
-- identity: id, owner, workspace, runtime directory and time of creation.
pub step-Change :
    (m : Manager) (c : ℕ × Call) (id : Text) (s s' : Session)
    → IsValid m
    → lookup id m.sessions ≡ some s
    → lookup id (step m c).sessions ≡ some s'
    → Change s s'
unfolding step mark_running mark_stopping finish remove prune
step-Change m (now, creates o d e k) id s s' v before after =
    Change-of_eq s s' (ground (arith, lookup-create m o now d e k id s v before))
step-Change m (now, starts j) id s s' v before after =
    mutate-Change m j id (λ u. some (started now u)) s s'
      (λ u u' e. subst (Change u) (ground arith) (started-Change now u)) before after
step-Change m (now, stops j) id s s' v before after =
    mutate-Change m j id (λ u. some (record u { state = SessionState.stopping })) s s'
      stopping-Change before after
step-Change m (now, finishes j state reason) id s s' v before after =
    mutate-Change m j id (finished state reason now) s s' (finished-Change state reason now) before
      after
step-Change m (now, removes j) id s s' v before after =
    Change-of_eq s s' (ground (arith, lookup-delete j id m.sessions))
step-Change m (now, prunes ttl) id s s' v before after =
    Change-of_eq s s' (lookup-remove_all m (doomed ttl now m.sessions) id s s' before after)
