-- ===== src/Sessions/Lifecycle.antt =====
-- The life of a session under the calls of internal/session/manager.go.
use agent_runtime_harness.Prelude.{
  ℕ, ◌≡◌, refl, Text, eq_text, eq_text_iff, Option, some, Bool, true, false, List, [], ◌∷◌, lookup,
  insert, lookup-insert, arith, ◌⊎◌, inl, inr, Option-cases, Bool-cases, subst,
}
use agent_runtime_harness.Model.{Session, SessionState, is_terminal}
use agent_runtime_harness.Sessions.{
  Manager, CreateOptions, create, mutate, mark_running, mark_stopping, started, may_start, finished,
  finish, remove, prune,
}
use agent_runtime_harness.Sessions.Invariant.{
  IsValid, create-IsValid, mark_running-IsValid, mark_stopping-IsValid, finish-IsValid,
  remove-IsValid, prune-IsValid,
}

pub data Call : Type 0 where
  creates : (o : CreateOptions) (runtime_dir_ok isolated_dirs_ok save_ok : Bool) → Call
  starts : (id : Text) → Call
  stops : (id : Text) → Call
  finishes : (id : Text) (state : SessionState) (reason : Text) → Call
  removes : (id : Text) → Call
  prunes : (ttl : ℕ) → Call

-- One section, at a time of the clock.
unfoldable pub step : Manager → ℕ × Call → Manager
unfolding create mark_running mark_stopping finish remove prune
step m (now, creates o d e k) = (create m o now d e k).0
step m (now, starts id) = mark_running m id now
step m (now, stops id) = mark_stopping m id
step m (now, finishes id state reason) = finish m id state reason now
step m (now, removes id) = remove m id
step m (now, prunes ttl) = prune m ttl now

unfoldable pub run_history : Manager → List (ℕ × Call) → Manager
unfolding step
run_history m [] = m
run_history m (c ∷ cs) = run_history (step m c) cs

-- MarkStopping is called for a session that has not ended.
abbrev pub IsGuarded : Manager → Call → Type 0
IsGuarded m (stops id) = (s : Session) → lookup id m.sessions ≡ some s → is_terminal s.state ≡ false
IsGuarded m _ = Unit {0}

abbrev pub AreGuarded : Manager → List (ℕ × Call) → Type 0
AreGuarded m [] = Unit {0}
AreGuarded m (c ∷ cs) = IsGuarded m c.1 × AreGuarded (step m c) cs

step-IsValid : (m : Manager) (c : ℕ × Call) → IsGuarded m c.1 → IsValid m → IsValid (step m c)
unfolding step
step-IsValid m (now, creates o d e k) g v = create-IsValid m o now d e k v
step-IsValid m (now, starts id) g v = mark_running-IsValid m id now v
step-IsValid m (now, stops id) g v = mark_stopping-IsValid m id g v
step-IsValid m (now, finishes id state reason) g v = finish-IsValid m id state reason now v
step-IsValid m (now, removes id) g v = remove-IsValid m id v
step-IsValid m (now, prunes ttl) g v = prune-IsValid m ttl now v

pub run_history-IsValid :
    (m : Manager) (cs : List (ℕ × Call)) → AreGuarded m cs → IsValid m → IsValid (run_history m cs)
unfolding run_history
run_history-IsValid m [] g v = v
run_history-IsValid m (c ∷ cs) g v = run_history-IsValid (step m c) cs g.1 (step-IsValid m c g.0 v)

-- What a call may make of a session's state.
pub data Transition (a : SessionState) : SessionState → Type 0 where
  stay : Transition a a
  start : may_start a ≡ true → Transition a SessionState.running
  stop : Transition a SessionState.stopping
  settle : {b : SessionState} → is_terminal b ≡ true → Transition a b

-- The change of a session by one call: a transition, and the same identity.
pub record Change (s s' : Session) : Type 0 where
  pub transition : Transition s.state s'.state
  pub same_id : s'.id ≡ s.id
  pub same_owner : s'.owner ≡ s.owner
  pub same_workspace : s'.workspace_dir ≡ s.workspace_dir
  pub same_runtime_dir : s'.runtime_dir ≡ s.runtime_dir
  pub same_created_at : s'.created_at ≡ s.created_at

Change-refl : (s : Session) → Change s s
Change-refl s = record {
  transition = stay;
  same_id = refl;
  same_owner = refl;
  same_workspace = refl;
  same_runtime_dir = refl;
  same_created_at = refl;
}

pub Change-of_eq : (s s' : Session) → s ≡ s' → Change s s'
Change-of_eq s s' e = subst (Change s) e (Change-refl s)

pub started-Change : (now : ℕ) (s : Session) → Change s (started now s)
unfolding started
started-Change now s = elim (Bool-cases (may_start s.state)) [
  | inl yes' ↦
      rw (yes', started)
        (record {
          transition = start yes';
          same_id = refl;
          same_owner = refl;
          same_workspace = refl;
          same_runtime_dir = refl;
          same_created_at = refl;
        })
  | inr no' ↦ rw (no', started) (Change-refl s)
]

pub finished-Change :
    (state : SessionState) (reason : Text) (now : ℕ) (s s' : Session)
    → finished state reason now s ≡ some s'
    → Change s s'
unfolding finished
finished-Change state reason now s s' e = record {
  transition = subst (Transition s.state) same_state (settle ended);
  same_id = ground arith;
  same_owner = ground arith;
  same_workspace = ground arith;
  same_runtime_dir = ground arith;
  same_created_at = ground arith;
}
  where
    ended : is_terminal state ≡ true
    ended = ground arith

    same_state : state ≡ s'.state
    same_state = ground arith

-- Mutate changes one session, by the function.
pub mutate-Change :
    (m : Manager) (id j : Text) (fn : Session → Option Session) (s s' : Session)
    → ((u u' : Session) → fn u ≡ some u' → Change u u')
    → lookup j m.sessions ≡ some s
    → lookup j (mutate m id fn).sessions ≡ some s'
    → Change s s'
unfolding mutate
mutate-Change m id j fn s s' ok before = elim (Option-cases (lookup id m.sessions)) [
  | inl missing ↦ rw (missing, mutate) (λ after. Change-of_eq s s' (ground arith))
  | inr (u, found) ↦ elim (Option-cases (fn u)) [
    | inl failed ↦ rw (found, mutate, failed) (λ after. Change-of_eq s s' (ground arith))
    | inr (u', changed) ↦
        rw (found, mutate, changed) (by_id (Bool-cases (eq_text id j)) u u' found changed)
  ]
]
  where
    by_id :
        (eq_text id j ≡ true) ⊎ (eq_text id j ≡ false)
        → (u u' : Session) → lookup id m.sessions ≡ some u
        → fn u ≡ some u'
        → lookup j (insert id u' m.sessions) ≡ some s'
        → Change s s'
    by_id (inl same) u u' found changed after =
        ok s s' (ground (arith, lookup-insert id j u' m.sessions, eq_text_iff id j))
    by_id (inr other) u u' found changed after =
        Change-of_eq s s' (ground (arith, lookup-insert id j u' m.sessions))
