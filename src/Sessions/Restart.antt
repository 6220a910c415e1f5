-- ===== src/Sessions/Restart.antt =====
-- A restart of the daemon: Snapshot and Restore of internal/session/manager.go; and the sections that
-- run without a check of the session's state.
use agent_runtime_harness.Prelude.{
  ℕ, suc, ◌≡◌, ◌≤◌, ◌<◌, refl, sym, ap, ◌∙◌, subst, Text, none, some, List, [], ◌∷◌, true, false,
  map, Map, lookup, insert, insert_all-values, Unique, ltb, if◌then◌else◌, arith, inl, inr,
  Option-cases,
}
use agent_runtime_harness.Model.{Session, SessionState, is_terminal}
use agent_runtime_harness.Ids.{session_id, parse_session_seq, parse_session_seq-session_id}
use agent_runtime_harness.Sessions.{
  Manager, is_live, live_count, mutate, mark_stopping, snapshot, max_seq, restore,
}
use agent_runtime_harness.Sessions.Invariant.{IsValid}

max_seq_ge : (n : ℕ) (ss : List Session) → n ≤ max_seq n ss
unfolding max_seq
max_seq_ge n [] = omega arith
max_seq_ge n (s ∷ ss) =
    ground
      (arith, max_seq_ge (if ltb n (parse_session_seq s.id) then parse_session_seq s.id else n) ss)

lookup-max_seq :
    (n : ℕ) (m : Map Session) (id : Text) (s : Session)
    → lookup id m ≡ some s
    → parse_session_seq s.id ≤ max_seq n (map (λ e. e.1) m)
unfolding lookup max_seq
lookup-max_seq n [] id s e = absurd (ground arith)
lookup-max_seq n ((j, u) ∷ m) id s e =
    let k = if ltb n (parse_session_seq u.id) then parse_session_seq u.id else n in
    ground (arith, lookup-max_seq k m id s, max_seq_ge k (map (λ e. e.1) m))

module _ (m m0 : Manager) (v : IsValid m) where
  abbrev q : Manager
  q = restore (snapshot m) m0

  -- A restart from the snapshot has exactly the sessions of before.
  sessions-restore : q.sessions ≡ m.sessions
  unfolding restore snapshot
  sessions-restore = insert_all-values (λ s. s.id) m.sessions v.unique v.named

  restored_fresh : (n : ℕ) → q.seq < n → lookup (session_id n) m.sessions ≡ none
  unfolding restore snapshot
  restored_fresh n h = elim (Option-cases (lookup (session_id n) m.sessions)) [
    | inl missing ↦ missing
    | inr (s, found) ↦ absurd (
        omega (
          arith,
          lookup-max_seq m0.seq m.sessions (session_id n) s found,
          ap parse_session_seq (v.named (session_id n) s found),
          parse_session_seq-session_id n,
        ))
  ]

  -- Under the same limit the restored manager is valid: no id that it makes is one of the snapshot's.
  pub restore-snapshot-IsValid :
      m0.max_sessions ≡ m.max_sessions → (q.sessions ≡ m.sessions) × IsValid q
  unfolding restore
  restore-snapshot-IsValid same = (
    sessions-restore,
    record {
      unique = subst Unique (sym sessions-restore) v.unique;
      named = λ id s e. v.named id s (ap (lookup id) (sym sessions-restore) ∙ e);
      fresh = λ n h. ap (lookup (session_id n)) sessions-restore ∙ restored_fresh n h;
      limited =
          subst (λ x. live_count x ≤ m0.max_sessions) (sym sessions-restore)
            (omega (arith, v.limited, same));
    },
  )

live_count-insert_revive :
    (id : Text) (s s' : Session) (m : Map Session)
    → lookup id m ≡ some s
    → is_terminal s.state ≡ true
    → is_terminal s'.state ≡ false
    → live_count (insert id s' m) ≡ suc (live_count m)
unfolding live_count is_live lookup insert
live_count-insert_revive id s s' [] h t t' = absurd (ground arith)
live_count-insert_revive id s s' ((j, u) ∷ m) h t t' =
    ground (arith, live_count-insert_revive id s s' m)

-- MarkStopping of a session that has ended brings it back among the live ones: with as many sessions
-- live as max_sessions allows, it goes above the limit.
pub mark_stopping_revives :
    (m : Manager) (id : Text) (s : Session)
    → lookup id m.sessions ≡ some s
    → is_terminal s.state ≡ true
    → live_count m.sessions ≡ m.max_sessions
    → m.max_sessions < live_count (mark_stopping m id).sessions
unfolding mark_stopping mutate is_terminal
mark_stopping_revives m id s found ended full =
    let s' : Session = record s { state = SessionState.stopping } in
    rw (found, mark_stopping, mutate)
      (omega (arith, live_count-insert_revive id s s' m.sessions found ended refl, full))
