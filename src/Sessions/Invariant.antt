-- ===== src/Sessions/Invariant.antt =====
-- The invariant of the session manager of internal/session/manager.go.
use agent_runtime_harness.Prelude.{
  ℕ, suc, ◌≡◌, ◌≤◌, ◌<◌, refl, Text, eq_text_iff, Option, none, some, Bool, true, false, List, [],
  ◌∷◌, Map, lookup, insert, delete, lookup-insert, lookup-delete, insert_new, insert-Unique, Unique,
  length-append, keep, keep-append, leb, arith, inl, inr, Option-cases, Bool-cases,
}
use agent_runtime_harness.Model.{Session, SessionState, is_terminal}
use agent_runtime_harness.Ids.{session_id, session_id-injective}
use agent_runtime_harness.Sessions.{
  Manager, new, CreateOptions, is_live, live_count, new_session, create, count_up, add_session,
  mutate, mark_running, mark_stopping, started, finished, finish, remove, remove_all, prune, doomed,
}

pub record IsValid (m : Manager) : Type 0 where
  pub unique : Unique m.sessions
  pub named : (id : Text) (s : Session) → lookup id m.sessions ≡ some s → s.id ≡ id
  pub fresh : (n : ℕ) → m.seq < n → lookup (session_id n) m.sessions ≡ none
  pub limited : live_count m.sessions ≤ m.max_sessions

pub new-IsValid : (max_sessions : ℕ) (sessions_dir : Text) → IsValid (new max_sessions sessions_dir)
unfolding new live_count lookup
new-IsValid max_sessions sessions_dir = record {
  unique = tt;
  named = λ id s e. absurd (ground arith);
  fresh = λ n h. refl;
  limited = omega arith;
}

live_count-insert_new :
    (id : Text) (s : Session) (m : Map Session)
    → lookup id m ≡ none
    → live_count (insert id s m) ≤ suc (live_count m)
unfolding live_count
live_count-insert_new id s m h = ground (
  arith,
  insert_new id s m h,
  keep-append is_live m ((id, s) ∷ []),
  length-append (keep is_live m) (keep is_live ((id, s) ∷ [])),
)

-- Replacing a session by one that is not live anew adds no live session.
live_count-insert_le :
    (id : Text) (s s' : Session) (m : Map Session)
    → lookup id m ≡ some s
    → (is_terminal s.state ≡ true → is_terminal s'.state ≡ true)
    → live_count (insert id s' m) ≤ live_count m
unfolding live_count is_live lookup insert
live_count-insert_le id s s' [] h t = absurd (ground arith)
live_count-insert_le id s s' ((j, u) ∷ m) h t = ground (arith, live_count-insert_le id s s' m)

live_count-delete_le : (id : Text) (m : Map Session) → live_count (delete id m) ≤ live_count m
unfolding live_count is_live delete
live_count-delete_le id [] = omega arith
live_count-delete_le id ((j, u) ∷ m) = ground (arith, live_count-delete_le id m)

delete-Unique : (id : Text) (m : Map Session) → Unique m → Unique (delete id m)
unfolding delete
delete-Unique id [] u = tt
delete-Unique id ((j, s) ∷ m) u = ground (arith, lookup-delete id j m, delete-Unique id m u.1)

count_up-IsValid : (m : Manager) → IsValid m → IsValid (count_up m)
unfolding count_up
count_up-IsValid m v = record {
  unique = v.unique;
  named = v.named;
  fresh = λ n h. v.fresh n (omega arith);
  limited = v.limited;
}

add_session-IsValid :
    (m : Manager) (o : CreateOptions) (now : ℕ)
    → live_count m.sessions < m.max_sessions
    → IsValid m
    → IsValid (add_session m (new_session m o now))
unfolding add_session new_session
add_session-IsValid m o now room v =
    let id = session_id (suc m.seq) in
    let s = new_session m o now in
    let new = v.fresh (suc m.seq) (omega arith) in
    record {
      unique = insert-Unique id s m.sessions v.unique;
      named =
          λ j u e. ground (arith, lookup-insert id j s m.sessions, eq_text_iff id j, v.named j u);
      fresh = λ n h. ground (
        arith,
        lookup-insert id (session_id n) s m.sessions,
        eq_text_iff id (session_id n),
        session_id-injective (suc m.seq) n,
        v.fresh n,
      );
      limited = omega (arith, live_count-insert_new id s m.sessions new);
    }

-- A new session takes one of the places that are left.
pub create-IsValid :
    (m : Manager) (o : CreateOptions) (now : ℕ) (runtime_dir_ok isolated_dirs_ok save_ok : Bool)
    → IsValid m
    → IsValid (create m o now runtime_dir_ok isolated_dirs_ok save_ok).0
unfolding create
create-IsValid m o now d e k v = elim (Bool-cases (leb m.max_sessions (live_count m.sessions))) [
  | inl full ↦ rw (full, create) v
  | inr room ↦ elim (Bool-cases d) [
    | inr failed ↦ rw (room, create, failed) (count_up-IsValid m v)
    | inl made ↦ elim (Bool-cases e) [
      | inr failed ↦ rw (room, create, made, failed) (count_up-IsValid m v)
      | inl prepared ↦
          rw (room, create, made, prepared) (add_session-IsValid m o now (ground arith) v)
    ]
  ]
]

pub mutate-IsValid :
    (m : Manager) (id : Text) (fn : Session → Option Session)
    → ((s s' : Session)
        → lookup id m.sessions ≡ some s
        → fn s ≡ some s'
        → (s'.id ≡ s.id) × (is_terminal s.state ≡ true → is_terminal s'.state ≡ true))
    → IsValid m
    → IsValid (mutate m id fn)
unfolding mutate
mutate-IsValid m id fn ok v = elim (Option-cases (lookup id m.sessions)) [
  | inl missing ↦ rw (missing, mutate) v
  | inr (s, found) ↦ elim (Option-cases (fn s)) [
    | inl failed ↦ rw (found, mutate, failed) v
    | inr (s', changed) ↦
        let k = ok s s' found changed in
        rw (found, mutate, changed)
          (record {
            unique = insert-Unique id s' m.sessions v.unique;
            named = λ j u e. ground (
              arith,
              lookup-insert id j s' m.sessions,
              eq_text_iff id j,
              v.named j u,
              v.named id s found,
              k.0,
            );
            fresh = λ n h. ground (
              arith,
              lookup-insert id (session_id n) s' m.sessions,
              eq_text_iff id (session_id n),
              v.fresh n h,
            );
            limited = omega (arith, live_count-insert_le id s s' m.sessions found k.1, v.limited);
          })
  ]
]

pub remove-IsValid : (m : Manager) (id : Text) → IsValid m → IsValid (remove m id)
unfolding remove
remove-IsValid m id v = record {
  unique = delete-Unique id m.sessions v.unique;
  named = λ j s e. ground (arith, lookup-delete id j m.sessions, v.named j s);
  fresh = λ n h. ground (arith, lookup-delete id (session_id n) m.sessions, v.fresh n h);
  limited = omega (arith, live_count-delete_le id m.sessions, v.limited);
}

remove_all-IsValid : (m : Manager) (ids : List Text) → IsValid m → IsValid (remove_all m ids)
unfolding remove_all
remove_all-IsValid m [] v = v
remove_all-IsValid m (id ∷ ids) v = remove_all-IsValid (remove m id) ids (remove-IsValid m id v)

pub prune-IsValid : (m : Manager) (ttl now : ℕ) → IsValid m → IsValid (prune m ttl now)
unfolding prune
prune-IsValid m ttl now v = remove_all-IsValid m (doomed ttl now m.sessions) v

pub mark_running-IsValid :
    (m : Manager) (id : Text) (now : ℕ) → IsValid m → IsValid (mark_running m id now)
unfolding mark_running started is_terminal
mark_running-IsValid m id now v =
    mutate-IsValid m id (λ s. some (started now s)) (λ s s' found e. ground arith) v

pub finish-IsValid :
    (m : Manager) (id : Text) (state : SessionState) (reason : Text) (now : ℕ)
    → IsValid m
    → IsValid (finish m id state reason now)
unfolding finish finished
finish-IsValid m id state reason now v =
    mutate-IsValid m id (finished state reason now) (λ s s' found e. ground arith) v

-- MarkStopping is safe for a session that has not ended.
pub mark_stopping-IsValid :
    (m : Manager) (id : Text)
    → ((s : Session) → lookup id m.sessions ≡ some s → is_terminal s.state ≡ false)
    → IsValid m
    → IsValid (mark_stopping m id)
unfolding mark_stopping
mark_stopping-IsValid m id alive v =
    mutate-IsValid m id (λ s. some (record s { state = SessionState.stopping }))
      (λ s s' found e. ground (arith, alive s found)) v
