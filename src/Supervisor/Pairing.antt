-- ===== src/Supervisor/Pairing.antt =====
-- The invariant of internal/supervisor/supervisor.go: the sets and the records speak of the same processes.
use agent_runtime_harness.Prelude.{
  ℕ, ◌≡◌, Text, text, eq_text, eq_text_iff, Option, none, some, true, false, List, [], ◌∷◌, Map,
  lookup, delete, lookup-insert, lookup-delete, insert-Unique, Unique, IsKeyed, if◌then◌else◌,
  arith, inl, inr, Option-cases, find, put, find-put, IsTable, put-IsTable,
}
use agent_runtime_harness.Supervisor.{
  Info, ProcInfo, Supervisor, new, pkey, set_of, LaunchOptions, Start, new_record, new_info, add,
  launch, exit, mark_killed,
}
use agent_runtime_harness.Supervisor.Reach.{
  World, live_pids, mark_all, kill_session, run_procs, mark_procs, kill_run,
}
use agent_runtime_harness.Supervisor.Keys.{
  eq_text-pkey, set_of-insert, find-drop_proc, drop_proc-IsTable,
}

-- The entry of a set and the record of one process: both or neither, with the same start time.
abbrev pub Matches : Text → ℕ → Option Info → Option ProcInfo → Type 0
Matches sid pid none none = Unit {0}
Matches sid pid none (some r) = true ≡ false
Matches sid pid (some i) none = true ≡ false
Matches sid pid (some i) (some r) =
    (i.pid ≡ pid)
    × (i.session_id ≡ sid)
    × (r.pid ≡ pid)
    × (r.session_id ≡ sid)
    × (i.start_time ≡ r.start_time)

pub record IsValid (s : Supervisor) : Type 0 where
  pub unique : Unique s.recs
  pub keyed : IsKeyed (λ r. pkey r.session_id r.pid) s.recs
  pub tables : (sid : Text) → IsTable (set_of sid s.sets)
  pub paired :
      (sid : Text) (pid : ℕ)
      → Matches sid pid (find pid (set_of sid s.sets)) (lookup (pkey sid pid) s.recs)

pub new-IsValid : IsValid new
unfolding new set_of find lookup
new-IsValid = record {
  unique = tt;
  keyed = λ k r e. absurd (ground arith);
  tables = λ sid. tt;
  paired = λ sid pid. tt;
}

delete-Unique {ℓ} : {V : Type ℓ} (k : Text) (m : Map V) → Unique m → Unique (delete k m)
unfolding delete lookup
delete-Unique k [] u = tt
delete-Unique k ((j, w) ∷ m) u = ground (arith, lookup-delete k j m, delete-Unique k m u.1)

module _ (o : LaunchOptions) (cmd_hash : Text) (pid identity now : ℕ) (s : Supervisor)
    (v : IsValid s) where
  add-paired :
      (sid : Text) (q : ℕ)
      → let n = add o cmd_hash pid identity now s in
        Matches sid q (find q (set_of sid n.sets)) (lookup (pkey sid q) n.recs)
  unfolding add new_record new_info
  add-paired sid q = ground (
    arith,
    v.paired sid q,
    set_of-insert o.session_id sid
        (put pid (new_info o pid identity now) (set_of o.session_id s.sets)) s.sets,
    find-put pid q (new_info o pid identity now) (set_of o.session_id s.sets),
    lookup-insert (pkey o.session_id pid) (pkey sid q) (new_record o cmd_hash pid identity now)
        s.recs,
    eq_text-pkey o.session_id sid pid q,
    eq_text_iff o.session_id sid,
  )

  add-IsKeyed : IsKeyed (λ r. pkey r.session_id r.pid) (add o cmd_hash pid identity now s).recs
  unfolding add new_record
  add-IsKeyed k r e = ground (
    arith,
    lookup-insert (pkey o.session_id pid) k (new_record o cmd_hash pid identity now) s.recs,
    eq_text_iff (pkey o.session_id pid) k,
    v.keyed k r,
  )

  add-tables : (sid : Text) → IsTable (set_of sid (add o cmd_hash pid identity now s).sets)
  unfolding add
  add-tables sid = ground (
    arith,
    set_of-insert o.session_id sid
        (put pid (new_info o pid identity now) (set_of o.session_id s.sets)) s.sets,
    put-IsTable pid (new_info o pid identity now) (set_of o.session_id s.sets),
    v.tables o.session_id,
    v.tables sid,
  )

  add-IsValid : IsValid (add o cmd_hash pid identity now s)
  unfolding add
  add-IsValid = record {
    unique =
        insert-Unique (pkey o.session_id pid) (new_record o cmd_hash pid identity now) s.recs
          v.unique;
    keyed = add-IsKeyed;
    tables = add-tables;
    paired = add-paired;
  }

pub launch-IsValid :
    (s : Supervisor) (o : LaunchOptions) (w : Start) → IsValid s → IsValid (launch s o w).0
unfolding launch
launch-IsValid s o w v = elim (Option-cases w.process) [
  | inl failed ↦ ground arith
  | inr ((pid, identity, now), started) ↦
      ground (arith, add-IsValid o w.cmd_hash pid identity now s v)
]

pub exit-IsValid : (s : Supervisor) (sid : Text) (pid : ℕ) → IsValid s → IsValid (exit s sid pid)
unfolding exit
exit-IsValid s sid pid v = record {
  unique = delete-Unique (pkey sid pid) s.recs v.unique;
  keyed = λ k r e. ground (arith, lookup-delete (pkey sid pid) k s.recs, v.keyed k r);
  tables = λ j. drop_proc-IsTable sid j pid s.sets v.tables;
  paired = λ j q. ground (
    arith,
    v.paired j q,
    find-drop_proc sid j pid q s.sets,
    lookup-delete (pkey sid pid) (pkey j q) s.recs,
    eq_text-pkey sid j pid q,
  );
}

-- markKilled changes the two fields of one record.
pub lookup-mark_killed :
    (s : Supervisor) (sid : Text) (pid : ℕ) (reason k : Text)
    → lookup k (mark_killed s sid pid reason).recs ≡ (
        if eq_text (pkey sid pid) k
        then elim (lookup k s.recs) [
          | none ↦ none
          | some r ↦ some (record r { killed = true; kill_reason = reason })
        ]
        else lookup k s.recs)
unfolding mark_killed
lookup-mark_killed s sid pid reason k = elim (Option-cases (lookup (pkey sid pid) s.recs)) [
  | inl missing ↦ rw (missing, mark_killed) (ground (arith, eq_text_iff (pkey sid pid) k))
  | inr (r, found) ↦
      rw (found, mark_killed)
        (ground (
          arith,
          eq_text_iff (pkey sid pid) k,
          lookup-insert (pkey sid pid) k (record r { killed = true; kill_reason = reason }) s.recs,
        ))
]

mark_killed-IsValid :
    (s : Supervisor) (sid : Text) (pid : ℕ) (reason : Text)
    → IsValid s
    → IsValid (mark_killed s sid pid reason)
unfolding mark_killed
mark_killed-IsValid s sid pid reason v = elim (Option-cases (lookup (pkey sid pid) s.recs)) [
  | inl missing ↦ rw (missing, mark_killed) v
  | inr (r, found) ↦
      let r' = record r { killed = true; kill_reason = reason } in
      rw (found, mark_killed)
        (record {
          unique = insert-Unique (pkey sid pid) r' s.recs v.unique;
          keyed = λ k u e. ground (
            arith,
            lookup-insert (pkey sid pid) k r' s.recs,
            eq_text_iff (pkey sid pid) k,
            v.keyed k u,
            v.keyed (pkey sid pid) r found,
          );
          tables = v.tables;
          paired = λ j q. ground (
            arith,
            v.paired j q,
            lookup-insert (pkey sid pid) (pkey j q) r' s.recs,
            eq_text_iff (pkey sid pid) (pkey j q),
          );
        })
]

pub mark_all-IsValid :
    (s : Supervisor) (sid : Text) (pids : List ℕ) → IsValid s → IsValid (mark_all s sid pids)
unfolding mark_all
mark_all-IsValid s sid [] v = v
mark_all-IsValid s sid (pid ∷ pids) v =
    mark_all-IsValid (mark_killed s sid pid (text "session kill")) sid pids
      (mark_killed-IsValid s sid pid (text "session kill") v)

pub mark_procs-IsValid :
    (s : Supervisor) (rs : List ProcInfo) → IsValid s → IsValid (mark_procs s rs)
unfolding mark_procs
mark_procs-IsValid s [] v = v
mark_procs-IsValid s (r ∷ rs) v =
    mark_procs-IsValid (mark_killed s r.session_id r.pid (text "run kill")) rs
      (mark_killed-IsValid s r.session_id r.pid (text "run kill") v)

pub data Event : Type 0 where
  launches : (o : LaunchOptions) (w : Start) → Event
  exits : (sid : Text) (pid : ℕ) → Event
  kills_session : (sid : Text) (before after : World) → Event
  kills_run : (run_id : Text) → Event

unfoldable pub step : Supervisor → Event → Supervisor
unfolding launch exit kill_session kill_run
step s (launches o w) = (launch s o w).0
step s (exits sid pid) = exit s sid pid
step s (kills_session sid before after) = (kill_session s sid before after).0
step s (kills_run run_id) = (kill_run s run_id).0

unfoldable pub run_events : Supervisor → List Event → Supervisor
unfolding step
run_events s [] = s
run_events s (e ∷ es) = run_events (step s e) es

step-IsValid : (s : Supervisor) (e : Event) → IsValid s → IsValid (step s e)
unfolding step kill_session kill_run
step-IsValid s (launches o w) v = launch-IsValid s o w v
step-IsValid s (exits sid pid) v = exit-IsValid s sid pid v
step-IsValid s (kills_session sid before after) v =
    mark_all-IsValid s sid (live_pids before (set_of sid s.sets)) v
step-IsValid s (kills_run run_id) v = mark_procs-IsValid s (run_procs s run_id) v

-- Launches, exits and kills in any order keep the two tables in step: a process is in its session's set
-- exactly if it has a record, with the same pid, session and start time, and no process has two of them.
pub run_events-IsValid : (s : Supervisor) (es : List Event) → IsValid s → IsValid (run_events s es)
unfolding run_events
run_events-IsValid s [] v = v
run_events-IsValid s (e ∷ es) v = run_events-IsValid (step s e) es (step-IsValid s e v)
