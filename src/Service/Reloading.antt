-- ===== src/Service/Reloading.antt =====
-- What Recover of internal/daemon/service.go reloads and lists: each session and each run once, and the sort of
-- the list of sessions.
use agent_runtime_harness.Prelude.{
  ℕ, ◌≡◌, refl, ltb, Text, text, eq_text, eq_text_iff, none, some, true, List, [], ◌∷◌, ◌||◌, not,
  ◌∙◌, ◌++◌, Map, lookup, insert, lookup-insert, insert-Unique, insert_all, if◌then◌else◌, mem_text,
  All, IsKeyed, Unique, arith, inl, inr, Option-cases, Bool-cases,
}
use agent_runtime_harness.Model.{Session, Run, is_finished}
use agent_runtime_harness.Sessions
use agent_runtime_harness.Sessions.{finished, insert_by_created, sort_sessions}
use agent_runtime_harness.Runs
use agent_runtime_harness.Runs.{
  DirEntry, list_of, insert_by_start, sort_runs, restore_entry, restore_from_disk,
}
use agent_runtime_harness.Service.{Service, kill_runs}
use agent_runtime_harness.Service.Composition.{IsValid}
use agent_runtime_harness.Service.Killing.{
  is_killed, is_killed-keep, kill_runs_missing, lookup-kill_runs,
}
use agent_runtime_harness.Service.Recovery.{Disk, reload, all_ids}

-- A sort by the time of creation keeps what holds for all of the list, and its ids.
All-insert_by_created :
    (P : Session → Type 0) (s : Session) (us : List Session)
    → P s
    → All P us
    → All P (insert_by_created s us)
unfolding insert_by_created
All-insert_by_created P s [] p ps = (p, tt)
All-insert_by_created P s (u ∷ us) p ps = elim (Bool-cases (ltb u.created_at s.created_at)) [
  | inl earlier ↦ rw (earlier, insert_by_created) (ps.0, All-insert_by_created P s us p ps.1)
  | inr later ↦ rw (later, insert_by_created) (p, ps)
]

pub All-sort_sessions :
    (P : Session → Type 0) (us : List Session) → All P us → All P (sort_sessions us)
unfolding sort_sessions
All-sort_sessions P [] ps = tt
All-sort_sessions P (u ∷ us) ps =
    All-insert_by_created P u (sort_sessions us) ps.0 (All-sort_sessions P us ps.1)

mem_insert_by_created :
    (k : Text) (s : Session) (us : List Session)
    → mem_text k (all_ids (insert_by_created s us)) ≡ mem_text k (all_ids (s ∷ us))
unfolding insert_by_created all_ids mem_text
mem_insert_by_created k s [] = refl
mem_insert_by_created k s (u ∷ us) = ground (arith, mem_insert_by_created k s us)

pub mem_sort_sessions :
    (k : Text) (us : List Session)
    → mem_text k (all_ids (sort_sessions us)) ≡ mem_text k (all_ids us)
unfolding sort_sessions all_ids mem_text
mem_sort_sessions k [] = refl
mem_sort_sessions k (u ∷ us) =
    ground (arith, mem_insert_by_created k u (sort_sessions us), mem_sort_sessions k us)

-- Whatever is on the disk, the restored tables hold each session and each run once, under its own id.
insert_all-IsKeyed :
    (us : List Session) (m : Map Session)
    → Unique m × IsKeyed (λ u. u.id) m
    → Unique (insert_all (λ u. u.id) us m) × IsKeyed (λ u. u.id) (insert_all (λ u. u.id) us m)
unfolding insert_all
insert_all-IsKeyed [] m h = h
insert_all-IsKeyed (u ∷ us) m h = insert_all-IsKeyed us (insert u.id u m) (
  insert-Unique u.id u m h.0,
  λ k v e. ground (arith, lookup-insert u.id k u m, eq_text_iff u.id k, h.1 k v),
)

pub reload_sessions :
    (d : Disk) (s : Service)
    → IsValid s
    → Unique (reload d s).sessions.sessions × IsKeyed (λ u. u.id) (reload d s).sessions.sessions
unfolding reload Sessions.restore lookup
reload_sessions d s v = elim (Option-cases d.sessions) [
  | inl missing ↦ rw (missing, reload) (v.sessions.unique, v.sessions.named)
  | inr (us, found) ↦
      rw (found, reload) (insert_all-IsKeyed us [] (tt, λ k x e. absurd (ground arith)))
]

pub restore_from_disk-IsKeyed :
    (entries : List DirEntry) (m : Runs.Manager)
    → Unique m.by_id × IsKeyed (λ r. r.id) m.by_id
    → Unique (restore_from_disk entries m).by_id
      × IsKeyed (λ r. r.id) (restore_from_disk entries m).by_id
unfolding restore_from_disk restore_entry
restore_from_disk-IsKeyed [] m h = h
restore_from_disk-IsKeyed ((name, none) ∷ entries) m h = restore_from_disk-IsKeyed entries m h
restore_from_disk-IsKeyed ((name, some r) ∷ entries) m h =
    let r' : Run = if eq_text r.dir [] then record r { dir = m.root ++ text "/" ++ name } else r in
    let same : r'.id ≡ r.id = ground arith in
    restore_from_disk-IsKeyed entries (restore_entry (name, some r) m) (
      insert-Unique r.id r' m.by_id h.0,
      λ k v e. ground (arith, lookup-insert r.id k r' m.by_id, eq_text_iff r.id k, h.1 k v, same),
    )

-- The sort of the runs keeps which of them the loop kills.
is_killed-insert_by_start :
    (k : Text) (r : Run) (rs : List Run) → is_killed k (insert_by_start r rs) ≡ is_killed k (r ∷ rs)
unfolding insert_by_start is_killed
is_killed-insert_by_start k r [] = refl
is_killed-insert_by_start k r (q ∷ rs) = ground (arith, is_killed-insert_by_start k r rs)

is_killed-sort_runs : (k : Text) (rs : List Run) → is_killed k (sort_runs rs) ≡ is_killed k rs
unfolding sort_runs is_killed
is_killed-sort_runs k [] = refl
is_killed-sort_runs k (r ∷ rs) =
    ground (arith, is_killed-insert_by_start k r (sort_runs rs), is_killed-sort_runs k rs)

is_killed-listed :
    (m : Runs.Manager) (k : Text) (q : Run)
    → Unique m.by_id × IsKeyed (λ r. r.id) m.by_id
    → lookup k m.by_id ≡ some q
    → is_killed k (sort_runs (list_of m [])) ≡ not (is_finished q.status)
unfolding list_of eq_text
is_killed-listed m k q h found =
    is_killed-sort_runs k _
    ∙ is_killed-keep (λ x. eq_text [] [] || eq_text x.session_id []) m.by_id k h.0 h.1
    ∙ rw found refl

pub kill_runs_all :
    (m : Runs.Manager) (reason : Text) (now : ℕ) (duration : Text → ℕ) (k : Text) (r : Run)
    → Unique m.by_id × IsKeyed (λ r. r.id) m.by_id
    → lookup k (kill_runs m (sort_runs (list_of m [])) reason now duration).by_id ≡ some r
    → is_finished r.status ≡ true
unfolding Runs.finished is_finished
kill_runs_all m reason now duration k r h e = elim (Option-cases (lookup k m.by_id)) [
  | inl missing ↦
      absurd (
        ground
          (arith, kill_runs_missing m (sort_runs (list_of m [])) reason now duration k missing))
  | inr (q, found) ↦ ground (
    arith,
    lookup-kill_runs m (sort_runs (list_of m [])) reason now duration k q found,
    is_killed-listed m k q h found,
  )
]
