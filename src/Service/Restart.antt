-- ===== src/Service/Restart.antt =====
-- Recover of internal/daemon/service.go: what a restart leaves.
use agent_runtime_harness.Prelude.{
  ℕ, ◌≡◌, refl, subst, sym, ◌∙◌, Text, text, eq_text, eq_text_iff, eq_text_refl, none, some, Bool,
  true, false, List, [], ◌∷◌, map, Map, lookup, if◌then◌else◌, mem_text, All, IsKeyed, IsKeyed-head,
  IsKeyed-tail, Unique, arith, ◌⊎◌, inl, inr, Option-cases, Bool-cases,
}
use agent_runtime_harness.Model.{Session, SessionState, is_terminal, Run, is_finished}
use agent_runtime_harness.Sessions
use agent_runtime_harness.Sessions.{finished, insert_by_created, sort_sessions}
use agent_runtime_harness.Sessions.Lookups.{lookup-mutate}
use agent_runtime_harness.Supervisor.Reach.{World}
use agent_runtime_harness.Service.{Service, Ending}
use agent_runtime_harness.Service.Composition.{IsValid}
use agent_runtime_harness.Service.Reloading.{
  All-sort_sessions, mem_sort_sessions, reload_sessions, restore_from_disk-IsKeyed, kill_runs_all,
}
use agent_runtime_harness.Service.Recovery.{
  Disk, reload, restart_reason, interrupt, interrupt_all, all_ids, recover,
}

-- The session under an id, if there is one, has ended.
abbrev IsSettled : Text → Service → Type 0
IsSettled k s = (x : Session) → lookup k s.sessions.sessions ≡ some x → is_terminal x.state ≡ true

lookup-interrupt :
    (w : Ending) (s : Service) (u : Session) (k : Text)
    → is_terminal u.state ≡ false
    → lookup k (interrupt w s u).sessions.sessions ≡ (
        if eq_text u.id k
        then elim (lookup k s.sessions.sessions) [
          | none ↦ none
          | some x ↦ some (record x { state = SessionState.stopped; stopped_at = some w.now })
        ]
        else lookup k s.sessions.sessions)
unfolding interrupt Sessions.finish finished is_terminal
lookup-interrupt w s u k alive =
    rw (alive, interrupt)
      (ground (
        arith,
        lookup-mutate s.sessions u.id k (finished SessionState.stopped restart_reason w.now),
      ))

interrupt_keeps :
    (w : Ending) (s : Service) (u : Session) (k : Text)
    → IsSettled k s
    → IsSettled k (interrupt w s u)
unfolding interrupt is_terminal
interrupt_keeps w s u k settled = elim (Bool-cases (is_terminal u.state)) [
  | inl over ↦ rw (over, interrupt) settled
  | inr alive ↦ λ x e. elim (Option-cases (lookup k s.sessions.sessions)) [
    | inl missing ↦ absurd (ground (arith, lookup-interrupt w s u k alive))
    | inr (y, found) ↦ ground (arith, lookup-interrupt w s u k alive, settled y found)
  ]
]

-- A record that says that its session has ended is right.
abbrev IsPending : Service → Session → Type 0
IsPending s u = is_terminal u.state ≡ true → IsSettled u.id s

interrupt_settles :
    (w : Ending) (s : Service) (u : Session) → IsPending s u → IsSettled u.id (interrupt w s u)
unfolding interrupt is_terminal
interrupt_settles w s u pending = elim (Bool-cases (is_terminal u.state)) [
  | inl over ↦ rw (over, interrupt) (pending over)
  | inr alive ↦ λ x e. elim (Option-cases (lookup u.id s.sessions.sessions)) [
    | inl missing ↦ absurd (ground (arith, lookup-interrupt w s u u.id alive, eq_text_refl u.id))
    | inr (y, found) ↦ ground (arith, lookup-interrupt w s u u.id alive, eq_text_refl u.id)
  ]
]

interrupt-IsPending :
    (w : Ending) (s : Service) (u : Session) (us : List Session)
    → All (IsPending s) us
    → All (IsPending (interrupt w s u)) us
interrupt-IsPending w s u [] p = tt
interrupt-IsPending w s u (x ∷ us) p =
    (λ over. interrupt_keeps w s u x.id (p.0 over), interrupt-IsPending w s u us p.1)

-- After the loop every id of its list is settled, and so is what was settled before.
interrupt_all_settles :
    (ws : Text → Ending) (s : Service) (us : List Session) (k : Text)
    → All (IsPending s) us
    → (mem_text k (all_ids us) ≡ true) ⊎ IsSettled k s
    → IsSettled k (interrupt_all ws s us)
unfolding interrupt_all all_ids mem_text
interrupt_all_settles ws s [] k p (inl h) = absurd (ground arith)
interrupt_all_settles ws s [] k p (inr settled) = settled
interrupt_all_settles ws s (u ∷ us) k p (inr settled) =
    let w = ws u.id in
    interrupt_all_settles ws (interrupt w s u) us k (interrupt-IsPending w s u us p.1)
      (inr (interrupt_keeps w s u k settled))
interrupt_all_settles ws s (u ∷ us) k p (inl h) =
    let w = ws u.id in
    elim (Bool-cases (eq_text u.id k)) [
      | inl same ↦
          interrupt_all_settles ws (interrupt w s u) us k (interrupt-IsPending w s u us p.1) (
            inr (
              subst (λ i. IsSettled i (interrupt w s u)) ((eq_text_iff u.id k).0 same)
                (interrupt_settles w s u p.0)))
      | inr other ↦
          interrupt_all_settles ws (interrupt w s u) us k (interrupt-IsPending w s u us p.1)
            (inl (ground arith))
    ]

-- The loop leaves the runs alone.
runs-interrupt_all :
    (ws : Text → Ending) (s : Service) (us : List Session) → (interrupt_all ws s us).runs ≡ s.runs
unfolding interrupt_all interrupt
runs-interrupt_all ws s [] = refl
runs-interrupt_all ws s (u ∷ us) =
    ground (arith, runs-interrupt_all ws (interrupt (ws u.id) s u) us)

-- The list of a map holds a record for each id, and those records are right.
mem_snapshot :
    (m : Map Session) (k : Text) (x : Session)
    → IsKeyed (λ u. u.id) m
    → Unique m
    → lookup k m ≡ some x
    → mem_text k (all_ids (map (λ e. e.1) m)) ≡ true
unfolding lookup all_ids mem_text
mem_snapshot [] k x keyed once e = absurd (ground arith)
mem_snapshot ((j, y) ∷ m) k x keyed once e = ground (
  arith,
  IsKeyed-head (λ u. u.id) j y m keyed,
  mem_snapshot m k x (IsKeyed-tail (λ u. u.id) j y m once keyed) once.1,
)

snapshot-IsPending :
    (s : Service) (n : Map Session)
    → Unique n
    → IsKeyed (λ u. u.id) n
    → ((k : Text) (x : Session) → lookup k n ≡ some x → lookup k s.sessions.sessions ≡ some x)
    → All (IsPending s) (map (λ e. e.1) n)
unfolding lookup
snapshot-IsPending s [] once keyed part = tt
snapshot-IsPending s ((j, y) ∷ n) once keyed part = (
  λ over x e.
      ground
        (arith, part j y (ground (arith, eq_text_refl j)), IsKeyed-head (λ u. u.id) j y n keyed),
  snapshot-IsPending s n once.1 (IsKeyed-tail (λ u. u.id) j y n once keyed)
      (λ k x e. part k x (ground (arith, once.0, eq_text_iff j k))),
)

-- Recover leaves no session alive and no run unfinished, whatever the managers find on the disk, and whatever
-- each round of its loop finds, if every manager is valid before.
pub recover_settles :
    (d : Disk) (ws : Text → Ending) (w : Ending) (kill_ok : ℕ → Bool) (world : World) (s : Service)
    → IsValid s
    → let n = (recover d ws w kill_ok world s).0 in
      ((k : Text) (x : Session)
        → lookup k n.sessions.sessions ≡ some x
        → is_terminal x.state ≡ true)
      × ((k : Text) (r : Run) → lookup k n.runs.by_id ≡ some r → is_finished r.status ≡ true)
unfolding recover Sessions.list_sessions
recover_settles d ws w kill_ok world s v =
    let s1 = reload d s in
    let us = map (λ e. e.1) s1.sessions.sessions in
    let n = interrupt_all ws s1 (sort_sessions us) in
    let once = reload_sessions d s v in
    (
      λ k.
          interrupt_all_settles ws s1 (sort_sessions us) k
            (All-sort_sessions (IsPending s1) us
              (snapshot-IsPending s1 s1.sessions.sessions once.0 once.1 (λ j y e. e)))
            (settled_or_listed s1 k once),
      λ k r. kill_runs_all n.runs (text "daemon restart") w.now w.duration k r (
          subst (λ m. Unique m.by_id × IsKeyed (λ q. q.id) m.by_id)
            (sym (runs-interrupt_all ws s1 (sort_sessions us))) (reloaded_runs d s v)),
    )
  where
    settled_or_listed :
        (t : Service) (k : Text)
        → Unique t.sessions.sessions × IsKeyed (λ u. u.id) t.sessions.sessions
        → (mem_text k (all_ids (sort_sessions (map (λ e. e.1) t.sessions.sessions))) ≡ true)
          ⊎ IsSettled k t
    settled_or_listed t k once = elim (Option-cases (lookup k t.sessions.sessions)) [
      | inl missing ↦ inr (λ x e. absurd (ground arith))
      | inr (x, found) ↦ inl (
          mem_sort_sessions k (map (λ e. e.1) t.sessions.sessions)
          ∙ mem_snapshot t.sessions.sessions k x once.1 once.0 found)
    ]

    reloaded_runs :
        (d : Disk) (s : Service)
        → IsValid s
        → Unique (reload d s).runs.by_id × IsKeyed (λ r. r.id) (reload d s).runs.by_id
    reloaded_runs d s v =
        unfold reload in restore_from_disk-IsKeyed d.runs s.runs (v.runs.unique, v.runs.keyed)
