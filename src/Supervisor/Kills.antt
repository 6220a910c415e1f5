-- ===== src/Supervisor/Kills.antt =====
-- Whom the kills of internal/supervisor/supervisor.go reach: KillSession and ReconcileOrphans.
use agent_runtime_harness.Prelude.{
  ℕ, ◌==◌, ◌≡◌, ◌≢◌, ◌↔◌, ◌∙◌, Text, text, Option, none, some, Bool, true, false, not, ◌&&◌, List,
  [], ◌∷◌, if◌then◌else◌, arith, inl, inr, Option-cases, Bool-cases, find,
}
use agent_runtime_harness.Supervisor.{Info, ProcInfo, Set, Supervisor}
use agent_runtime_harness.Supervisor.Reach.{
  World, alive_with_identity, mem_nat, is_orphan, orphans_from, orphans,
}

-- The process of an entry of a set, at its identity.
unfoldable pub is_live_entry : World → Option Info → Bool
unfolding alive_with_identity
is_live_entry w none = false
is_live_entry w (some i) = alive_with_identity w i.pid i.start_time

-- Every entry stands under its own pid.
abbrev ByPid : Set → Type 0
ByPid t = (pid : ℕ) (i : Info) → find pid t ≡ some i → i.pid ≡ pid

-- The record that a kill of the session leaves.
abbrev marked : ProcInfo → ProcInfo
marked r = record r { killed = true; kill_reason = text "session kill" }

-- The first record of a pid in a list.
unfoldable pub first_of : ℕ → List ProcInfo → Option ProcInfo
first_of pid [] = none
first_of pid (r ∷ rs) = if r.pid == pid then some r else first_of pid rs

unfoldable is_orphan_entry : (Text → Bool) → World → Option ProcInfo → Bool
unfolding is_orphan
is_orphan_entry live w none = false
is_orphan_entry live w (some r) = is_orphan live w r

mem_nat-orphans_from :
    (seen : List ℕ) (live : Text → Bool) (w : World) (rs : List ProcInfo) (pid : ℕ)
    → mem_nat pid (orphans_from seen live w rs)
      ≡ (not (mem_nat pid seen) && is_orphan_entry live w (first_of pid rs))
unfolding mem_nat orphans_from first_of is_orphan_entry
mem_nat-orphans_from seen live w [] pid = ground arith
mem_nat-orphans_from seen live w (r ∷ rs) pid = elim (Bool-cases (mem_nat r.pid seen)) [
  | inl old ↦ rw (old, orphans_from) (mem_nat-orphans_from seen live w rs pid ∙ old_pid old)
  | inr fresh ↦ elim (Bool-cases (is_orphan live w r)) [
    | inl yes' ↦
        rw (fresh, orphans_from, yes')
          (ground (arith, fresh, mem_nat-orphans_from (r.pid ∷ seen) live w rs pid))
    | inr no' ↦
        rw (fresh, orphans_from, no')
          (ground (arith, fresh, mem_nat-orphans_from (r.pid ∷ seen) live w rs pid))
  ]
]
  where
    old_pid :
        mem_nat r.pid seen ≡ true
        → (not (mem_nat pid seen) && is_orphan_entry live w (first_of pid rs)) ≡ (
            not (mem_nat pid seen)
            && is_orphan_entry live w (if r.pid == pid then some r else first_of pid rs))
    old_pid old = ground arith

-- ReconcileOrphans calls KillTree for exactly the pids whose first record belongs to no live session, has
-- a start time, and is still the process of that start time: a reused pid is left alone.
pub orphans_exact :
    (live : Text → Bool) (w : World) (prev : List ProcInfo) (pid : ℕ)
    → (mem_nat pid (orphans live w prev) ≡ true) ↔ (
        (r : ProcInfo) × (first_of pid prev ≡ some r)
        × (live r.session_id ≡ false)
        × (r.start_time ≢ 0)
        × (w.exists r.pid ≡ true)
        × (w.identity r.pid ≡ r.start_time)
        × (r.pid ≢ 0))
unfolding orphans is_orphan_entry is_orphan alive_with_identity mem_nat
orphans_exact live w prev pid = elim (Option-cases (first_of pid prev)) [
  | inl missing ↦ (
    λ h. absurd (ground (arith, mem_nat-orphans_from [] live w prev pid)),
    λ e. absurd (ground (arith, e)),
  )
  | inr (r, found) ↦ (
    λ h. (
      r,
      found,
      ground (arith, h, mem_nat-orphans_from [] live w prev pid),
      ground (arith, h, mem_nat-orphans_from [] live w prev pid),
      ground (arith, h, mem_nat-orphans_from [] live w prev pid),
      ground (arith, h, mem_nat-orphans_from [] live w prev pid),
      ground (arith, h, mem_nat-orphans_from [] live w prev pid),
    ),
    λ e. ground (arith, e, mem_nat-orphans_from [] live w prev pid),
  )
]
