-- ===== src/Leases/Sessions.antt =====
-- The end of a session and the sweep: ReleaseAll and Sweep of internal/lease/manager.go.
use agent_runtime_harness.Prelude.{
  ℕ, ◌≡◌, ◌==◌, refl, ap, ◌∙◌, Text, eq_text, some, Bool, true, false, not, ◌&&◌, List, [], ◌∷◌,
  lookup, ltb, if◌then◌else◌, arith, mem_text,
}
use agent_runtime_harness.Model.{Lease, released, expired, is_active}
use agent_runtime_harness.Leases.{Manager}
use agent_runtime_harness.Leases.Endings.{
  end_where, hits, save_if_any, release_all, sweep, is_lease_of, is_overdue, owned_waiters,
  drop_waiters,
}
use agent_runtime_harness.Leases.Invariant.{IsValid}
use agent_runtime_harness.Leases.Effects.{after_visit, lookup-end_where}
use agent_runtime_harness.Leases.Waiting.{leases-drop_waiters, owned_waiters-drop_waiters}

pub leases-save_if_any :
    (ids : List Text) (ok : Bool) (m : Manager) → (save_if_any ids ok m).leases ≡ m.leases
unfolding save_if_any
leases-save_if_any [] ok m = refl
leases-save_if_any (id ∷ ids) true m = refl
leases-save_if_any (id ∷ ids) false m = refl

waiters-save_if_any :
    (ids : List Text) (ok : Bool) (m : Manager) → (save_if_any ids ok m).waiters ≡ m.waiters
unfolding save_if_any
waiters-save_if_any [] ok m = refl
waiters-save_if_any (id ∷ ids) true m = refl
waiters-save_if_any (id ∷ ids) false m = refl

-- ReleaseAll ends exactly the active leases of the session that its range visits, and leaves each
-- other lease that there was.
pub lookup-release_all :
    (m : Manager) (sid : Text) (order : List Text) (now : ℕ) (ok : Bool) (id : Text) (l : Lease)
    → IsValid m
    → lookup id m.leases ≡ some l
    → lookup id (release_all m sid order now ok).leases
      ≡ some (
          if mem_text id order && (is_active l.state && eq_text l.session_id sid)
          then record l { state = released; released_at = some now }
          else l)
unfolding release_all after_visit
lookup-release_all m sid order now ok id l v e = ground (
  arith,
  leases-save_if_any (hits (is_lease_of sid) released now m order) ok
      (drop_waiters (end_where (is_lease_of sid) released now m order) sid),
  leases-drop_waiters (end_where (is_lease_of sid) released now m order) sid,
  lookup-end_where (is_lease_of sid) released now m order id l v refl e,
)

-- Sweep expires exactly the active leases with an expiry before now that its range visits, and
-- leaves each other lease that there was.
pub lookup-sweep :
    (m : Manager) (now : ℕ) (order : List Text) (ok : Bool) (id : Text) (l : Lease)
    → IsValid m
    → lookup id m.leases ≡ some l
    → lookup id (sweep m now order ok).leases
      ≡ some (
          if mem_text id order
            && (is_active l.state && (not (l.expires_at == 0) && ltb l.expires_at now))
          then record l { state = expired; released_at = some now }
          else l)
unfolding sweep after_visit
lookup-sweep m now order ok id l v e = ground (
  arith,
  leases-save_if_any (hits (is_overdue now) expired now m order) ok
      (end_where (is_overdue now) expired now m order),
  lookup-end_where (is_overdue now) expired now m order id l v refl e,
)

-- After ReleaseAll no queue holds a waiter of the session.
pub owned_waiters-release_all :
    (m : Manager) (sid : Text) (order : List Text) (now : ℕ) (ok : Bool)
    → owned_waiters sid (release_all m sid order now ok).waiters ≡ []
unfolding release_all
owned_waiters-release_all m sid order now ok =
    let n = end_where (is_lease_of sid) released now m order in
    ap (owned_waiters sid)
      (waiters-save_if_any (hits (is_lease_of sid) released now m order) ok (drop_waiters n sid))
    ∙ owned_waiters-drop_waiters n sid
