-- ===== src/Leases/Endings.antt =====
-- internal/lease/manager.go: how leases end or are renewed. A range over m.leases visits the ids of
-- `order`; Go fixes none, and leaves it open whether a lease granted on the way is visited.
use agent_runtime_harness.Prelude.{
  ℕ, ◌+◌, ◌==◌, Text, eq_text, none, some, Bool, false, not, ◌&&◌, List, [], ◌∷◌, ◌++◌, Map, lookup,
  insert, keep, ltb, if◌then◌else◌,
}
use agent_runtime_harness.Model.{Lease, LeaseState, released, expired, is_active}
use agent_runtime_harness.Leases.{Manager, Waiter, session_ended, save, close, end_lease}

pub data EndResult : Type 0 where
  ended : EndResult
  unknown_lease : EndResult
  not_active : LeaseState → EndResult
  not_saved : EndResult

-- Release
unfoldable pub release : Manager → Text → ℕ → Bool → Manager × EndResult
unfolding lookup is_active end_lease save
release m id now ok = elim (lookup id m.leases) [
  | none ↦ (m, unknown_lease)
  | some l ↦
      if not (is_active l.state)
      then (m, not_active l.state)
      else (save ok (end_lease m l released now), if ok then ended else not_saved)
]

-- ExpireNow: a missing lease and an inactive one give the same error.
unfoldable pub expire_now : Manager → Text → ℕ → Bool → Manager × EndResult
unfolding lookup is_active end_lease save
expire_now m id now ok = elim (lookup id m.leases) [
  | none ↦ (m, unknown_lease)
  | some l ↦
      if not (is_active l.state)
      then (m, unknown_lease)
      else (save ok (end_lease m l expired now), if ok then ended else not_saved)
]

-- One round of a range over m.leases that ends the active leases which pass a test.
unfoldable pub visit : (Lease → Bool) → LeaseState → ℕ → Manager → Text → Manager
unfolding lookup is_active end_lease
visit p st now m id = elim (lookup id m.leases) [
  | none ↦ m
  | some l ↦ if is_active l.state && p l then end_lease m l st now else m
]

-- Whether the round ends the lease: it is then in the list that the caller gets.
unfoldable is_hit : (Lease → Bool) → Manager → Text → Bool
unfolding lookup is_active
is_hit p m id = elim (lookup id m.leases) [ none ↦ false | some l ↦ is_active l.state && p l ]

unfoldable pub end_where : (Lease → Bool) → LeaseState → ℕ → Manager → List Text → Manager
unfolding visit
end_where p st now m [] = m
end_where p st now m (id ∷ order) = end_where p st now (visit p st now m id) order

unfoldable pub hits : (Lease → Bool) → LeaseState → ℕ → Manager → List Text → List Text
unfolding visit is_hit
hits p st now m [] = []
hits p st now m (id ∷ order) =
    let rest = hits p st now (visit p st now m id) order in
    if is_hit p m id then id ∷ rest else rest

-- Snapshots are saved only if something ended, and the error of Save is dropped.
unfoldable pub save_if_any : List Text → Bool → Manager → Manager
unfolding save
save_if_any [] ok m = m
save_if_any (id ∷ ids) ok m = save ok m

unfoldable pub close_all : List Waiter → Manager → Manager
unfolding close
close_all [] m = m
close_all (w ∷ q) m = close_all q (close w.ticket session_ended m)

-- w.SessionID == sessionID
unfoldable pub is_waiter_of : Text → Waiter → Bool
is_waiter_of sid w = eq_text w.session_id sid

unfoldable pub owned_waiters : Text → Map (List Waiter) → List Waiter
unfolding is_waiter_of
owned_waiters sid [] = []
owned_waiters sid ((rid, q) ∷ ws) = keep (is_waiter_of sid) q ++ owned_waiters sid ws

unfoldable pub other_waiters : Text → Map (List Waiter) → Map (List Waiter)
unfolding is_waiter_of
other_waiters sid [] = []
other_waiters sid ((rid, q) ∷ ws) =
    (rid, keep (λ w. not (is_waiter_of sid w)) q) ∷ other_waiters sid ws

-- The second loop of ReleaseAll.
unfoldable pub drop_waiters : Manager → Text → Manager
unfolding owned_waiters other_waiters close_all
drop_waiters m sid =
    close_all (owned_waiters sid m.waiters) (record m { waiters = other_waiters sid m.waiters })

unfoldable pub is_lease_of : Text → Lease → Bool
is_lease_of sid l = eq_text l.session_id sid

-- ReleaseAll; the released leases are those of `hits`.
unfoldable pub release_all : Manager → Text → List Text → ℕ → Bool → Manager
unfolding is_lease_of end_where hits drop_waiters save_if_any
release_all m sid order now ok =
    save_if_any (hits (is_lease_of sid) released now m order) ok
      (drop_waiters (end_where (is_lease_of sid) released now m order) sid)

-- !l.ExpiresAt.IsZero() && l.ExpiresAt.Before(now)
unfoldable pub is_overdue : ℕ → Lease → Bool
is_overdue now l = not (l.expires_at == 0) && ltb l.expires_at now

-- Sweep
unfoldable pub sweep : Manager → ℕ → List Text → Bool → Manager
unfolding is_overdue end_where hits save_if_any
sweep m now order ok =
    save_if_any (hits (is_overdue now) expired now m order) ok
      (end_where (is_overdue now) expired now m order)

-- !liveSessionIDs[l.SessionID]
unfoldable pub is_orphan : (Text → Bool) → Lease → Bool
is_orphan live l = not (live l.session_id)

-- ReapOrphans
unfoldable pub reap_orphans : Manager → (Text → Bool) → List Text → ℕ → Bool → Manager
unfolding is_orphan end_where hits save_if_any
reap_orphans m live order now ok =
    save_if_any (hits (is_orphan live) expired now m order) ok
      (end_where (is_orphan live) expired now m order)

pub data RenewResult : Type 0 where
  renewed : Lease → RenewResult
  bad_ttl : RenewResult
  no_lease : RenewResult
  cannot_renew : LeaseState → RenewResult

-- Renew: the new expiry is not saved.
unfoldable pub renew : Manager → Text → ℕ → ℕ → Manager × RenewResult
unfolding lookup is_active
renew m id ttl now = if ttl == 0 then (m, bad_ttl) else elim (lookup id m.leases) [
  | none ↦ (m, no_lease)
  | some l ↦
      if not (is_active l.state)
      then (m, cannot_renew l.state)
      else (let l' = record l { expires_at = now + ttl } in
          (record m { leases = insert id l' m.leases }, renewed l'))
]
