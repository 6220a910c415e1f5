-- ===== src/Leases/History.antt =====
-- Histories of calls of the lease manager of internal/lease/manager.go, from its construction on.
use agent_runtime_harness.Prelude.{
  ℕ, ◌≡◌, ◌≤◌, refl, sym, Text, some, Bool, List, [], ◌∷◌, Map, lookup, length, arith, ◌⊎◌, inl,
}
use agent_runtime_harness.Model.{LeaseMode, Resource}
use agent_runtime_harness.Leases.{Manager, at, capacity_of, acquire, cancel_wait}
use agent_runtime_harness.Leases.Endings.{
  release, expire_now, release_all, sweep, reap_orphans, renew,
}
use agent_runtime_harness.Leases.Startup.{
  ResourceConfig, resource_of, resources_of, new, ensure_resource,
}
use agent_runtime_harness.Leases.Holders.{active_ids}
use agent_runtime_harness.Leases.Tickets.{queued, finished}
use agent_runtime_harness.Leases.Invariant.{IsRegistry, IsValid}
use agent_runtime_harness.Leases.Operations.{
  acquire-IsValid, release-IsValid, expire_now-IsValid, release_all-IsValid, sweep-IsValid,
  reap_orphans-IsValid, renew-IsValid, ensure_resource-IsValid, named-insert,
}
use agent_runtime_harness.Leases.Waiting.{cancel_wait-IsValid}

-- The sections that take the mutex and change the state, with their inputs: resource, session,
-- lease, ticket, ttl, the order of a range, and whether the write to the store succeeds.
pub data Call : Type 0 where
  acquires : (rid sid : Text) (ttl : ℕ) (ok : Bool) → Call
  cancels : (rid : Text) (ticket : ℕ) → Call
  releases : (id : Text) (ok : Bool) → Call
  expires : (id : Text) (ok : Bool) → Call
  renews : (id : Text) (ttl : ℕ) → Call
  releases_all : (sid : Text) (order : List Text) (ok : Bool) → Call
  sweeps : (order : List Text) (ok : Bool) → Call
  reaps : (live : Text → Bool) (order : List Text) (ok : Bool) → Call
  ensures : (rid : Text) (mode : LeaseMode) (ok : Bool) → Call

-- One section, at a time of the clock.
unfoldable pub step : Manager → ℕ × Call → Manager
unfolding acquire cancel_wait release expire_now renew release_all sweep reap_orphans
    ensure_resource
step m (now, acquires rid sid ttl ok) = (acquire m rid sid ttl now ok).0
step m (now, cancels rid t) = cancel_wait m rid t
step m (now, releases id ok) = (release m id now ok).0
step m (now, expires id ok) = (expire_now m id now ok).0
step m (now, renews id ttl) = (renew m id ttl now).0
step m (now, releases_all sid order ok) = release_all m sid order now ok
step m (now, sweeps order ok) = sweep m now order ok
step m (now, reaps live order ok) = reap_orphans m live order now ok
step m (now, ensures rid mode ok) = ensure_resource m rid mode ok

unfoldable pub run : Manager → List (ℕ × Call) → Manager
unfolding step
run m [] = m
run m (c ∷ cs) = run (step m c) cs

step-IsValid : (m : Manager) (c : ℕ × Call) → IsValid m → IsValid (step m c)
unfolding step
step-IsValid m (now, acquires rid sid ttl ok) v = acquire-IsValid m rid sid ttl now ok v
step-IsValid m (now, cancels rid t) v = cancel_wait-IsValid m rid t v
step-IsValid m (now, releases id ok) v = release-IsValid m id now ok v
step-IsValid m (now, expires id ok) v = expire_now-IsValid m id now ok v
step-IsValid m (now, renews id ttl) v = renew-IsValid m id ttl now v
step-IsValid m (now, releases_all sid order ok) v = release_all-IsValid m sid order now ok v
step-IsValid m (now, sweeps order ok) v = sweep-IsValid m now order ok v
step-IsValid m (now, reaps live order ok) v = reap_orphans-IsValid m live order now ok v
step-IsValid m (now, ensures rid mode ok) v = ensure_resource-IsValid m rid mode ok v

-- From a valid manager, every history of calls leads to a valid one.
pub run-IsValid : (m : Manager) (cs : List (ℕ × Call)) → IsValid m → IsValid (run m cs)
unfolding run
run-IsValid m [] v = v
run-IsValid m (c ∷ cs) v = run-IsValid (step m c) cs (step-IsValid m c v)

IsRegistry-resources_of : (cfg : Map ResourceConfig) → IsRegistry (resources_of cfg)
unfolding resources_of lookup
IsRegistry-resources_of [] = record { once = tt; named = λ id r h. absurd (ground arith) }
IsRegistry-resources_of ((id, rc) ∷ cfg) =
    named-insert id (resource_of id rc) (resources_of cfg) (IsRegistry-resources_of cfg) refl

pub new-IsValid : (cfg : Map ResourceConfig) → IsValid (new cfg)
unfolding new at lookup active_ids queued finished
new-IsValid cfg = record {
  consistent = record {
    unique = tt;
    keyed = λ id l h. absurd (ground arith);
    fresh = λ n h. refl;
    agree = λ k. refl;
    bounded = λ k r h. omega arith;
    registry = IsRegistry-resources_of cfg;
    vacant = λ k h. refl;
    known = λ k h. refl;
    once = λ t. omega arith;
    calm = refl;
  };
  served = λ k r h. inl refl;
}

-- After any history from the start, a resource never has more active leases than its capacity,
-- whatever its leases table and its holders went through.
pub active_ids-run_le :
    (cfg : Map ResourceConfig) (cs : List (ℕ × Call)) (rid : Text) (r : Resource)
    → lookup rid (run (new cfg) cs).res ≡ some r
    → length (active_ids rid (run (new cfg) cs).leases) ≤ capacity_of r
active_ids-run_le cfg cs rid r found =
    let v = run-IsValid (new cfg) cs (new-IsValid cfg) in
    rw (sym (v.consistent.agree rid)) (v.consistent.bounded rid r found)

-- Nor does anybody wait for a resource that has a free slot: no wake-up is lost.
pub run_serves :
    (cfg : Map ResourceConfig) (cs : List (ℕ × Call)) (rid : Text) (r : Resource)
    → lookup rid (run (new cfg) cs).res ≡ some r
    → (at rid (run (new cfg) cs).waiters ≡ [])
      ⊎ (length (active_ids rid (run (new cfg) cs).leases) ≡ capacity_of r)
run_serves cfg cs rid r found =
    let v = run-IsValid (new cfg) cs (new-IsValid cfg) in
    ground (arith, v.served rid r found, v.consistent.agree rid, v.consistent.bounded rid r found)
