-- ===== src/Leases/Examples.antt =====
-- Runs of the lease manager of internal/lease/manager.go, and its theorems at them.
use agent_runtime_harness.Prelude.{
  ℕ, ◌≡◌, ◌≤◌, refl, Text, text, eq_text, some, true, List, [], ◌∷◌, Map, lookup, length, arith,
  ◌⊎◌, mem_text, Bool-cases, inl, inr,
}
use agent_runtime_harness.Model.{Lease, Resource, LeaseMode, released, expired, is_active}
use agent_runtime_harness.Ids.{lease_id}
use agent_runtime_harness.Leases.{
  Manager, Waiter, at, capacity_of, new_lease, granted, snapshot, cancel_wait,
}
use agent_runtime_harness.Leases.Endings.{EndResult, release, release_all, sweep, owned_waiters}
use agent_runtime_harness.Leases.Startup.{ResourceConfig, new, restore}
use agent_runtime_harness.Leases.Holders.{active_ids}
use agent_runtime_harness.Leases.Invariant.{IsValid}
use agent_runtime_harness.Leases.History.{
  Call, acquires, run, run-IsValid, new-IsValid, active_ids-run_le, run_serves,
}
use agent_runtime_harness.Leases.Handover.{release_serves}
use agent_runtime_harness.Leases.Hazards.{release_all_regrants, cancel_wait_leaks}
use agent_runtime_harness.Leases.Sessions.{lookup-sweep}
use agent_runtime_harness.Leases.Restart.{restore-snapshot}

abbrev gpu_config : ResourceConfig
gpu_config = record {
  mode = text "exclusive";
  capacity = 0;
  provider = text "local-gpu";
  meta = [];
}

abbrev config : Map ResourceConfig
config = (text "gpu", gpu_config) ∷ []

abbrev gpu : Resource
gpu = record {
  id = text "gpu";
  mode = LeaseMode.exclusive;
  capacity = 0;
  provider = text "local-gpu";
  meta = [];
}

-- Session a holds the gpu until 15 and b waits for it.
abbrev calls : List (ℕ × Call)
calls =
    (10, acquires (text "gpu") (text "a") 5 true)
    ∷ (11, acquires (text "gpu") (text "b") 0 true)
    ∷ []

abbrev contended : Manager
contended = run (new config) calls

-- Session a holds the gpu and waits for it again.
abbrev waiting_on_itself : Manager
waiting_on_itself = run (new config) (
    (10, acquires (text "gpu") (text "a") 5 true)
    ∷ (11, acquires (text "gpu") (text "a") 0 true)
    ∷ [])

abbrev held : Lease
held = new_lease 1 (text "gpu") (text "a") 5 10

abbrev waiter : Text → Waiter
waiter sid = record { ticket = 0; session_id = sid; enqueued_at = 11 }

contended-IsValid : IsValid contended
contended-IsValid = run-IsValid (new config) calls (new-IsValid config)

waiting_on_itself-IsValid : IsValid waiting_on_itself
waiting_on_itself-IsValid = run-IsValid (new config) _ (new-IsValid config)

held-contended : lookup (text "lease-00000001") contended.leases ≡ some held
unfolding run new lookup at capacity_of
held-contended = refl

queue-contended : at (text "gpu") contended.waiters ≡ waiter (text "b") ∷ []
unfolding run new at capacity_of
queue-contended = refl

held-waiting : lookup (text "lease-00000001") waiting_on_itself.leases ≡ some held
unfolding run new lookup at capacity_of
held-waiting = refl

queue-waiting : at (text "gpu") waiting_on_itself.waiters ≡ waiter (text "a") ∷ []
unfolding run new at capacity_of
queue-waiting = refl

run-IsValid_example : IsValid (run (new config) calls)
run-IsValid_example = run-IsValid (new config) calls (new-IsValid config)

active_ids-run_le_example : length (active_ids (text "gpu") contended.leases) ≤ capacity_of gpu
unfolding run new lookup at capacity_of
active_ids-run_le_example = active_ids-run_le config calls (text "gpu") gpu refl

run_serves_example :
    (at (text "gpu") contended.waiters ≡ [])
    ⊎ (length (active_ids (text "gpu") contended.leases) ≡ capacity_of gpu)
unfolding run new lookup at capacity_of
run_serves_example = run_serves config calls (text "gpu") gpu refl

release_serves_example :
    let q = (release contended (text "lease-00000001") 12 true).0 in
    let given = new_lease 2 (text "gpu") (text "b") 0 12 in
    (lookup (lease_id 2) q.leases ≡ some given)
    × (q.closed ≡ (0, granted given) ∷ [])
    × (at (text "gpu") q.waiters ≡ [])
    × (lookup (text "lease-00000001") q.leases
        ≡ some (record held { state = released; released_at = some 12 }))
    × (length (at (text "gpu") q.holders) ≡ length (at (text "gpu") contended.holders))
    × ((release contended (text "lease-00000001") 12 true).1 ≡ EndResult.ended)
unfolding run new new_lease is_active at capacity_of
release_serves_example =
    release_serves contended (text "lease-00000001") held (waiter (text "b")) [] 12 true
      contended-IsValid held-contended refl queue-contended

release_all_regrants_example :
    lookup
      (lease_id 2)
      (release_all waiting_on_itself (text "a") (text "lease-00000001" ∷ []) 12 true).leases
    ≡ some (new_lease 2 (text "gpu") (text "a") 0 12)
unfolding run new new_lease is_active at capacity_of
release_all_regrants_example =
    release_all_regrants waiting_on_itself (text "a") (text "lease-00000001") held
      (waiter (text "a")) [] [] [] 12 true waiting_on_itself-IsValid held-waiting refl refl
      queue-waiting refl tt tt

cancel_wait_leaks_example :
    let q = cancel_wait (release contended (text "lease-00000001") 12 true).0 (text "gpu") 0 in
    (lookup (lease_id 2) q.leases ≡ some (new_lease 2 (text "gpu") (text "b") 0 12))
    × (length (at (text "gpu") q.holders) ≡ length (at (text "gpu") contended.holders))
unfolding run new new_lease is_active at capacity_of
cancel_wait_leaks_example =
    cancel_wait_leaks contended (text "lease-00000001") held (waiter (text "b")) [] 12 true
      contended-IsValid held-contended refl queue-contended

lookup-sweep_example :
    lookup (text "lease-00000001") (sweep contended 16 (text "lease-00000001" ∷ []) true).leases
    ≡ some (record held { state = expired; released_at = some 16 })
unfolding new_lease is_active mem_text eq_text
lookup-sweep_example =
    lookup-sweep contended 16 (text "lease-00000001" ∷ []) true (text "lease-00000001") held
      contended-IsValid held-contended

-- The range visits the only lease.
only_held :
    (j : Text) (k : Lease)
    → lookup j contended.leases ≡ some k
    → is_active k.state ≡ true
    → eq_text k.session_id (text "a") ≡ true
    → mem_text j (text "lease-00000001" ∷ []) ≡ true
unfolding run new lookup at capacity_of mem_text
only_held j k e active own = elim (Bool-cases (eq_text (text "lease-00000001") j)) [
  | inl same ↦ rw same
  | inr other ↦ absurd (ground arith)
]

nobody_waits : owned_waiters (text "a") contended.waiters ≡ []
unfolding run new at capacity_of owned_waiters
nobody_waits = refl

abbrev ended_lease : Lease
ended_lease = record held { state = released; released_at = some 12 }

restore-snapshot_example :
    let q = restore (snapshot contended) (new config) in
    (q.res ≡ contended.res)
    × (q.leases ≡ contended.leases)
    × ((rid : Text) → at rid q.holders ≡ at rid contended.holders)
    × (q.waiters ≡ [])
restore-snapshot_example = restore-snapshot contended (new config) contended-IsValid
