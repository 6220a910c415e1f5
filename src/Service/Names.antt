-- ===== src/Service/Names.antt =====
-- internal/daemon/service.go: a session that is called by its name. AcquireLease finds it, but gives the lease
-- to the name.
use agent_runtime_harness.Prelude.{
  ℕ, ◌≡◌, ◌≢◌, refl, Text, text, some, Bool, true, [], lookup, arith, inl, inr, Option-cases,
}
use agent_runtime_harness.Model.{Session, Lease, is_active}
use agent_runtime_harness.Policy.{evaluate}
use agent_runtime_harness.Leases.{acquired}
use agent_runtime_harness.Leases.Granting.{IsGiven, acquire-IsGiven}
use agent_runtime_harness.Service.{Service, get_session, Ending, terminate_session}
use agent_runtime_harness.Service.Work.{with_device, acquire_lease, answered}
use agent_runtime_harness.Service.Composition.{IsValid, get_session_found}
use agent_runtime_harness.Service.Clients.{acquire_lease-IsValid}
use agent_runtime_harness.Service.Departure.{terminate_session-IsSpared}

acquire_lease-IsGiven :
    (s : Service) (owner sid rid : Text) (ttl now : ℕ) (e ok : Bool) (l : Lease)
    → (acquire_lease s owner sid rid ttl now e ok).1 ≡ answered (acquired l)
    → IsGiven (acquire_lease s owner sid rid ttl now e ok).0.leases sid l
unfolding acquire_lease
acquire_lease-IsGiven s owner sid rid ttl now e ok l =
    elim (Option-cases (evaluate s.rules owner (text "lease.acquire"))) [
      | inr (d, no') ↦ rw (no', acquire_lease) (λ a. absurd (ground arith))
      | inl yes' ↦ elim (Option-cases (get_session s sid)) [
        | inl unknown ↦ rw (yes', acquire_lease, unknown) (λ a. absurd (ground arith))
        | inr (u, found) ↦
            rw (yes', acquire_lease, found)
              (λ a.
                acquire-IsGiven (with_device s.leases rid e) rid sid ttl now ok l
                  (ground (arith, a)))
      ]
    ]

sessions-acquire_lease :
    (s : Service) (owner sid rid : Text) (ttl now : ℕ) (e ok : Bool)
    → (acquire_lease s owner sid rid ttl now e ok).0.sessions ≡ s.sessions
unfolding acquire_lease
sessions-acquire_lease s owner sid rid ttl now e ok =
    elim (Option-cases (evaluate s.rules owner (text "lease.acquire"))) [
      | inr (d, no') ↦ rw (no', acquire_lease) refl
      | inl yes' ↦ elim (Option-cases (get_session s sid)) [
        | inl unknown ↦ rw (yes', acquire_lease, unknown) refl
        | inr (u, found) ↦ rw (yes', acquire_lease, found) refl
      ]
    ]

get_session_by_id :
    (s : Service) (id : Text) (u : Session)
    → lookup id s.sessions.sessions ≡ some u
    → get_session s id ≡ some u
unfolding get_session
get_session_by_id s id u found = rw (found, get_session) refl

-- A lease that AcquireLease gives to a session which the caller named, rather than by its id, is still active
-- after TerminateSession of that session, if every manager is valid and the id is not empty.
pub named_lease_survives :
    (s : Service) (owner name rid : Text) (ttl now : ℕ) (e ok : Bool) (u : Session) (l : Lease)
    (reason : Text) (w : Ending)
    → IsValid s
    → get_session s name ≡ some u
    → u.id ≢ name
    → u.id ≢ []
    → (acquire_lease s owner name rid ttl now e ok).1 ≡ answered (acquired l)
    → let s' = (acquire_lease s owner name rid ttl now e ok).0 in
      let n = (terminate_session s' u.id reason w).0 in
      (lookup l.id n.leases.leases ≡ some l) × (is_active l.state ≡ true)
named_lease_survives s owner name rid ttl now e ok u l reason w v found other named answer =
    let s' = (acquire_lease s owner name rid ttl now e ok).0 in
    let given = acquire_lease-IsGiven s owner name rid ttl now e ok l answer in
    let here = get_session_by_id s' u.id u (
      ground (
        arith,
        sessions-acquire_lease s owner name rid ttl now e ok,
        get_session_found s name u v.sessions found,
      )) in
    let spared =
      terminate_session-IsSpared s' u.id reason w u name
        (acquire_lease-IsValid s owner name rid ttl now e ok v) here other named in
    (spared.same_lease l.id l given.0 given.1, given.2)
