-- ===== src/Leases/Granting.antt =====
-- internal/lease/manager.go: the lease that Acquire gives at once.
use agent_runtime_harness.Prelude.{
  ℕ, suc, ◌≡◌, refl, subst, Text, eq_text_refl, some, Bool, true, false, lookup, lookup-insert,
  length, ltb, if◌then◌else◌, arith, inl, inr, Option-cases, Bool-cases,
}
use agent_runtime_harness.Model.{Lease, is_active}
use agent_runtime_harness.Leases.{
  Manager, at, capacity_of, new_lease, grant, enqueue, save, acquire, AcquireResult, acquired,
}
use agent_runtime_harness.Leases.Handover.{leases-save}

-- The lease is in the table, active, and belongs to the text that was passed.
abbrev pub IsGiven : Manager → Text → Lease → Type 0
IsGiven m sid l =
    (lookup l.id m.leases ≡ some l) × (l.session_id ≡ sid) × (is_active l.state ≡ true)

grant-IsGiven :
    (m : Manager) (rid sid : Text) (ttl now : ℕ) (ok : Bool)
    → IsGiven (save ok (grant m rid sid ttl now)) sid (new_lease (suc m.seq) rid sid ttl now)
unfolding grant new_lease is_active
grant-IsGiven m rid sid ttl now ok =
    let l = new_lease (suc m.seq) rid sid ttl now in
    (
      ground (
        arith,
        leases-save ok (grant m rid sid ttl now),
        lookup-insert l.id l.id l m.leases,
        eq_text_refl l.id,
      ),
      refl,
      refl,
    )

pub acquire-IsGiven :
    (m : Manager) (rid sid : Text) (ttl now : ℕ) (ok : Bool) (l : Lease)
    → (acquire m rid sid ttl now ok).1 ≡ acquired l
    → IsGiven (acquire m rid sid ttl now ok).0 sid l
unfolding acquire enqueue
acquire-IsGiven m rid sid ttl now ok l = elim (Option-cases (lookup rid m.res)) [
  | inl unknown ↦ rw (unknown, acquire) (λ e. absurd (ground arith))
  | inr (r, found) ↦ elim (Bool-cases (ltb (length (at rid m.holders)) (capacity_of r))) [
    | inr full ↦ rw (found, acquire, full) (λ e. absurd (ground arith))
    | inl free ↦
        rw (found, acquire, free)
          (λ e.
            let same : new_lease (suc m.seq) rid sid ttl now ≡ l = by_save ok e in
            subst (IsGiven (save ok (grant m rid sid ttl now)) sid) same
              (grant-IsGiven m rid sid ttl now ok))
  ]
]
  where
    by_save :
        (k : Bool)
        → (if k
            then acquired (new_lease (suc m.seq) rid sid ttl now)
            else AcquireResult.save_failed)
          ≡ acquired l
        → new_lease (suc m.seq) rid sid ttl now ≡ l
    by_save true e = ground arith
    by_save false e = absurd (ground arith)
