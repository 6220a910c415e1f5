-- ===== src/Leases/Effects.antt =====
-- What the release paths of internal/lease/manager.go do to the table of leases.
use agent_runtime_harness.Prelude.{
  ℕ, suc, ◌≡◌, Text, eq_text, eq_text_iff, some, Bool, true, false, ◌&&◌, List, [], ◌∷◌, lookup,
  lookup-insert, if◌then◌else◌, arith, inl, inr, Option-cases, Bool-cases, List-cases, mem_text,
}
use agent_runtime_harness.Model.{Lease, LeaseState, is_active}
use agent_runtime_harness.Ids.{lease_id}
use agent_runtime_harness.Leases.{
  Manager, at, new_lease, grant, close, hand_over, try_satisfy, drop_lease, end_lease,
}
use agent_runtime_harness.Leases.Endings.{visit, end_where}
use agent_runtime_harness.Leases.Invariant.{IsConsistent, IsValid, drop_lease-IsConsistent}
use agent_runtime_harness.Leases.Operations.{visit-IsValid}

-- Serving a queue leaves every lease that there was.
lookup-try_satisfy :
    (m : Manager) (rid : Text) (now : ℕ) (id : Text) (l : Lease)
    → IsConsistent m
    → lookup id m.leases ≡ some l
    → lookup id (try_satisfy m rid now).leases ≡ some l
unfolding try_satisfy hand_over close grant
lookup-try_satisfy m rid now id l c found = elim (List-cases (at rid m.waiters)) [
  | inl empty ↦ rw (empty, try_satisfy) found
  | inr (w, rest, queue) ↦
      let n = suc m.seq in
      rw (queue, try_satisfy)
        (ground (
          arith,
          lookup-insert (lease_id n) id (new_lease n rid w.session_id 0 now) m.leases,
          eq_text_iff (lease_id n) id,
          c.fresh n (omega arith),
          found,
        ))
]

pub shape_of :
    (m : Manager) (l : Lease) (st : LeaseState) (now : ℕ) (j : Text)
    → lookup j (drop_lease m l st now).leases ≡ (
        if eq_text l.id j
        then some (record l { state = st; released_at = some now })
        else lookup j m.leases)
unfolding drop_lease
shape_of m l st now j =
    lookup-insert l.id j (record l { state = st; released_at = some now }) m.leases

-- Ending a lease leaves every other one.
pub lookup-end_lease :
    (m : Manager) (id : Text) (l : Lease) (st : LeaseState) (now : ℕ) (j : Text) (k : Lease)
    → IsValid m
    → lookup id m.leases ≡ some l
    → is_active l.state ≡ true
    → is_active st ≡ false
    → lookup j m.leases ≡ some k
    → lookup j (end_lease m l st now).leases
      ≡ (if eq_text id j then some (record l { state = st; released_at = some now }) else some k)
unfolding end_lease
lookup-end_lease m id l st now j k v found active inactive e = elim (Bool-cases (eq_text id j)) [
  | inl same ↦ rw same (
      lookup-try_satisfy d l.resource_id now j _ c
        (ground (arith, shape, v.consistent.keyed id l found)))
  | inr other ↦ rw other (
      lookup-try_satisfy d l.resource_id now j _ c
        (ground (arith, shape, v.consistent.keyed id l found)))
]
  where
    d : Manager
    d = drop_lease m l st now

    c : IsConsistent d
    c = drop_lease-IsConsistent m id l st now v.consistent found active inactive

    shape : lookup j (drop_lease m l st now).leases ≡ (
        if eq_text l.id j
        then some (record l { state = st; released_at = some now })
        else lookup j m.leases)
    shape = shape_of m l st now j

-- What a round makes of a lease.
unfoldable pub after_visit : (Lease → Bool) → LeaseState → ℕ → Lease → Lease
after_visit p st now k =
    if is_active k.state && p k then record k { state = st; released_at = some now } else k

pub lookup-visit :
    (p : Lease → Bool) (st : LeaseState) (now : ℕ) (m : Manager) (id j : Text) (k : Lease)
    → IsValid m
    → is_active st ≡ false
    → lookup j m.leases ≡ some k
    → lookup j (visit p st now m id).leases
      ≡ some (if eq_text id j then after_visit p st now k else k)
unfolding visit after_visit
lookup-visit p st now m id j k v inactive e = elim (Option-cases (lookup id m.leases)) [
  | inl missing ↦ rw (missing, visit) (ground (arith, eq_text_iff id j))
  | inr (l, found) ↦ elim (Bool-cases (is_active l.state && p l)) [
    | inl hit ↦
        rw (found, visit, hit)
          (ground (
            arith,
            eq_text_iff id j,
            lookup-end_lease m id l st now j k v found (ground arith) inactive e,
          ))
    | inr miss ↦ rw (found, visit, miss) (ground (arith, eq_text_iff id j))
  ]
]

after_visit_idem :
    (p : Lease → Bool) (st : LeaseState) (now : ℕ) (k : Lease)
    → is_active st ≡ false
    → after_visit p st now (after_visit p st now k) ≡ after_visit p st now k
unfolding after_visit
after_visit_idem p st now k h = ground arith

-- The leases that there were when a range began: the active ones of the order that pass the test
-- are ended, each of the others is as it was.
pub lookup-end_where :
    (p : Lease → Bool) (st : LeaseState) (now : ℕ) (m : Manager) (order : List Text) (j : Text)
    (k : Lease)
    → IsValid m
    → is_active st ≡ false
    → lookup j m.leases ≡ some k
    → lookup j (end_where p st now m order).leases
      ≡ some (if mem_text j order then after_visit p st now k else k)
unfolding end_where mem_text
lookup-end_where p st now m [] j k v inactive e = e
lookup-end_where p st now m (id ∷ order) j k v inactive e = ground (
  arith,
  after_visit_idem p st now k inactive,
  lookup-end_where p st now (visit p st now m id) order j
      (if eq_text id j then after_visit p st now k else k) (visit-IsValid p st now m id inactive v)
      inactive (lookup-visit p st now m id j k v inactive e),
)
