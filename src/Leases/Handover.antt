-- ===== src/Leases/Handover.antt =====
-- Who gets a slot that is released: Release, trySatisfy and the cancelled wait of
-- internal/lease/manager.go.
use agent_runtime_harness.Prelude.{
  ℕ, suc, ◌≡◌, refl, ap, ◌∙◌, Text, eq_text, eq_text_refl, some, Bool, true, false, List, ◌∷◌,
  lookup, lookup-insert, length, ltb, if◌then◌else◌, arith, inl, inr, Option-cases,
}
use agent_runtime_harness.Model.{Lease, Resource, LeaseState, released, is_active}
use agent_runtime_harness.Ids.{lease_id}
use agent_runtime_harness.Leases.{
  Manager, Waiter, granted, at, capacity_of, new_lease, grant, close, hand_over, try_satisfy,
  drop_lease, end_lease, save,
}
use agent_runtime_harness.Leases.Endings.{EndResult, release}
use agent_runtime_harness.Leases.Invariant.{
  IsConsistent, IsValid, drop_lease-IsConsistent, length-holders-drop,
}
use agent_runtime_harness.Leases.Effects.{lookup-end_lease}
use agent_runtime_harness.Leases.Served.{length-holders-hand_over, waiters-hand_over}

module _ (m : Manager) (id : Text) (l : Lease) (w : Waiter) (rest : List Waiter) (now : ℕ)
    (st : LeaseState) where
  abbrev rid : Text
  rid = l.resource_id

  -- What the head of the queue gets.
  abbrev next_lease : Lease
  next_lease = new_lease (suc m.seq) rid w.session_id 0 now

  module _ (v : IsValid m) (found : lookup id m.leases ≡ some l) (active : is_active l.state ≡ true)
      (inactive : is_active st ≡ false) (queue : at rid m.waiters ≡ w ∷ rest) where
    queue-drop : at rid (drop_lease m l st now).waiters ≡ w ∷ rest
    unfolding drop_lease
    queue-drop = queue

    -- The resource is known, since somebody waits for it.
    resource_known : (r : Resource) × (lookup rid m.res ≡ some r)
    resource_known = elim (Option-cases (lookup rid m.res)) [
      | inl missing ↦ absurd (ground (arith, v.consistent.known rid missing))
      | inr hit ↦ hit
    ]

    res-drop : (drop_lease m l st now).res ≡ m.res
    unfolding drop_lease
    res-drop = refl

    room-drop :
        (r : Resource)
        → lookup rid m.res ≡ some r
        → ltb (length (at rid (drop_lease m l st now).holders)) (capacity_of r) ≡ true
    room-drop r e = ground (
      arith,
      length-holders-drop m id l st now v.consistent found active inactive rid,
      eq_text_refl rid,
      v.consistent.bounded rid r e,
    )

    -- The freed slot is enough for the head of the queue.
    end_lease-eq : end_lease m l st now ≡ hand_over (drop_lease m l st now) rid w rest now
    unfolding end_lease try_satisfy
    end_lease-eq =
        let (r, e) = resource_known in ground (arith, queue-drop, res-drop, e, room-drop r e)

    drop-IsConsistent : IsConsistent (drop_lease m l st now)
    drop-IsConsistent = drop_lease-IsConsistent m id l st now v.consistent found active inactive

    waiters_after : at rid (hand_over (drop_lease m l st now) rid w rest now).waiters ≡ rest
    waiters_after =
        let (r, e) = resource_known in
        ground (
          arith,
          waiters-hand_over (drop_lease m l st now) rid w rest now drop-IsConsistent queue-drop r
              (ap (lookup rid) res-drop ∙ e) rid,
          eq_text_refl rid,
        )

    holders_after :
        length (at rid (hand_over (drop_lease m l st now) rid w rest now).holders)
        ≡ length (at rid m.holders)
    holders_after =
        let (r, e) = resource_known in
        ground (
          arith,
          length-holders-hand_over (drop_lease m l st now) rid w rest now drop-IsConsistent
              queue-drop r (ap (lookup rid) res-drop ∙ e) rid,
          length-holders-drop m id l st now v.consistent found active inactive rid,
          eq_text_refl rid,
        )

    -- The head of the queue gets a new lease without expiry and learns of it; the others stay in
    -- line; the ended lease is kept with its time; the number of holders is as before.
    pub end_lease_serves :
        let q = end_lease m l st now in
        (lookup (lease_id (suc m.seq)) q.leases ≡ some next_lease)
        × (q.closed ≡ (w.ticket, granted next_lease) ∷ m.closed)
        × (at rid q.waiters ≡ rest)
        × (lookup id q.leases ≡ some (record l { state = st; released_at = some now }))
        × (length (at rid q.holders) ≡ length (at rid m.holders))
    unfolding hand_over close grant drop_lease
    end_lease_serves =
        let n = lease_id (suc m.seq) in
        let d = drop_lease m l st now in
        let served : (k : Text)
            → lookup k (end_lease m l st now).leases
              ≡ (if eq_text n k then some next_lease else lookup k d.leases) =
          λ k.
            ap (λ (q : Manager). lookup k q.leases) end_lease-eq
            ∙ lookup-insert n k next_lease d.leases in
        (
          ground (arith, served n, eq_text_refl n),
          ap (λ (q : Manager). q.closed) end_lease-eq,
          ap (λ (q : Manager). at rid q.waiters) end_lease-eq ∙ waiters_after,
          ground (
            arith,
            lookup-end_lease m id l st now id l v found active inactive found,
            eq_text_refl id,
          ),
          ap (λ (q : Manager). length (at rid q.holders)) end_lease-eq ∙ holders_after,
        )

pub release_found :
    (m : Manager) (id : Text) (l : Lease) (now : ℕ) (ok : Bool)
    → lookup id m.leases ≡ some l
    → is_active l.state ≡ true
    → release m id now ok
      ≡ (save ok (end_lease m l released now), if ok then EndResult.ended else EndResult.not_saved)
unfolding release
release_found m id l now ok e active = rw (e, release, active)

pub leases-save : (ok : Bool) (m : Manager) → (save ok m).leases ≡ m.leases
unfolding save
leases-save true m = refl
leases-save false m = refl

closed-save : (ok : Bool) (m : Manager) → (save ok m).closed ≡ m.closed
unfolding save
closed-save true m = refl
closed-save false m = refl

waiters-save : (ok : Bool) (m : Manager) → (save ok m).waiters ≡ m.waiters
unfolding save
waiters-save true m = refl
waiters-save false m = refl

holders-save : (ok : Bool) (m : Manager) → (save ok m).holders ≡ m.holders
unfolding save
holders-save true m = refl
holders-save false m = refl

-- Releasing an active lease for whose resource w waits first: w gets a new lease, without expiry,
-- and is told; the others stay in line; the released lease is kept with its time; the resource has
-- as many holders as before. The call reports a failed write, after which all that is done.
pub release_serves :
    (m : Manager) (id : Text) (l : Lease) (w : Waiter) (rest : List Waiter) (now : ℕ) (ok : Bool)
    → IsValid m
    → lookup id m.leases ≡ some l
    → is_active l.state ≡ true
    → at l.resource_id m.waiters ≡ w ∷ rest
    → let q = (release m id now ok).0 in
      let given = new_lease (suc m.seq) l.resource_id w.session_id 0 now in
      (lookup (lease_id (suc m.seq)) q.leases ≡ some given)
      × (q.closed ≡ (w.ticket, granted given) ∷ m.closed)
      × (at l.resource_id q.waiters ≡ rest)
      × (lookup id q.leases ≡ some (record l { state = released; released_at = some now }))
      × (length (at l.resource_id q.holders) ≡ length (at l.resource_id m.holders))
      × ((release m id now ok).1 ≡ (if ok then EndResult.ended else EndResult.not_saved))
unfolding is_active
release_serves m id l w rest now ok v found active queue =
    let s = end_lease_serves m id l w rest now released v found active refl queue in
    let e = end_lease m l released now in
    rw (release_found m id l now ok found active) (
      ap (lookup (lease_id (suc m.seq))) (leases-save ok e) ∙ s.0,
      closed-save ok e ∙ s.1,
      ap (at l.resource_id) (waiters-save ok e) ∙ s.2,
      ap (lookup id) (leases-save ok e) ∙ s.3,
      ap (λ h. length (at l.resource_id h)) (holders-save ok e) ∙ s.4,
      refl,
    )
