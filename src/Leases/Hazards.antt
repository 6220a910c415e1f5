-- ===== src/Leases/Hazards.antt =====
-- Sequences of calls that the release paths of internal/lease/manager.go do not expect: a lease
-- released again, a session that waits for what it holds, a wait cancelled after its grant.
use agent_runtime_harness.Prelude.{
  ℕ, suc, ◌≡◌, refl, ap, ◌∙◌, Text, eq_text_iff, eq_text_refl, some, Bool, true, List, [], ◌∷◌,
  lookup, length, arith, ◌++◌, All, eq_text, false, ◌&&◌, inl, inr, Bool-cases,
}
use agent_runtime_harness.Model.{Lease, released, is_active}
use agent_runtime_harness.Ids.{lease_id}
use agent_runtime_harness.Leases.{Manager, Waiter, at, new_lease, end_lease, cancel_wait}
use agent_runtime_harness.Leases.Endings.{
  not_active, release, visit, end_where, hits, release_all, is_lease_of, drop_waiters,
}
use agent_runtime_harness.Leases.Invariant.{IsValid}
use agent_runtime_harness.Leases.Effects.{lookup-end_lease}
use agent_runtime_harness.Leases.Sessions.{leases-save_if_any}
use agent_runtime_harness.Leases.Waiting.{leases-drop_waiters}
use agent_runtime_harness.Leases.Handover.{
  end_lease_serves, release_serves, release_found, leases-save,
}

-- A lease is released once: the second call changes nothing and says what the lease has become.
release_twice :
    (m : Manager) (id : Text) (l : Lease) (now later : ℕ) (ok ok' : Bool)
    → IsValid m
    → lookup id m.leases ≡ some l
    → is_active l.state ≡ true
    → release (release m id now ok).0 id later ok' ≡ ((release m id now ok).0, not_active released)
unfolding is_active
release_twice m id l now later ok ok' v found active =
    rw (release_found m id l now ok found active) (
      unfold release in
      ground (
        arith,
        leases-save ok (end_lease m l released now),
        lookup-end_lease m id l released now id l v found active refl found,
        eq_text_refl id,
      ))

-- A lease that the range of ReleaseAll visits and leaves: an ended one, or one of another session.
abbrev pub IsPassed : Manager → Text → Text → Type 0
IsPassed m sid j =
    (k : Lease) × (lookup j m.leases ≡ some k) × ((is_active k.state && is_lease_of sid k) ≡ false)

visit_passed :
    (m : Manager) (sid j : Text) (now : ℕ)
    → IsPassed m sid j
    → visit (is_lease_of sid) released now m j ≡ m
unfolding visit
visit_passed m sid j now (k, found, idle) = rw (found, visit, idle) refl

end_where_passed :
    (m : Manager) (sid : Text) (js order : List Text) (now : ℕ)
    → All (IsPassed m sid) js
    → end_where (is_lease_of sid) released now m (js ++ order)
      ≡ end_where (is_lease_of sid) released now m order
unfolding end_where
end_where_passed m sid [] order now a = refl
end_where_passed m sid (j ∷ js) order now a =
    ap (λ q. end_where (is_lease_of sid) released now q (js ++ order))
      (visit_passed m sid j now a.0)
    ∙ end_where_passed m sid js order now a.1

end_where_idle :
    (m : Manager) (sid : Text) (js : List Text) (now : ℕ)
    → All (IsPassed m sid) js
    → end_where (is_lease_of sid) released now m js ≡ m
unfolding end_where
end_where_idle m sid [] now a = refl
end_where_idle m sid (j ∷ js) now a =
    ap (λ q. end_where (is_lease_of sid) released now q js) (visit_passed m sid j now a.0)
    ∙ end_where_idle m sid js now a.1

-- Ending a lease leaves the leases that are passed to be passed.
end_lease-IsPassed :
    (m : Manager) (sid id : Text) (l : Lease) (now : ℕ) (js : List Text)
    → IsValid m
    → lookup id m.leases ≡ some l
    → is_active l.state ≡ true
    → All (IsPassed m sid) js
    → All (IsPassed (end_lease m l released now) sid) js
unfolding is_active
end_lease-IsPassed m sid id l now [] v found active a = tt
end_lease-IsPassed m sid id l now (j ∷ js) v found active a =
    let (k, there, idle) = a.0 in
    let after = lookup-end_lease m id l released now j k v found active refl there in
    (
      elim (Bool-cases (eq_text id j)) [
        | inl same ↦ (
          record l { state = released; released_at = some now },
          ground (arith, after, same),
          refl,
        )
        | inr other ↦ (k, ground (arith, after, other), idle)
      ],
      end_lease-IsPassed m sid id l now js v found active a.1,
    )

visit_own :
    (m : Manager) (sid id : Text) (l : Lease) (now : ℕ)
    → lookup id m.leases ≡ some l
    → is_active l.state ≡ true
    → l.session_id ≡ sid
    → visit (is_lease_of sid) released now m id ≡ end_lease m l released now
unfolding visit is_lease_of
visit_own m sid id l now found active own =
    ground (arith, found, active, eq_text_iff l.session_id sid, own)

-- ReleaseAll of a session that waits first for a resource which it holds: the freed slot is granted to the
-- session that is being ended, and the new lease stays active, wherever the range visits the old lease, if
-- the others that it visits are leases that have ended or are of other sessions; the new lease is not
-- among them.
pub release_all_regrants :
    (m : Manager) (sid id : Text) (l : Lease) (w : Waiter) (rest : List Waiter)
    (before after : List Text) (now : ℕ) (ok : Bool)
    → IsValid m
    → lookup id m.leases ≡ some l
    → is_active l.state ≡ true
    → l.session_id ≡ sid
    → at l.resource_id m.waiters ≡ w ∷ rest
    → w.session_id ≡ sid
    → All (IsPassed m sid) before
    → All (IsPassed m sid) after
    → lookup (lease_id (suc m.seq)) (release_all m sid (before ++ id ∷ after) now ok).leases
      ≡ some (new_lease (suc m.seq) l.resource_id sid 0 now)
unfolding release_all
release_all_regrants m sid id l w rest before after now ok v found active own queue waits b a =
    let order = before ++ id ∷ after in
    let q = end_where (is_lease_of sid) released now m order in
    let n = lease_id (suc m.seq) in
    ap (lookup n) (
      leases-save_if_any (hits (is_lease_of sid) released now m order) ok (drop_waiters q sid)
      ∙ leases-drop_waiters q sid)
    ∙ ap (λ x. lookup n x.leases)
        (end_where_passed m sid before (id ∷ after) now b
          ∙ ap (λ x. end_where (is_lease_of sid) released now x after)
              (visit_own m sid id l now found active own)
          ∙ end_where_idle (end_lease m l released now) sid after now
              (end_lease-IsPassed m sid id l now after v found active a))
    ∙ (end_lease_serves m id l w rest now released v found active refl queue).0
    ∙ ap (λ x. some (new_lease (suc m.seq) l.resource_id x 0 now)) waits

leases-cancel_wait : (m : Manager) (rid : Text) (t : ℕ) → (cancel_wait m rid t).leases ≡ m.leases
unfolding cancel_wait
leases-cancel_wait m rid t = ground arith

holders-cancel_wait : (m : Manager) (rid : Text) (t : ℕ) → (cancel_wait m rid t).holders ≡ m.holders
unfolding cancel_wait
holders-cancel_wait m rid t = ground arith

-- A wait that is cancelled after its grant: the caller has an error and no lease, and the lease
-- that was granted to it stays in the table, active, with its slot taken.
pub cancel_wait_leaks :
    (m : Manager) (id : Text) (l : Lease) (w : Waiter) (rest : List Waiter) (now : ℕ) (ok : Bool)
    → IsValid m
    → lookup id m.leases ≡ some l
    → is_active l.state ≡ true
    → at l.resource_id m.waiters ≡ w ∷ rest
    → let q = cancel_wait (release m id now ok).0 l.resource_id w.ticket in
      (lookup (lease_id (suc m.seq)) q.leases
        ≡ some (new_lease (suc m.seq) l.resource_id w.session_id 0 now))
      × (length (at l.resource_id q.holders) ≡ length (at l.resource_id m.holders))
cancel_wait_leaks m id l w rest now ok v found active queue =
    let q = (release m id now ok).0 in
    let s = release_serves m id l w rest now ok v found active queue in
    (
      ap (lookup (lease_id (suc m.seq))) (leases-cancel_wait q l.resource_id w.ticket) ∙ s.0,
      ap (λ h. length (at l.resource_id h)) (holders-cancel_wait q l.resource_id w.ticket) ∙ s.4,
    )
