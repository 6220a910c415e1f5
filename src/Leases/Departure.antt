-- ===== src/Leases/Departure.antt =====
-- Who gets the slots that a departing session frees: internal/lease/manager.go, ReleaseAll.
use agent_runtime_harness.Prelude.{
  ℕ, suc, ◌≡◌, refl, Text, eq_text, eq_text_iff, none, some, Bool, true, false, ◌&&◌, List, [], ◌∷◌,
  Map, lookup, insert, lookup-insert, arith, inl, inr, keep, Option-cases, Bool-cases, List-cases,
  mem_text, append-eq-nil,
}
use agent_runtime_harness.Model.{Lease, LeaseState, released, is_active}
use agent_runtime_harness.Ids.{lease_id}
use agent_runtime_harness.Leases.{
  Manager, Waiter, at, new_lease, grant, close, hand_over, try_satisfy, drop_lease, end_lease,
}
use agent_runtime_harness.Leases.Endings.{
  visit, end_where, hits, release_all, is_lease_of, is_waiter_of, owned_waiters, drop_waiters,
}
use agent_runtime_harness.Leases.Invariant.{IsValid}
use agent_runtime_harness.Leases.Operations.{visit-IsValid}
use agent_runtime_harness.Leases.Effects.{after_visit, lookup-visit, shape_of}
use agent_runtime_harness.Leases.Waiting.{leases-drop_waiters}
use agent_runtime_harness.Leases.Sessions.{leases-save_if_any}

owned-at :
    (sid rid : Text) (ws : Map (List Waiter))
    → owned_waiters sid ws ≡ []
    → keep (is_waiter_of sid) (at rid ws) ≡ []
unfolding owned_waiters at lookup
owned-at sid rid [] h = refl
owned-at sid rid ((r, q) ∷ ws) h =
    ground (
      arith,
      append-eq-nil (keep (is_waiter_of sid) q) (owned_waiters sid ws) h,
      owned-at sid rid ws,
    )

owned-insert :
    (sid rid : Text) (q : List Waiter) (ws : Map (List Waiter))
    → owned_waiters sid ws ≡ []
    → keep (is_waiter_of sid) q ≡ []
    → owned_waiters sid (insert rid q ws) ≡ []
unfolding owned_waiters insert
owned-insert sid rid q [] h k = ground arith
owned-insert sid rid q ((r, p) ∷ ws) h k = ground (
  arith,
  append-eq-nil (keep (is_waiter_of sid) p) (owned_waiters sid ws) h,
  owned-insert sid rid q ws,
)

-- The session waits in no queue.
abbrev IsGone : Text → Manager → Type 0
IsGone sid m = owned_waiters sid m.waiters ≡ []

head_not_owned :
    (sid : Text) (m : Manager) (rid : Text) (w : Waiter) (rest : List Waiter)
    → IsGone sid m
    → at rid m.waiters ≡ w ∷ rest
    → (is_waiter_of sid w ≡ false) × (keep (is_waiter_of sid) rest ≡ [])
head_not_owned sid m rid w rest gone queue = ground (arith, owned-at sid rid m.waiters gone)

try_satisfy-IsGone :
    (sid : Text) (m : Manager) (rid : Text) (now : ℕ)
    → IsGone sid m
    → IsGone sid (try_satisfy m rid now)
unfolding try_satisfy hand_over close grant
try_satisfy-IsGone sid m rid now gone = elim (List-cases (at rid m.waiters)) [
  | inl empty ↦ rw (empty, try_satisfy) gone
  | inr (w, rest, queue) ↦
      rw (queue, try_satisfy)
        (ground (
          arith,
          head_not_owned sid m rid w rest gone queue,
          owned-insert sid rid rest m.waiters gone,
          gone,
        ))
]

-- A lease that serving a queue has added is not the session's.
try_satisfy_adds :
    (sid : Text) (m : Manager) (rid : Text) (now : ℕ) (id : Text) (l : Lease)
    → IsGone sid m
    → lookup id m.leases ≡ none
    → lookup id (try_satisfy m rid now).leases ≡ some l
    → eq_text l.session_id sid ≡ false
unfolding try_satisfy hand_over close grant new_lease is_waiter_of
try_satisfy_adds sid m rid now id l gone missing = elim (List-cases (at rid m.waiters)) [
  | inl empty ↦ rw (empty, try_satisfy) (λ e. absurd (ground arith))
  | inr (w, rest, queue) ↦
      let n = suc m.seq in
      rw (queue, try_satisfy)
        (λ e. ground (
          arith,
          e,
          missing,
          head_not_owned sid m rid w rest gone queue,
          lookup-insert (lease_id n) id (new_lease n rid w.session_id 0 now) m.leases,
        ))
]

-- The active leases of the session all stand in a list of ids.
abbrev IsCovered : Text → List Text → Manager → Type 0
IsCovered sid ids m =
    (id : Text) (l : Lease)
    → lookup id m.leases ≡ some l
    → is_active l.state ≡ true
    → eq_text l.session_id sid ≡ true
    → mem_text id ids ≡ true

IsGone-drop_lease :
    (sid : Text) (m : Manager) (l : Lease) (st : LeaseState) (now : ℕ)
    → IsGone sid m
    → IsGone sid (drop_lease m l st now)
unfolding drop_lease
IsGone-drop_lease sid m l st now gone = gone

visit-IsGone :
    (sid : Text) (now : ℕ) (m : Manager) (id : Text)
    → IsGone sid m
    → IsGone sid (visit (is_lease_of sid) released now m id)
unfolding visit end_lease
visit-IsGone sid now m id gone = elim (Option-cases (lookup id m.leases)) [
  | inl missing ↦ rw (missing, visit) gone
  | inr (l, found) ↦ elim (Bool-cases (is_active l.state && is_lease_of sid l)) [
    | inl hit ↦
        rw (found, visit, hit)
          (try_satisfy-IsGone sid _ l.resource_id now (IsGone-drop_lease sid m l released now gone))
    | inr miss ↦ rw (found, visit, miss) gone
  ]
]

visit_adds :
    (sid : Text) (now : ℕ) (m : Manager) (id j : Text) (k : Lease)
    → IsValid m
    → IsGone sid m
    → lookup j m.leases ≡ none
    → lookup j (visit (is_lease_of sid) released now m id).leases ≡ some k
    → eq_text k.session_id sid ≡ false
unfolding visit end_lease
visit_adds sid now m id j k v gone new = elim (Option-cases (lookup id m.leases)) [
  | inl missing ↦ rw (missing, visit) (λ e. absurd (ground arith))
  | inr (l, found) ↦ elim (Bool-cases (is_active l.state && is_lease_of sid l)) [
    | inl hit ↦
        rw (found, visit, hit)
          (try_satisfy_adds sid (drop_lease m l released now) l.resource_id now j k
            (IsGone-drop_lease sid m l released now gone)
            (ground (
              arith,
              shape_of m l released now j,
              v.consistent.keyed id l found,
              eq_text_iff id j,
            )))
    | inr miss ↦ rw (found, visit, miss) (λ e. absurd (ground arith))
  ]
]

-- What a round ends is settled, and what it adds is not the session's.
visit-IsCovered :
    (sid : Text) (now : ℕ) (m : Manager) (id : Text) (ids : List Text)
    → IsValid m
    → IsGone sid m
    → IsCovered sid (id ∷ ids) m
    → IsCovered sid ids (visit (is_lease_of sid) released now m id)
unfolding mem_text is_active after_visit is_lease_of
visit-IsCovered sid now m id ids v gone covered j k e active own =
    elim (Option-cases (lookup j m.leases)) [
      | inl missing ↦ absurd (ground (arith, visit_adds sid now m id j k v gone missing e))
      | inr (l, found) ↦ ground (
        arith,
        lookup-visit (is_lease_of sid) released now m id j l v refl found,
        covered j l found,
      )
    ]

end_where-IsCovered :
    (sid : Text) (now : ℕ) (m : Manager) (ids : List Text)
    → IsValid m
    → IsGone sid m
    → IsCovered sid ids m
    → IsCovered sid [] (end_where (is_lease_of sid) released now m ids)
unfolding end_where
end_where-IsCovered sid now m [] v gone covered = covered
end_where-IsCovered sid now m (id ∷ ids) v gone covered =
    end_where-IsCovered sid now (visit (is_lease_of sid) released now m id) ids
      (visit-IsValid (is_lease_of sid) released now m id refl v) (visit-IsGone sid now m id gone)
      (visit-IsCovered sid now m id ids v gone covered)

-- If the range visits every active lease of the session, and the session waits in no queue, then
-- ReleaseAll leaves the session without an active lease.
pub release_all_clears :
    (m : Manager) (sid : Text) (order : List Text) (now : ℕ) (ok : Bool) (id : Text) (l : Lease)
    → IsValid m
    → owned_waiters sid m.waiters ≡ []
    → ((j : Text) (k : Lease)
        → lookup j m.leases ≡ some k
        → is_active k.state ≡ true
        → eq_text k.session_id sid ≡ true
        → mem_text j order ≡ true)
    → lookup id (release_all m sid order now ok).leases ≡ some l
    → eq_text l.session_id sid ≡ true
    → is_active l.state ≡ false
unfolding release_all mem_text
release_all_clears m sid order now ok id l v gone covered e own = ground (
  arith,
  leases-save_if_any (hits (is_lease_of sid) released now m order) ok
      (drop_waiters (end_where (is_lease_of sid) released now m order) sid),
  leases-drop_waiters (end_where (is_lease_of sid) released now m order) sid,
  end_where-IsCovered sid now m order v gone covered id l,
)
