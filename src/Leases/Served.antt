-- ===== src/Leases/Served.antt =====
-- trySatisfy and the release paths keep the invariant: a freed slot goes to the head of the queue.
use agent_runtime_harness.Prelude.{
  ℕ, suc, ◌+◌, ◌≡◌, ◌≤◌, ◌<◌, refl, ap, Text, eq_text, eq_text_iff, eq_text_refl, some, true, false,
  List, [], ◌∷◌, lookup, insert, length, ltb, if◌then◌else◌, arith, inl, inr, Option-cases,
  Bool-cases, List-cases, ltb→lt,
}
use agent_runtime_harness.Model.{Lease, Resource, LeaseState, is_active}
use agent_runtime_harness.Leases.{
  Manager, Waiter, at, capacity_of, grant, close, hand_over, try_satisfy, drop_lease, end_lease,
}
use agent_runtime_harness.Leases.Holders.{at-insert}
use agent_runtime_harness.Leases.Tickets.{
  count, queued, finished, queued-insert, is_closed-finished,
}
use agent_runtime_harness.Leases.Invariant.{
  IsConsistent, IsValid, IsServedUpTo, grant-IsConsistent, length-holders-grant,
  drop_lease-IsConsistent, length-holders-drop,
}

module _ (m : Manager) (rid : Text) (w : Waiter) (rest : List Waiter) (now : ℕ) where
  abbrev shorter : Manager
  shorter = record m { waiters = insert rid rest m.waiters }

  module _ (c : IsConsistent m) (queue : at rid m.waiters ≡ w ∷ rest) (r : Resource)
      (found : lookup rid m.res ≡ some r) where
    -- The ticket of the head is in no other place.
    head_once :
        (t : ℕ)
        → queued t (insert rid rest m.waiters) + count t (w ∷ []) + finished t m.closed
          ≤ (if ltb t m.next_ticket then 1 else 0)
    unfolding count
    head_once t = ground (arith, queued-insert t rid rest m.waiters, ap (count t) queue, c.once t)

    shorter-IsConsistent : IsConsistent shorter
    unfolding count
    shorter-IsConsistent = record {
      unique = c.unique;
      keyed = c.keyed;
      fresh = c.fresh;
      agree = c.agree;
      bounded = c.bounded;
      registry = c.registry;
      vacant = c.vacant;
      known = λ k h. ground (arith, at-insert rid k rest m.waiters, eq_text_iff rid k, c.known k h);
      once = λ t. omega (arith, head_once t);
      calm = c.calm;
    }

    head_open : finished w.ticket m.closed ≡ 0
    unfolding count
    head_open = ground (arith, head_once w.ticket)

    hand_over-IsConsistent :
        length (at rid m.holders) < capacity_of r → IsConsistent (hand_over m rid w rest now)
    unfolding hand_over close grant finished count
    hand_over-IsConsistent room =
        let g =
          grant-IsConsistent shorter rid w.session_id 0 now shorter-IsConsistent r found room in
        record {
          unique = g.unique;
          keyed = g.keyed;
          fresh = g.fresh;
          agree = g.agree;
          bounded = g.bounded;
          registry = g.registry;
          vacant = g.vacant;
          known = g.known;
          once = λ t. omega (arith, head_once t);
          calm = ground (arith, c.calm, is_closed-finished w.ticket m.closed head_open);
        }

    pub length-holders-hand_over :
        (k : Text)
        → length (at k (hand_over m rid w rest now).holders)
          ≡ (if eq_text rid k then suc (length (at k m.holders)) else length (at k m.holders))
    unfolding hand_over close
    length-holders-hand_over k =
        length-holders-grant shorter rid w.session_id 0 now shorter-IsConsistent k

    pub waiters-hand_over :
        (k : Text)
        → at k (hand_over m rid w rest now).waiters
          ≡ (if eq_text rid k then rest else at k m.waiters)
    unfolding hand_over close grant
    waiters-hand_over k = at-insert rid k rest m.waiters

    res-hand_over : (hand_over m rid w rest now).res ≡ m.res
    unfolding hand_over close grant
    res-hand_over = refl

    -- One slot was free at most, so the queue is served again.
    hand_over-IsValid :
        length (at rid m.holders) < capacity_of r
        → ((k : Text) → eq_text rid k ≡ false → IsServedUpTo 0 m k)
        → IsServedUpTo 1 m rid
        → IsValid (hand_over m rid w rest now)
    hand_over-IsValid room others here = record {
      consistent = hand_over-IsConsistent room;
      served = λ k x h. elim (Bool-cases (eq_text rid k)) [
        | inl same ↦ ground (
          arith,
          length-holders-hand_over k,
          (eq_text_iff rid k).0 same,
          res-hand_over,
          queue,
          here x,
        )
        | inr other ↦ ground (
          arith,
          length-holders-hand_over k,
          waiters-hand_over k,
          res-hand_over,
          others k other x,
        )
      ];
    }

all_served :
    (m : Manager) (rid : Text)
    → IsConsistent m
    → ((k : Text) → eq_text rid k ≡ false → IsServedUpTo 0 m k)
    → IsServedUpTo 0 m rid
    → IsValid m
all_served m rid c others here = record {
  consistent = c;
  served = λ k x h. elim (Bool-cases (eq_text rid k)) [
    | inl same ↦ ground (arith, (eq_text_iff rid k).0 same, here x)
    | inr other ↦ others k other x h
  ];
}

-- The queue of one resource is served after one of its slots was freed.
try_satisfy-IsValid :
    (m : Manager) (rid : Text) (now : ℕ)
    → IsConsistent m
    → ((k : Text) → eq_text rid k ≡ false → IsServedUpTo 0 m k)
    → IsServedUpTo 1 m rid
    → IsValid (try_satisfy m rid now)
unfolding try_satisfy
try_satisfy-IsValid m rid now c others here = elim (List-cases (at rid m.waiters)) [
  | inl empty ↦ rw (empty, try_satisfy) (all_served m rid c others (λ x h. inl empty))
  | inr (w, rest, queue) ↦ elim (Option-cases (lookup rid m.res)) [
    | inl missing ↦ absurd (ground (arith, c.known rid missing))
    | inr (r, found) ↦ elim (Bool-cases (ltb (length (at rid m.holders)) (capacity_of r))) [
      | inl room ↦
          rw (queue, try_satisfy, found, room)
            (hand_over-IsValid m rid w rest now c queue r found (ltb→lt _ _ room) others here)
      | inr full ↦
          rw (queue, try_satisfy, found, full)
            (all_served m rid c others (λ x h. inr (ground arith)))
    ]
  ]
]

-- Ending an active lease, on whichever path, keeps the invariant.
pub end_lease-IsValid :
    (m : Manager) (id : Text) (l : Lease) (st : LeaseState) (now : ℕ)
    → IsValid m
    → lookup id m.leases ≡ some l
    → is_active l.state ≡ true
    → is_active st ≡ false
    → IsValid (end_lease m l st now)
unfolding end_lease drop_lease
end_lease-IsValid m id l st now v e active inactive =
    let freed = length-holders-drop m id l st now v.consistent e active inactive in
    try_satisfy-IsValid (drop_lease m l st now) l.resource_id now
      (drop_lease-IsConsistent m id l st now v.consistent e active inactive)
      (λ k other x h. ground (arith, freed k, v.served k x h))
      (λ x h.
        ground (arith, freed l.resource_id, eq_text_refl l.resource_id, v.served l.resource_id x h))
