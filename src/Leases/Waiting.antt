-- ===== src/Leases/Waiting.antt =====
-- Queueing, cancelling a wait, and the waiters that ReleaseAll turns away keep the invariant.
use agent_runtime_harness.Prelude.{
  ℕ, ◌+◌, ◌≡◌, ◌≤◌, refl, sym, ap, ◌∙◌, Text, eq_text_iff, some, false, not, List, [], ◌∷◌, ◌++◌,
  Map, lookup, length, arith, inl, inr, keep, Option-cases, subst,
}
use agent_runtime_harness.Model.{Resource}
use agent_runtime_harness.Leases.{
  Manager, Waiter, at, capacity_of, close, enqueue, cancel_wait, cut_waiter,
}
use agent_runtime_harness.Leases.Endings.{
  close_all, is_waiter_of, owned_waiters, other_waiters, drop_waiters,
}
use agent_runtime_harness.Leases.Holders.{at-insert}
use agent_runtime_harness.Leases.Tickets.{
  count, queued, finished, queued-insert, is_closed-finished, count-append, count-cut_waiter,
  count-keep_split,
}
use agent_runtime_harness.Leases.Invariant.{IsValid}

-- Only a caller that finds the resource full is queued.
pub enqueue-IsValid :
    (m : Manager) (rid sid : Text) (now : ℕ) (r : Resource)
    → IsValid m
    → lookup rid m.res ≡ some r
    → capacity_of r ≤ length (at rid m.holders)
    → IsValid (enqueue m rid sid now).0
unfolding enqueue count
enqueue-IsValid m rid sid now r v found full =
    let w : Waiter = record { ticket = m.next_ticket; session_id = sid; enqueued_at = now } in
    let q = at rid m.waiters ++ w ∷ [] in
    record {
      consistent = record {
        unique = v.consistent.unique;
        keyed = v.consistent.keyed;
        fresh = v.consistent.fresh;
        agree = v.consistent.agree;
        bounded = v.consistent.bounded;
        registry = v.consistent.registry;
        vacant = v.consistent.vacant;
        known = λ k h.
            ground (arith, at-insert rid k q m.waiters, eq_text_iff rid k, v.consistent.known k h);
        once = λ t. ground (
          arith,
          queued-insert t rid q m.waiters,
          count-append t (at rid m.waiters) (w ∷ []),
          v.consistent.once t,
        );
        calm = v.consistent.calm;
      };
      served =
          λ k x h. ground (arith, at-insert rid k q m.waiters, eq_text_iff rid k, v.served k x h);
    }

cut_waiter-nil : (t : ℕ) → cut_waiter t [] ≡ []
unfolding cut_waiter
cut_waiter-nil t = refl

pub cancel_wait-IsValid :
    (m : Manager) (rid : Text) (t : ℕ) → IsValid m → IsValid (cancel_wait m rid t)
unfolding cancel_wait at
cancel_wait-IsValid m rid t v = elim (Option-cases (lookup rid m.waiters)) [
  | inl missing ↦ rw (missing, cancel_wait) v
  | inr (q, queue) ↦
      rw (queue, cancel_wait)
        (record {
          consistent = record {
            unique = v.consistent.unique;
            keyed = v.consistent.keyed;
            fresh = v.consistent.fresh;
            agree = v.consistent.agree;
            bounded = v.consistent.bounded;
            registry = v.consistent.registry;
            vacant = v.consistent.vacant;
            known = λ k h. ground (
              arith,
              at-insert rid k (cut_waiter t q) m.waiters,
              eq_text_iff rid k,
              v.consistent.known k h,
              cut_waiter-nil t,
            );
            once = λ u. ground (
              arith,
              queued-insert u rid (cut_waiter t q) m.waiters,
              count-cut_waiter u t q,
              v.consistent.once u,
            );
            calm = v.consistent.calm;
          };
          served = λ k x h. ground (
            arith,
            at-insert rid k (cut_waiter t q) m.waiters,
            eq_text_iff rid k,
            v.served k x h,
            cut_waiter-nil t,
          );
        })
]

at-other_waiters :
    (sid k : Text) (ws : Map (List Waiter))
    → at k (other_waiters sid ws) ≡ keep (λ w. not (is_waiter_of sid w)) (at k ws)
unfolding at lookup other_waiters
at-other_waiters sid k [] = refl
at-other_waiters sid k ((rid, q) ∷ ws) = ground (arith, at-other_waiters sid k ws)

queued-other_waiters :
    (sid : Text) (t : ℕ) (ws : Map (List Waiter))
    → queued t (other_waiters sid ws) + count t (owned_waiters sid ws) ≡ queued t ws
unfolding queued count other_waiters owned_waiters
queued-other_waiters sid t [] = omega arith
queued-other_waiters sid t ((rid, q) ∷ ws) = omega (
  arith,
  queued-other_waiters sid t ws,
  count-keep_split (is_waiter_of sid) t q,
  count-append t (keep (is_waiter_of sid) q) (owned_waiters sid ws),
)

finished-close_all :
    (t : ℕ) (q : List Waiter) (m : Manager)
    → finished t (close_all q m).closed ≡ count t q + finished t m.closed
unfolding close_all close finished count
finished-close_all t [] m = omega arith
finished-close_all t (w ∷ q) m = omega (arith, finished-close_all t q (close w.ticket _ m))

-- Closing channels touches the log and the flag only.
close_all_frame :
    (q : List Waiter) (m : Manager)
    → close_all q m
      ≡ record m { closed = (close_all q m).closed; panicked = (close_all q m).panicked }
unfolding close_all close
close_all_frame [] m = refl
close_all_frame (w ∷ q) m = close_all_frame q (close w.ticket _ m)

-- No channel is closed twice.
calm-close_all :
    (q : List Waiter) (m : Manager)
    → m.panicked ≡ false
    → ((t : ℕ) → count t q + finished t m.closed ≤ 1)
    → (close_all q m).panicked ≡ false
unfolding close_all close finished count
calm-close_all [] m h once = h
calm-close_all (w ∷ q) m h once =
    calm-close_all q (close w.ticket _ m)
      (ground (arith, is_closed-finished w.ticket m.closed (ground (arith, once w.ticket))))
      (λ t. omega (arith, once t))

pub drop_waiters-IsValid : (m : Manager) (sid : Text) → IsValid m → IsValid (drop_waiters m sid)
unfolding drop_waiters
drop_waiters-IsValid m sid v =
    let m' = record m { waiters = other_waiters sid m.waiters } in
    let q = owned_waiters sid m.waiters in
    subst IsValid (sym (close_all_frame q m')) (record {
      consistent = record {
        unique = v.consistent.unique;
        keyed = v.consistent.keyed;
        fresh = v.consistent.fresh;
        agree = v.consistent.agree;
        bounded = v.consistent.bounded;
        registry = v.consistent.registry;
        vacant = v.consistent.vacant;
        known = λ k h. ground (arith, at-other_waiters sid k m.waiters, v.consistent.known k h);
        once = λ t. omega (
          arith,
          finished-close_all t q m',
          queued-other_waiters sid t m.waiters,
          v.consistent.once t,
        );
        calm =
            calm-close_all q m' v.consistent.calm
              (λ t. ground (arith, queued-other_waiters sid t m.waiters, v.consistent.once t));
      };
      served = λ k x h. ground (arith, at-other_waiters sid k m.waiters, v.served k x h);
    })

keep_none :
    (sid : Text) (q : List Waiter)
    → keep (is_waiter_of sid) (keep (λ w. not (is_waiter_of sid w)) q) ≡ []
keep_none sid [] = refl
keep_none sid (w ∷ q) = ground (arith, keep_none sid q)

owned-other : (sid : Text) (ws : Map (List Waiter)) → owned_waiters sid (other_waiters sid ws) ≡ []
unfolding owned_waiters other_waiters
owned-other sid [] = refl
owned-other sid ((rid, q) ∷ ws) = ground (arith, keep_none sid q, owned-other sid ws)

-- Afterwards no queue holds a waiter of the session.
pub owned_waiters-drop_waiters :
    (m : Manager) (sid : Text) → owned_waiters sid (drop_waiters m sid).waiters ≡ []
unfolding drop_waiters
owned_waiters-drop_waiters m sid =
    ap (λ (n : Manager). owned_waiters sid n.waiters)
      (close_all_frame (owned_waiters sid m.waiters)
        (record m { waiters = other_waiters sid m.waiters }))
    ∙ owned-other sid m.waiters

-- The tables of leases and holders are left alone.
pub leases-drop_waiters : (m : Manager) (sid : Text) → (drop_waiters m sid).leases ≡ m.leases
unfolding drop_waiters
leases-drop_waiters m sid =
    ap (λ (n : Manager). n.leases)
      (close_all_frame (owned_waiters sid m.waiters)
        (record m { waiters = other_waiters sid m.waiters }))
