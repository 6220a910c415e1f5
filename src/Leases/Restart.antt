-- ===== src/Leases/Restart.antt =====
-- A restart of the daemon: Snapshot and Restore of internal/lease/manager.go.
use agent_runtime_harness.Prelude.{
  ℕ, ◌+◌, ◌≡◌, ◌≤◌, ◌<◌, refl, sym, ap, ◌∙◌, subst, Text, eq_text_iff, none, some, List, [], ◌∷◌,
  map, Map, lookup, insert, lookup-insert, insert_all, insert_all-values, Unique, IsKeyed, IsApart,
  IsKeyed-head, IsKeyed-tail, IsApart-head, IsApart-tail, ltb, if◌then◌else◌, arith, inl, inr,
  Option-cases,
}
use agent_runtime_harness.Model.{Lease}
use agent_runtime_harness.Ids.{lease_id, parse_lease_seq, parse_lease_seq-lease_id}
use agent_runtime_harness.Leases.{Manager, at, add_id, snapshot}
use agent_runtime_harness.Leases.Startup.{restore_lease, restore_leases, restore}
use agent_runtime_harness.Leases.Holders.{active_ids, active_ids-insert_new, at-insert, holds}
use agent_runtime_harness.Leases.Tickets.{queued, finished}
use agent_runtime_harness.Leases.Invariant.{IsRegistry, IsValid}

leases-restore_leases :
    (ls : List Lease) (m : Manager)
    → (restore_leases ls m).leases ≡ insert_all (λ l. l.id) ls m.leases
unfolding restore_leases insert_all
leases-restore_leases [] m = refl
leases-restore_leases (l ∷ ls) m = leases-restore_leases ls (restore_lease l m)

-- The other fields are as before the loop.
frame-restore_leases :
    (ls : List Lease) (m : Manager)
    → let n = restore_leases ls m in
      (n.res ≡ m.res)
      × (n.waiters ≡ m.waiters)
      × (n.closed ≡ m.closed)
      × (n.next_ticket ≡ m.next_ticket)
      × (n.panicked ≡ m.panicked)
unfolding restore_leases
frame-restore_leases [] m = (refl, refl, refl, refl, refl)
frame-restore_leases (l ∷ ls) m = frame-restore_leases ls (restore_lease l m)

abbrev Agrees : Manager → Type 0
Agrees m = (rid : Text) → at rid m.holders ≡ active_ids rid m.leases

restore_lease-Agrees :
    (l : Lease) (m : Manager) → lookup l.id m.leases ≡ none → Agrees m → Agrees (restore_lease l m)
unfolding restore_lease holds
restore_lease-Agrees l m new agrees rid = ground (
  arith,
  active_ids-insert_new rid l.id l m.leases new,
  at-insert l.resource_id rid (add_id l.id (at l.resource_id m.holders)) m.holders,
  eq_text_iff l.resource_id rid,
  agrees rid,
)

-- The holders are rebuilt from the leases.
restore_leases-Agrees :
    (n : Map Lease) (m : Manager)
    → Unique n
    → IsKeyed (λ l. l.id) n
    → IsApart (λ l. l.id) m.leases n
    → Agrees m
    → Agrees (restore_leases (map (λ e. e.1) n) m)
unfolding restore_leases
restore_leases-Agrees [] m u keyed apart agrees = agrees
restore_leases-Agrees ((k, l) ∷ n) m u keyed apart agrees =
    let named : l.id ≡ k = IsKeyed-head (λ l. l.id) k l n keyed in
    let new = IsApart-head (λ l. l.id) k l m.leases n apart in
    restore_leases-Agrees n (restore_lease l m) u.1 (IsKeyed-tail (λ l. l.id) k l n u keyed)
      (subst (λ j. IsApart (λ x. x.id) (insert j l m.leases) n) (sym named)
        (IsApart-tail (λ l. l.id) k l m.leases n u apart))
      (restore_lease-Agrees l m (ap (λ j. lookup j m.leases) named ∙ new) agrees)

-- The sequence is at least every number in an id.
abbrev IsNumbered : Manager → Type 0
IsNumbered m = (id : Text) (l : Lease) → lookup id m.leases ≡ some l → parse_lease_seq l.id ≤ m.seq

restore_lease-IsNumbered : (l : Lease) (m : Manager) → IsNumbered m → IsNumbered (restore_lease l m)
unfolding restore_lease
restore_lease-IsNumbered l m numbered id k e =
    ground (arith, lookup-insert l.id id l m.leases, numbered id k)

restore_leases-IsNumbered :
    (ls : List Lease) (m : Manager) → IsNumbered m → IsNumbered (restore_leases ls m)
unfolding restore_leases
restore_leases-IsNumbered [] m numbered = numbered
restore_leases-IsNumbered (l ∷ ls) m numbered =
    restore_leases-IsNumbered ls (restore_lease l m) (restore_lease-IsNumbered l m numbered)

module _ (m m0 : Manager) (v : IsValid m) where
  abbrev cleared : Manager
  cleared = record m0 {
    res = insert_all (λ r. r.id) (snapshot m).resources [];
    leases = [];
    holders = [];
    waiters = [];
  }

  abbrev q : Manager
  q = restore (snapshot m) m0

  restored_leases : q.leases ≡ m.leases
  unfolding restore snapshot
  restored_leases =
      leases-restore_leases (map (λ e. e.1) m.leases) cleared
      ∙ insert_all-values (λ l. l.id) m.leases v.consistent.unique v.consistent.keyed

  restored_res : q.res ≡ m.res
  unfolding restore snapshot
  restored_res =
      (frame-restore_leases (map (λ e. e.1) m.leases) cleared).0
      ∙ insert_all-values (λ r. r.id) m.res v.consistent.registry.once v.consistent.registry.named

  restored-Agrees : Agrees q
  unfolding restore snapshot
  restored-Agrees =
      restore_leases-Agrees m.leases cleared v.consistent.unique v.consistent.keyed
        (λ k l e. unfold lookup in refl) (λ rid. unfold at lookup active_ids in refl)

  restored-IsNumbered : IsNumbered q
  unfolding restore snapshot
  restored-IsNumbered =
      restore_leases-IsNumbered (map (λ e. e.1) m.leases) cleared
        (λ id l e. unfold lookup in absurd (ground arith))

  -- A restart from the snapshot has the resources, the leases and the holders of before; the queues
  -- are empty.
  pub restore-snapshot :
      (q.res ≡ m.res)
      × (q.leases ≡ m.leases)
      × ((rid : Text) → at rid q.holders ≡ at rid m.holders)
      × (q.waiters ≡ [])
  unfolding restore snapshot
  restore-snapshot = (
    restored_res,
    restored_leases,
    λ rid. restored-Agrees rid ∙ ap (active_ids rid) restored_leases ∙ sym (v.consistent.agree rid),
    (frame-restore_leases (map (λ e. e.1) m.leases) cleared).1,
  )

  -- No id that the restored manager will make is in use.
  restored_fresh : (n : ℕ) → q.seq < n → lookup (lease_id n) q.leases ≡ none
  restored_fresh n h = elim (Option-cases (lookup (lease_id n) q.leases)) [
    | inl missing ↦ missing
    | inr (l, found) ↦
        let named : l.id ≡ lease_id n =
          v.consistent.keyed (lease_id n) l
            (ap (lookup (lease_id n)) (sym restored_leases) ∙ found) in
        absurd (
          omega (
            arith,
            restored-IsNumbered (lease_id n) l found,
            ap parse_lease_seq named,
            parse_lease_seq-lease_id n,
          ))
  ]

  restored_once :
      IsValid m0
      → (t : ℕ) → queued t q.waiters + finished t q.closed ≤ (if ltb t q.next_ticket then 1 else 0)
  unfolding restore snapshot queued
  restored_once v0 t =
      let f = frame-restore_leases (map (λ e. e.1) m.leases) cleared in
      ground (arith, f, v0.consistent.once t, ap (queued t) f.1)

  -- The restored manager is valid, so that it gives no lease an id that the snapshot holds.
  restore-IsValid : IsValid m0 → IsValid q
  unfolding restore snapshot at lookup
  restore-IsValid v0 =
      let s = restore-snapshot in
      record {
        consistent = record {
          unique = subst Unique (sym restored_leases) v.consistent.unique;
          keyed = subst (IsKeyed (λ l. l.id)) (sym restored_leases) v.consistent.keyed;
          fresh = restored_fresh;
          agree = restored-Agrees;
          bounded = λ rid r e.
              ground (
                arith,
                v.consistent.bounded rid r (ap (lookup rid) (sym restored_res) ∙ e),
                s.2 rid,
              );
          registry = subst IsRegistry (sym restored_res) v.consistent.registry;
          vacant =
              λ rid e. s.2 rid ∙ v.consistent.vacant rid (ap (lookup rid) (sym restored_res) ∙ e);
          known = λ rid e. ap (at rid) s.3;
          once = restored_once v0;
          calm = (frame-restore_leases (map (λ e. e.1) m.leases) cleared).4 ∙ v0.consistent.calm;
        };
        served = λ rid r e. inl (ap (at rid) s.3);
      }
