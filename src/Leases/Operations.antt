-- ===== src/Leases/Operations.antt =====
-- Every operation of the lease manager keeps the invariant, and so does any history of them.
use agent_runtime_harness.Prelude.{
  ℕ, ◌+◌, ◌≡◌, ◌<◌, ◌==◌, refl, sym, ◌∙◌, Text, eq_text_iff, some, Bool, true, false, ◌&&◌, List,
  [], ◌∷◌, Map, lookup, insert, lookup-insert, insert-Unique, length, ltb, arith, inl, inr,
  Option-cases, Bool-cases, ltb→lt,
}
use agent_runtime_harness.Model.{
  Lease, LeaseMode, Resource, LeaseState, is_active, released, expired,
}
use agent_runtime_harness.Ids.{lease_id}
use agent_runtime_harness.Leases.{Manager, at, capacity_of, save, grant, acquire}
use agent_runtime_harness.Leases.Endings.{
  release, expire_now, visit, end_where, save_if_any, release_all, sweep, reap_orphans, renew,
}
use agent_runtime_harness.Leases.Startup.{ensure_resource, dynamic_resource}
use agent_runtime_harness.Leases.Holders.{active_ids-insert_same, holds}
use agent_runtime_harness.Leases.Invariant.{
  IsRegistry, IsValid, grant-IsConsistent, length-holders-grant,
}
use agent_runtime_harness.Leases.Served.{end_lease-IsValid}
use agent_runtime_harness.Leases.Waiting.{enqueue-IsValid, drop_waiters-IsValid}

save-IsValid : (ok : Bool) (m : Manager) → IsValid m → IsValid (save ok m)
unfolding save
save-IsValid false m v = v
save-IsValid true m v = record {
  consistent = record {
    unique = v.consistent.unique;
    keyed = v.consistent.keyed;
    fresh = v.consistent.fresh;
    agree = v.consistent.agree;
    bounded = v.consistent.bounded;
    registry = v.consistent.registry;
    vacant = v.consistent.vacant;
    known = v.consistent.known;
    once = v.consistent.once;
    calm = v.consistent.calm;
  };
  served = v.served;
}

grant-IsValid :
    (m : Manager) (rid sid : Text) (ttl now : ℕ) (r : Resource)
    → IsValid m
    → lookup rid m.res ≡ some r
    → length (at rid m.holders) < capacity_of r
    → IsValid (grant m rid sid ttl now)
unfolding grant
grant-IsValid m rid sid ttl now r v found room = record {
  consistent = grant-IsConsistent m rid sid ttl now v.consistent r found room;
  served = λ k x h.
      ground (arith, length-holders-grant m rid sid ttl now v.consistent k, v.served k x h);
}

pub acquire-IsValid :
    (m : Manager) (rid sid : Text) (ttl now : ℕ) (ok : Bool)
    → IsValid m
    → IsValid (acquire m rid sid ttl now ok).0
unfolding acquire
acquire-IsValid m rid sid ttl now ok v = elim (Option-cases (lookup rid m.res)) [
  | inl missing ↦ rw (missing, acquire) v
  | inr (r, found) ↦ elim (Bool-cases (ltb (length (at rid m.holders)) (capacity_of r))) [
    | inl room ↦
        rw (found, acquire, room)
          (save-IsValid ok _ (grant-IsValid m rid sid ttl now r v found (ltb→lt _ _ room)))
    | inr full ↦ rw (found, acquire, full) (enqueue-IsValid m rid sid now r v found (ground arith))
  ]
]

pub release-IsValid :
    (m : Manager) (id : Text) (now : ℕ) (ok : Bool) → IsValid m → IsValid (release m id now ok).0
unfolding release
release-IsValid m id now ok v = elim (Option-cases (lookup id m.leases)) [
  | inl missing ↦ rw (missing, release) v
  | inr (l, found) ↦ elim (Bool-cases (is_active l.state)) [
    | inl active ↦
        rw (found, release, active)
          (save-IsValid ok _ (end_lease-IsValid m id l released now v found active refl))
    | inr over ↦ rw (found, release, over) v
  ]
]

pub expire_now-IsValid :
    (m : Manager) (id : Text) (now : ℕ) (ok : Bool) → IsValid m → IsValid (expire_now m id now ok).0
unfolding expire_now
expire_now-IsValid m id now ok v = elim (Option-cases (lookup id m.leases)) [
  | inl missing ↦ rw (missing, expire_now) v
  | inr (l, found) ↦ elim (Bool-cases (is_active l.state)) [
    | inl active ↦
        rw (found, expire_now, active)
          (save-IsValid ok _ (end_lease-IsValid m id l expired now v found active refl))
    | inr over ↦ rw (found, expire_now, over) v
  ]
]

-- One round of a range that ends leases.
pub visit-IsValid :
    (p : Lease → Bool) (st : LeaseState) (now : ℕ) (m : Manager) (id : Text)
    → is_active st ≡ false
    → IsValid m
    → IsValid (visit p st now m id)
unfolding visit
visit-IsValid p st now m id inactive v = elim (Option-cases (lookup id m.leases)) [
  | inl missing ↦ rw (missing, visit) v
  | inr (l, found) ↦ elim (Bool-cases (is_active l.state && p l)) [
    | inl hit ↦
        rw (found, visit, hit) (end_lease-IsValid m id l st now v found (ground arith) inactive)
    | inr miss ↦ rw (found, visit, miss) v
  ]
]

-- A range that ends leases, in any order and with any test.
end_where-IsValid :
    (p : Lease → Bool) (st : LeaseState) (now : ℕ) (m : Manager) (order : List Text)
    → is_active st ≡ false
    → IsValid m
    → IsValid (end_where p st now m order)
unfolding end_where
end_where-IsValid p st now m [] inactive v = v
end_where-IsValid p st now m (id ∷ order) inactive v =
    end_where-IsValid p st now (visit p st now m id) order inactive
      (visit-IsValid p st now m id inactive v)

save_if_any-IsValid :
    (ids : List Text) (ok : Bool) (m : Manager) → IsValid m → IsValid (save_if_any ids ok m)
unfolding save_if_any
save_if_any-IsValid [] ok m v = v
save_if_any-IsValid (id ∷ ids) ok m v = save-IsValid ok m v

pub release_all-IsValid :
    (m : Manager) (sid : Text) (order : List Text) (now : ℕ) (ok : Bool)
    → IsValid m
    → IsValid (release_all m sid order now ok)
unfolding release_all
release_all-IsValid m sid order now ok v =
    save_if_any-IsValid _ ok _
      (drop_waiters-IsValid _ sid (end_where-IsValid _ released now m order refl v))

pub sweep-IsValid :
    (m : Manager) (now : ℕ) (order : List Text) (ok : Bool)
    → IsValid m
    → IsValid (sweep m now order ok)
unfolding sweep
sweep-IsValid m now order ok v =
    save_if_any-IsValid _ ok _ (end_where-IsValid _ expired now m order refl v)

pub reap_orphans-IsValid :
    (m : Manager) (live : Text → Bool) (order : List Text) (now : ℕ) (ok : Bool)
    → IsValid m
    → IsValid (reap_orphans m live order now ok)
unfolding reap_orphans
reap_orphans-IsValid m live order now ok v =
    save_if_any-IsValid _ ok _ (end_where-IsValid _ expired now m order refl v)

-- Renewing changes neither the resource nor the state of a lease.
renewed-IsValid :
    (m : Manager) (id : Text) (l : Lease) (until : ℕ)
    → IsValid m
    → lookup id m.leases ≡ some l
    → let l' : Lease = record l { expires_at = until } in
      IsValid (record m { leases = insert id l' m.leases })
unfolding holds
renewed-IsValid m id l until v found =
    let l' : Lease = record l { expires_at = until } in
    record {
      consistent = record {
        unique = insert-Unique id l' m.leases v.consistent.unique;
        keyed = λ j k h. ground (
          arith,
          lookup-insert id j l' m.leases,
          eq_text_iff id j,
          v.consistent.keyed j k,
          v.consistent.keyed id l found,
        );
        fresh = λ n h. ground (
          arith,
          lookup-insert id (lease_id n) l' m.leases,
          eq_text_iff id (lease_id n),
          v.consistent.fresh n h,
        );
        agree =
            λ k. v.consistent.agree k ∙ sym (active_ids-insert_same k id l l' m.leases found refl);
        bounded = v.consistent.bounded;
        registry = v.consistent.registry;
        vacant = v.consistent.vacant;
        known = v.consistent.known;
        once = v.consistent.once;
        calm = v.consistent.calm;
      };
      served = v.served;
    }

pub renew-IsValid :
    (m : Manager) (id : Text) (ttl now : ℕ) → IsValid m → IsValid (renew m id ttl now).0
unfolding renew
renew-IsValid m id ttl now v = elim (Bool-cases (ttl == 0)) [
  | inl bad ↦ rw (bad, renew) v
  | inr good ↦ elim (Option-cases (lookup id m.leases)) [
    | inl missing ↦ rw (good, renew, missing) v
    | inr (l, found) ↦ elim (Bool-cases (is_active l.state)) [
      | inl active ↦ rw (good, renew, found, active) (renewed-IsValid m id l (now + ttl) v found)
      | inr over ↦ rw (good, renew, found, over) v
    ]
  ]
]

pub named-insert :
    (id : Text) (r : Resource) (res : Map Resource)
    → IsRegistry res
    → r.id ≡ id
    → IsRegistry (insert id r res)
named-insert id r res g e = record {
  once = insert-Unique id r res g.once;
  named = λ j k h. ground (arith, lookup-insert id j r res, eq_text_iff id j, g.named j k);
}

capacity_pos : (r : Resource) → 0 < capacity_of r
unfolding capacity_of
capacity_pos r = ground arith

-- A resource that was not known has no holders and no queue.
pub ensure_resource-IsValid :
    (m : Manager) (id : Text) (mode : LeaseMode) (ok : Bool)
    → IsValid m
    → IsValid (ensure_resource m id mode ok)
unfolding ensure_resource
ensure_resource-IsValid m id mode ok v = elim (Option-cases (lookup id m.res)) [
  | inr (r, found) ↦ rw (found, ensure_resource) v
  | inl missing ↦
      rw (missing, ensure_resource)
        (save-IsValid ok _ (record {
          consistent = record {
            unique = v.consistent.unique;
            keyed = v.consistent.keyed;
            fresh = v.consistent.fresh;
            agree = v.consistent.agree;
            bounded = λ k x h. ground (
              arith,
              lookup-insert id k (dynamic_resource id mode) m.res,
              eq_text_iff id k,
              v.consistent.vacant id missing,
              v.consistent.bounded k x,
            );
            registry = named-insert id (dynamic_resource id mode) m.res v.consistent.registry refl;
            vacant = λ k h.
                ground (
                  arith,
                  lookup-insert id k (dynamic_resource id mode) m.res,
                  v.consistent.vacant k,
                );
            known = λ k h.
                ground (
                  arith,
                  lookup-insert id k (dynamic_resource id mode) m.res,
                  v.consistent.known k,
                );
            once = v.consistent.once;
            calm = v.consistent.calm;
          };
          served = λ k x h. ground (
            arith,
            lookup-insert id k (dynamic_resource id mode) m.res,
            eq_text_iff id k,
            v.consistent.known id missing,
            v.served k x,
          );
        }))
]
