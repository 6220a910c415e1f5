-- ===== src/Leases/Invariant.antt =====
-- The invariant of the lease manager, and the sections that all its operations are made of.
use agent_runtime_harness.Prelude.{
  ℕ, suc, ◌+◌, ◌≡◌, ◌≤◌, ◌<◌, refl, Text, eq_text, eq_text_iff, none, some, true, false, List, [],
  ◌∷◌, Map, lookup, insert, lookup-insert, insert-Unique, Unique, length, ltb, if◌then◌else◌, arith,
  ◌⊎◌,
}
use agent_runtime_harness.Model.{Lease, Resource, LeaseState, is_active}
use agent_runtime_harness.Ids.{lease_id, lease_id-injective}
use agent_runtime_harness.Leases.{
  Manager, at, add_id, drop_id, capacity_of, new_lease, grant, drop_lease,
}
use agent_runtime_harness.Leases.Holders.{
  holds, active_ids, active_ids-insert_same, active_ids-insert_end, active_ids-insert_new,
  length-active_ids-end, length-add_id, at-insert, at-drop_holder,
}
use agent_runtime_harness.Leases.Tickets.{queued, finished}

-- A resource stands once, under its own id.
pub record IsRegistry (res : Map Resource) : Type 0 where
  pub once : Unique res
  pub named : (id : Text) (r : Resource) → lookup id res ≡ some r → r.id ≡ id

-- What every section of the code keeps.
pub record IsConsistent (m : Manager) : Type 0 where
  pub unique : Unique m.leases
  pub keyed : (id : Text) (l : Lease) → lookup id m.leases ≡ some l → l.id ≡ id
  pub fresh : (n : ℕ) → m.seq < n → lookup (lease_id n) m.leases ≡ none
  pub agree : (rid : Text) → at rid m.holders ≡ active_ids rid m.leases
  pub bounded :
      (rid : Text) (r : Resource)
      → lookup rid m.res ≡ some r
      → length (at rid m.holders) ≤ capacity_of r
  pub registry : IsRegistry m.res
  pub vacant : (rid : Text) → lookup rid m.res ≡ none → at rid m.holders ≡ []
  pub known : (rid : Text) → lookup rid m.res ≡ none → at rid m.waiters ≡ []
  pub once :
      (t : ℕ) → queued t m.waiters + finished t m.closed ≤ (if ltb t m.next_ticket then 1 else 0)
  pub calm : m.panicked ≡ false

-- Nobody waits for a resource that has room for n more holders than it has.
abbrev pub IsServedUpTo : ℕ → Manager → Text → Type 0
IsServedUpTo n m rid =
    (r : Resource)
    → lookup rid m.res ≡ some r
    → (at rid m.waiters ≡ []) ⊎ (capacity_of r ≤ length (at rid m.holders) + n)

-- Between two calls nobody waits for a resource that has room.
pub record IsValid (m : Manager) : Type 0 where
  pub consistent : IsConsistent m
  pub served : (rid : Text) → IsServedUpTo 0 m rid

nil_of_length : (ids : List Text) → length ids ≡ 0 → ids ≡ []
nil_of_length [] h = refl
nil_of_length (x ∷ xs) h = absurd (omega arith)

module _ (m : Manager) (rid sid : Text) (ttl now : ℕ) (c : IsConsistent m) where
  abbrev next_id : Text
  next_id = lease_id (suc m.seq)

  abbrev next_lease : Lease
  next_lease = new_lease (suc m.seq) rid sid ttl now

  next_new : lookup next_id m.leases ≡ none
  next_new = c.fresh (suc m.seq) (omega arith)

  -- A lease granted under the capacity keeps the tables consistent.
  pub grant-IsConsistent :
      (r : Resource)
      → lookup rid m.res ≡ some r
      → length (at rid m.holders) < capacity_of r
      → IsConsistent (grant m rid sid ttl now)
  unfolding grant new_lease holds is_active
  grant-IsConsistent r e room = record {
    unique = insert-Unique next_id next_lease m.leases c.unique;
    keyed = λ id l h.
        ground (
          arith,
          lookup-insert next_id id next_lease m.leases,
          eq_text_iff next_id id,
          c.keyed id l,
        );
    fresh = λ n h. ground (
      arith,
      lookup-insert next_id (lease_id n) next_lease m.leases,
      eq_text_iff next_id (lease_id n),
      lease_id-injective (suc m.seq) n,
      c.fresh n,
    );
    agree = λ k. ground (
      arith,
      at-insert rid k (add_id next_id (at rid m.holders)) m.holders,
      active_ids-insert_new k next_id next_lease m.leases next_new,
      eq_text_iff rid k,
      c.agree k,
    );
    bounded = λ k x h. ground (
      arith,
      at-insert rid k (add_id next_id (at rid m.holders)) m.holders,
      eq_text_iff rid k,
      c.agree rid,
      length-add_id rid next_id m.leases next_new,
      c.bounded k x,
    );
    registry = c.registry;
    vacant = λ k h. ground (
      arith,
      at-insert rid k (add_id next_id (at rid m.holders)) m.holders,
      eq_text_iff rid k,
      c.vacant k h,
    );
    known = c.known;
    once = c.once;
    calm = c.calm;
  }

  -- It takes one slot of its resource, and none of another.
  pub length-holders-grant :
      (k : Text)
      → length (at k (grant m rid sid ttl now).holders)
        ≡ (if eq_text rid k then suc (length (at k m.holders)) else length (at k m.holders))
  unfolding grant new_lease
  length-holders-grant k = ground (
    arith,
    at-insert rid k (add_id next_id (at rid m.holders)) m.holders,
    eq_text_iff rid k,
    c.agree rid,
    length-add_id rid next_id m.leases next_new,
  )

module _ (m : Manager) (id : Text) (l : Lease) (st : LeaseState) (now : ℕ) where
  abbrev ended : Lease
  ended = record l { state = st; released_at = some now }

  holds-ended : (k : Text) → is_active st ≡ false → holds k ended ≡ false
  unfolding holds
  holds-ended k h = ground arith

  holds_iff : (k : Text) → is_active l.state ≡ true → holds k l ≡ eq_text l.resource_id k
  unfolding holds
  holds_iff k h = ground arith

  module _ (c : IsConsistent m) (e : lookup id m.leases ≡ some l)
      (active : is_active l.state ≡ true) (st_inactive : is_active st ≡ false) where
    -- The ids of other resources stay; the resource loses this one.
    active_ids-drop :
        (k : Text)
        → active_ids k (insert id ended m.leases) ≡ (
            if eq_text l.resource_id k
            then drop_id id (active_ids k m.leases)
            else active_ids k m.leases)
    active_ids-drop k = ground (
      arith,
      holds_iff k active,
      holds-ended k st_inactive,
      active_ids-insert_same k id l ended m.leases e,
      active_ids-insert_end k id l ended m.leases c.unique e,
    )

    agree-drop :
        (k : Text)
        → at k (drop_lease m l st now).holders ≡ active_ids k (drop_lease m l st now).leases
    unfolding drop_lease
    agree-drop k = ground (
      arith,
      c.keyed id l e,
      at-drop_holder l.resource_id id k m.holders,
      active_ids-drop k,
      c.agree k,
    )

    -- Ending an active lease frees one slot of its resource, and none of another.
    pub length-holders-drop :
        (k : Text)
        → length (at k m.holders) ≡ (
            if eq_text l.resource_id k
            then suc (length (at k (drop_lease m l st now).holders))
            else length (at k (drop_lease m l st now).holders))
    unfolding drop_lease
    length-holders-drop k = ground (
      arith,
      c.keyed id l e,
      c.agree k,
      agree-drop k,
      active_ids-drop k,
      holds_iff k active,
      holds-ended k st_inactive,
      length-active_ids-end k id l ended m.leases e,
    )

    pub drop_lease-IsConsistent : IsConsistent (drop_lease m l st now)
    unfolding drop_lease
    drop_lease-IsConsistent = record {
      unique = insert-Unique l.id ended m.leases c.unique;
      keyed = λ j k h.
          ground (arith, lookup-insert l.id j ended m.leases, eq_text_iff l.id j, c.keyed j k);
      fresh = λ n h. ground (
        arith,
        c.keyed id l e,
        lookup-insert id (lease_id n) ended m.leases,
        eq_text_iff id (lease_id n),
        c.fresh n h,
      );
      agree = agree-drop;
      bounded = λ k r h. ground (arith, c.bounded k r h, length-holders-drop k);
      registry = c.registry;
      vacant = λ k h. nil_of_length _ (ground (arith, c.vacant k h, length-holders-drop k));
      known = c.known;
      once = c.once;
      calm = c.calm;
    }
