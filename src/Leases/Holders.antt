-- ===== src/Leases/Holders.antt =====
-- The active leases of a resource, as a list of ids, under the changes that the manager makes.
use agent_runtime_harness.Prelude.{
  suc, ◌≡◌, refl, ap, Text, eq_text, eq_text_iff, none, some, Bool, true, false, ◌&&◌, List, [],
  ◌∷◌, ◌++◌, Map, lookup, insert, lookup-insert, insert_new, Unique, length, length-append,
  if◌then◌else◌, arith, Option-cases, inl, inr,
}
use mathlib.Core.List.{append-nil}
use agent_runtime_harness.Model.{Lease, is_active}
use agent_runtime_harness.Leases.{at, add_id, drop_id, drop_holder}

-- Whether a lease is an active one of the resource.
unfoldable pub holds : Text → Lease → Bool
unfolding is_active
holds rid l = is_active l.state && eq_text l.resource_id rid

unfoldable pub active_ids : Text → Map Lease → List Text
unfolding holds
active_ids rid [] = []
active_ids rid ((id, l) ∷ m) =
    let rest = active_ids rid m in if holds rid l then id ∷ rest else rest

active_ids-append :
    (rid id : Text) (l : Lease) (m : Map Lease)
    → active_ids rid (m ++ (id, l) ∷ []) ≡ active_ids rid m ++ (if holds rid l then id ∷ [] else [])
unfolding active_ids
active_ids-append rid id l [] = ground arith
active_ids-append rid id l ((j, k) ∷ m) = ground (arith, active_ids-append rid id l m)

-- An id that is no key is in no such list.
drop_id-active_ids :
    (rid id : Text) (m : Map Lease)
    → lookup id m ≡ none
    → drop_id id (active_ids rid m) ≡ active_ids rid m
unfolding active_ids drop_id lookup
drop_id-active_ids rid id [] h = refl
drop_id-active_ids rid id ((j, k) ∷ m) h = ground (arith, drop_id-active_ids rid id m)

add_id-active_ids :
    (rid id : Text) (m : Map Lease)
    → lookup id m ≡ none
    → add_id id (active_ids rid m) ≡ active_ids rid m ++ id ∷ []
unfolding active_ids add_id lookup
add_id-active_ids rid id [] h = refl
add_id-active_ids rid id ((j, k) ∷ m) h = ground (arith, add_id-active_ids rid id m)

-- A change that keeps whether the lease is held by the resource changes no id.
pub active_ids-insert_same :
    (rid id : Text) (l l' : Lease) (m : Map Lease)
    → lookup id m ≡ some l
    → holds rid l ≡ holds rid l'
    → active_ids rid (insert id l' m) ≡ active_ids rid m
unfolding active_ids lookup insert
active_ids-insert_same rid id l l' [] h e = absurd (ground arith)
active_ids-insert_same rid id l l' ((j, k) ∷ m) h e =
    ground (arith, active_ids-insert_same rid id l l' m)

-- Ending an active lease takes its id out, and it stood there once.
pub active_ids-insert_end :
    (rid id : Text) (l l' : Lease) (m : Map Lease)
    → Unique m
    → lookup id m ≡ some l
    → holds rid l ≡ true
    → holds rid l' ≡ false
    → active_ids rid (insert id l' m) ≡ drop_id id (active_ids rid m)
unfolding active_ids lookup insert drop_id
active_ids-insert_end rid id l l' [] u h e e' = absurd (ground arith)
active_ids-insert_end rid id l l' ((j, k) ∷ m) u h e e' = ground (
  arith,
  eq_text_iff j id,
  active_ids-insert_end rid id l l' m u.1,
  drop_id-active_ids rid j m u.0,
)

pub length-active_ids-end :
    (rid id : Text) (l l' : Lease) (m : Map Lease)
    → lookup id m ≡ some l
    → holds rid l ≡ true
    → holds rid l' ≡ false
    → length (active_ids rid m) ≡ suc (length (active_ids rid (insert id l' m)))
unfolding active_ids lookup insert
length-active_ids-end rid id l l' [] h e e' = absurd (ground arith)
length-active_ids-end rid id l l' ((j, k) ∷ m) h e e' =
    ground (arith, length-active_ids-end rid id l l' m)

-- A lease under a new id goes to the end of its resource's list and of no other.
pub active_ids-insert_new :
    (rid id : Text) (l : Lease) (m : Map Lease)
    → lookup id m ≡ none
    → active_ids rid (insert id l m)
      ≡ (if holds rid l then add_id id (active_ids rid m) else active_ids rid m)
active_ids-insert_new rid id l m h = ground (
  arith,
  insert_new id l m h,
  active_ids-append rid id l m,
  add_id-active_ids rid id m h,
  append-nil (active_ids rid m),
)

pub at-insert {ℓ} :
    {A : Type ℓ} (k j : Text) (v : List A) (m : Map (List A))
    → at j (insert k v m) ≡ (if eq_text k j then v else at j m)
unfolding at
at-insert k j v m = ground (arith, lookup-insert k j v m)

pub at-drop_holder :
    (rid id r : Text) (h : Map (List Text))
    → at r (drop_holder rid id h) ≡ (if eq_text rid r then drop_id id (at r h) else at r h)
unfolding at drop_holder drop_id
at-drop_holder rid id r h = elim (Option-cases (lookup rid h)) [
  | inl e ↦ rw (e, drop_holder) (ground (arith, eq_text_iff rid r))
  | inr (s, e) ↦
      rw (e, drop_holder) (ground (arith, eq_text_iff rid r, lookup-insert rid r (drop_id id s) h))
]

-- A new id adds one holder.
pub length-add_id :
    (rid id : Text) (m : Map Lease)
    → lookup id m ≡ none
    → length (add_id id (active_ids rid m)) ≡ suc (length (active_ids rid m))
length-add_id rid id m h =
    omega
      (arith, ap length (add_id-active_ids rid id m h), length-append (active_ids rid m) (id ∷ []))
