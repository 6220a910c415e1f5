-- ===== src/Leases/Startup.antt =====
-- internal/lease/manager.go: how a manager starts, from the configuration or from a snapshot, and
-- what it lists.
use agent_runtime_harness.Prelude.{
  ℕ, Text, text, eq_text, Option, none, some, Bool, true, false, not, ◌&&◌, ◌||◌, List, [], ◌∷◌,
  map, Map, lookup, insert, insert_all, length, keep, ltb, if◌then◌else◌,
}
use mathlib.Core.List.{reverse}
use agent_runtime_harness.Model.{Lease, Resource, LeaseMode, is_active}
use agent_runtime_harness.Ids.{parse_lease_seq}
use agent_runtime_harness.Leases.{Manager, State, at, add_id, save}

-- config.ResourceConfig
pub record ResourceConfig : Type 0 where
  pub mode : Text
  pub capacity : ℕ
  pub provider : Text
  pub meta : Map Text

-- model.LeaseMode(rc.Mode), where the empty mode is exclusive.
unfoldable lease_mode : Text → LeaseMode
unfolding eq_text
lease_mode s =
    if eq_text s (text "") || eq_text s (text "exclusive")
    then LeaseMode.exclusive
    else if eq_text s (text "shared")
    then LeaseMode.shared
    else if eq_text s (text "capacity")
    then LeaseMode.capacity
    else LeaseMode.other s

is_capacity : LeaseMode → Bool
is_capacity LeaseMode.capacity = true
is_capacity _ = false

unfoldable pub resource_of : Text → ResourceConfig → Resource
unfolding lease_mode is_capacity
resource_of id rc =
    let mode = lease_mode rc.mode in
    record {
      id = id;
      mode = mode;
      capacity = if is_capacity mode then rc.capacity else 0;
      provider = rc.provider;
      meta = rc.meta;
    }

abbrev pub empty : Manager
empty = record {
  res = [];
  leases = [];
  holders = [];
  waiters = [];
  seq = 0;
  next_ticket = 0;
  closed = [];
  stored = none;
  panicked = false;
}

unfoldable pub resources_of : Map ResourceConfig → Map Resource
unfolding resource_of
resources_of [] = []
resources_of ((id, rc) ∷ cfg) = insert id (resource_of id rc) (resources_of cfg)

-- New
unfoldable pub new : Map ResourceConfig → Manager
unfolding resources_of
new cfg = record empty { res = resources_of cfg }

-- The resource that EnsureResource makes.
unfoldable pub dynamic_resource : Text → LeaseMode → Resource
unfolding is_capacity
dynamic_resource id mode = record {
  id = id;
  mode = mode;
  capacity = if is_capacity mode then 1 else 0;
  provider = [];
  meta = [];
}

-- EnsureResource: an existing definition is never overwritten.
unfoldable pub ensure_resource : Manager → Text → LeaseMode → Bool → Manager
unfolding lookup dynamic_resource save
ensure_resource m id mode ok = elim (lookup id m.res) [
  | some r ↦ m
  | none ↦ save ok (record m { res = insert id (dynamic_resource id mode) m.res })
]

-- One round of the loop over s.Leases; maxSeq is carried beside the maps.
unfoldable pub restore_lease : Lease → Manager → Manager
unfolding is_active add_id
restore_lease l m = record m {
  leases = insert l.id l m.leases;
  seq = if ltb m.seq (parse_lease_seq l.id) then parse_lease_seq l.id else m.seq;
  holders =
      if is_active l.state
      then insert l.resource_id (add_id l.id (at l.resource_id m.holders)) m.holders
      else m.holders;
}

unfoldable pub restore_leases : List Lease → Manager → Manager
unfolding restore_lease
restore_leases [] m = m
restore_leases (l ∷ ls) m = restore_leases ls (restore_lease l m)

-- Restore: the queues are forgotten, and m.seq becomes the larger of itself and maxSeq.
unfoldable pub restore : State → Manager → Manager
unfolding insert_all restore_leases
restore s m = restore_leases s.leases (record m {
  res = insert_all (λ r. r.id) s.resources [];
  leases = [];
  holders = [];
  waiters = [];
})

-- RestoreFromStore: no file, or one that does not parse, leaves the manager as it is.
unfoldable pub restore_from_store : Option State → Manager → Manager
unfolding restore
restore_from_store none m = m
restore_from_store (some s) m = restore s m

-- The inner loop of sortByCreated: the element moves left while it is before its neighbour. The
-- part on its left is held from right to left.
unfoldable sink : Lease → List Lease → List Lease
sink l [] = l ∷ []
sink l (x ∷ left) = if ltb l.created_at x.created_at then x ∷ sink l left else l ∷ x ∷ left

unfoldable sort_from : List Lease → List Lease → List Lease
unfolding sink
sort_from left [] = reverse left
sort_from left (l ∷ ls) = sort_from (sink l left) ls

unfoldable sort_by_created : List Lease → List Lease
unfolding sort_from
sort_by_created = sort_from []

-- List(activeOnly)
unfoldable pub list : Manager → Bool → List Lease
unfolding is_active sort_by_created
list m active_only =
    sort_by_created
      (keep (λ l. not (active_only && not (is_active l.state))) (map (λ e. e.1) m.leases))

-- SessionHolds
unfoldable pub session_holds : Manager → Text → List Lease
unfolding is_active sort_by_created
session_holds m sid =
    sort_by_created
      (keep (λ l. eq_text l.session_id sid && is_active l.state) (map (λ e. e.1) m.leases))

-- ActiveCount and QueueDepth
unfoldable pub active_count : Manager → Text → ℕ
unfolding at
active_count m rid = length (at rid m.holders)

unfoldable pub queue_depth : Manager → Text → ℕ
unfolding at
queue_depth m rid = length (at rid m.waiters)
