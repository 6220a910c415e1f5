-- ===== src/Leases.antt =====
-- internal/lease/manager.go: the lease manager. Each definition is one section under the mutex.
-- The clock, the outcome of Store.Save and the order in which a range visits a map are arguments.
-- A Waiter is known by its ticket, which stands for its address; what close(w.done) publishes is
-- logged in `closed`. `panicked` records a nil dereference or a second close of a channel.
pub mod Endings
pub mod Startup
mod Holders
mod Tickets
pub mod Invariant
mod Served
pub mod Waiting
pub mod Operations
pub mod History
pub mod Effects
pub mod Handover
pub mod Granting
pub mod Hazards
pub mod Restart
mod Examples
pub mod Sessions
pub mod Departure
use agent_runtime_harness.Prelude.{
  ℕ, suc, ◌+◌, ◌==◌, Text, eq_text, Option, none, some, Bool, true, false, not, ◌&&◌, ◌||◌, List,
  [], ◌∷◌, ◌++◌, map, Map, lookup, insert, length, keep, ltb, if◌then◌else◌,
}
use agent_runtime_harness.Model.{
  Lease, Resource, LeaseMode, LeaseState, leased, released, expired, is_active,
}
use agent_runtime_harness.Ids.{lease_id, parse_lease_seq}

-- The value at a key of a map of lists; nil where the key is missing.
unfoldable pub at {ℓ} : {A : Type ℓ} → Text → Map (List A) → List A
unfolding lookup
at k m = elim (lookup k m) [ none ↦ [] | some l ↦ l ]

pub record Waiter : Type 0 where
  pub ticket : ℕ
  pub session_id : Text
  pub enqueued_at : ℕ

-- How a wait ended: granted with a lease, or w.err is set.
pub data Outcome : Type 0 where
  granted : Lease → Outcome
  session_ended : Outcome

-- The persisted snapshot.
pub record State : Type 0 where
  pub resources : List Resource
  pub leases : List Lease

pub record Manager : Type 0 where
  pub res : Map Resource
  pub leases : Map Lease
  pub holders : Map (List Text)
  pub waiters : Map (List Waiter)
  pub seq : ℕ
  pub next_ticket : ℕ
  pub closed : List (ℕ × Outcome)
  pub stored : Option State
  pub panicked : Bool

pub snapshot : Manager → State
snapshot m = record { resources = map (λ e. e.1) m.res; leases = map (λ e. e.1) m.leases }

-- Store.Save("leases", snap); false is a failed write, which leaves the old file.
unfoldable pub save : Bool → Manager → Manager
unfolding snapshot
save true m = record m { stored = some (snapshot m) }
save false m = m

-- 1 << 30, "effectively unlimited"
abbrev pub shared_capacity : ℕ
shared_capacity = 1_073_741_824

-- capacityOf
unfoldable pub capacity_of : Resource → ℕ
capacity_of r = elim r.mode [
  | LeaseMode.exclusive ↦ 1
  | LeaseMode.shared ↦ shared_capacity
  | LeaseMode.capacity ↦ if r.capacity == 0 then 1 else r.capacity
  | LeaseMode.other s ↦ 1
]

-- A set of ids: s[id] = true and delete(s, id).
unfoldable pub add_id : Text → List Text → List Text
add_id id [] = id ∷ []
add_id id (x ∷ xs) = if eq_text x id then x ∷ xs else x ∷ add_id id xs

unfoldable pub drop_id : Text → List Text → List Text
drop_id id = keep (λ x. not (eq_text x id))

-- delete(m.holders[rid], id): nothing to do on a nil set.
unfoldable pub drop_holder : Text → Text → Map (List Text) → Map (List Text)
unfolding drop_id lookup insert
drop_holder rid id h = elim (lookup rid h) [ none ↦ h | some s ↦ insert rid (drop_id id s) h ]

-- A ttl that is not positive is 0.
unfoldable pub new_lease : ℕ → Text → Text → ℕ → ℕ → Lease
unfolding lease_id
new_lease n rid sid ttl now = record {
  id = lease_id n;
  resource_id = rid;
  session_id = sid;
  created_at = now;
  expires_at = if ltb 0 ttl then now + ttl else 0;
  state = leased;
  released_at = none;
}

-- grant: the lease that it returns is new_lease (suc m.seq) rid sid ttl now.
pub grant : Manager → Text → Text → ℕ → ℕ → Manager
unfolding new_lease add_id
grant m rid sid ttl now =
    let l = new_lease (suc m.seq) rid sid ttl now in
    record m {
      leases = insert l.id l m.leases;
      holders = insert rid (add_id l.id (at rid m.holders)) m.holders;
      seq = suc m.seq;
    }

pub is_closed : ℕ → List (ℕ × Outcome) → Bool
is_closed t [] = false
is_closed t ((u, o) ∷ c) = u == t || is_closed t c

-- close(w.done), with what the waiter then reads.
pub close : ℕ → Outcome → Manager → Manager
unfolding is_closed
close t o m = record m { closed = (t, o) ∷ m.closed; panicked = m.panicked || is_closed t m.closed }

-- The head of a queue leaves it and gets a lease without expiry.
pub hand_over : Manager → Text → Waiter → List Waiter → ℕ → Manager
unfolding close grant
hand_over m rid w rest now =
    let m' = record m { waiters = insert rid rest m.waiters } in
    close w.ticket (granted (new_lease (suc m.seq) rid w.session_id 0 now))
      (grant m' rid w.session_id 0 now)

-- trySatisfy: the loop returns in its first round. Reading m.res for a resource that is not there
-- gives nil, which capacityOf dereferences.
pub try_satisfy : Manager → Text → ℕ → Manager
unfolding hand_over
try_satisfy m rid now = elim (at rid m.waiters) [
  | [] ↦ m
  | w ∷ rest ↦ elim (lookup rid m.res) [
    | none ↦ record m { panicked = true }
    | some r ↦
        if ltb (length (at rid m.holders)) (capacity_of r) then hand_over m rid w rest now else m
  ]
]

-- What the release paths share: the lease leaves the state LEASED, its slot is freed, and the
-- resource's queue is served.
pub drop_lease : Manager → Lease → LeaseState → ℕ → Manager
unfolding drop_holder
drop_lease m l st now = record m {
  leases = insert l.id (record l { state = st; released_at = some now }) m.leases;
  holders = drop_holder l.resource_id l.id m.holders;
}

unfoldable pub end_lease : Manager → Lease → LeaseState → ℕ → Manager
unfolding drop_lease try_satisfy
end_lease m l st now = try_satisfy (drop_lease m l st now) l.resource_id now

pub data AcquireResult : Type 0 where
  acquired : Lease → AcquireResult
  queued : ℕ → AcquireResult
  unknown_resource : AcquireResult
  save_failed : AcquireResult

pub enqueue : Manager → Text → Text → ℕ → Manager × AcquireResult
enqueue m rid sid now =
    let w : Waiter = record { ticket = m.next_ticket; session_id = sid; enqueued_at = now } in
    (
      record m {
        waiters = insert rid (at rid m.waiters ++ w ∷ []) m.waiters;
        next_ticket = suc m.next_ticket;
      },
      queued m.next_ticket,
    )

-- Acquire up to its select; a queued caller then waits for its ticket to be closed.
unfoldable pub acquire : Manager → Text → Text → ℕ → ℕ → Bool → Manager × AcquireResult
unfolding grant enqueue save
acquire m rid sid ttl now ok = elim (lookup rid m.res) [
  | none ↦ (m, unknown_resource)
  | some r ↦
      if ltb (length (at rid m.holders)) (capacity_of r)
      then (
        save ok (grant m rid sid ttl now),
        if ok then acquired (new_lease (suc m.seq) rid sid ttl now) else save_failed,
      )
      else enqueue m rid sid now
]

-- removeWaiter: the first entry of the queue with this address is cut out.
unfoldable pub cut_waiter : ℕ → List Waiter → List Waiter
cut_waiter t [] = []
cut_waiter t (w ∷ q) = if w.ticket == t then q else w ∷ cut_waiter t q

-- The branch <-ctx.Done() of Acquire: the caller gets ctx.Err() whatever the queue held.
unfoldable pub cancel_wait : Manager → Text → ℕ → Manager
unfolding cut_waiter lookup
cancel_wait m rid t = elim (lookup rid m.waiters) [
  | none ↦ m
  | some q ↦ record m { waiters = insert rid (cut_waiter t q) m.waiters }
]
