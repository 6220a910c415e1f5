-- ===== src/Ports/Allocations.antt =====
-- What the calls of internal/ports/ports.go make of the table, and the sequences of calls.
use agent_runtime_harness.Prelude.{
  ℕ, zero, suc, ◌+◌, ◌==◌, ◌≡◌, ◌≢◌, ◌<◌, refl, ap, ◌∙◌, Text, text, eq_text, eq_text_iff,
  eq_text_refl, Option, none, some, Bool, true, false, not, ◌&&◌, List, [], ◌∷◌, map, keep, Table,
  find, find-drop_key, IsTable, mem_text, if◌then◌else◌, arith, inl, inr, Option-cases,
}
use agent_runtime_harness.Ports.{
  Allocation, Socket, Manager, Answer, AcquireResult, allocated, bad_protocol, find_failed,
  exhausted, new_allocation, attempt, protocol_of, acquire, free, free_where, release_by_session,
  is_owner, reap_orphans, is_orphan, release_port,
}
use agent_runtime_harness.Ports.Invariant.{
  IsValid, acquire-IsValid, free_where-IsValid, release_port-IsValid, give_back_same,
}

pub data Call : Type 0 where
  acquires : (ask : ℕ → Answer) (sid protocol name : Text) → Call
  releases : (sid : Text) → Call
  releases_port : (port : ℕ) → Call
  reaps : (live : List Text) → Call

unfoldable pub step : Manager → Call → Manager
unfolding acquire release_by_session release_port reap_orphans
step m (acquires ask sid protocol name) = (acquire ask m sid protocol name).0
step m (releases sid) = (release_by_session m sid).0
step m (releases_port port) = (release_port m port).0
step m (reaps live) = (reap_orphans m live).0

unfoldable pub run_all : Manager → List Call → Manager
unfolding step
run_all m [] = m
run_all m (c ∷ cs) = run_all (step m c) cs

step-IsValid : (m : Manager) (c : Call) → IsValid m → IsValid (step m c)
unfolding step release_by_session reap_orphans
step-IsValid m (acquires ask sid protocol name) v = acquire-IsValid ask m sid protocol name v
step-IsValid m (releases sid) v = free_where-IsValid (is_owner sid) m.taken m v
step-IsValid m (releases_port port) v = release_port-IsValid m port v
step-IsValid m (reaps live) v = free_where-IsValid (is_orphan live) m.taken m v

-- Calls keep the invariant: each port is in the table at most once, only ports of the table have a
-- listener, and the sockets that are open are those of the listeners, each as often.
pub run_all-IsValid : (m : Manager) (cs : List Call) → IsValid m → IsValid (run_all m cs)
unfolding run_all
run_all-IsValid m [] v = v
run_all-IsValid m (c ∷ cs) v = run_all-IsValid (step m c) cs (step-IsValid m c v)

-- The effect of an Acquire on a manager, and what its answer says.
pub data Outcome (ask : ℕ → Answer) (m : Manager) (sid protocol : Text)
    : Manager × AcquireResult → Type 0 where
  -- The port was not in the table; it is in it now, with a listener, for the session, and every
  -- other port is as before.
  given :
      (m' : Manager) (a : Allocation) (h : Socket)
      → find a.port m.taken ≡ none
      → find a.port m'.taken ≡ some a
      → find a.port m'.held ≡ some h
      → a.session_id ≡ sid
      → ((port : ℕ) → port ≢ a.port → find port m'.taken ≡ find port m.taken)
      → Outcome ask m sid protocol (m', allocated a)
  -- An error leaves the manager, and the sockets that are open, as they were: the protocol is neither tcp nor
  -- udp, an attempt found no port, or all 64 attempts found a port of the table.
  unknown :
      mem_text protocol (text "" ∷ text "tcp" ∷ text "udp" ∷ []) ≡ false
      → Outcome ask m sid protocol (m, bad_protocol)
  failed : (i : ℕ) → i < 64 → ask i ≡ none → Outcome ask m sid protocol (m, find_failed)
  spent :
      ((i : ℕ)
        → i < 64
        → (port : ℕ) × (h : Socket) × (ask i ≡ some (port, h)) × (find port m.taken ≢ none))
      → Outcome ask m sid protocol (m, exhausted)

-- The attempts before the i-th found ports of the table.
abbrev AllTaken : ℕ → (ℕ → Answer) → Manager → Type 0
AllTaken i ask m =
    (j : ℕ)
    → j < i
    → (port : ℕ) × (h : Socket) × (ask j ≡ some (port, h)) × (find port m.taken ≢ none)

attempt_succeeds :
    (left i k : ℕ) (ask : ℕ → Answer) (m : Manager) (sid protocol name : Text) (port : ℕ)
    (h : Socket)
    → k < left
    → ((j : ℕ) → j < k → ask (i + j) ≢ none)
    → ask (i + k) ≡ some (port, h)
    → find port m.taken ≡ none
    → (a : Allocation) × ((attempt left i ask m sid protocol name).1 ≡ allocated a)
unfolding attempt
attempt_succeeds zero i k ask m sid protocol name port h lt fine answer open' = absurd (omega arith)
attempt_succeeds (suc left) i zero ask m sid protocol name port h lt fine answer open' =
    let now : ask i ≡ some (port, h) = ap ask (omega arith) ∙ answer in
    rw (now, attempt, open') (new_allocation port sid protocol name, refl)
attempt_succeeds (suc left) i (suc k) ask m sid protocol name port h lt fine answer open' =
    elim (Option-cases (ask i)) [
      | inl missing ↦ absurd (fine 0 (omega arith) (ap ask (omega arith) ∙ missing))
      | inr ((first, g), answered) ↦ elim (Option-cases (find first m.taken)) [
        | inl fresh ↦ rw (answered, attempt, fresh) (new_allocation first sid protocol name, refl)
        | inr (a, busy) ↦
            rw (answered, attempt, busy, give_back_same m g)
              (attempt_succeeds left (suc i) k ask m sid protocol name port h (omega arith)
                (λ j lt' e. fine (suc j) (omega arith) (ap ask (omega arith) ∙ e))
                (ap ask (omega arith) ∙ answer) open')
      ]
    ]

known_protocol :
    (p : Text)
    → mem_text p (text "" ∷ text "tcp" ∷ text "udp" ∷ []) ≡ true
    → (not (eq_text (protocol_of p) (text "tcp")) && not (eq_text (protocol_of p) (text "udp")))
      ≡ false
unfolding mem_text protocol_of
known_protocol p ok = ground (
  arith,
  eq_text_iff (text "") p,
  eq_text_iff (text "tcp") p,
  eq_text_iff (text "udp") p,
  eq_text_iff p (text ""),
  eq_text_iff p (text "tcp"),
  eq_text_iff p (text "udp"),
  eq_text_refl (text "tcp"),
)

-- The attempts of Acquire are enough: for tcp and udp, and the default, it gives a port when one of the
-- first 64 answers is a port outside the table and no answer before it is an error.
pub acquire_succeeds :
    (ask : ℕ → Answer) (m : Manager) (sid protocol name : Text) (k port : ℕ) (h : Socket)
    → mem_text protocol (text "" ∷ text "tcp" ∷ text "udp" ∷ []) ≡ true
    → k < 64
    → ((j : ℕ) → j < k → ask j ≢ none)
    → ask k ≡ some (port, h)
    → find port m.taken ≡ none
    → (a : Allocation) × ((acquire ask m sid protocol name).1 ≡ allocated a)
unfolding acquire
acquire_succeeds ask m sid protocol name k port h ok lt fine answer open' =
    rw (known_protocol protocol ok, acquire)
      (attempt_succeeds 64 0 k ask m sid (protocol_of protocol) name port h lt
        (λ j lt' e. fine j lt' (ap ask (omega arith) ∙ e)) (ap ask (omega arith) ∙ answer) open')

find-free :
    (m : Manager) (port q : ℕ)
    → find q (free m port).taken ≡ (if port == q then none else find q m.taken)
unfolding free
find-free m port q = elim (Option-cases (find port m.held)) [
  | inl bare ↦ rw (bare, free) (find-drop_key port q m.taken)
  | inr (h, found) ↦ rw (found, free) (find-drop_key port q m.taken)
]

find_held-free :
    (m : Manager) (port q : ℕ)
    → find q (free m port).held ≡ (if port == q then none else find q m.held)
unfolding free
find_held-free m port q = elim (Option-cases (find port m.held)) [
  | inl bare ↦ rw (bare, free) (ground arith)
  | inr (h, found) ↦ rw (found, free) (find-drop_key port q m.held)
]

-- What the range leaves at a port.
abbrev left_at {ℓ} : {V : Type ℓ} → (Allocation → Bool) → Option Allocation → Option V → Option V
left_at p none v = v
left_at p (some a) v = if p a then none else v

pub find-free_where :
    (p : Allocation → Bool) (t : Table Allocation) (m : Manager) (q : ℕ)
    → IsTable t
    → (find q (free_where p t m).0.taken ≡ left_at p (find q t) (find q m.taken))
      × (find q (free_where p t m).0.held ≡ left_at p (find q t) (find q m.held))
unfolding free_where find
find-free_where p [] m q u = (refl, refl)
find-free_where p ((port, a) ∷ t) m q u =
    let yes = find-free_where p t (free m port) q u.1 in
    let no = find-free_where p t m q u.1 in
    ground (arith, yes, no, find-free m port q, find_held-free m port q, u.0)

freed_where :
    (p : Allocation → Bool) (t : Table Allocation) (m : Manager)
    → (free_where p t m).1 ≡ keep (λ e. p e.1) t
unfolding free_where
freed_where p [] m = refl
freed_where p ((port, a) ∷ t) m = ground (arith, freed_where p t (free m port), freed_where p t m)

-- ReleaseBySession takes every port of the session out of both tables and returns those allocations;
-- the ports of the other sessions stay with them, with their listeners.
release_by_session_removes :
    (m : Manager) (sid : Text) (port : ℕ) (a : Allocation)
    → IsValid m
    → find port m.taken ≡ some a
    → let r = release_by_session m sid in
      (a.session_id ≡ sid → (find port r.0.taken ≡ none) × (find port r.0.held ≡ none))
      × (a.session_id ≢ sid
          → (find port r.0.taken ≡ some a) × (find port r.0.held ≡ find port m.held))
      × (r.1 ≡ map (λ e. e.1) (keep (λ e. eq_text e.1.session_id sid) m.taken))
unfolding release_by_session is_owner
release_by_session_removes m sid port a v found =
    let left = find-free_where (is_owner sid) m.taken m port v.taken_once in
    (
      λ same. ground (arith, left, eq_text_iff a.session_id sid),
      λ other. ground (arith, left, eq_text_iff a.session_id sid),
      ap (map (λ e. e.1)) (freed_where (is_owner sid) m.taken m),
    )

-- ReapOrphans frees the ports whose session is not in the set, returns them, and leaves the others.
reap_orphans_frees :
    (m : Manager) (live : List Text) (port : ℕ) (a : Allocation)
    → IsValid m
    → find port m.taken ≡ some a
    → let r = reap_orphans m live in
      (mem_text a.session_id live ≡ false
        → (find port r.0.taken ≡ none) × (find port r.0.held ≡ none))
      × (mem_text a.session_id live ≡ true
          → (find port r.0.taken ≡ some a) × (find port r.0.held ≡ find port m.held))
      × (r.1 ≡ map (λ e. e.0) (keep (λ e. not (mem_text e.1.session_id live)) m.taken))
unfolding reap_orphans is_orphan
reap_orphans_frees m live port a v found =
    let left = find-free_where (is_orphan live) m.taken m port v.taken_once in
    (
      λ dead. ground (arith, left),
      λ alive. ground (arith, left),
      ap (map (λ e. e.0)) (freed_where (is_orphan live) m.taken m),
    )
