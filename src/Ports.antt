-- ===== src/Ports.antt =====
-- internal/ports/ports.go: the port manager. A socket that the system opens is a number, and the
-- sockets that stand open are part of the state; what net.Listen and net.ListenUDP answer to each
-- attempt is an argument.
pub mod Invariant
pub mod Allocations
mod Examples
use agent_runtime_harness.Prelude.{
  ℕ, zero, suc, ◌+◌, ◌==◌, Text, text, eq_text, Option, none, some, Bool, true, false, not, ◌&&◌,
  ◌||◌, List, [], ◌∷◌, map, Table, find, put, drop_key, if◌then◌else◌, mem_text,
}

pub record Allocation : Type 0 where
  pub port : ℕ
  pub session_id : Text
  pub protocol : Text
  pub name : Text
  pub unix_socket : Text

-- heldListener, by its socket.
abbrev pub Socket : Type 0
Socket = ℕ

pub record Manager : Type 0 where
  pub taken : Table Allocation
  pub held : Table Socket
  -- The sockets that this manager has opened and not closed.
  pub opened : List Socket

-- New
unfoldable pub new : Manager
new = record { taken = []; held = []; opened = [] }

-- The net package's answer: a port and the socket bound to it, or an error.
abbrev pub Answer : Type 0
Answer = Option (ℕ × Socket)

-- heldListener.Close
unfoldable pub close_socket : Socket → List Socket → List Socket
close_socket h [] = []
close_socket h (g ∷ gs) = let rest = close_socket h gs in if g == h then gs else g ∷ rest

pub data AcquireResult : Type 0 where
  allocated : Allocation → AcquireResult
  bad_protocol : AcquireResult
  find_failed : AcquireResult
  exhausted : AcquireResult

-- The record and the table entries of a successful attempt.
unfoldable pub new_allocation : ℕ → Text → Text → Text → Allocation
new_allocation port sid protocol name = record {
  port = port;
  session_id = sid;
  protocol = protocol;
  name = name;
  unix_socket = [];
}

unfoldable pub take : Manager → Allocation → Socket → Manager
unfolding put
take m a h = record m {
  taken = put a.port a m.taken;
  held = put a.port h m.held;
  opened = h ∷ m.opened;
}

-- The busy case: the socket is closed again at once.
unfoldable pub give_back : Manager → Socket → Manager
unfolding close_socket
give_back m h = record m { opened = close_socket h (h ∷ m.opened) }

-- The loop of Acquire, with the attempts that are left and the number of the next one.
unfoldable pub attempt :
    ℕ → ℕ → (ℕ → Answer) → Manager → Text → Text → Text → Manager × AcquireResult
unfolding find take give_back new_allocation
attempt zero i ask m sid protocol name = (m, exhausted)
attempt (suc left) i ask m sid protocol name = elim (ask i) [
  | none ↦ (m, find_failed)
  | some (port, h) ↦ elim (find port m.taken) [
    | some busy ↦ attempt left (suc i) ask (give_back m h) sid protocol name
    | none ↦ (
      take m (new_allocation port sid protocol name) h,
      allocated (new_allocation port sid protocol name),
    )
  ]
]

unfoldable pub protocol_of : Text → Text
unfolding eq_text
protocol_of protocol = if eq_text protocol (text "") then text "tcp" else protocol

-- Acquire
unfoldable pub acquire : (ℕ → Answer) → Manager → Text → Text → Text → Manager × AcquireResult
unfolding protocol_of attempt
acquire ask m sid protocol name =
    if not (eq_text (protocol_of protocol) (text "tcp"))
      && not (eq_text (protocol_of protocol) (text "udp"))
    then (m, bad_protocol)
    else attempt 64 0 ask m sid (protocol_of protocol) name

-- delete from both tables, with Close of the listener.
unfoldable pub free : Manager → ℕ → Manager
unfolding find drop_key close_socket
free m port = elim (find port m.held) [
  | none ↦ record m { taken = drop_key port m.taken }
  | some h ↦ record m {
    taken = drop_key port m.taken;
    held = drop_key port m.held;
    opened = close_socket h m.opened;
  }
]

-- The range over taken, in the order that the list has, and the entries it releases.
unfoldable pub free_where :
    (Allocation → Bool) → Table Allocation → Manager → Manager × List (ℕ × Allocation)
unfolding free
free_where p [] m = (m, [])
free_where p ((port, a) ∷ t) m =
    let yes = free_where p t (free m port) in
    let no = free_where p t m in if p a then (yes.0, (port, a) ∷ yes.1) else no

unfoldable pub is_owner : Text → Allocation → Bool
unfolding eq_text
is_owner sid a = eq_text a.session_id sid

-- ReleaseBySession
unfoldable pub release_by_session : Manager → Text → Manager × List Allocation
unfolding free_where is_owner
release_by_session m sid = let r = free_where (is_owner sid) m.taken m in (r.0, map (λ e. e.1) r.1)

-- The set liveSessionIDs, as a list.
unfoldable pub is_orphan : List Text → Allocation → Bool
unfolding mem_text
is_orphan live a = not (mem_text a.session_id live)

-- ReapOrphans
unfoldable pub reap_orphans : Manager → List Text → Manager × List ℕ
unfolding free_where is_orphan
reap_orphans m live = let r = free_where (is_orphan live) m.taken m in (r.0, map (λ e. e.0) r.1)

-- ReleasePort
unfoldable pub release_port : Manager → ℕ → Manager × Bool
unfolding find free
release_port m port = elim (find port m.taken) [ none ↦ (m, false) | some a ↦ (free m port, true) ]

-- snapshotLocked
unfoldable pub snapshot : Manager → List Allocation
snapshot m = map (λ e. e.1) m.taken

-- The loop of Restore.
unfoldable put_all : List Allocation → Table Allocation → Table Allocation
unfolding put
put_all [] t = t
put_all (a ∷ rest) t = put_all rest (put a.port a t)

-- Restore; the sockets of a table that is dropped stay open.
unfoldable pub restore : List Allocation → Manager → Manager
unfolding put_all
restore allocations m = record m { taken = put_all allocations []; held = [] }
