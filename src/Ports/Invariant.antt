-- ===== src/Ports/Invariant.antt =====
-- The invariant of the port manager of internal/ports/ports.go.
use agent_runtime_harness.Prelude.{
  ℕ, zero, suc, ◌+◌, ◌==◌, ◌≡◌, ◌≤◌, refl, sym, subst, Text, text, eq_text, none, some, Bool, not,
  ◌&&◌, List, [], ◌∷◌, Table, find, find-put, find-drop_key, IsTable, put-IsTable, drop_key-IsTable,
  count_value, count_value-put_new, count_value-drop_key, if◌then◌else◌, arith, inl, inr,
  Option-cases, Bool-cases,
}
use agent_runtime_harness.Ports.{
  Allocation, Socket, Manager, new, Answer, close_socket, new_allocation, take, give_back, attempt,
  protocol_of, acquire, free, free_where, release_port,
}

-- How often a socket stands in a list.
unfoldable pub count : Socket → List Socket → ℕ
count n [] = 0
count n (h ∷ hs) = (if h == n then 1 else 0) + count n hs

pub record IsValid (m : Manager) : Type 0 where
  pub taken_once : IsTable m.taken
  held_once : IsTable m.held
  pub named : (port : ℕ) (a : Allocation) → find port m.taken ≡ some a → a.port ≡ port
  -- Only a port that is taken is held.
  backed : (port : ℕ) → find port m.taken ≡ none → find port m.held ≡ none
  -- The open sockets are those that are held: none leaks, and none that is held is closed.
  accounted : (h : Socket) → count h m.opened ≡ count_value h m.held

count-close_socket :
    (n h : Socket) (hs : List Socket)
    → 1 ≤ count h hs
    → count n hs ≡ (if h == n then 1 else 0) + count n (close_socket h hs)
unfolding count close_socket
count-close_socket n h [] le = absurd (omega (arith, le))
count-close_socket n h (g ∷ gs) le = ground (arith, count-close_socket n h gs)

count_value_held : (k h : ℕ) (t : Table Socket) → find k t ≡ some h → 1 ≤ count_value h t
unfolding count_value find
count_value_held k h [] e = absurd (ground arith)
count_value_held k h ((i, w) ∷ t) e = ground (arith, count_value_held k h t)

pub new-IsValid : IsValid new
unfolding new find count count_value
new-IsValid = record {
  taken_once = tt;
  held_once = tt;
  named = λ port a e. absurd (ground arith);
  backed = λ port e. refl;
  accounted = λ h. refl;
}

take-IsValid :
    (m : Manager) (a : Allocation) (h : Socket)
    → find a.port m.taken ≡ none
    → IsValid m
    → IsValid (take m a h)
unfolding take count
take-IsValid m a h new v = record {
  taken_once = put-IsTable a.port a m.taken v.taken_once;
  held_once = put-IsTable a.port h m.held v.held_once;
  named = λ port b e. ground (arith, find-put a.port port a m.taken, v.named port b);
  backed = λ port e.
      ground (arith, find-put a.port port a m.taken, find-put a.port port h m.held, v.backed port);
  accounted = λ n.
      ground (arith, count_value-put_new n a.port h m.held (v.backed a.port new), v.accounted n);
}

pub give_back_same : (m : Manager) (h : Socket) → give_back m h ≡ m
unfolding give_back close_socket
give_back_same m h = ground arith

free-IsValid : (m : Manager) (port : ℕ) → IsValid m → IsValid (free m port)
unfolding free
free-IsValid m port v = elim (Option-cases (find port m.held)) [
  | inl bare ↦
      rw (bare, free)
        (record {
          taken_once = drop_key-IsTable port m.taken v.taken_once;
          held_once = v.held_once;
          named = λ p a e. ground (arith, find-drop_key port p m.taken, v.named p a);
          backed = λ p e. ground (arith, find-drop_key port p m.taken, v.backed p, bare);
          accounted = v.accounted;
        })
  | inr (h, found) ↦
      rw (found, free)
        (record {
          taken_once = drop_key-IsTable port m.taken v.taken_once;
          held_once = drop_key-IsTable port m.held v.held_once;
          named = λ p a e. ground (arith, find-drop_key port p m.taken, v.named p a);
          backed = λ p e.
              ground (arith, find-drop_key port p m.taken, find-drop_key port p m.held, v.backed p);
          accounted = λ n. omega (
            arith,
            count-close_socket n h m.opened
                (omega (arith, count_value_held port h m.held found, v.accounted h)),
            count_value-drop_key n port h m.held v.held_once found,
            v.accounted n,
          );
        })
]

attempt-IsValid :
    (left i : ℕ) (ask : ℕ → Answer) (m : Manager) (sid protocol name : Text)
    → IsValid m
    → IsValid (attempt left i ask m sid protocol name).0
unfolding attempt new_allocation
attempt-IsValid zero i ask m sid protocol name v = v
attempt-IsValid (suc left) i ask m sid protocol name v = elim (Option-cases (ask i)) [
  | inl failed ↦ rw (failed, attempt) v
  | inr ((port, h), answer) ↦ elim (Option-cases (find port m.taken)) [
    | inl open' ↦
        rw (answer, attempt, open')
          (take-IsValid m (new_allocation port sid protocol name) h open' v)
    | inr (a, busy) ↦
        rw (answer, attempt, busy)
          (attempt-IsValid left (suc i) ask (give_back m h) sid protocol name
            (subst IsValid (sym (give_back_same m h)) v))
  ]
]

pub acquire-IsValid :
    (ask : ℕ → Answer) (m : Manager) (sid protocol name : Text)
    → IsValid m
    → IsValid (acquire ask m sid protocol name).0
unfolding acquire
acquire-IsValid ask m sid protocol name v =
    elim (Bool-cases (
      not (eq_text (protocol_of protocol) (text "tcp"))
      && not (eq_text (protocol_of protocol) (text "udp")))) [
        | inl bad ↦ rw (bad, acquire) v
        | inr good ↦
            rw (good, acquire) (attempt-IsValid 64 0 ask m sid (protocol_of protocol) name v)
      ]

pub free_where-IsValid :
    (p : Allocation → Bool) (t : Table Allocation) (m : Manager)
    → IsValid m
    → IsValid (free_where p t m).0
unfolding free_where
free_where-IsValid p [] m v = v
free_where-IsValid p ((port, a) ∷ t) m v = elim (Bool-cases (p a)) [
  | inl yes' ↦ rw (yes', free_where) (free_where-IsValid p t (free m port) (free-IsValid m port v))
  | inr no' ↦ rw (no', free_where) (free_where-IsValid p t m v)
]

pub release_port-IsValid : (m : Manager) (port : ℕ) → IsValid m → IsValid (release_port m port).0
unfolding release_port
release_port-IsValid m port v = elim (Option-cases (find port m.taken)) [
  | inl missing ↦ rw (missing, release_port) v
  | inr (a, found) ↦ rw (found, release_port) (free-IsValid m port v)
]
