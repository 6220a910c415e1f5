-- ===== src/Leases/Tickets.antt =====
-- How often a waiter's ticket stands in the queues and in the log of closed channels.
use agent_runtime_harness.Prelude.{
  ℕ, ◌+◌, ◌≡◌, ◌≤◌, refl, ◌==◌, Text, Bool, false, not, List, [], ◌∷◌, ◌++◌, Map, lookup, insert,
  keep, if◌then◌else◌, arith,
}
use agent_runtime_harness.Leases.{at, Waiter, Outcome, cut_waiter, is_closed}

-- In a queue.
unfoldable pub count : ℕ → List Waiter → ℕ
count t [] = 0
count t (w ∷ q) = (if w.ticket == t then 1 else 0) + count t q

-- In all queues.
unfoldable pub queued : ℕ → Map (List Waiter) → ℕ
unfolding count
queued t [] = 0
queued t ((rid, q) ∷ ws) = count t q + queued t ws

-- In the log.
unfoldable pub finished : ℕ → List (ℕ × Outcome) → ℕ
finished t [] = 0
finished t ((u, o) ∷ c) = (if u == t then 1 else 0) + finished t c

pub count-append : (t : ℕ) (p q : List Waiter) → count t (p ++ q) ≡ count t p + count t q
unfolding count
count-append t [] q = omega arith
count-append t (w ∷ p) q = omega (arith, count-append t p q)

-- Cutting one waiter out adds no ticket.
pub count-cut_waiter : (t u : ℕ) (q : List Waiter) → count t (cut_waiter u q) ≤ count t q
unfolding count cut_waiter
count-cut_waiter t u [] = omega arith
count-cut_waiter t u (w ∷ q) = ground (arith, count-cut_waiter t u q)

pub count-keep_split :
    (p : Waiter → Bool) (t : ℕ) (q : List Waiter)
    → count t (keep p q) + count t (keep (λ w. not (p w)) q) ≡ count t q
unfolding count
count-keep_split p t [] = omega arith
count-keep_split p t (w ∷ q) = ground (arith, count-keep_split p t q)

-- Replacing one queue exchanges its tickets.
pub queued-insert :
    (t : ℕ) (rid : Text) (q : List Waiter) (ws : Map (List Waiter))
    → queued t (insert rid q ws) + count t (at rid ws) ≡ queued t ws + count t q
unfolding queued insert at lookup
queued-insert t rid q [] = omega arith
queued-insert t rid q ((r, p) ∷ ws) = ground (arith, queued-insert t rid q ws)

pub is_closed-finished : (t : ℕ) (c : List (ℕ × Outcome)) → finished t c ≡ 0 → is_closed t c ≡ false
unfolding is_closed finished
is_closed-finished t [] h = refl
is_closed-finished t ((u, o) ∷ c) h = ground (arith, is_closed-finished t c)
