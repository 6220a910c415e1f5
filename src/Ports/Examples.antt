-- ===== src/Ports/Examples.antt =====
-- Runs of the port manager of internal/ports/ports.go, and its theorems at them.
use agent_runtime_harness.Prelude.{
  ℕ, zero, suc, ◌≡◌, ◌≢◌, ◌<◌, refl, text, eq_text, some, none, List, [], ◌∷◌, find, mem_text,
  arith,
}
use agent_runtime_harness.Ports.{
  Allocation, Manager, new, Answer, allocated, acquire, release_by_session, reap_orphans,
}
use agent_runtime_harness.Ports.Invariant.{IsValid, new-IsValid}
use agent_runtime_harness.Ports.Allocations.{
  Call, acquires, run_all, run_all-IsValid, acquire_succeeds,
}

-- The system offers port 8000 twice, then 8001.
abbrev ask : ℕ → Answer
ask zero = some (8000, 3)
ask (suc zero) = some (8000, 4)
ask (suc (suc n)) = some (8001, 5)

abbrev calls : List Call
calls =
    acquires ask (text "a") (text "tcp") (text "debug")
    ∷ acquires ask (text "b") (text "") (text "web")
    ∷ []

abbrev busy : Manager
busy = run_all new calls

busy-IsValid : IsValid busy
busy-IsValid = run_all-IsValid new calls new-IsValid

abbrev debug : Allocation
debug = record {
  port = 8000;
  session_id = text "a";
  protocol = text "tcp";
  name = text "debug";
  unix_socket = [];
}

find-busy : find 8000 busy.taken ≡ some debug
unfolding run_all new find
find-busy = refl

free-busy : find 8002 busy.taken ≡ none
unfolding run_all new find
free-busy = refl

abbrev offer : ℕ → Answer
offer zero = some (8000, 6)
offer (suc n) = some (8002, 7)

answers : (j : ℕ) → j < 1 → offer j ≢ none
answers zero lt e = absurd (ground arith)
answers (suc j) lt e = absurd (omega arith)

acquire_succeeds_example :
    (a : Allocation) × ((acquire offer busy (text "c") (text "udp") []).1 ≡ allocated a)
unfolding mem_text eq_text
acquire_succeeds_example =
    acquire_succeeds offer busy (text "c") (text "udp") [] 1 8002 7 refl (omega arith) answers refl
      free-busy

abbrev leaves : Manager × List Allocation
leaves = release_by_session busy (text "a")

abbrev reaped : Manager × List ℕ
reaped = reap_orphans busy (text "b" ∷ [])
