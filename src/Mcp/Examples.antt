-- ===== src/Mcp/Examples.antt =====
-- Tool calls of internal/mcp/server.go, and the theorems at them.
use agent_runtime_harness.Prelude.{
  ℕ, suc, ◌≡◌, refl, Text, text, eq_text, Option, none, some, false, List, [], ◌∷◌, length, lookup,
  arith, ◌⊎◌, inl, inr, Bool-cases, mem_text,
}
use agent_runtime_harness.Config.{Config, default}
use agent_runtime_harness.Policy.{evaluate, always_deny}
use agent_runtime_harness.Service.{Service}
use agent_runtime_harness.Service.Startup.{new}
use agent_runtime_harness.Rpc.Register.{session_create, handle}
use agent_runtime_harness.Rpc.Gates.{IsPowerless, handle_powerless}
use agent_runtime_harness.Rpc.Worlds.{world, zero_params}
use agent_runtime_harness.Mcp.Gates.{IsGated, call_powerless}
use agent_runtime_harness.Mcp.{string, Arguments}
use agent_runtime_harness.Mcp.Table.{ToolCall, call, execute_tool, unity_run_tests, tool_names}
use agent_runtime_harness.Mcp.Requests.{Request, pong, unknown_tool, serve_io, sort_names}

-- Without "wait", a run is not waited for.
not_waited : (call execute_tool ((text "session", string (text "s")) ∷ [])).params.wait ≡ false
unfolding call lookup eq_text
not_waited = refl

any_mode :
    (call unity_run_tests ((text "mode", string (text "PlayMode")) ∷ [])).params.command
    ≡ text "test.playmode"
unfolding call lookup eq_text
any_mode = refl

twenty_tools : length tool_names ≡ 20
twenty_tools = refl

sorted : sort_names [] (text "b" ∷ text "c" ∷ text "a" ∷ []) ≡ text "a" ∷ text "b" ∷ text "c" ∷ []
unfolding sort_names
sorted = refl

-- A client that counts its calls.
abbrev client : ℕ → ToolCall → ℕ → ℕ × (Text ⊎ Text)
client n c minutes = (suc n, inr (text "{}"))

abbrev requests : List Request
requests =
    record { id = some (text "1"); method = text "ping"; params = [] }
    ∷ record { id = none; method = text "notifications/initialized"; params = [] }
    ∷ record { id = some (text "2"); method = text "tools/call"; params = text "x" }
    ∷ record { id = none; method = text "shutdown"; params = [] }
    ∷ []

abbrev decode_call : Text → Option (Text × Arguments)
decode_call params = some (text "shell", [])

-- An unknown tool does not reach the daemon.
answered : serve_io decode_call [] client 0 requests ≡ (
  0,
  (record { id = some (text "1"); answer = pong } ∷ [])
      ∷ []
      ∷ (record { id = some (text "2"); answer = unknown_tool (text "shell") } ∷ [])
      ∷ []
      ∷ [],
)
unfolding serve_io lookup eq_text
answered = refl

-- A daemon that denies everything to the frontend.
abbrev strict : Config
strict = record (default (record { home = none; is_windows = false })) {
  policy = record (default (record { home = none; is_windows = false })).policy {
    rules = record { subject = text "mcp"; allow = []; deny = text "*" ∷ [] } ∷ [];
  };
}

abbrev daemon : Service
daemon = new strict []

mcp-IsPowerless : IsPowerless daemon (text "mcp")
unfolding new default evaluate eq_text
mcp-IsPowerless capability e = elim (Bool-cases (mem_text capability always_deny)) [
  | inl reserved ↦ absurd (ground (arith, e))
  | inr open' ↦ absurd (ground (arith, e))
]

call_powerless_example :
    IsGated world daemon execute_tool ((text "session", string (text "s")) ∷ [])
call_powerless_example =
    call_powerless world daemon execute_tool ((text "session", string (text "s")) ∷ [])
      mcp-IsPowerless

handle_powerless_example :
    (handle world session_create daemon (record zero_params { owner = text "mcp" })).0 ≡ daemon
handle_powerless_example =
    handle_powerless world session_create daemon (record zero_params { owner = text "mcp" })
      (λ e. absurd (ground arith)) (λ e. absurd (ground arith)) mcp-IsPowerless
