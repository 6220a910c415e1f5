-- ===== src/Mcp.antt =====
-- internal/mcp/server.go: the arguments of a tool call, the table of tools, and the loop of ServeIO. An argument
-- is a value that the JSON library decoded; the daemon behind the RPC client is an argument. Descriptions and
-- schemas of the tools are left out. A number is a float64 whose value is a natural number.
pub mod Table
pub mod Requests
pub mod Gates
mod Examples
use agent_runtime_harness.Prelude.{
  ℕ, ◌==◌, Text, text, eq_text, Option, none, some, Bool, true, false, not, ◌||◌, List, [], ◌∷◌,
  Map, lookup, if◌then◌else◌,
}

pub data Value : Type 0 where
  boolean : Bool → Value
  number : ℕ → Value
  string : Text → Value
  -- null, a list or an object, by its text
  other : Text → Value

-- map[string]any
abbrev pub Arguments : Type 0
Arguments = Map Value

-- boolArg
unfoldable bool_of : Value → Bool
unfolding eq_text
bool_of (boolean b) = b
bool_of (string s) = eq_text s (text "true") || eq_text s (text "1")
bool_of (number n) = not (n == 0)
bool_of (other s) = false

unfoldable pub bool_arg : Arguments → Text → Bool
unfolding lookup bool_of
bool_arg a k = elim (lookup k a) [ none ↦ false | some v ↦ bool_of v ]

-- strArg
unfoldable string_of : Value → Text
string_of (string s) = s
string_of _ = []

unfoldable pub str_arg : Arguments → Text → Text
unfolding lookup string_of
str_arg a k = elim (lookup k a) [ none ↦ [] | some v ↦ string_of v ]

-- intArg
unfoldable int_of : Value → ℕ
int_of (number n) = n
int_of _ = 0

unfoldable pub int_arg : Arguments → Text → ℕ
unfolding lookup int_of
int_arg a k = elim (lookup k a) [ none ↦ 0 | some v ↦ int_of v ]

-- callTimeoutFor, in minutes
unfoldable pub call_timeout_for : Text → ℕ
unfolding eq_text
call_timeout_for name =
    if eq_text name (text "runtime_execute_tool")
      || eq_text name (text "unity_run_tests")
      || eq_text name (text "unity_build")
    then 360
    else if eq_text name (text "runtime_acquire_resource")
    then 10
    else 2
