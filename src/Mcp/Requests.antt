-- ===== src/Mcp/Requests.antt =====
-- internal/mcp/server.go, ServeIO: the loop over the requests of the standard input. Decoding is an argument, and
-- so is the RPC client over a state of the daemon; the order in which the range visits the table is one too.
use agent_runtime_harness.Prelude.{
  ℕ, Text, text, eq_text, Option, none, some, ◌||◌, List, [], ◌∷◌, lookup, if◌then◌else◌, ◌⊎◌, inl,
  inr,
}
use mathlib.Core.List.{reverse}
use agent_runtime_harness.Versions.{text_ltb}
use agent_runtime_harness.Mcp.{Arguments, call_timeout_for}
use agent_runtime_harness.Mcp.Table.{ToolCall, tool_names, call}

pub record Request : Type 0 where
  pub id : Option Text
  pub method : Text
  pub params : Text

pub data Answer : Type 0 where
  server_info : Answer
  pong : Answer
  tools : List Text → Answer
  bad_call : Answer
  unknown_tool : Text → Answer
  tool_error : Text → Answer
  tool_result : Text → Answer
  unknown_method : Text → Answer

-- A response; a nil id is encoded as null.
pub record Response : Type 0 where
  pub id : Option Text
  pub answer : Answer

-- The inner loop of the sort by name: an element moves left past the larger ones.
unfoldable sink_name : Text → List Text → List Text
unfolding text_ltb
sink_name n [] = n ∷ []
sink_name n (x ∷ left) =
    let rest = x ∷ sink_name n left in if text_ltb n x then rest else n ∷ x ∷ left

unfoldable pub sort_names : List Text → List Text → List Text
unfolding sink_name
sort_names left [] = reverse left
sort_names left (n ∷ ns) = sort_names (sink_name n left) ns

module _ {S : Type 0} (decode_call : Text → Option (Text × Arguments)) (order : List Text)
    (client : S → ToolCall → ℕ → S × (Text ⊎ Text)) where
  -- The answer to what the client returned: an error is a result of the tool.
  unfoldable answer_of : Text ⊎ Text → Answer
  answer_of (inl e) = tool_error e
  answer_of (inr raw) = tool_result raw

  -- The case "tools/call".
  unfoldable serve_call : S → Option Text → Text → S × Response
  unfolding lookup call call_timeout_for answer_of
  serve_call s id params = elim (decode_call params) [
    | none ↦ (s, record { id = id; answer = bad_call })
    | some (name, args) ↦ elim (lookup name tool_names) [
      | none ↦ (s, record { id = id; answer = unknown_tool name })
      | some t ↦
          let r = client s (call t args) (call_timeout_for name) in
          (r.0, record { id = id; answer = answer_of r.1 })
    ]
  ]

  -- The default case.
  unfoldable refuse_method : Option Text → Text → List Response
  refuse_method none name = []
  refuse_method (some id) name = record { id = some id; answer = unknown_method name } ∷ []

  -- The switch of the loop.
  unfoldable serve : S → Request → S × List Response
  unfolding eq_text sort_names serve_call refuse_method
  serve s r =
      let called = serve_call s r.id r.params in
      if eq_text r.method (text "initialize")
      then (s, record { id = r.id; answer = server_info } ∷ [])
      else if eq_text r.method (text "notifications/initialized")
          || eq_text r.method (text "initialized")
      then (s, [])
      else if eq_text r.method (text "ping")
      then (s, record { id = r.id; answer = pong } ∷ [])
      else if eq_text r.method (text "tools/list")
      then (s, record { id = r.id; answer = tools (sort_names [] order) } ∷ [])
      else if eq_text r.method (text "tools/call")
      then (called.0, called.1 ∷ [])
      else (s, refuse_method r.id r.method)

  -- ServeIO until the input ends.
  unfoldable pub serve_io : S → List Request → S × List (List Response)
  unfolding serve
  serve_io s [] = (s, [])
  serve_io s (r ∷ rs) = let d = serve s r in let rest = serve_io d.0 rs in (rest.0, d.1 ∷ rest.1)
