-- ===== src/Rpc/Nameless.antt =====
-- internal/rpc/methods.go: run.execute without a session.
use agent_runtime_harness.Prelude.{◌≡◌, refl, sym, ap, subst, Text, text, none, [], lookup}
use agent_runtime_harness.Policy.{evaluate}
use agent_runtime_harness.Sessions.Lookups.{get_by_name_empty}
use agent_runtime_harness.Service.{Service, get_session}
use agent_runtime_harness.Service.Execution.{ExecuteOptions, Scene, unknown_session, execute}
use agent_runtime_harness.Rpc.{rpc_error, app_error}
use agent_runtime_harness.Rpc.Methods.{Params, World, execute_options, run_reply}
use agent_runtime_harness.Rpc.Register.{run_execute, handle}

get_session_nameless :
    (s : Service) (key : Text)
    → key ≡ []
    → lookup [] s.sessions.sessions ≡ none
    → get_session s key ≡ none
unfolding get_session
get_session_nameless s key nameless unnamed =
    subst (λ k. get_session s k ≡ none) (sym nameless)
      (rw (unnamed, get_session) (get_by_name_empty s.sessions.sessions))

execute_unknown :
    (s : Service) (o : ExecuteOptions) (w : Scene)
    → evaluate s.rules o.owner (text "tool.execute") ≡ none
    → get_session s o.session_id ≡ none
    → execute s o w ≡ (s, unknown_session)
unfolding execute
execute_unknown s o w allowed unknown = rw (allowed, execute, unknown) refl

-- A run.execute without a session is refused and changes nothing, if the policy allows the caller to execute
-- tools, and no session has the empty id.
run_execute_nameless :
    (w : World) (s : Service) (p : Params)
    → p.session_id ≡ []
    → evaluate s.rules p.owner (text "tool.execute") ≡ none
    → lookup [] s.sessions.sessions ≡ none
    → handle w run_execute s p ≡ (s, rpc_error app_error)
unfolding handle execute_options run_reply
run_execute_nameless w s p nameless allowed unnamed =
    ap (λ r. (r.0, run_reply w.rfc3339 p.wait r))
      (execute_unknown s (execute_options p) w.scene allowed
        (get_session_nameless s p.session_id nameless unnamed))
