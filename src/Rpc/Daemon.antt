-- ===== src/Rpc/Daemon.antt =====
-- A connection of internal/rpc/rpc.go over the methods of internal/rpc/methods.go and the daemon.
use agent_runtime_harness.Prelude.{
  ℕ, ◌≡◌, subst, Text, text, eq_text, Option, some, List, [], ◌∷◌, Map, lookup, inl, inr, arith,
  Bool-cases, ◌||◌, ◌*◌, ◌<◌,
}
use agent_runtime_harness.Service.{Service}
use agent_runtime_harness.Service.Composition.{IsValid}
use agent_runtime_harness.Service.Calls.{
  step, creates_session, terminates, acquires, releases, allocates, creates_workspace,
  removes_workspace, detects, executes,
}
use agent_runtime_harness.Service.Adapters.{step-IsValid}
use agent_runtime_harness.Rpc.{Request, Handler, serve_conn}
use agent_runtime_harness.Rpc.Methods.{
  Params, World, Reply, or_default, seconds, create_options, workspace_options, execute_options,
}
use agent_runtime_harness.Rpc.Register.{
  session_create, session_get, session_list, session_terminate, session_procs, tool_list,
  tool_inspect, tool_resolve, resource_list, lease_acquire, lease_release, lease_list,
  port_allocate, port_list, workspace_create, workspace_list, workspace_remove, run_execute,
  run_list, run_get, run_log, run_artifacts, Method, handle, is_lenient, handler, register, names,
  Unmarshal,
}
use agent_runtime_harness.Rpc.Serving.{serve_conn-keeps}

handle-IsValid :
    (w : World) (m : Method) (s : Service) (p : Params) → IsValid s → IsValid (handle w m s p).0
unfolding handle step
handle-IsValid w session_create s p v =
    step-IsValid s (creates_session (create_options p) w.birth) v
handle-IsValid w session_get s p v = v
handle-IsValid w session_list s p v = v
handle-IsValid w session_terminate s p v =
    step-IsValid s (terminates p.id (or_default p.reason (text "api request")) w.ending) v
handle-IsValid w session_procs s p v = v
handle-IsValid w tool_list s p v = step-IsValid s (detects w.detected) v
handle-IsValid w tool_inspect s p v = v
handle-IsValid w tool_resolve s p v = v
handle-IsValid w resource_list s p v = v
handle-IsValid w lease_acquire s p v =
    step-IsValid s
      (acquires p.owner p.session_id p.resource_id (seconds p.ttl_seconds) w.now w.ensure_ok
        w.save_ok)
      v
handle-IsValid w lease_release s p v =
    step-IsValid s (releases p.owner p.session_id p.lease_id w.now w.save_ok) v
handle-IsValid w lease_list s p v = v
handle-IsValid w port_allocate s p v =
    step-IsValid s
      (allocates p.owner p.session_id (or_default p.protocol (text "tcp")) p.name w.ask) v
handle-IsValid w port_list s p v = v
handle-IsValid w workspace_create s p v =
    step-IsValid s (creates_workspace p.owner (workspace_options p) w.workspaces) v
handle-IsValid w workspace_list s p v = v
handle-IsValid w workspace_remove s p v =
    step-IsValid s (removes_workspace p.owner p.name w.save_ok) v
handle-IsValid w run_execute s p v = step-IsValid s (executes (execute_options p) w.scene) v
handle-IsValid w run_list s p v = v
handle-IsValid w run_get s p v = v
handle-IsValid w run_log s p v = v
handle-IsValid w run_artifacts s p v = v

module _ (unmarshal : Unmarshal) where
  handler-IsValid :
      (m : Method) (w : World) (s : Service) (raw : Text)
      → IsValid s
      → IsValid (handler unmarshal m w s raw).0
  unfolding handler
  handler-IsValid m w s raw v = elim (Bool-cases ((unmarshal m raw).1 || is_lenient m)) [
    | inl goes ↦ rw (goes, handler) (handle-IsValid w m s (unmarshal m raw).0 v)
    | inr bad ↦ rw (bad, handler) v
  ]

  registered :
      (ms : Map Method) (name : Text) (h : Handler World Service Reply)
      → lookup name (register unmarshal ms) ≡ some h
      → (m : Method) × (handler unmarshal m ≡ h)
  unfolding register lookup
  registered [] name h = λ e. absurd (ground arith)
  registered ((k, m) ∷ ms) name h = elim (Bool-cases (eq_text k name)) [
    | inl here ↦ rw (here, register, lookup) (λ e. (m, ground (arith, e)))
    | inr there ↦ rw (there, register, lookup) (registered ms name h)
  ]

-- Whatever a client sends, whatever the JSON library makes of it, and whatever each call finds of the clock,
-- the files and the system, a connection to the methods of Register keeps every manager of the daemon valid,
-- if they are valid when it begins.
pub serve_conn-IsValid :
    (decode : Text → Option Request) (encode : Reply → Option Text) (unmarshal : Unmarshal)
    (s : Service) (lines : List (World × Text))
    → IsValid s
    → IsValid (serve_conn decode encode (register unmarshal names) s lines).0
serve_conn-IsValid decode encode unmarshal s lines v =
    serve_conn-keeps decode encode (register unmarshal names) IsValid keeps s lines v
  where
    keeps :
        (m : Text) (h : Handler World Service Reply) (w : World) (t : Service) (params : Text)
        → lookup m (register unmarshal names) ≡ some h
        → IsValid t
        → IsValid (h w t params).0
    keeps m h w t params e vt =
        let (x, same) = registered unmarshal names m h e in
        subst (λ g. IsValid (g w t params).0) same (handler-IsValid unmarshal x w t params vt)

-- The seconds of a ttl become nanoseconds without overflow up to 9,223,372,036 of them.
seconds_exact : (n : ℕ) → n < 9_223_372_037 → seconds n ≡ n * 1_000_000_000
unfolding seconds
seconds_exact n lt = ground arith
