-- ===== src/Service/Execution.antt =====
-- internal/daemon/service.go: Execute up to the launch of the run. The adapters'
-- Prepare and Launch are arguments by their results; the regular expression of ParseRequirement is one too.
use agent_runtime_harness.Prelude.{
  ℕ, Text, text, eq_text, Option, none, some, Bool, not, List, [], ◌∷◌, Map, lookup, insert,
  if◌then◌else◌, mem_text, ◌⊎◌, inl, inr,
}
use agent_runtime_harness.Model.{Session, is_terminal, Tool, Run, RunStatus}
use agent_runtime_harness.Policy.{DenyError, evaluate}
use agent_runtime_harness.Env.{build, redact, cut_at_equals}
use agent_runtime_harness.Versions.{Requirement}
use agent_runtime_harness.Registry.{resolved, no_candidate, unsatisfied, resolve}
use agent_runtime_harness.Sessions.{mark_running}
use agent_runtime_harness.Runs
use agent_runtime_harness.Service.{Service, get_session}
use agent_runtime_harness.Service.Work.{get_tool}

pub record ExecuteOptions : Type 0 where
  pub owner : Text
  pub session_id : Text
  pub tool_id : Text
  pub requirement : Text
  pub command : Text

-- What Execute finds before the run is launched.
pub record Scene : Type 0 where
  pub now : ℕ
  pub parse : Text → Option Requirement
  pub join : Text → Text → Text
  pub is_unix : Bool
  pub environ : List Text
  pub dir_ok : Bool
  -- The error of Prepare, if it fails, and the milliseconds that it took.
  pub prepare_error : Option Text
  pub prepare_duration : ℕ

pub data ToolError : Type 0 where
  unknown_tool : ToolError
  bad_requirement : ToolError
  not_resolved : ToolError
  nothing_asked : ToolError

-- ResolveRequirement
unfoldable pub resolve_requirement : (Text → Option Requirement) → Service → Text → ToolError ⊎ Tool
unfolding resolve
resolve_requirement parse s raw = elim (parse raw) [
  | none ↦ inl bad_requirement
  | some req ↦ elim (resolve s.tools req) [
    | resolved t ↦ inr t
    | no_candidate ↦ inl not_resolved
    | unsatisfied ↦ inl not_resolved
  ]
]

-- The choice of the tool at the head of Execute.
unfoldable pub choose_tool :
    (Text → Option Requirement) → Service → ExecuteOptions → ToolError ⊎ Tool
unfolding get_tool resolve_requirement eq_text
choose_tool parse s o =
    if not (eq_text o.tool_id [])
    then (elim (get_tool s o.tool_id) [ none ↦ inl unknown_tool | some t ↦ inr t ])
    else if not (eq_text o.requirement [])
    then resolve_requirement parse s o.requirement
    else inl nothing_asked

-- The keys of s.adapters.
unfoldable pub has_adapter : Text → Bool
unfolding mem_text
has_adapter kind = mem_text kind (text "command" ∷ text "unity" ∷ text "android" ∷ [])

-- envPairs: an entry without "=", or with nothing before it, is left out.
unfoldable pub env_pairs : List Text → Map Text → Map Text
unfolding cut_at_equals insert eq_text
env_pairs [] m = m
env_pairs (kv ∷ rest) m =
    env_pairs rest (elim (cut_at_equals kv) [
      | none ↦ m
      | some (k, v) ↦ if eq_text k [] then m else insert k v m
    ])

pub data ExecuteResult : Type 0 where
  denied : DenyError → ExecuteResult
  unknown_session : ExecuteResult
  session_ended : Text → ExecuteResult
  no_tool : ToolError → ExecuteResult
  disabled : Text → ExecuteResult
  no_adapter : Text → ExecuteResult
  no_env_spec : ExecuteResult
  no_run_dir : ExecuteResult
  not_prepared : Text → Text → ExecuteResult
  launching : Text → ExecuteResult

-- The answer of NewRun, and what Execute does with it: the environment of the record, Prepare, MarkRunning.
unfoldable pub after_new_run :
    Service → Session → List Text → Scene → Runs.Manager × Option Run → Service × ExecuteResult
unfolding Runs.update Runs.finish redact env_pairs mark_running
after_new_run s u environment w (m, none) = (record s { runs = m }, no_run_dir)
after_new_run s u environment w (m, some r) =
    let m' =
      Runs.update m r.id (λ q. record q { env = redact s.env_config (env_pairs environment []) }) in
    elim w.prepare_error [
      | some e ↦ (
        record s { runs = Runs.finish m' r.id RunStatus.error none e w.now w.prepare_duration },
        not_prepared r.id e,
      )
      | none ↦
          (record s { runs = m'; sessions = mark_running s.sessions u.id w.now }, launching r.id)
    ]

-- Execute with its session and its tool.
unfoldable pub execute_tool :
    Service → ExecuteOptions → Scene → Session → Tool → Service × ExecuteResult
unfolding has_adapter lookup build Runs.new_run after_new_run
execute_tool s o w u t =
    if t.disabled
    then (s, disabled t.id)
    else if not (has_adapter t.kind)
    then (s, no_adapter t.kind)
    else elim (lookup u.id s.env_specs) [
      | none ↦ (s, no_env_spec)
      | some spec ↦
          after_new_run s u (build w.join w.is_unix s.env_config w.environ (some spec)) w
            (Runs.new_run s.runs u.id t.id t.kind o.command w.now w.dir_ok)
    ]

-- An error of the resolution ends Execute.
unfoldable pub execute_choice :
    Service → ExecuteOptions → Scene → Session → ToolError ⊎ Tool → Service × ExecuteResult
unfolding execute_tool
execute_choice s o w u (inl e) = (s, no_tool e)
execute_choice s o w u (inr t) = execute_tool s o w u t

-- Execute, up to the launch by the adapter.
unfoldable pub execute : Service → ExecuteOptions → Scene → Service × ExecuteResult
unfolding evaluate get_session is_terminal choose_tool execute_choice
execute s o w = elim (evaluate s.rules o.owner (text "tool.execute")) [
  | some d ↦ (s, denied d)
  | none ↦ elim (get_session s o.session_id) [
    | none ↦ (s, unknown_session)
    | some u ↦
        if is_terminal u.state
        then (s, session_ended u.id)
        else execute_choice s o w u (choose_tool w.parse s o)
  ]
]
