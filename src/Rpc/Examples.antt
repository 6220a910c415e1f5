-- ===== src/Rpc/Examples.antt =====
-- A connection of internal/rpc/rpc.go to a daemon that has just started.
use agent_runtime_harness.Prelude.{
  ◌*◌, ◌≡◌, refl, Text, text, eq_text, Option, none, some, true, false, List, [], ◌∷◌, map,
  if◌then◌else◌,
}
use agent_runtime_harness.Config.{default}
use agent_runtime_harness.Service.{Service}
use agent_runtime_harness.Service.Startup.{new, new_service-IsValid}
use agent_runtime_harness.Service.Composition.{IsValid}
use agent_runtime_harness.Rpc.{Request, serve_conn}
use agent_runtime_harness.Rpc.Methods.{World, Reply, seconds}
use agent_runtime_harness.Rpc.Register.{Unmarshal, register, names}
use agent_runtime_harness.Rpc.Worlds.{world, zero_params}
use agent_runtime_harness.Rpc.Serving.{AreServed, serve_conn-AreServed}
use agent_runtime_harness.Rpc.Daemon.{serve_conn-IsValid}

abbrev unmarshal : Unmarshal
unmarshal m raw = (zero_params, true)

-- A stand-in for the JSON library: a letter for each request.
abbrev decode : Text → Option Request
decode s =
    if eq_text s (text "c")
    then some (record { id = some (text "1"); method = text "session.create"; params = [] })
    else if eq_text s (text "n")
    then some (record { id = none; method = text "session.list"; params = [] })
    else if eq_text s (text "u")
    then some (record { id = some (text "2"); method = text "shell"; params = [] })
    else none

abbrev encode : Reply → Option Text
encode r = some (text "{}")

abbrev daemon : Service
daemon = new (default (record { home = none; is_windows = false })) []

-- An hour after the daemon's start.
abbrev later : World
later = record world { now = 3_600_000_000_004 }

abbrev lines : List (World × Text)
lines =
    (world, text "c")
    ∷ (world, text "  ")
    ∷ (later, text "n")
    ∷ (later, text "u")
    ∷ (later, text "?")
    ∷ []

serve_conn-IsValid_example :
    IsValid (serve_conn decode encode (register unmarshal names) daemon lines).0
serve_conn-IsValid_example =
    serve_conn-IsValid decode encode unmarshal daemon lines
      (new_service-IsValid (default (record { home = none; is_windows = false })) [])

serve_conn-AreServed_example :
    AreServed decode encode
      (register unmarshal names)
      daemon
      lines
      (serve_conn decode encode (register unmarshal names) daemon lines)
serve_conn-AreServed_example =
    serve_conn-AreServed decode encode (register unmarshal names) daemon lines

ids :
    map (map (λ r. r.id)) (serve_conn decode encode (register unmarshal names) daemon lines).1
    ≡ (text "1" ∷ []) ∷ [] ∷ [] ∷ (text "2" ∷ []) ∷ (text "null" ∷ []) ∷ []
unfolding serve_conn register eq_text
ids = refl

an_hour : seconds 3600 ≡ 3600 * 1_000_000_000
unfolding seconds
an_hour = refl

-- One second more than the bound wraps to a negative time, which means no expiry.
seconds_wrap : seconds 9_223_372_037 ≡ 0
unfolding seconds
seconds_wrap = refl
