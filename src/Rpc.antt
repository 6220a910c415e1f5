-- ===== src/Rpc.antt =====
-- internal/rpc/rpc.go: the loop of ServeConn over the lines of a connection, and dispatch. The JSON library is
-- an argument: what a line decodes to, and whether a result can be encoded. An error's message is left out.
pub mod Views
pub mod Register
pub mod Methods
pub mod Serving
pub mod Daemon
pub mod Gates
pub mod Nameless
pub mod Worlds
mod Examples
use agent_runtime_harness.Prelude.{
  ℕ, Text, text, eq_text, Option, none, some, Bool, true, false, List, [], ◌∷◌, Map, lookup,
  if◌then◌else◌, ◌⊎◌, inl, inr,
}
use agent_runtime_harness.Service.{trim_space}

-- Request, with the raw id and the raw parameters; a notification has no id.
pub record Request : Type 0 where
  pub id : Option Text
  pub method : Text
  pub params : Text

-- The standard codes, and the one of application errors.
pub data Code : Type 0 where
  parse_error invalid_request method_not_found bad_params internal_error app_error : Code

-- Response: the raw id, and a code or an encoded result.
pub record Response : Type 0 where
  pub id : Text
  pub body : Code ⊎ Text

-- What a handler returns: an error with a code, another error, or a value, which may be nil.
pub data Outcome (A : Type 0) : Type 0 where
  rpc_error : Code → Outcome A
  other_error : Outcome A
  value : A → Outcome A
  nothing : Outcome A

-- Mux: handlers over the state S, by method. What a handler finds in the world is an argument of each call.
abbrev pub Handler : Type 0 → Type 0 → Type 0 → Type 0
Handler W S A = W → S → Text → S × Outcome A

abbrev pub Mux : Type 0 → Type 0 → Type 0 → Type 0
Mux W S A = Map (Handler W S A)

-- A nil RawMessage is encoded as null.
unfoldable pub raw_id : Option Text → Text
raw_id none = text "null"
raw_id (some id) = id

module _ {W S A : Type 0} (decode : Text → Option Request) (encode : A → Option Text)
    (mux : Mux W S A) where
  -- dispatch
  unfoldable pub dispatch : W → S → Text → Text → S × Outcome A
  unfolding lookup
  dispatch w s m params = elim (lookup m mux) [
    | none ↦ (s, rpc_error method_not_found)
    | some h ↦ h w s params
  ]

  -- The body of the response to a result.
  unfoldable body_of : Outcome A → Code ⊎ Text
  body_of (rpc_error c) = inl c
  body_of other_error = inl internal_error
  body_of (value a) = elim (encode a) [ none ↦ inl internal_error | some raw ↦ inr raw ]
  body_of nothing = inr (text "null")

  -- The response to a request that was dispatched, unless it is a notification.
  unfoldable pub reply : Option Text → Outcome A → List Response
  unfolding body_of
  reply none o = []
  reply (some id) o = record { id = id; body = body_of o } ∷ []

  -- One request of the loop.
  unfoldable pub serve_request : W → S → Request → S × List Response
  unfolding eq_text raw_id dispatch reply
  serve_request w s r =
      if eq_text r.method []
      then (s, record { id = raw_id r.id; body = inl invalid_request } ∷ [])
      else (let d = dispatch w s r.method r.params in (d.0, reply r.id d.1))

  -- One line of the loop, trimmed; an empty one is skipped.
  unfoldable pub serve_line : W → S → Text → S × List Response
  unfolding trim_space eq_text serve_request
  serve_line w s line =
      if eq_text (trim_space line) [] then (s, []) else elim (decode (trim_space line)) [
        | none ↦ (s, record { id = text "null"; body = inl parse_error } ∷ [])
        | some r ↦ serve_request w s r
      ]

  -- ServeConn until the connection ends, with the responses in the order in which they are written. Each line
  -- comes with the world at its time.
  unfoldable pub serve_conn : S → List (W × Text) → S × List (List Response)
  unfolding serve_line
  serve_conn s [] = (s, [])
  serve_conn s ((w, line) ∷ lines) =
      let d = serve_line w s line in let rest = serve_conn d.0 lines in (rest.0, d.1 ∷ rest.1)
