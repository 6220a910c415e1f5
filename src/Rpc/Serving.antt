-- ===== src/Rpc/Serving.antt =====
-- What ServeConn of internal/rpc/rpc.go answers, and what it does to the daemon.
use agent_runtime_harness.Prelude.{
  ◌≡◌, ◌≢◌, Text, text, eq_text, eq_text_iff, Option, none, some, List, [], ◌∷◌, lookup, inl, inr,
  arith, ◌⊎◌, Option-cases, Bool-cases, false,
}
use agent_runtime_harness.Service.{trim_space}
use agent_runtime_harness.Rpc.{
  Request, Response, Code, parse_error, invalid_request, method_not_found, internal_error, Outcome,
  rpc_error, other_error, value, nothing, Handler, Mux, raw_id, dispatch, body_of, reply,
  serve_request, serve_line, serve_conn,
}

-- The bodies of the responses to an outcome.
pub data IsBody {A : Type 0} (encode : A → Option Text) : Outcome A → Code ⊎ Text → Type 0 where
  refused : (c : Code) → IsBody encode (rpc_error c) (inl c)
  failed : IsBody encode other_error (inl internal_error)
  encoded : (a : A) (raw : Text) → encode a ≡ some raw → IsBody encode (value a) (inr raw)
  lost : (a : A) → encode a ≡ none → IsBody encode (value a) (inl internal_error)
  empty : IsBody encode nothing (inr (text "null"))

-- One response to a request with an id, and none to a notification.
pub data IsReply : Option Text → Code ⊎ Text → List Response → Type 0 where
  silent : (body : Code ⊎ Text) → IsReply none body []
  answered :
      (id : Text) (body : Code ⊎ Text)
      → IsReply (some id) body (record { id = id; body = body } ∷ [])

module _ {W S A : Type 0} (decode : Text → Option Request) (encode : A → Option Text)
    (mux : Mux W S A) where
  -- The state and the responses after a line, by what the line is.
  pub data IsServed (w : W) (s : S) (line : Text) : S × List Response → Type 0 where
    -- An empty line.
    blank_line : trim_space line ≡ [] → IsServed w s line (s, [])
    -- A line that is no request.
    no_request :
        trim_space line ≢ []
        → decode (trim_space line) ≡ none
        → IsServed w s line (s, record { id = text "null"; body = inl parse_error } ∷ [])
    -- A request without a method, which is answered even if it has no id.
    no_method :
        (r : Request)
        → trim_space line ≢ []
        → decode (trim_space line) ≡ some r
        → r.method ≡ []
        → IsServed w s line (s, record { id = raw_id r.id; body = inl invalid_request } ∷ [])
    -- A method that is not registered.
    unknown_method :
        (r : Request) (rs : List Response)
        → trim_space line ≢ []
        → decode (trim_space line) ≡ some r
        → r.method ≢ []
        → lookup r.method mux ≡ none
        → IsReply r.id (inl method_not_found) rs
        → IsServed w s line (s, rs)
    -- A registered method: its handler runs once, and its outcome is the body.
    handled_by :
        (r : Request) (h : Handler W S A) (body : Code ⊎ Text) (rs : List Response)
        → trim_space line ≢ []
        → decode (trim_space line) ≡ some r
        → r.method ≢ []
        → lookup r.method mux ≡ some h
        → IsBody encode (h w s r.params).1 body
        → IsReply r.id body rs
        → IsServed w s line ((h w s r.params).0, rs)

  -- The lines of a connection in their order.
  pub data AreServed : S → List (W × Text) → S × List (List Response) → Type 0 where
    done : (s : S) → AreServed s [] (s, [])
    next :
        (w : W) (s s' n : S) (line : Text) (lines : List (W × Text)) (rs : List Response)
        (rss : List (List Response))
        → IsServed w s line (s', rs)
        → AreServed s' lines (n, rss)
        → AreServed s ((w, line) ∷ lines) (n, rs ∷ rss)

  body_of-IsBody : (o : Outcome A) → IsBody encode o (body_of decode encode mux o)
  unfolding body_of
  body_of-IsBody (rpc_error c) = refused c
  body_of-IsBody other_error = failed
  body_of-IsBody nothing = empty
  body_of-IsBody (value a) = elim (Option-cases (encode a)) [
    | inl missing ↦ rw (missing, body_of) (lost a missing)
    | inr (raw, found) ↦ rw (found, body_of) (encoded a raw found)
  ]

  reply-IsReply :
      (id : Option Text) (o : Outcome A)
      → IsReply id (body_of decode encode mux o) (reply decode encode mux id o)
  unfolding reply
  reply-IsReply none o = silent (body_of decode encode mux o)
  reply-IsReply (some id) o = answered id (body_of decode encode mux o)

  serve_line-IsServed :
      (w : W) (s : S) (line : Text) → IsServed w s line (serve_line decode encode mux w s line)
  unfolding serve_line serve_request dispatch
  serve_line-IsServed w s line = elim (Bool-cases (eq_text (trim_space line) [])) [
    | inl bare ↦ rw (bare, serve_line) (blank_line ((eq_text_iff (trim_space line) []).0 bare))
    | inr full ↦ elim (Option-cases (decode (trim_space line))) [
      | inl bad ↦ rw (full, serve_line, bad) (no_request (is_full full) bad)
      | inr (r, good) ↦ elim (Bool-cases (eq_text r.method [])) [
        | inl unnamed ↦
            rw (full, serve_line, good, unnamed)
              (no_method r (is_full full) good ((eq_text_iff r.method []).0 unnamed))
        | inr named ↦ elim (Option-cases (lookup r.method mux)) [
          | inl strange ↦
              rw (full, serve_line, good, named, dispatch, strange)
                (unknown_method r _ (is_full full) good (has_method r named) strange
                  (reply-IsReply r.id (rpc_error method_not_found)))
          | inr (h, known) ↦
              rw (full, serve_line, good, named, dispatch, known)
                (handled_by r h _ _ (is_full full) good (has_method r named) known
                  (body_of-IsBody (h w s r.params).1) (reply-IsReply r.id (h w s r.params).1))
        ]
      ]
    ]
  ]
    where
      is_full : eq_text (trim_space line) [] ≡ false → trim_space line ≢ []
      is_full e same = absurd (ground (arith, eq_text_iff (trim_space line) []))

      has_method : (r : Request) → eq_text r.method [] ≡ false → r.method ≢ []
      has_method r e same = absurd (ground (arith, eq_text_iff r.method []))

  -- ServeConn serves the lines of a connection one after the other: an empty line has no response and no
  -- effect; a line that is no request, a request without a method and an unknown method have no effect and the
  -- response with their code; for a registered method the handler runs once, with or without an id, and the
  -- request with an id is answered under it with the encoded value or the code of the outcome.
  pub serve_conn-AreServed :
      (s : S) (lines : List (W × Text)) → AreServed s lines (serve_conn decode encode mux s lines)
  unfolding serve_conn
  serve_conn-AreServed s [] = done s
  serve_conn-AreServed s ((w, line) ∷ lines) =
      next w s (serve_line decode encode mux w s line).0 _ line lines _ _
        (serve_line-IsServed w s line)
        (serve_conn-AreServed (serve_line decode encode mux w s line).0 lines)

  -- What every handler keeps, a connection keeps.
  module _ {ℓ} (P : S → Type ℓ)
      (keeps : (m : Text) (h : Handler W S A) (w : W) (s : S) (params : Text)
        → lookup m mux ≡ some h
        → P s
        → P (h w s params).0) where
    dispatch-keeps :
        (w : W) (s : S) (m params : Text) → P s → P (dispatch decode encode mux w s m params).0
    unfolding dispatch
    dispatch-keeps w s m params p = elim (Option-cases (lookup m mux)) [
      | inl unknown ↦ rw (unknown, dispatch) p
      | inr (h, found) ↦ rw (found, dispatch) (keeps m h w s params found p)
    ]

    serve_line-keeps :
        (w : W) (s : S) (line : Text) → P s → P (serve_line decode encode mux w s line).0
    unfolding serve_line serve_request
    serve_line-keeps w s line p = elim (Bool-cases (eq_text (trim_space line) [])) [
      | inl blank ↦ rw (blank, serve_line) p
      | inr full ↦ elim (Option-cases (decode (trim_space line))) [
        | inl bad ↦ rw (full, serve_line, bad) p
        | inr (r, good) ↦ elim (Bool-cases (eq_text r.method [])) [
          | inl bare ↦ rw (full, serve_line, good, bare) p
          | inr named ↦ rw (full, serve_line, good, named) (dispatch-keeps w s r.method r.params p)
        ]
      ]
    ]

    pub serve_conn-keeps :
        (s : S) (lines : List (W × Text)) → P s → P (serve_conn decode encode mux s lines).0
    unfolding serve_conn
    serve_conn-keeps s [] p = p
    serve_conn-keeps s ((w, line) ∷ lines) p =
        serve_conn-keeps (serve_line decode encode mux w s line).0 lines
          (serve_line-keeps w s line p)
