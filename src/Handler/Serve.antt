-- ===== src/Handler/Serve.antt =====
-- Handler.ServeHTTP of internal/protocol/openai/handler.go and serveRealtimeWebSocket of realtime.go.
use text.Mathlib.Text.{starts_with}
use kokekokkor.Common.{
  String, ℕ, Bool, true, false, not, ◌&&◌, Option, none, some, List, [], ◌∷◌, Result, ok, err,
  or_else, ◌==◌, string_eq, if◌then◌else◌,
}
use kokekokkor.Provider.{
  Target, protocol_open_ai, protocol_anthropic, protocol_gemini, effective_protocol,
}
use kokekokkor.Routing.{Attempt, Plan, RouteError, no_route, Table, resolve}
use kokekokkor.Handler.{
  Fault, external, route, unsupported_protocol, translator_missing, body_too_large, all_failed,
  Write, stored, HttpRequest, Attempted, answered, failed, write_error, as_received, with_body,
  with_query_model, Translator, Forward, serve_anthropic_attempt, serve_gemini_attempt,
}

-- A manager's answer: an error, or status, payload and whether it handled the call.
abbrev pub Managed : Type 0
Managed = Result String (ℕ × String × Bool)

-- `ServeOpenAIRealtimeToGemini` upgrades the connection or returns an error.
abbrev pub Bridge : Type 0 → Type 0
Bridge W = Target → String → String → W → Result String Write × W

pub record Handler (W : Type 0) : Type 0 where
  pub router : Table
  pub forwarder : Forward W
  pub translator : Option (Translator W)
  pub realtime_translator : Option (Bridge W)
  pub stored_responses : Option (String → String → W → Managed × W)
  pub conversations : Option (String → String → String → W → Managed × W)

abbrev is_last : List Attempt → Bool
is_last [] = true
is_last (_ ∷ _) = false

-- What comes after a failed attempt: the last error that is known.
abbrev pub fault_after : Option Fault → Option Fault → Option Fault
fault_after new old = or_else new old

abbrev final_fault : Option Fault → Fault
final_fault none = all_failed
final_fault (some fault) = fault

abbrev pub finish_forward : {W : Type 0} → Result Fault Write × W → Attempted × W
finish_forward (err fault, w) = (failed fault, w)
finish_forward (ok write, w) = (answered write, w)

abbrev pub finish_realtime : {W : Type 0} → Result String Write × W → Attempted × W
finish_realtime (err e, w) = (failed (external e), w)
finish_realtime (ok write, w) = (answered write, w)

abbrev pub forward_body :
    {W : Type 0}
    → Forward W
    → HttpRequest
    → Attempt
    → Bool
    → W
    → Result String String
    → Attempted × W
forward_body forwarder request attempt allow w (err e) =
    (answered (write_error 400 "invalid_request" (external e)), w)
forward_body forwarder request attempt allow w (ok sent) =
    finish_forward (forwarder attempt.target (with_body request sent) allow w)

abbrev pub bridge_attempt :
    {W : Type 0} → Option (Bridge W) → HttpRequest → Attempt → W → Attempted × W
bridge_attempt none request attempt w = (failed translator_missing, w)
bridge_attempt (some bridge) request attempt w =
    finish_realtime (bridge attempt.target request.model attempt.model w)

-- What a manager's answer writes; `none` where it did not handle the call.
abbrev pub managed : Managed → Option (List Write)
managed (err e) = some (write_error 400 "invalid_request" (external e) ∷ [])
managed (ok (status, payload, handled)) =
    if handled then some (stored status payload ∷ []) else none

module _ {W : Type 0} (h : Handler W) (stream_flag : String → Result String Bool)
    (rewrite_model : String → String → Result String String) where
  abbrev body_for : HttpRequest → String → Attempt → Result String String
  body_for request body attempt =
      if attempt.model == request.model then ok body else rewrite_model body attempt.model

  -- The case of an OpenAI target; a body that cannot be rewritten ends the loop.
  unfoldable pub serve_open_ai_attempt : HttpRequest → String → Attempt → Bool → W → Attempted × W
  serve_open_ai_attempt request body attempt allow w =
      forward_body h.forwarder request attempt allow w (body_for request body attempt)

  unfoldable pub serve_attempt : HttpRequest → String → Attempt → Bool → W → Attempted × W
  unfolding serve_open_ai_attempt serve_anthropic_attempt serve_gemini_attempt effective_protocol
  serve_attempt request body attempt allow w =
      let protocol = effective_protocol attempt.target in
      if protocol == protocol_open_ai
      then serve_open_ai_attempt request body attempt allow w
      else if protocol == protocol_anthropic
      then serve_anthropic_attempt stream_flag h.translator request body attempt allow w
      else if protocol == protocol_gemini
      then serve_gemini_attempt stream_flag h.translator request body attempt allow w
      else (failed (unsupported_protocol attempt.target.protocol), w)

  -- The loop over the attempts, with `lastErr`.
  unfoldable pub serve_attempts :
      HttpRequest → String → Option Fault → List Attempt → W → List Write × W
  unfolding serve_attempt
  serve_attempts request body last [] w =
      (write_error 502 "upstream_error" (final_fault last) ∷ [], w)
  serve_attempts request body last (attempt ∷ attempts) w =
      let (tried, w₁) = serve_attempt request body attempt (not (is_last attempts)) w in
      let rest = serve_attempts request body (fault_after tried.fault last) attempts w₁ in
      if tried.done then (tried.written, w₁) else rest

  unfoldable pub realtime_attempt : HttpRequest → Attempt → Bool → W → Attempted × W
  unfolding effective_protocol
  realtime_attempt request attempt allow w =
      let protocol = effective_protocol attempt.target in
      if protocol == protocol_open_ai
      then finish_forward (
          h.forwarder attempt.target
            (if attempt.model == request.model
              then as_received request
              else with_query_model request attempt.model)
            allow w)
      else if protocol == protocol_gemini
      then bridge_attempt h.realtime_translator request attempt w
      else (failed (unsupported_protocol protocol), w)

  unfoldable pub serve_realtime_web_socket :
      HttpRequest → Option Fault → List Attempt → W → List Write × W
  unfolding realtime_attempt
  serve_realtime_web_socket request last [] w =
      (write_error 502 "upstream_error" (final_fault last) ∷ [], w)
  serve_realtime_web_socket request last (attempt ∷ attempts) w =
      let (tried, w₁) = realtime_attempt request attempt (not (is_last attempts)) w in
      let rest = serve_realtime_web_socket request (fault_after tried.fault last) attempts w₁ in
      if tried.done then (tried.written, w₁) else rest

  -- The one OpenAI target without an alias, which gets the request as it is.
  abbrev fast_path : HttpRequest → List Attempt → Option Attempt
  fast_path request [] = none
  fast_path request (attempt ∷ []) =
      if effective_protocol attempt.target == protocol_open_ai && attempt.model == request.model
      then some attempt
      else none
  fast_path request (_ ∷ _ ∷ _) = none

  abbrev pub finish_fast : Result Fault Write × W → List Write × W
  finish_fast (err fault, w) = (write_error 502 "upstream_error" fault ∷ [], w)
  finish_fast (ok write, w) = (write ∷ [], w)

  abbrev body_error : Fault → Write
  body_error body_too_large = write_error 413 "request_too_large" body_too_large
  body_error fault = write_error 400 "invalid_request" fault

  -- The fast path where there is one, then the body's error or the loop.
  abbrev pub serve_path :
      HttpRequest → List Attempt → Option Attempt → Result Fault String → W → List Write × W
  serve_path request attempts (some only) body w =
      finish_fast (h.forwarder only.target (as_received request) false w)
  serve_path request attempts none (err fault) w = (body_error fault ∷ [], w)
  serve_path request attempts none (ok body) w = serve_attempts request body none attempts w

  unfoldable pub serve_plan : HttpRequest → List Attempt → W → List Write × W
  unfolding serve_attempts serve_realtime_web_socket effective_protocol
  serve_plan request [] w = (write_error 503 "no_route" (route no_route) ∷ [], w)
  serve_plan request (attempt ∷ attempts) w =
      if request.realtime
      then serve_realtime_web_socket request none (attempt ∷ attempts) w
      else serve_path request (attempt ∷ attempts) (fast_path request (attempt ∷ attempts))
          request.body w

  abbrev route_error : RouteError → Write
  route_error no_route = write_error 503 "no_route" (route no_route)
  route_error e = write_error 502 "routing_error" (route e)

  abbrev pub serve_resolved : HttpRequest → Result RouteError Plan → W → List Write × W
  serve_resolved request (err e) w = (route_error e ∷ [], w)
  serve_resolved request (ok plan) w = serve_plan request plan.attempts w

  unfoldable pub serve_routed : HttpRequest → W → List Write × W
  unfolding serve_plan
  serve_routed request w =
      serve_resolved request
        (resolve h.router
          (record { protocol = protocol_open_ai; operation = request.path; model = request.model }))
        w

  -- What is left of a request whose body has been read.
  abbrev drained : HttpRequest → HttpRequest
  drained request = record request { model = request.query_model; body = ok "" }

  abbrev pub converse :
      Option (String → String → String → W → Managed × W)
      → HttpRequest
      → Result Fault String
      → W
      → Option (List Write) × HttpRequest × W
  converse none request body w = (none, request, w)
  converse (some manager) request (err fault) w =
      (some (write_error 400 "invalid_request" fault ∷ []), drained request, w)
  converse (some manager) request (ok body) w =
      let (answer, w₁) = manager request.method request.path body w in
      (managed answer, drained request, w₁)

  unfoldable pub serve_conversations : HttpRequest → W → Option (List Write) × HttpRequest × W
  serve_conversations request w =
      if starts_with request.path "/v1/conversations"
      then converse h.conversations request request.body w
      else (none, request, w)

  abbrev pub look_up :
      Option (String → String → W → Managed × W)
      → HttpRequest
      → W
      → Option (List Write) × HttpRequest × W
  look_up none request w = (none, request, w)
  look_up (some manager) request w =
      let (answer, w₁) = manager request.method request.path w in (managed answer, request, w₁)

  unfoldable pub serve_stored : HttpRequest → W → Option (List Write) × HttpRequest × W
  serve_stored request w =
      if starts_with request.path "/v1/responses/"
      then look_up h.stored_responses request w
      else (none, request, w)

  abbrev pub or_next :
      Option (List Write) × HttpRequest × W → (HttpRequest → W → List Write × W) → List Write × W
  or_next (some writes, request, w) next = (writes, w)
  or_next (none, request, w) next = next request w

  unfoldable pub serve_http : HttpRequest → W → List Write × W
  unfolding serve_stored serve_conversations serve_routed
  serve_http request w =
      or_next (serve_stored request w) λ left w₁. or_next (serve_conversations left w₁) serve_routed
