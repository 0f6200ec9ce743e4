-- ===== src/Handler/Once.antt =====
-- How often the handler of internal/protocol/openai/handler.go answers, and after which failures it tries
-- another provider.
use text.Mathlib.Text.{starts_with}
use kokekokkor.Common.{
  String, Bool, true, false, ◌&&◌, Option, none, some, List, [], ◌∷◌, length, Result, ok, err, ◌≡◌,
  refl, subst, inl, inr, if_both, if_split, and_true, ◌==◌, string_eq, ℕ_eq, if◌then◌else◌,
}
use kokekokkor.Provider.{
  Target, protocol_open_ai, protocol_anthropic, protocol_gemini, effective_protocol,
}
use kokekokkor.Routing.{Attempt, RouteError, Plan}
use kokekokkor.Handler.{
  Fault, Upstream, Write, HttpRequest, Attempted, Sent, Forward, retryable, failed,
}
use kokekokkor.Handler.Proxy.{finish_round_trip, finish_token, after_parse, serve_http_to}
use kokekokkor.Handler.Serve.{
  Handler, Managed, managed, Bridge, bridge_attempt, forward_body, finish_forward, finish_realtime,
  serve_open_ai_attempt, serve_attempt, serve_attempts, realtime_attempt, serve_realtime_web_socket,
  finish_fast, serve_path, serve_plan, serve_resolved, serve_routed, converse, look_up, or_next,
  serve_conversations, serve_stored, serve_http,
}
use kokekokkor.Handler.Settled.{
  IsRetry, Settles, answered-Settles, failed-Settles, serve_anthropic_attempt-Settles,
  serve_gemini_attempt-Settles,
}

-- A result whose error, if it is one, may be passed over.
pub record IsExcused (allow : Bool) (result : Result Fault Write) : Type 0 where
  pub excused : (fault : Fault) → result ≡ err fault → IsRetry allow fault

-- A forwarder's errors may be passed over.
abbrev pub IsForwarder : {W : Type 0} → Forward W → Type 0
IsForwarder {W} forwarder =
    (target : Target) (sent : Sent) (allow : Bool) (w : W)
    → IsExcused allow ((forwarder target sent allow w).0)

abbrev the_err : Fault → Result Fault Write
the_err = err

fault_of : (a b : Fault) → the_err a ≡ err b → a ≡ b
fault_of a b h = cc

err-IsExcused : (allow : Bool) (fault : Fault) → IsRetry allow fault → IsExcused allow (err fault)
err-IsExcused allow fault h = record {
  excused = λ other same. subst (IsRetry allow) (fault_of fault other same) h;
}

ok-IsExcused : (allow : Bool) (write : Write) → IsExcused allow (ok write)
ok-IsExcused allow write = record { excused = λ fault same. cc }

finish_round_trip-IsExcused :
    (allow : Bool) (response : Result String Upstream)
    → IsExcused allow (finish_round_trip allow response)
finish_round_trip-IsExcused allow (err e) = err-IsExcused allow _ tt
finish_round_trip-IsExcused allow (ok response) =
    if_split (IsExcused allow) (allow && retryable response.status)
      (λ again. err-IsExcused allow _ (and_true allow (retryable response.status) again))
      λ once. ok-IsExcused allow _

-- The proxy is such a forwarder: its errors are the URL's, the token's and the transport's, or a
-- retryable status where another attempt is left.
module _ {W : Type 0} (parse_url : String → Option String)
    (bearer_token : Option (String → W → Result String (Option String) × W))
    (round_trip : Target → Option String → Sent → W → Result String Upstream × W) where
  finish_token-IsExcused :
      (target : Target) (sent : Sent) (allow : Bool) (token : Result String (Option String) × W)
      → IsExcused allow ((finish_token parse_url bearer_token round_trip target sent allow token).0)
  finish_token-IsExcused target sent allow (err e, w) = err-IsExcused allow _ tt
  finish_token-IsExcused target sent allow (ok found, w) = finish_round_trip-IsExcused allow _

  after_parse-IsExcused :
      (parsed : Option String) (target : Target) (sent : Sent) (allow : Bool) (w : W)
      → IsExcused allow
          ((after_parse parse_url bearer_token round_trip parsed target sent allow w).0)
  after_parse-IsExcused (some e) target sent allow w = err-IsExcused allow _ tt
  after_parse-IsExcused none target sent allow w = finish_token-IsExcused target sent allow _

  pub serve_http_to-IsForwarder : IsForwarder (serve_http_to parse_url bearer_token round_trip)
  unfolding serve_http_to
  serve_http_to-IsForwarder target sent allow w =
      after_parse-IsExcused (parse_url target.base_url) target sent allow w

-- Exactly one response.
pub record IsOnce {W : Type 0} (out : List Write × W) : Type 0 where
  pub once : length (out.0) ≡ 1

module _ {W : Type 0} (h : Handler W) (stream_flag : String → Result String Bool)
    (rewrite_model : String → String → Result String String)
    (forwarder : IsForwarder h.forwarder) where
  finish_forward-Settles :
      (allow : Bool) (answer : Result Fault Write × W)
      → IsExcused allow (answer.0)
      → Settles allow (finish_forward answer)
  finish_forward-Settles allow (err fault, w) x =
      failed-Settles allow fault w (x.excused fault refl)
  finish_forward-Settles allow (ok write, w) x = answered-Settles allow write w

  finish_realtime-Settles :
      (allow : Bool) (answer : Result String Write × W) → Settles allow (finish_realtime answer)
  finish_realtime-Settles allow (err e, w) = failed-Settles allow _ w tt
  finish_realtime-Settles allow (ok write, w) = answered-Settles allow write w

  forward_body-Settles :
      (request : HttpRequest) (attempt : Attempt) (allow : Bool) (w : W)
      (body : Result String String)
      → Settles allow (forward_body h.forwarder request attempt allow w body)
  forward_body-Settles request attempt allow w (err e) = answered-Settles allow _ w
  forward_body-Settles request attempt allow w (ok sent) =
      finish_forward-Settles allow _ (forwarder attempt.target _ allow w)

  -- An attempt that is done has written exactly one response. One that is not has written nothing, and
  -- failed for a reason after which another may follow: no response of the provider was lost.
  pub serve_attempt-Settles :
      (request : HttpRequest) (body : String) (attempt : Attempt) (allow : Bool) (w : W)
      → Settles allow (serve_attempt h stream_flag rewrite_model request body attempt allow w)
  unfolding serve_attempt serve_open_ai_attempt
  serve_attempt-Settles request body attempt allow w =
      let protocol = effective_protocol attempt.target in
      if_both (Settles allow) (protocol == protocol_open_ai)
        (forward_body-Settles request attempt allow w _)
        (if_both (Settles allow) (protocol == protocol_anthropic)
          (serve_anthropic_attempt-Settles stream_flag h.translator request body attempt allow w)
          (if_both (Settles allow) (protocol == protocol_gemini)
            (serve_gemini_attempt-Settles stream_flag h.translator request body attempt allow w)
            (failed-Settles allow _ w tt)))

  bridge_attempt-Settles :
      (bridge : Option (Bridge W)) (request : HttpRequest) (attempt : Attempt) (allow : Bool)
      (w : W)
      → Settles allow (bridge_attempt bridge request attempt w)
  bridge_attempt-Settles none request attempt allow w = failed-Settles allow _ w tt
  bridge_attempt-Settles (some bridge) request attempt allow w =
      finish_realtime-Settles allow (bridge attempt.target request.model attempt.model w)

  realtime_attempt-Settles :
      (request : HttpRequest) (attempt : Attempt) (allow : Bool) (w : W)
      → Settles allow (realtime_attempt h stream_flag rewrite_model request attempt allow w)
  unfolding realtime_attempt
  realtime_attempt-Settles request attempt allow w =
      let protocol = effective_protocol attempt.target in
      if_both (Settles allow) (protocol == protocol_open_ai)
        (finish_forward-Settles allow _ (forwarder attempt.target _ allow w))
        (if_both (Settles allow) (protocol == protocol_gemini)
          (bridge_attempt-Settles h.realtime_translator request attempt allow w)
          (failed-Settles allow _ w tt))

  one-IsOnce : (write : Write) (w : W) → IsOnce (write ∷ [], w)
  one-IsOnce write w = record { once = refl }

  -- One step of either loop.
  next-IsOnce :
      (allow : Bool) (tried : Attempted × W) (rest : List Write × W)
      → Settles allow tried
      → IsOnce rest
      → IsOnce (if tried.0.done then (tried.0.written, tried.1) else rest)
  next-IsOnce allow tried rest s r = elim s.settled [
    | inl (done, one) ↦ rw (done) record { once = one }
    | inr (failed, nothing, why) ↦ rw (failed) r
  ]

  serve_attempts-IsOnce :
      (request : HttpRequest) (body : String) (attempts : List Attempt) (last : Option Fault)
      (w : W)
      → IsOnce (serve_attempts h stream_flag rewrite_model request body last attempts w)
  unfolding serve_attempts
  serve_attempts-IsOnce request body [] last w = one-IsOnce _ w
  serve_attempts-IsOnce request body (attempt ∷ attempts) last w =
      next-IsOnce _ _ _ (serve_attempt-Settles request body attempt _ w)
        (serve_attempts-IsOnce request body attempts _ _)

  realtime-IsOnce :
      (request : HttpRequest) (attempts : List Attempt) (last : Option Fault) (w : W)
      → IsOnce (serve_realtime_web_socket h stream_flag rewrite_model request last attempts w)
  unfolding serve_realtime_web_socket
  realtime-IsOnce request [] last w = one-IsOnce _ w
  realtime-IsOnce request (attempt ∷ attempts) last w =
      next-IsOnce _ _ _ (realtime_attempt-Settles request attempt _ w)
        (realtime-IsOnce request attempts _ _)

  finish_fast-IsOnce :
      (answer : Result Fault Write × W) → IsOnce (finish_fast h stream_flag rewrite_model answer)
  finish_fast-IsOnce (err fault, w) = one-IsOnce _ w
  finish_fast-IsOnce (ok write, w) = one-IsOnce write w

  serve_path-IsOnce :
      (request : HttpRequest) (attempts : List Attempt) (only : Option Attempt)
      (body : Result Fault String) (w : W)
      → IsOnce (serve_path h stream_flag rewrite_model request attempts only body w)
  serve_path-IsOnce request attempts (some only) body w = finish_fast-IsOnce _
  serve_path-IsOnce request attempts none (err fault) w = one-IsOnce _ w
  serve_path-IsOnce request attempts none (ok body) w =
      serve_attempts-IsOnce request body attempts none w

  serve_plan-IsOnce :
      (request : HttpRequest) (attempts : List Attempt) (w : W)
      → IsOnce (serve_plan h stream_flag rewrite_model request attempts w)
  unfolding serve_plan
  serve_plan-IsOnce request [] w = one-IsOnce _ w
  serve_plan-IsOnce request (attempt ∷ attempts) w =
      if_both IsOnce request.realtime (realtime-IsOnce request (attempt ∷ attempts) none w)
        (serve_path-IsOnce request (attempt ∷ attempts) _ request.body w)

  serve_resolved-IsOnce :
      (request : HttpRequest) (plan : Result RouteError Plan) (w : W)
      → IsOnce (serve_resolved h stream_flag rewrite_model request plan w)
  serve_resolved-IsOnce request (err e) w = one-IsOnce _ w
  serve_resolved-IsOnce request (ok plan) w = serve_plan-IsOnce request plan.attempts w

  serve_routed-IsOnce :
      (request : HttpRequest) (w : W) → IsOnce (serve_routed h stream_flag rewrite_model request w)
  unfolding serve_routed
  serve_routed-IsOnce request w = serve_resolved-IsOnce request _ w

  -- A manager writes one response or leaves the request to what follows.
  abbrev IsOnceOrNone : Option (List Write) → Type 0
  IsOnceOrNone none = Unit
  IsOnceOrNone (some writes) = length writes ≡ 1

  managed-IsOnceOrNone : (answer : Managed) → IsOnceOrNone (managed answer)
  managed-IsOnceOrNone (err e) = refl
  managed-IsOnceOrNone (ok (status, payload, true)) = refl
  managed-IsOnceOrNone (ok (status, payload, false)) = tt

  or_next-IsOnce :
      (first : Option (List Write) × HttpRequest × W) (next : HttpRequest → W → List Write × W)
      → IsOnceOrNone (first.0)
      → ((request : HttpRequest) (w : W) → IsOnce (next request w))
      → IsOnce (or_next h stream_flag rewrite_model first next)
  or_next-IsOnce (some writes, request, w) next one rest = record { once = one }
  or_next-IsOnce (none, request, w) next one rest = rest request w

  converse-IsOnceOrNone :
      (manager : Option (String → String → String → W → Managed × W)) (request : HttpRequest)
      (body : Result Fault String) (w : W)
      → IsOnceOrNone ((converse h stream_flag rewrite_model manager request body w).0)
  converse-IsOnceOrNone none request body w = tt
  converse-IsOnceOrNone (some manager) request (err fault) w = refl
  converse-IsOnceOrNone (some manager) request (ok body) w =
      managed-IsOnceOrNone ((manager request.method request.path body w).0)

  look_up-IsOnceOrNone :
      (manager : Option (String → String → W → Managed × W)) (request : HttpRequest) (w : W)
      → IsOnceOrNone ((look_up h stream_flag rewrite_model manager request w).0)
  look_up-IsOnceOrNone none request w = tt
  look_up-IsOnceOrNone (some manager) request w =
      managed-IsOnceOrNone ((manager request.method request.path w).0)

  abbrev Leaves : Option (List Write) × HttpRequest × W → Type 0
  Leaves first = IsOnceOrNone (first.0)

  -- The handler answers every request, and exactly once: whatever the table, the providers, the
  -- translator and the managers do, one response is written.
  pub serve_http-IsOnce :
      (request : HttpRequest) (w : W) → IsOnce (serve_http h stream_flag rewrite_model request w)
  unfolding serve_http serve_stored serve_conversations
  serve_http-IsOnce request w =
      or_next-IsOnce (serve_stored h stream_flag rewrite_model request w) _
        (if_both Leaves (starts_with request.path "/v1/responses/")
          {x = look_up h stream_flag rewrite_model h.stored_responses request w}
          {y = (none, request, w)} (look_up-IsOnceOrNone h.stored_responses request w) tt)
        λ left w₁.
          or_next-IsOnce (serve_conversations h stream_flag rewrite_model left w₁) _
            (if_both Leaves (starts_with left.path "/v1/conversations")
              {x = converse h stream_flag rewrite_model h.conversations left left.body w₁}
              {y = (none, left, w₁)} (converse-IsOnceOrNone h.conversations left left.body w₁) tt)
            serve_routed-IsOnce
