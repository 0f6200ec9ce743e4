-- ===== src/Handler.antt =====
-- internal/protocol/openai/handler.go, cross_protocol.go and gemini_cross_protocol.go: the handler of the
-- OpenAI endpoints. Everything outside of it (the upstream providers, the stored responses) is a state W
-- that the calls pass on; what is written to the client is a list. Headers are a map of canonical names.

pub mod Proxy
pub mod Serve
pub mod Settled
pub mod Once
mod Tests
use kokekokkor.Common.{
  String, ℕ, Bool, true, false, not, ◌&&◌, ◌||◌, Option, none, some, List, [], ◌∷◌, ◌++◌, Result,
  ok, err, ltb, leb, ◌==◌, string_eq, ℕ_eq, if◌then◌else◌,
}
use kokekokkor.Common.Map.{Map, lookup}
use kokekokkor.Provider.{Target}
use kokekokkor.Routing.{Attempt, RouteError}
use kokekokkor.Translation.{CompatibilityError}

abbrev pub Header : Type 0
Header = Map String String

-- The errors of a translated call, by the sentinel that handleCrossProtocolError finds first.
pub data CrossError : Type 0 where
  response_error request_error other_error : String → CrossError
  unsupported_error : CompatibilityError → CrossError

-- What an error message tells.
pub data Fault : Type 0 where
  external : String → Fault
  cross : CrossError → Fault
  route : RouteError → Fault
  retryable_status : ℕ → Fault
  upstream_message : String → ℕ → Fault
  unsupported_operation : String → String → Fault
  unsupported_protocol : String → Fault
  translator_missing no_stream_body body_too_large all_failed : Fault

-- `upstream.Response`.
pub record Upstream : Type 0 where
  pub status : ℕ
  pub header : Header
  pub body : String

-- `upstream.StreamResponse`: no body, or what reading it to the end gives.
pub record StreamUpstream : Type 0 where
  pub status : ℕ
  pub header : Header
  pub body : Option (Result String String)

-- One response to the client.
pub data Write : Type 0 where
  error_response : ℕ → Header → String → Fault → Write
  translated : ℕ → Header → String → Write
  forwarded : Upstream → Write
  stored : ℕ → String → Write
  upgraded : Target → Write

pub record Attempted : Type 0 where
  pub written : List Write
  pub done : Bool
  pub fault : Option Fault

-- A request as its handler finds it: `model` is what requestModel gets from the query or the unread body,
-- `query_model` what the query alone says.
pub record HttpRequest : Type 0 where
  pub method : String
  pub path : String
  pub model : String
  pub query_model : String
  pub realtime : Bool
  pub body : Result Fault String

abbrev pub answered : Write → Attempted
answered write = record { written = write ∷ []; done = true; fault = none }

abbrev pub failed : Fault → Attempted
failed fault = record { written = []; done = false; fault = some fault }

abbrev pub write_error : ℕ → String → Fault → Write
write_error status code fault = error_response status [] code fault

-- `upstream.RetryableStatus`.
unfoldable pub retryable : ℕ → Bool
retryable status =
    status == 429
    || status == 500
    || status == 502
    || status == 503
    || status == 504
    || status == 529

-- `header.Get`.
abbrev header_get : String → Header → String
header_get name header = elim (lookup name header) [ none ↦ "" | some value ↦ value ]

unfoldable pub copy_retry_after : Header → Header
copy_retry_after source =
    let retry_after = header_get "Retry-After" source in
    if retry_after == "" then [] else ("Retry-After", retry_after) ∷ []

unfoldable pub copy_translated_headers : Header → Header
unfolding copy_retry_after
copy_translated_headers source =
    let content_type = header_get "Content-Type" source in
    let cache_control = header_get "Cache-Control" source in
    (("Content-Type", if content_type == "" then "application/json" else content_type)
      ∷ (if cache_control == "" then [] else ("Cache-Control", cache_control) ∷ []))
    ++ copy_retry_after source

unfoldable pub handle_cross_protocol_error : CrossError → Bool → Attempted
handle_cross_protocol_error (response_error e) allow_fallback =
    answered (write_error 502 "translation_error" (cross (response_error e)))
handle_cross_protocol_error (request_error e) allow_fallback =
    answered (write_error 400 "invalid_request" (cross (request_error e)))
handle_cross_protocol_error (unsupported_error e) allow_fallback =
    if allow_fallback
    then failed (cross (unsupported_error e))
    else answered (write_error 400 "unsupported_feature" (cross (unsupported_error e)))
handle_cross_protocol_error (other_error e) allow_fallback = failed (cross (other_error e))

-- writeAnthropicBufferedResponse and writeGeminiBufferedResponse.
unfoldable pub write_buffered_response : Upstream → Bool → Attempted
unfolding copy_translated_headers retryable
write_buffered_response response allow_fallback =
    if retryable response.status && allow_fallback
    then failed (retryable_status response.status)
    else if ltb response.status 200 || leb 300 response.status
    then answered (
        error_response response.status (copy_retry_after response.header) "upstream_error"
          (upstream_message response.body response.status))
    else answered
        (translated response.status (copy_translated_headers response.header) response.body)

-- translatedStreamError and the error response after it.
abbrev pub stream_error : ℕ → Header → Result String String → Attempted
stream_error status header (err e) = failed (external e)
stream_error status header (ok content) = answered (
    error_response status (copy_retry_after header) "upstream_error"
      (upstream_message content status))

-- What flushCopy copies: the body, whole or up to its failure.
abbrev copied : Result String String → String
copied (err e) = e
copied (ok content) = content

abbrev pub write_stream_body : ℕ → Header → Option (Result String String) → Bool → Attempted
write_stream_body status header none allow_fallback = failed no_stream_body
write_stream_body status header (some body) allow_fallback =
    if retryable status && allow_fallback
    then failed (retryable_status status)
    else if ltb status 200 || leb 300 status
    then stream_error status header body
    else answered (translated status (copy_translated_headers header) (copied body))

-- writeAnthropicStreamResponse.
unfoldable pub write_stream_response : StreamUpstream → Bool → Attempted
unfolding copy_translated_headers retryable
write_stream_response response allow_fallback =
    write_stream_body response.status response.header response.body allow_fallback

unfoldable pub unsupported_operation_attempt : HttpRequest → Bool → Attempted
unsupported_operation_attempt request allow_fallback =
    let fault = unsupported_operation request.method request.path in
    if allow_fallback then failed fault else answered (write_error 400 "unsupported_feature" fault)

abbrev pub BufferedCall : Type 0 → Type 0
BufferedCall W = Target → String → String → W → Result CrossError Upstream × W

abbrev pub StreamCall : Type 0 → Type 0
StreamCall W = Target → String → String → W → Result CrossError StreamUpstream × W

-- The translator: the calls for Anthropic, and those for Gemini where it has them.
pub record Translator (W : Type 0) : Type 0 where
  pub chat_to_anthropic : BufferedCall W
  pub chat_to_anthropic_stream : StreamCall W
  pub responses_to_anthropic : BufferedCall W
  pub responses_to_anthropic_stream : StreamCall W
  pub chat_to_gemini : Option (BufferedCall W)
  pub chat_to_gemini_stream : Option (StreamCall W)
  pub responses_to_gemini : Option (BufferedCall W)
  pub responses_to_gemini_stream : Option (StreamCall W)

-- The request that goes to a provider: as it came, with another body, or with another model in the query.
pub data Sent : Type 0 where
  as_received : HttpRequest → Sent
  with_body with_query_model : HttpRequest → String → Sent

-- `ServeHTTPTo` writes a response or returns an error.
abbrev pub Forward : Type 0 → Type 0
Forward W = Target → Sent → Bool → W → Result Fault Write × W

abbrev pub finish_buffered : {W : Type 0} → Result CrossError Upstream × W → Bool → Attempted × W
finish_buffered (err e, w) allow = (handle_cross_protocol_error e allow, w)
finish_buffered (ok response, w) allow = (write_buffered_response response allow, w)

abbrev pub finish_stream :
    {W : Type 0} → Result CrossError StreamUpstream × W → Bool → Attempted × W
finish_stream (err e, w) allow = (handle_cross_protocol_error e allow, w)
finish_stream (ok response, w) allow = (write_stream_response response allow, w)

-- The attempt at one endpoint: the request's "stream", once read, chooses between the two calls.
abbrev pub choose_call :
    {W : Type 0}
    → Result String Bool
    → Option (BufferedCall W)
    → Option (StreamCall W)
    → String
    → Attempt
    → Bool
    → W
    → Attempted × W
choose_call (err e) buffered stream body attempt allow w =
    (answered (write_error 400 "invalid_request" (external e)), w)
choose_call (ok true) buffered none body attempt allow w = (failed translator_missing, w)
choose_call (ok true) buffered (some call) body attempt allow w =
    finish_stream (call attempt.target attempt.model body w) allow
choose_call (ok false) none stream body attempt allow w = (failed translator_missing, w)
choose_call (ok false) (some call) stream body attempt allow w =
    finish_buffered (call attempt.target attempt.model body w) allow

-- A call that the translator may have: `h.translator.(…)`.
abbrev pub offered : {W C : Type 0} → Option (Translator W) → (Translator W → Option C) → Option C
offered none field = none
offered (some t) field = field t

module _ {W : Type 0} (stream_flag : String → Result String Bool) where
  unfoldable pub serve_anthropic_attempt :
      Option (Translator W) → HttpRequest → String → Attempt → Bool → W → Attempted × W
  unfolding handle_cross_protocol_error write_buffered_response write_stream_response
      unsupported_operation_attempt
  serve_anthropic_attempt none request body attempt allow w = (failed translator_missing, w)
  serve_anthropic_attempt (some t) request body attempt allow w =
      if not (request.method == "POST")
      then (unsupported_operation_attempt request allow, w)
      else if request.path == "/v1/chat/completions"
      then choose_call (stream_flag body) (some t.chat_to_anthropic)
          (some t.chat_to_anthropic_stream) body attempt allow w
      else if request.path == "/v1/responses"
      then choose_call (stream_flag body) (some t.responses_to_anthropic)
          (some t.responses_to_anthropic_stream) body attempt allow w
      else (unsupported_operation_attempt request allow, w)

  unfoldable pub serve_gemini_attempt :
      Option (Translator W) → HttpRequest → String → Attempt → Bool → W → Attempted × W
  unfolding handle_cross_protocol_error write_buffered_response write_stream_response
      unsupported_operation_attempt
  serve_gemini_attempt t request body attempt allow w =
      if not (request.method == "POST")
      then (unsupported_operation_attempt request allow, w)
      else if request.path == "/v1/chat/completions"
      then choose_call (stream_flag body) (offered t λ u. u.chat_to_gemini)
          (offered t λ u. u.chat_to_gemini_stream) body attempt allow w
      else if request.path == "/v1/responses"
      then choose_call (stream_flag body) (offered t λ u. u.responses_to_gemini)
          (offered t λ u. u.responses_to_gemini_stream) body attempt allow w
      else (unsupported_operation_attempt request allow, w)
