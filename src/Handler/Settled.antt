-- ===== src/Handler/Settled.antt =====
-- What one attempt of internal/protocol/openai/cross_protocol.go and gemini_cross_protocol.go writes, and
-- which failures another attempt may follow.
use kokekokkor.Common.{
  String, ℕ, Bool, true, false, not, ◌&&◌, ◌||◌, Option, none, some, [], length, Result, ok, err,
  ◌≡◌, refl, ◌⊎◌, inl, inr, if_both, if_split, and_true, ltb, leb, ◌==◌, string_eq, ℕ_eq,
  if◌then◌else◌,
}
use kokekokkor.Routing.{Attempt}
use kokekokkor.Handler.{
  Fault, cross, retryable_status, upstream_message, unsupported_operation, CrossError,
  response_error, request_error, other_error, unsupported_error, Upstream, StreamUpstream, Write,
  Header, answered, failed, HttpRequest, Attempted, retryable, handle_cross_protocol_error,
  write_buffered_response, write_stream_response, write_stream_body, stream_error,
  unsupported_operation_attempt, BufferedCall, StreamCall, Translator, finish_buffered,
  finish_stream, choose_call, offered, serve_anthropic_attempt, serve_gemini_attempt,
}

-- Why another attempt may follow: never a response that the provider has generated, nor a request that
-- no provider can take, and a retryable status or an unsupported feature only where one is left.
abbrev pub IsRetry : Bool → Fault → Type 0
IsRetry allow (cross (response_error _)) = ⊥
IsRetry allow (cross (request_error _)) = ⊥
IsRetry allow (cross (unsupported_error _)) = allow ≡ true
IsRetry allow (retryable_status status) = (allow ≡ true) × (retryable status ≡ true)
IsRetry allow (upstream_message _ _) = ⊥
IsRetry allow (unsupported_operation _ _) = allow ≡ true
IsRetry allow _ = Unit

-- An attempt that is done wrote one response; one that is not wrote nothing and may be followed.
abbrev pub IsSettled : Bool → Attempted → Type 0
IsSettled allow tried =
    ((tried.done ≡ true) × (length tried.written ≡ 1))
    ⊎ ((tried.done ≡ false)
        × (tried.written ≡ [])
        × ((fault : Fault) × (tried.fault ≡ some fault) × IsRetry allow fault))

answered-IsSettled : (allow : Bool) (write : Write) → IsSettled allow (answered write)
answered-IsSettled allow write = inl (refl, refl)

failed-IsSettled :
    (allow : Bool) (fault : Fault) → IsRetry allow fault → IsSettled allow (failed fault)
failed-IsSettled allow fault h = inr (refl, refl, (fault, refl, h))

handle_cross-IsSettled :
    (e : CrossError) (allow : Bool) → IsSettled allow (handle_cross_protocol_error e allow)
unfolding handle_cross_protocol_error
handle_cross-IsSettled (response_error e) allow = answered-IsSettled allow _
handle_cross-IsSettled (request_error e) allow = answered-IsSettled allow _
handle_cross-IsSettled (unsupported_error e) allow =
    if_split (IsSettled allow) allow (failed-IsSettled allow _) λ no. answered-IsSettled allow _
handle_cross-IsSettled (other_error e) allow = failed-IsSettled allow _ tt

write_buffered-IsSettled :
    (response : Upstream) (allow : Bool) → IsSettled allow (write_buffered_response response allow)
unfolding write_buffered_response
write_buffered-IsSettled response allow =
    if_split (IsSettled allow) (retryable response.status && allow)
      (λ again.
        (let (status, left) = and_true (retryable response.status) allow again in
          failed-IsSettled allow _ (left, status)))
      λ once.
        if_both (IsSettled allow) (ltb response.status 200 || leb 300 response.status)
          (answered-IsSettled allow _) (answered-IsSettled allow _)

stream_error-IsSettled :
    (status : ℕ) (header : Header) (body : Result String String) (allow : Bool)
    → IsSettled allow (stream_error status header body)
stream_error-IsSettled status header (err e) allow = failed-IsSettled allow _ tt
stream_error-IsSettled status header (ok content) allow = answered-IsSettled allow _

write_stream_body-IsSettled :
    (status : ℕ) (header : Header) (body : Option (Result String String)) (allow : Bool)
    → IsSettled allow (write_stream_body status header body allow)
write_stream_body-IsSettled status header none allow = failed-IsSettled allow _ tt
write_stream_body-IsSettled status header (some body) allow =
    if_split (IsSettled allow) (retryable status && allow)
      (λ again.
        (let (known, left) = and_true (retryable status) allow again in
          failed-IsSettled allow _ (left, known)))
      λ once.
        if_both (IsSettled allow) (ltb status 200 || leb 300 status)
          (stream_error-IsSettled status header body allow) (answered-IsSettled allow _)

unsupported-IsSettled :
    (request : HttpRequest) (allow : Bool)
    → IsSettled allow (unsupported_operation_attempt request allow)
unfolding unsupported_operation_attempt
unsupported-IsSettled request allow =
    if_split (IsSettled allow) allow (failed-IsSettled allow _) λ no. answered-IsSettled allow _

-- The same of an attempt with the state after it.
pub record Settles {W : Type 0} (allow : Bool) (tried : Attempted × W) : Type 0 where
  pub settled : IsSettled allow (tried.0)

module _ {W : Type 0} where
  pub answered-Settles : (allow : Bool) (write : Write) (w : W) → Settles allow (answered write, w)
  answered-Settles allow write w = record { settled = answered-IsSettled allow write }

  pub failed-Settles :
      (allow : Bool) (fault : Fault) (w : W) → IsRetry allow fault → Settles allow (failed fault, w)
  failed-Settles allow fault w h = record { settled = failed-IsSettled allow fault h }

  finish_buffered-Settles :
      (answer : Result CrossError Upstream × W) (allow : Bool)
      → Settles allow (finish_buffered answer allow)
  finish_buffered-Settles (err e, w) allow = record { settled = handle_cross-IsSettled e allow }
  finish_buffered-Settles (ok response, w) allow = record {
    settled = write_buffered-IsSettled response allow;
  }

  finish_stream-Settles :
      (answer : Result CrossError StreamUpstream × W) (allow : Bool)
      → Settles allow (finish_stream answer allow)
  unfolding write_stream_response
  finish_stream-Settles (err e, w) allow = record { settled = handle_cross-IsSettled e allow }
  finish_stream-Settles (ok response, w) allow = record {
    settled = write_stream_body-IsSettled response.status response.header response.body allow;
  }

  choose_call-Settles :
      (flag : Result String Bool) (buffered : Option (BufferedCall W))
      (stream : Option (StreamCall W)) (body : String) (attempt : Attempt) (allow : Bool) (w : W)
      → Settles allow (choose_call flag buffered stream body attempt allow w)
  choose_call-Settles (err e) buffered stream body attempt allow w = answered-Settles allow _ w
  choose_call-Settles (ok true) buffered none body attempt allow w = failed-Settles allow _ w tt
  choose_call-Settles (ok true) buffered (some call) body attempt allow w =
      finish_stream-Settles (call attempt.target attempt.model body w) allow
  choose_call-Settles (ok false) none stream body attempt allow w = failed-Settles allow _ w tt
  choose_call-Settles (ok false) (some call) stream body attempt allow w =
      finish_buffered-Settles (call attempt.target attempt.model body w) allow

  unsupported-Settles :
      (request : HttpRequest) (allow : Bool) (w : W)
      → Settles allow (unsupported_operation_attempt request allow, w)
  unsupported-Settles request allow w = record { settled = unsupported-IsSettled request allow }

  -- The two endpoints that have a translation.
  endpoints-Settles :
      (request : HttpRequest) (allow : Bool) (w : W) {chat responses : Attempted × W}
      → Settles allow chat
      → Settles allow responses
      → Settles allow (
          if not (request.method == "POST")
          then (unsupported_operation_attempt request allow, w)
          else if request.path == "/v1/chat/completions"
          then chat
          else if request.path == "/v1/responses"
          then responses
          else (unsupported_operation_attempt request allow, w))
  endpoints-Settles request allow w chat responses =
      if_both (Settles allow) (not (request.method == "POST")) (unsupported-Settles request allow w)
        (if_both (Settles allow) (request.path == "/v1/chat/completions") chat (
          if_both (Settles allow) (request.path == "/v1/responses") responses
            (unsupported-Settles request allow w)))

module _ {W : Type 0} (stream_flag : String → Result String Bool) where
  pub serve_anthropic_attempt-Settles :
      (t : Option (Translator W)) (request : HttpRequest) (body : String) (attempt : Attempt)
      (allow : Bool) (w : W)
      → Settles allow (serve_anthropic_attempt stream_flag t request body attempt allow w)
  unfolding serve_anthropic_attempt
  serve_anthropic_attempt-Settles none request body attempt allow w = failed-Settles allow _ w tt
  serve_anthropic_attempt-Settles (some t) request body attempt allow w =
      endpoints-Settles request allow w
        (choose_call-Settles (stream_flag body) (some t.chat_to_anthropic)
          (some t.chat_to_anthropic_stream) body attempt allow w)
        (choose_call-Settles (stream_flag body) (some t.responses_to_anthropic)
          (some t.responses_to_anthropic_stream) body attempt allow w)

  pub serve_gemini_attempt-Settles :
      (t : Option (Translator W)) (request : HttpRequest) (body : String) (attempt : Attempt)
      (allow : Bool) (w : W)
      → Settles allow (serve_gemini_attempt stream_flag t request body attempt allow w)
  unfolding serve_gemini_attempt
  serve_gemini_attempt-Settles t request body attempt allow w =
      endpoints-Settles request allow w
        (choose_call-Settles (stream_flag body) (offered t λ u. u.chat_to_gemini)
          (offered t λ u. u.chat_to_gemini_stream) body attempt allow w)
        (choose_call-Settles (stream_flag body) (offered t λ u. u.responses_to_gemini)
          (offered t λ u. u.responses_to_gemini_stream) body attempt allow w)
