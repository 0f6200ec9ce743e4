-- ===== src/Handler/Tests.antt =====
-- Runs of the OpenAI handler; the state counts the calls of the providers.
use kokekokkor.Common.{
  String, ℕ, ◌+◌, Bool, true, false, Option, none, some, [], ◌∷◌, Result, ok, err, ◌≡◌, refl,
  string_eq,
}
use kokekokkor.Common.Map.{lookup, insert}
use kokekokkor.Provider.{Target, effective_protocol}
use kokekokkor.Routing.{Attempt, Table, resolve_in, resolve, selected_route, attempts_of}
use kokekokkor.Handler.{
  cross, CrossError, response_error, other_error, Upstream, error_response, forwarded, HttpRequest,
  retryable, Sent, Forward, Translator, serve_anthropic_attempt,
}
use kokekokkor.Handler.Proxy.{authorization, serve_http_to}
use kokekokkor.Handler.Serve.{Handler, serve_attempt, serve_http}
use kokekokkor.Handler.Settled.{Settles}
use kokekokkor.Handler.Once.{
  IsOnce, serve_http_to-IsForwarder, serve_attempt-Settles, serve_http-IsOnce,
}

abbrev target_of : String → String → Target
target_of id protocol = record { id = id; protocol = protocol; base_url = "u"; api_key = "k" }

abbrev parses : String → Option String
parses url = none

abbrev answer : Upstream
answer = record { status = 200; header = []; body = "{}" }

abbrev count_round_trip : Target → Option String → Sent → ℕ → Result String Upstream × ℕ
count_round_trip target token sent calls = (ok answer, calls + 1)

abbrev test_forwarder : Forward ℕ
test_forwarder = serve_http_to parses none count_round_trip

-- Every translated call fails with the given error.
abbrev failing : CrossError → Translator ℕ
failing e = record {
  chat_to_anthropic = λ target model body calls. (err e, calls + 1);
  chat_to_anthropic_stream = λ target model body calls. (err e, calls + 1);
  responses_to_anthropic = λ target model body calls. (err e, calls + 1);
  responses_to_anthropic_stream = λ target model body calls. (err e, calls + 1);
  chat_to_gemini = none;
  chat_to_gemini_stream = none;
  responses_to_gemini = none;
  responses_to_gemini_stream = none;
}

-- A model that goes to Anthropic first and to an OpenAI provider then.
abbrev test_table : Table
test_table = record {
  snapshot = some (record {
    providers = ("a", target_of "a" "anthropic") ∷ ("o", target_of "o" "openai") ∷ [];
    model_routes =
        (
          "m",
          record { provider_id = "a"; model = "" } ∷ record { provider_id = "o"; model = "" } ∷ [],
        )
        ∷ [];
    default_provider_ids = [];
  });
}

abbrev handler_of : CrossError → Handler ℕ
handler_of e = record {
  router = test_table;
  forwarder = test_forwarder;
  translator = some (failing e);
  realtime_translator = none;
  stored_responses = none;
  conversations = none;
}

abbrev chat_request : HttpRequest
chat_request = record {
  method = "POST";
  path = "/v1/chat/completions";
  model = "m";
  query_model = "";
  realtime = false;
  body = ok "{}";
}

abbrev plain_flag : String → Result String Bool
plain_flag body = ok false

abbrev same_body : String → String → Result String String
same_body body model = ok body

-- A call that did not reach the provider is followed by the next attempt.
falls_back :
    serve_http (handler_of (other_error "refused")) plain_flag same_body chat_request 0
    ≡ (forwarded answer ∷ [], 2)
unfolding serve_http effective_protocol resolve resolve_in lookup insert serve_anthropic_attempt
    serve_http_to authorization retryable selected_route attempts_of
falls_back = refl

-- A response that could not be translated is not asked for again.
keeps_generation :
    serve_http (handler_of (response_error "odd")) plain_flag same_body chat_request 0
    ≡ (error_response 502 [] "translation_error" (cross (response_error "odd")) ∷ [], 1)
unfolding serve_http effective_protocol resolve resolve_in lookup insert serve_anthropic_attempt
    serve_http_to authorization retryable selected_route attempts_of
keeps_generation = refl

serve_http-IsOnce_example :
    IsOnce (serve_http (handler_of (other_error "refused")) plain_flag same_body chat_request 0)
serve_http-IsOnce_example =
    serve_http-IsOnce (handler_of (other_error "refused")) plain_flag same_body
      (serve_http_to-IsForwarder parses none count_round_trip) chat_request 0

abbrev first_attempt : Attempt
first_attempt = record { target = target_of "a" "anthropic"; model = "m" }

serve_attempt-Settles_example : Settles true (
    serve_attempt
      (handler_of (other_error "refused"))
      plain_flag
      same_body
      chat_request
      "{}"
      first_attempt
      true
      0)
serve_attempt-Settles_example =
    serve_attempt-Settles (handler_of (other_error "refused")) plain_flag same_body
      (serve_http_to-IsForwarder parses none count_round_trip) chat_request "{}" first_attempt true
      0
