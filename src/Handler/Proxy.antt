-- ===== src/Handler/Proxy.antt =====
-- ServeHTTPTo of internal/provider/openaicompat/proxy.go, over the URL parser, the bearer token resolver and
-- the reverse proxy's round trip, which are arguments.
use kokekokkor.Common.{
  String, Bool, ◌&&◌, Option, none, some, Result, ok, err, ◌==◌, string_eq, if◌then◌else◌,
}
use kokekokkor.Provider.{Target}
use kokekokkor.Handler.{
  Sent, Fault, external, retryable_status, Upstream, Write, forwarded, Forward, retryable,
}

-- The "Authorization" header's token: the provider's bearer token, then the target's key.
unfoldable pub authorization : Option String → Target → Option String
authorization none target = if target.api_key == "" then none else some target.api_key
authorization (some token) target =
    if token == "" then (if target.api_key == "" then none else some target.api_key) else some token

abbrev pub finish_round_trip : Bool → Result String Upstream → Result Fault Write
finish_round_trip allow_fallback (err e) = err (external e)
finish_round_trip allow_fallback (ok response) =
    if allow_fallback && retryable response.status
    then err (retryable_status response.status)
    else ok (forwarded response)

module _ {W : Type 0} (parse_url : String → Option String)
    (bearer_token : Option (String → W → Result String (Option String) × W))
    (round_trip : Target → Option String → Sent → W → Result String Upstream × W) where
  -- `parse_url` returns the parser's error, if there is one.
  unfoldable pub resolve_bearer_token : String → W → Result String (Option String) × W
  resolve_bearer_token provider_id w = elim bearer_token [
    | none ↦ (ok none, w)
    | some resolver ↦ resolver provider_id w
  ]

  abbrev pub finish_token :
      Target → Sent → Bool → Result String (Option String) × W → Result Fault Write × W
  finish_token target sent allow_fallback (err e, w) = (err (external e), w)
  finish_token target sent allow_fallback (ok found, w) =
      let (response, w₁) = round_trip target (authorization found target) sent w in
      (finish_round_trip allow_fallback response, w₁)

  abbrev pub after_parse : Option String → Target → Sent → Bool → W → Result Fault Write × W
  after_parse (some e) target sent allow_fallback w = (err (external e), w)
  after_parse none target sent allow_fallback w =
      finish_token target sent allow_fallback (resolve_bearer_token target.id w)

  unfoldable pub serve_http_to : Forward W
  unfolding resolve_bearer_token authorization retryable
  serve_http_to target sent allow_fallback w =
      after_parse (parse_url target.base_url) target sent allow_fallback w
