-- ===== src/OAuth/Flow.antt =====
-- internal/application/oauth/service.go: Complete, which turns an authorization code into tokens.
use kokekokkor.Common.{
  String, ℕ, not, Option, none, some, Result, ok, err, ◌==◌, string_eq, if◌then◌else◌,
}
use kokekokkor.Common.Text.{trim_space}
use kokekokkor.Catalog.{Url}
use kokekokkor.OAuth.{Provider, PendingAuthorization, TokenSet, ProviderError, validate}
use kokekokkor.OAuth.States.{MemoryStates, StateError, consume}

pub record ExchangeRequest : Type 0 where
  pub code : String
  pub code_verifier : String
  pub redirect_uri : String

-- `Exchanger` and the `TokenRepository` that Complete writes to.
pub record Dependencies (W E : Type 0) : Type 0 where
  pub exchange : Provider → ExchangeRequest → W → Result E TokenSet × W
  pub put_tokens : String → TokenSet → W → Option E × W

pub data FlowError (E : Type 0) : Type 0 where
  invalid_provider : ProviderError → FlowError E
  empty_state empty_code not_configured : FlowError E
  state_refused : StateError → FlowError E
  wrong_provider : String → String → FlowError E
  wrong_redirect no_access_token : FlowError E
  exchange_failed persist_failed : E → FlowError E

module _ {W E : Type 0} where
  unfoldable pub store_tokens :
      Dependencies W E → Provider → TokenSet → W → Result (FlowError E) TokenSet × W
  store_tokens d provider tokens w =
      let stored = d.put_tokens provider.id tokens w in
      if trim_space tokens.access_token == "" then (err no_access_token, w) else elim stored.0 [
        | some e ↦ (err (persist_failed e), stored.1)
        | none ↦ (ok tokens, stored.1)
      ]

  -- What follows `Consume`.
  unfoldable pub exchange_code :
      Dependencies W E
      → Provider
      → PendingAuthorization
      → String
      → String
      → W
      → Result (FlowError E) TokenSet × W
  unfolding store_tokens
  exchange_code d provider pending code redirect_uri w =
      let request : ExchangeRequest = record {
        code = code;
        code_verifier = pending.code_verifier;
        redirect_uri = pending.redirect_uri;
      } in
      let exchanged = d.exchange provider request w in
      if not (pending.provider_id == provider.id)
      then (err (wrong_provider pending.provider_id provider.id), w)
      else if not (pending.redirect_uri == redirect_uri)
      then (err wrong_redirect, w)
      else elim exchanged.0 [
        | err e ↦ (err (exchange_failed e), exchanged.1)
        | ok tokens ↦ store_tokens d provider tokens exchanged.1
      ]

  -- `none` where a dependency is nil. The states are those of the memory repository.
  unfoldable pub complete :
      (String → Option Url)
      → Option (Dependencies W E)
      → Provider
      → String
      → String
      → String
      → ℕ
      → MemoryStates
      → W
      → Result (FlowError E) TokenSet × MemoryStates × W
  complete parse_url dependencies provider state code redirect_uri now states w =
      elim (validate parse_url provider) [
        | err e ↦ (err (invalid_provider e), states, w)
        | ok _ ↦
            if trim_space state == ""
            then (err empty_state, states, w)
            else if trim_space code == ""
            then (err empty_code, states, w)
            else elim dependencies [
              | none ↦ (err not_configured, states, w)
              | some d ↦
                  let taken = consume now state states in
                  elim taken.0 [
                    | err e ↦ (err (state_refused e), taken.1, w)
                    | ok pending ↦
                        let done = exchange_code d provider pending code redirect_uri w in
                        (done.0, taken.1, done.1)
                  ]
            ]
      ]
