-- ===== src/OAuth.antt =====
-- internal/application/oauth and internal/domain/oauth: pending authorizations, and the exchange of an
-- authorization code for tokens.
-- A time is the number of nanoseconds since Go's zero time, which is 0. The exchanger and the token
-- store are parameters over a world `W`; `net/url` is the catalog's `parse_url`.
pub mod States
pub mod Bounded
pub mod Flow
pub mod Once
pub mod Resolver
mod Tests
use kokekokkor.Common.{
  String, ℕ, Bool, true, false, not, ◌&&◌, ◌||◌, Option, none, some, List, Result, ok, err, ◌==◌,
  string_eq, if◌then◌else◌,
}
use kokekokkor.Common.Map.{Map}
use kokekokkor.Common.Text.{trim_space}
use kokekokkor.Catalog.{Url}

pub record Provider : Type 0 where
  pub id : String
  pub authorization_url : String
  pub token_url : String
  pub client_id : String
  pub scopes : List String
  pub authorization_params : Map String String

pub record PendingAuthorization : Type 0 where
  pub provider_id : String
  pub state : String
  pub code_verifier : String
  pub redirect_uri : String
  pub created_at : ℕ
  pub expires_at : ℕ

pub record TokenSet : Type 0 where
  pub access_token : String
  pub refresh_token : String
  pub token_type : String
  pub scope : String
  pub expires_at : ℕ

pub data ProviderError : Type 0 where
  empty_id empty_client_id insecure_url : ProviderError

module _ (parse_url : String → Option Url) where
  unfoldable pub is_secure : String → Bool
  is_secure raw = elim (parse_url raw) [
    | none ↦ false
    | some u ↦ u.scheme == "https" && not (u.host == "")
  ]

  -- `Provider.Validate`; which of the two URLs the message names depends on the map's order.
  unfoldable pub validate : Provider → Result ProviderError (Unit {0})
  unfolding is_secure
  validate p =
      if trim_space p.id == ""
      then err empty_id
      else if trim_space p.client_id == ""
      then err empty_client_id
      else if is_secure p.authorization_url && is_secure p.token_url
      then ok tt
      else err insecure_url
