-- ===== src/Catalog.antt =====
-- internal/domain/catalog/catalog.go: the provider catalog and its validation, with the functions of
-- internal/bootstrap/catalog.go that hand a catalog to the router.
-- `net/url`'s parser is a parameter: the code reads the scheme and the host of what it returns.
pub mod Valid
pub mod Routable
pub mod Served
pub mod Service
mod Tests
use kokekokkor.Common.{
  String, Bool, true, false, ◌&&◌, ◌||◌, Option, none, some, List, [], ◌∷◌, map, Result, ok, err,
  ◌>>=◌, ◌>>◌, ◌==◌, string_eq, if◌then◌else◌,
}
use kokekokkor.Common.Map.{Map, lookup, insert}
use kokekokkor.Common.Text.{trim_space}
use kokekokkor.Provider.{Protocol, Target, is_known_protocol, effective_protocol}
use kokekokkor.Routing.{RouteTarget}

pub record Provider : Type 0 where
  pub id : String
  pub protocol : Protocol
  pub base_url : String
  pub enabled : Bool

-- `Routes` holds the same two strings as the router's `RouteTarget`, field by field.
pub record Snapshot : Type 0 where
  pub providers : List Provider
  pub defaults : Map Protocol String
  pub routes : Map String (List RouteTarget)

pub data UrlError : Type 0 where
  empty_url unparsable bad_scheme no_host : UrlError

pub data CatalogError : Type 0 where
  empty_provider_id : CatalogError
  unsupported_protocol : String → Protocol → CatalogError
  bad_base_url : String → UrlError → CatalogError
  duplicate_provider_id : String → CatalogError
  default_protocol : Protocol → CatalogError
  default_unknown : Protocol → String → CatalogError
  default_mismatch : Protocol → String → Protocol → CatalogError
  default_disabled : Protocol → String → CatalogError
  empty_route_model : CatalogError
  no_targets : String → CatalogError
  route_unknown route_disabled : String → String → CatalogError

-- What the code reads of a parsed URL.
pub record Url : Type 0 where
  pub scheme : String
  pub host : String

abbrev is_nil {ℓ} : {A : Type ℓ} → List A → Bool
is_nil [] = true
is_nil (_ ∷ _) = false

module _ (parse_url : String → Option Url) where
  unfoldable pub validate_base_url : String → Result UrlError (Unit {0})
  validate_base_url raw = if trim_space raw == "" then err empty_url else elim (parse_url raw) [
    | none ↦ err unparsable
    | some parsed ↦
        if parsed.scheme == "http" || parsed.scheme == "https"
        then (if parsed.host == "" then err no_host else ok tt)
        else err bad_scheme
  ]

  -- The checks of the first loop before the duplicate check.
  unfoldable pub check_provider : Provider → Result CatalogError (Unit {0})
  check_provider item =
      if trim_space item.id == ""
      then err empty_provider_id
      else if is_known_protocol item.protocol
      then elim (validate_base_url item.base_url) [
        | err e ↦ err (bad_base_url item.id e)
        | ok _ ↦ ok tt
      ]
      else err (unsupported_protocol item.id item.protocol)

  unfoldable pub check_providers :
      List Provider → Map String Provider → Result CatalogError (Map String Provider)
  check_providers [] providers = ok providers
  check_providers (item ∷ items) providers =
      let rest = check_providers items (insert item.id item providers) in
      check_provider item >>= λ _. elim (lookup item.id providers) [
        | some _ ↦ err (duplicate_provider_id item.id)
        | none ↦ rest
      ]

module _ (providers : Map String Provider) where
  unfoldable pub check_default : Protocol → String → Result CatalogError (Unit {0})
  check_default protocol provider_id =
      if is_known_protocol protocol
      then elim (lookup provider_id providers) [
        | none ↦ err (default_unknown protocol provider_id)
        | some configured ↦
            if configured.protocol == protocol
            then (if configured.enabled then ok tt else err (default_disabled protocol provider_id))
            else err (default_mismatch protocol provider_id configured.protocol)
      ]
      else err (default_protocol protocol)

  unfoldable pub check_defaults : Map Protocol String → Result CatalogError (Unit {0})
  check_defaults [] = ok tt
  check_defaults ((protocol, provider_id) ∷ rest) =
      let others = check_defaults rest in check_default protocol provider_id >>= λ _. others

  unfoldable pub check_target : String → RouteTarget → Result CatalogError (Unit {0})
  check_target model target = elim (lookup target.provider_id providers) [
    | none ↦ err (route_unknown model target.provider_id)
    | some configured ↦
        if configured.enabled then ok tt else err (route_disabled model target.provider_id)
  ]

  unfoldable pub check_targets : String → List RouteTarget → Result CatalogError (Unit {0})
  check_targets model [] = ok tt
  check_targets model (target ∷ targets) =
      let others = check_targets model targets in check_target model target >>= λ _. others

  unfoldable pub check_routes : Map String (List RouteTarget) → Result CatalogError (Unit {0})
  check_routes [] = ok tt
  check_routes ((model, targets) ∷ rest) =
      let others = check_routes rest in
      if trim_space model == ""
      then err empty_route_model
      else if is_nil targets
      then err (no_targets model)
      else check_targets model targets >>= λ _. others

-- `Snapshot.Validate`.
unfoldable pub validate : (String → Option Url) → Snapshot → Result CatalogError (Unit {0})
validate parse_url s = do
  providers ← check_providers parse_url s.providers []
  check_defaults providers s.defaults
  check_routes providers s.routes

unfoldable pub credential_of : Map String String → String → String
credential_of credentials id = elim (lookup id credentials) [ none ↦ "" | some value ↦ value ]

-- The targets that `routingInputs` makes: the enabled providers, in order, with their credentials.
unfoldable pub routing_targets : List Provider → Map String String → List Target
routing_targets [] credentials = []
routing_targets (item ∷ items) credentials =
    let rest = routing_targets items credentials in
    if item.enabled
    then record {
      id = item.id;
      protocol = item.protocol;
      base_url = item.base_url;
      api_key = credential_of credentials item.id;
    }
      ∷ rest
    else rest

-- `routingInputs`; its copies of the two maps hold the same entries.
unfoldable pub routing_inputs :
    Snapshot → Map String String → List Target × Map Protocol String × Map String (List RouteTarget)
routing_inputs s credentials = (routing_targets s.providers credentials, s.defaults, s.routes)

unfoldable pub catalog_is_empty : Snapshot → Bool
catalog_is_empty s = is_nil s.providers && is_nil s.defaults && is_nil s.routes

unfoldable pub protocol_default_target :
    List Target → Map Protocol String → Protocol → Option Target
protocol_default_target [] defaults protocol = none
protocol_default_target (target ∷ targets) defaults protocol =
    if target.id == credential_of defaults protocol && effective_protocol target == protocol
    then some target
    else protocol_default_target targets defaults protocol
