-- ===== src/Catalog/Tests.antt =====
-- Runs of the catalog and its service on a small catalog, and their theorems at those inputs.
use kokekokkor.Common.{
  String, Bool, true, false, ◌≡◌, ◌↔◌, refl, Option, none, some, List, [], ◌∷◌, ok, err, string_eq,
  if◌then◌else◌, ◌==◌,
}
use kokekokkor.Common.Map.{lookup, insert, has_key, IsUnique}
use kokekokkor.Common.Text.{trim_space, is_space}
use kokekokkor.Provider.{is_known_protocol}
use kokekokkor.Routing
use kokekokkor.Routing.{RouteTarget, Request, Plan, Table, replace_protocols, resolve}
use kokekokkor.Catalog.{
  Provider, Snapshot, Url, route_unknown, routing_inputs, validate_base_url, check_provider,
  check_providers, check_default, check_defaults, check_target, check_targets, check_routes,
  validate,
}
use kokekokkor.Catalog.Valid.{find_provider, ProviderOk, IsValid}
use kokekokkor.Catalog.Valid.Links.{validate_iff}
use kokekokkor.Catalog.Served.{CallAll, validate-resolve}
use kokekokkor.Catalog.Service.{
  update, delete_provider, create_provider, remove_first, default_user, route_user, targets_use,
  has_provider, default_in_use,
}
use kokekokkor.Catalog.Service.Atomic.{Outcome, update-Outcome}
use kokekokkor.Catalog.Service.Removal.{delete_provider-IsValid}
use kokekokkor.Catalog.Service.Addition.{trimmed, create_provider-IsValid}
use kokekokkor.Catalog.Service.Gateway.{
  World, GatewayError, as_read, order_by_id, insert_by_id, gateway, runtime, IsServed, gateway-Laws,
  load_catalog,
}

-- A stand-in for the URL parser: every text is an https URL with a host.
abbrev parse_url : String → Option Url
parse_url raw = some (record { scheme = "https"; host = "example" })

abbrev primary : Provider
primary = record { id = "primary"; protocol = "openai"; base_url = "https://a"; enabled = true }

abbrev spare : Provider
spare = record { id = "spare"; protocol = "gemini"; base_url = "https://b"; enabled = true }

abbrev portable : List RouteTarget
portable = record { provider_id = "primary"; model = "" } ∷ []

abbrev catalog : Snapshot
catalog = record {
  providers = primary ∷ spare ∷ [];
  defaults = ("openai", "primary") ∷ [];
  routes = ("portable", portable) ∷ [];
}

abbrev catalog_without_spare : Snapshot
catalog_without_spare = record catalog { providers = primary ∷ [] }

catalog_accepted : validate parse_url catalog ≡ ok tt
unfolding validate check_providers check_provider validate_base_url check_defaults check_default
    check_routes check_targets check_target lookup insert trim_space is_space is_known_protocol
catalog_accepted = refl

abbrev lost_route : Snapshot
lost_route = record catalog { providers = spare ∷ []; defaults = [] }

lost_route_refused : validate parse_url lost_route ≡ err (route_unknown "portable" "primary")
unfolding validate check_providers check_provider validate_base_url check_defaults check_default
    check_routes check_targets check_target lookup insert trim_space is_space is_known_protocol
lost_route_refused = refl

catalog-IsValid : IsValid parse_url catalog
catalog-IsValid = (validate_iff parse_url catalog).0 catalog_accepted

IsUnique-defaults : IsUnique catalog.defaults
unfolding has_key
IsUnique-defaults = (refl, tt)

IsUnique-routes : IsUnique catalog.routes
unfolding has_key
IsUnique-routes = (refl, tt)

default_is_kept :
    delete_provider {E = GatewayError} "primary" catalog ≡ err (default_in_use "primary" "openai")
unfolding delete_provider remove_first default_user trim_space is_space
default_is_kept = refl

spare_deleted : delete_provider {E = GatewayError} " spare " catalog ≡ ok catalog_without_spare
unfolding delete_provider remove_first default_user route_user targets_use trim_space is_space
spare_deleted = refl

abbrev ask : Request
ask = record { protocol = ""; operation = "chat"; model = "portable" }

abbrev world : List Bool → World
world faults = record {
  stored = catalog;
  router = record { snapshot = none };
  credentials = ("primary", "secret") ∷ [];
  faults = faults;
}

validate_iff_example : (validate parse_url catalog ≡ ok tt) ↔ IsValid parse_url catalog
validate_iff_example = validate_iff parse_url catalog

validate-resolve_example :
    let (ts, ds, rs) = routing_inputs catalog (("primary", "secret") ∷ []) in
    ((replace_protocols ts ds rs (record { snapshot = none })).1 ≡ none)
    × (plan : Plan) × (resolve (replace_protocols ts ds rs (record { snapshot = none })).0 ask
        ≡ ok plan)
    × (plan.requested_model ≡ "portable")
    × CallAll catalog (("primary", "secret") ∷ []) "portable" portable plan.attempts
unfolding lookup
validate-resolve_example =
    validate-resolve parse_url catalog (("primary", "secret") ∷ []) (record { snapshot = none }) ask
      portable catalog_accepted IsUnique-defaults IsUnique-routes refl

-- The database fails after the runtime took the new catalog: the old one is applied again.
update-Outcome_example :
    Outcome
      (gateway parse_url)
      as_read
      (λ w. as_read w.stored)
      (runtime parse_url)
      (IsServed parse_url)
      (gateway-Laws parse_url)
      parse_url
      (delete_provider "spare")
      (world (true ∷ []))
      (update parse_url
        (some (gateway parse_url))
        true
        (delete_provider "spare")
        (world (true ∷ [])))
update-Outcome_example =
    update-Outcome (gateway parse_url) as_read (λ w. as_read w.stored) (runtime parse_url)
      (IsServed parse_url) (gateway-Laws parse_url) parse_url true (delete_provider "spare")
      (world (true ∷ []))

delete_provider-IsValid_example :
    IsValid parse_url catalog_without_spare
    × ((j : String)
        → find_provider j catalog_without_spare.providers
          ≡ (if trim_space " spare " == j then none else find_provider j catalog.providers))
    × (catalog_without_spare.defaults ≡ catalog.defaults)
    × (catalog_without_spare.routes ≡ catalog.routes)
delete_provider-IsValid_example =
    delete_provider-IsValid GatewayError parse_url " spare " catalog catalog_without_spare
      catalog-IsValid spare_deleted

abbrev extra : Provider
extra = record { id = " extra"; protocol = "openai"; base_url = "https://c "; enabled = true }

abbrev extended : Snapshot
extended = record catalog {
  providers =
      primary
      ∷ spare
      ∷ record { id = "extra"; protocol = "openai"; base_url = "https://c"; enabled = true }
      ∷ [];
}

extra_created : create_provider {E = GatewayError} extra catalog ≡ ok extended
unfolding create_provider has_provider trim_space is_space
extra_created = refl

create_provider-IsValid_example :
    (extended ≡ record catalog { providers = primary ∷ spare ∷ trimmed extra ∷ [] })
    × (find_provider (trim_space " extra") catalog.providers ≡ none)
    × (IsValid parse_url extended ↔ ProviderOk parse_url (trimmed extra))
create_provider-IsValid_example =
    create_provider-IsValid GatewayError parse_url extra catalog extended catalog-IsValid
      extra_created

-- Providers come back by ID, whatever the order in which they were stored.
reads_by_id :
    load_catalog parse_url
      (record (world []) { stored = record catalog { providers = spare ∷ primary ∷ [] } })
    ≡ ok catalog
unfolding load_catalog order_by_id insert_by_id validate check_providers check_provider
    validate_base_url check_defaults check_default check_routes check_targets check_target lookup
    insert has_key is_known_protocol trim_space is_space
reads_by_id = refl

abbrev primary_off : Snapshot
primary_off = record catalog { providers = record primary { enabled = false } ∷ spare ∷ [] }

abbrev after_deletion : World
after_deletion =
    (update parse_url (some (gateway parse_url)) true (delete_provider "spare") (world [])).1
