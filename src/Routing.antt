-- ===== src/Routing.antt =====
-- internal/application/routing/router.go: the routing table and its immutable snapshots.
-- A map is an association list, visited by `range` in the order of the list; a context is unused.
pub mod Built
pub mod Accepts
pub mod Resolved
mod Tests
use kokekokkor.Common.{
  String, ℕ, Bool, true, false, not, ◌&&◌, ◌||◌, Option, none, some, List, [], ◌∷◌, ◌++◌, Result,
  ok, err, ◌>>=◌, ◌==◌, string_eq, if◌then◌else◌,
}
use kokekokkor.Common.Map.{Map, lookup, insert}
use kokekokkor.Provider.{Protocol, protocol_open_ai, Target, effective_protocol, is_known_protocol}

-- The sentinel errors, each with what its message names.
pub data RouteError : Type 0 where
  no_route invalid_provider_id : RouteError
  duplicate_provider unknown_provider : String → RouteError
  invalid_protocol : Protocol → RouteError
  default_mismatch : Protocol → String → Protocol → RouteError
  empty_model : RouteError
  no_targets empty_provider : String → RouteError

pub record Request : Type 0 where
  pub protocol : Protocol
  pub operation : String
  pub model : String

pub record RouteTarget : Type 0 where
  pub provider_id : String
  pub model : String

pub record Attempt : Type 0 where
  pub target : Target
  pub model : String

pub record Plan : Type 0 where
  pub requested_model : String
  pub attempts : List Attempt

pub record Snapshot : Type 0 where
  pub providers : Map String Target
  pub model_routes : Map String (List RouteTarget)
  pub default_provider_ids : Map Protocol String

-- The atomic pointer: `none` before the first `Replace`.
pub record Table : Type 0 where
  pub snapshot : Option Snapshot

abbrev is_nil {ℓ} : {A : Type ℓ} → List A → Bool
is_nil [] = true
is_nil (_ ∷ _) = false

-- The three loops of `buildSnapshot`, each over the map that it fills.
unfoldable pub build_providers :
    List Target → Map String Target → Result RouteError (Map String Target)
build_providers [] providers = ok providers
build_providers (t ∷ ts) providers =
    let protocol = effective_protocol t in
    let rest = build_providers ts (insert t.id (record t { protocol = protocol }) providers) in
    if t.id == "" then err invalid_provider_id else elim (lookup t.id providers) [
      | some _ ↦ err (duplicate_provider t.id)
      | none ↦ if is_known_protocol protocol then rest else err (invalid_protocol protocol)
    ]

module _ (providers : Map String Target) where
  -- The checks on one default; `ok` where the loop body reaches its last line.
  unfoldable pub check_default : Protocol → String → Result RouteError (Unit {0})
  check_default protocol provider_id =
      if is_known_protocol protocol
      then elim (lookup provider_id providers) [
        | none ↦ err (unknown_provider provider_id)
        | some target ↦
            if target.protocol == protocol
            then ok tt
            else err (default_mismatch protocol provider_id target.protocol)
      ]
      else err (invalid_protocol protocol)

  unfoldable pub build_defaults :
      Map Protocol String → Map Protocol String → Result RouteError (Map Protocol String)
  build_defaults [] defaults = ok defaults
  build_defaults ((protocol, provider_id) ∷ rest) defaults =
      let skipped = build_defaults rest defaults in
      let stored = build_defaults rest (insert protocol provider_id defaults) in
      if provider_id == "" then skipped else check_default protocol provider_id >>= λ _. stored

  unfoldable pub check_targets : String → List RouteTarget → Result RouteError (Unit {0})
  check_targets model [] = ok tt
  check_targets model (t ∷ ts) =
      let rest = check_targets model ts in
      if t.provider_id == ""
      then err (empty_provider model)
      else elim (lookup t.provider_id providers) [
        | none ↦ err (unknown_provider t.provider_id)
        | some _ ↦ rest
      ]

  unfoldable pub check_route : String → List RouteTarget → Result RouteError (Unit {0})
  check_route model route =
      if model == ""
      then err empty_model
      else if is_nil route
      then err (no_targets model)
      else check_targets model route

  unfoldable pub build_routes :
      Map String (List RouteTarget)
      → Map String (List RouteTarget)
      → Result RouteError (Map String (List RouteTarget))
  build_routes [] routes = ok routes
  build_routes ((model, route) ∷ rest) routes =
      let stored = build_routes rest (insert model route routes) in
      check_route model route >>= λ _. stored

unfoldable pub build_snapshot :
    List Target → Map Protocol String → Map String (List RouteTarget) → Result RouteError Snapshot
build_snapshot targets default_provider_ids model_routes = do
  providers ← build_providers targets []
  defaults ← build_defaults providers default_provider_ids []
  routes ← build_routes providers model_routes []
  ok (record { providers = providers; model_routes = routes; default_provider_ids = defaults })

-- `ReplaceProtocols` returns the table that readers see next, with the error if there is one.
unfoldable pub replace_protocols :
    List Target
    → Map Protocol String
    → Map String (List RouteTarget)
    → Table
    → Table × Option RouteError
replace_protocols targets default_provider_ids model_routes r =
    elim (build_snapshot targets default_provider_ids model_routes) [
      | ok next ↦ (record r { snapshot = some next }, none)
      | err e ↦ (r, some e)
    ]

-- The default map that `Replace` and `NewTable` make of one provider ID.
unfoldable pub open_ai_default : String → Map Protocol String
open_ai_default default_provider_id =
    if default_provider_id == "" then [] else insert protocol_open_ai default_provider_id []

unfoldable pub replace :
    List Target → String → Map String (List RouteTarget) → Table → Table × Option RouteError
unfolding open_ai_default
replace targets default_provider_id =
    replace_protocols targets (open_ai_default default_provider_id)

unfoldable pub new_protocol_table :
    List Target → Map Protocol String → Map String (List RouteTarget) → Result RouteError Table
unfolding replace_protocols
new_protocol_table targets default_provider_ids model_routes =
    let (router, failed) =
      replace_protocols targets default_provider_ids model_routes (record { snapshot = none }) in
    elim failed [ some e ↦ err e | none ↦ ok router ]

unfoldable pub new_table :
    List Target → String → Map String (List RouteTarget) → Result RouteError Table
unfolding new_protocol_table open_ai_default
new_table targets default_provider_id =
    new_protocol_table targets (open_ai_default default_provider_id)

-- The loop of `Resolve` over a route; the appended attempts come back in route order.
unfoldable pub attempts_of :
    Map String Target → String → List RouteTarget → Result RouteError (List Attempt)
attempts_of providers requested [] = ok []
attempts_of providers requested (t ∷ ts) =
    let rest = attempts_of providers requested ts in
    elim (lookup t.provider_id providers) [
      | none ↦ err (unknown_provider t.provider_id)
      | some target ↦ do
        more ← rest
        ok (record { target = target; model = if t.model == "" then requested else t.model } ∷ more)
    ]

unfoldable pub request_protocol : Request → Protocol
request_protocol request = if request.protocol == "" then protocol_open_ai else request.protocol

unfoldable pub resolve_default : Snapshot → Request → Result RouteError Plan
resolve_default current request =
    elim (lookup (request_protocol request) current.default_provider_ids) [
      | none ↦ err no_route
      | some default_provider_id ↦
          if default_provider_id == ""
          then err no_route
          else elim (lookup default_provider_id current.providers) [
            | none ↦ err (unknown_provider default_provider_id)
            | some target ↦ ok (record {
              requested_model = request.model;
              attempts = record { target = target; model = request.model } ∷ [];
            })
          ]
    ]

-- The route that a request selects, if its model names one.
unfoldable pub selected_route : Snapshot → Request → Option (List RouteTarget)
selected_route current request =
    if request.model == "" then none else lookup request.model current.model_routes

unfoldable pub resolve_in : Snapshot → Request → Result RouteError Plan
resolve_in current request = elim (selected_route current request) [
  | some route ↦ do
    attempts ← attempts_of current.providers request.model route
    ok (record { requested_model = request.model; attempts = attempts })
  | none ↦ resolve_default current request
]

unfoldable pub resolve : Table → Request → Result RouteError Plan
resolve r request = elim r.snapshot [
  | none ↦ err no_route
  | some current ↦ resolve_in current request
]

unfoldable pub ready : Table → Bool
ready r = elim r.snapshot [
  | none ↦ false
  | some current ↦
      not (is_nil current.providers)
      && (not (is_nil current.default_provider_ids) || not (is_nil current.model_routes))
]
