-- ===== src/Routing/Tests.antt =====
-- Runs of the router on two providers, and its theorems at those inputs.
use kokekokkor.Common.{String, ◌≡◌, ◌≢◌, ◌↔◌, refl, none, some, List, [], ◌∷◌, ok, err, string_eq}
use kokekokkor.Common.Map.{Map, lookup, insert}
use kokekokkor.Provider.{Protocol, Target, effective_protocol, is_known_protocol}
use kokekokkor.Routing.{
  no_route, duplicate_provider, default_mismatch, RouteTarget, Request, Plan, Snapshot,
  build_providers, check_default, build_defaults, check_targets, check_route, build_routes,
  build_snapshot, replace_protocols, resolve, request_protocol, selected_route, resolve_in,
  attempts_of,
}
use kokekokkor.Routing.Built.{IsBuilt, build_snapshot-IsBuilt}
use kokekokkor.Routing.Resolved.{
  Inputs, replace_all, ServeAll, replace_all-IsBuilt, resolve_in_route, resolve_in_fails_iff,
}

abbrev primary : Target
primary = record { id = "primary"; protocol = ""; base_url = "https://a.example"; api_key = "k1" }

abbrev claude : Target
claude = record {
  id = "claude";
  protocol = "anthropic";
  base_url = "https://b.example";
  api_key = "k2";
}

abbrev targets : List Target
targets = primary ∷ claude ∷ []

abbrev defaults : Map Protocol String
defaults = ("openai", "primary") ∷ []

abbrev portable : List RouteTarget
portable =
    record { provider_id = "claude"; model = "claude-upstream" }
    ∷ record { provider_id = "primary"; model = "" }
    ∷ []

abbrev routes : Map String (List RouteTarget)
routes = ("portable", portable) ∷ []

abbrev snapshot : Snapshot
snapshot = record {
  providers = ("primary", record primary { protocol = "openai" }) ∷ ("claude", claude) ∷ [];
  model_routes = routes;
  default_provider_ids = defaults;
}

abbrev ask : String → Request
ask model = record { protocol = ""; operation = "chat"; model = model }

built : build_snapshot targets defaults routes ≡ ok snapshot
unfolding build_snapshot build_providers build_defaults build_routes check_default check_route
    check_targets lookup insert effective_protocol is_known_protocol
built = refl

duplicate : build_snapshot (primary ∷ primary ∷ []) [] [] ≡ err (duplicate_provider "primary")
unfolding build_snapshot build_providers lookup insert effective_protocol is_known_protocol
duplicate = refl

mismatch :
    build_snapshot targets (("gemini", "claude") ∷ []) []
    ≡ err (default_mismatch "gemini" "claude" "anthropic")
unfolding build_snapshot build_providers build_defaults check_default lookup insert
    effective_protocol is_known_protocol
mismatch = refl

portable_plan :
    resolve (record { snapshot = some snapshot }) (ask "portable")
    ≡ ok (record {
      requested_model = "portable";
      attempts =
          record { target = claude; model = "claude-upstream" }
          ∷ record { target = record primary { protocol = "openai" }; model = "portable" }
          ∷ [];
    })
unfolding resolve resolve_in selected_route attempts_of lookup
portable_plan = refl

abbrev calls : List Inputs
calls = (targets, defaults, routes) ∷ (primary ∷ primary ∷ [], [], []) ∷ []

snapshot-IsBuilt : IsBuilt snapshot
snapshot-IsBuilt = build_snapshot-IsBuilt targets defaults routes snapshot built

build_snapshot-IsBuilt_example : IsBuilt snapshot
build_snapshot-IsBuilt_example = build_snapshot-IsBuilt targets defaults routes snapshot built

replace_all-IsBuilt_example : IsBuilt snapshot
unfolding replace_all replace_protocols build_snapshot build_providers build_defaults build_routes
    check_default check_route check_targets lookup insert effective_protocol is_known_protocol
replace_all-IsBuilt_example = replace_all-IsBuilt calls snapshot refl

resolve_in_route_example :
    (plan : Plan) × (resolve_in snapshot (ask "portable") ≡ ok plan)
    × (plan.requested_model ≡ "portable")
    × (plan.attempts ≢ [])
    × ServeAll snapshot.providers "portable" portable plan.attempts
unfolding selected_route lookup
resolve_in_route_example = resolve_in_route snapshot (ask "portable") snapshot-IsBuilt portable refl

resolve_in_fails_iff_example : (resolve_in snapshot (ask "gpt") ≡ err no_route) ↔ (
    (no_route ≡ no_route)
    × (selected_route snapshot (ask "gpt") ≡ none)
    × (lookup (request_protocol (ask "gpt")) snapshot.default_provider_ids ≡ none))
resolve_in_fails_iff_example = resolve_in_fails_iff snapshot (ask "gpt") snapshot-IsBuilt no_route
