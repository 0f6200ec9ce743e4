-- ===== src/Catalog/Served.antt =====
-- From the catalog to the plan: what the router does after it was given a valid catalog.
use kokekokkor.Common.{
  String, true, ◌≡◌, ◌≢◌, ◌∙◌, inl, inr, Bool-cases, Option, none, some, List, [], ◌∷◌, ok, ◌==◌,
  string_eq, if◌then◌else◌, All, eq_iff, arith,
}
use kokekokkor.Common.Map.{Map, lookup, IsUnique}
use kokekokkor.Provider.{Target}
use kokekokkor.Routing.{
  RouteTarget, Request, Attempt, Plan, Table, replace_protocols, resolve, selected_route,
}
use kokekokkor.Routing
use kokekokkor.Routing.Accepts.{find_target, build_snapshot_complete}
use kokekokkor.Routing.Built.{build_snapshot-IsBuilt}
use kokekokkor.Routing.Resolved.{ServeAll, resolve_in_route}
use kokekokkor.Catalog.{Provider, Snapshot, Url, routing_targets, routing_inputs, validate}
use kokekokkor.Catalog.Valid.{find_provider, TargetOk, RouteOk, IsValid}
use kokekokkor.Catalog.Valid.Links.{validate_iff}
use kokekokkor.Catalog.Routable.{
  target_of, trim_nonempty, find_target-find_provider, routing_inputs-Acceptable,
}

-- An attempt calls the enabled provider that the catalog lists under the route target's ID, with
-- that provider's base URL and credential, for the target's model or the requested one.
abbrev pub Calls : Snapshot → Map String String → String → RouteTarget → Attempt → Type 0
Calls s credentials requested r a =
    (c : Provider) × (find_provider r.provider_id s.providers ≡ some c)
    × (c.enabled ≡ true)
    × (a.target ≡ target_of credentials c)
    × (a.model ≡ (if r.model == "" then requested else r.model))

abbrev pub CallAll :
    Snapshot → Map String String → String → List RouteTarget → List Attempt → Type 0
CallAll s credentials requested [] [] = Unit {0}
CallAll s credentials requested (r ∷ rs) (a ∷ more) =
    Calls s credentials requested r a × CallAll s credentials requested rs more
CallAll s credentials requested _ _ = ⊥

route_of :
    (items : List Provider) (rs : Map String (List RouteTarget)) (model : String)
    (route : List RouteTarget)
    → All (RouteOk items) rs
    → lookup model rs ≡ some route
    → RouteOk items (model, route)
unfolding lookup
route_of items [] model route g e = cc
route_of items ((m, r) ∷ rs) model route (good, g) e = elim (Bool-cases (m == model)) [
  | inl here ↦
      let same : r ≡ route = ground (arith, here) in rw (← ((eq_iff m model).0 here), ← same) good
  | inr there ↦ route_of items rs model route g (rw there at e)
]

module _ (parse_url : String → Option Url) (s : Snapshot) (credentials : Map String String)
    (valid : IsValid parse_url s) where
  CallAll-ServeAll :
      (providers : Map String Target) (requested : String) (route : List RouteTarget)
      (attempts : List Attempt)
      → ((id : String)
          → lookup id providers ≡ find_target id (routing_targets s.providers credentials))
      → All (TargetOk s.providers) route
      → ServeAll providers requested route attempts
      → CallAll s credentials requested route attempts
  CallAll-ServeAll providers requested [] [] found g h = tt
  CallAll-ServeAll providers requested [] (a ∷ more) found g h = h
  CallAll-ServeAll providers requested (r ∷ rs) [] found g h = h
  CallAll-ServeAll providers requested (r ∷ rs) (a ∷ more) found ((c, e, on), g) ((p, q), h) = (
    (
      c,
      e,
      on,
      ground (
        arith,
        p,
        found r.provider_id,
        find_target-find_provider parse_url credentials s.providers r.provider_id c
            valid.providers_ok e on,
      ),
      q,
    ),
    CallAll-ServeAll providers requested rs more found g h,
  )

selected_of :
    (next : Routing.Snapshot) (req : Request) (route : List RouteTarget)
    → lookup req.model next.model_routes ≡ some route
    → req.model ≢ ""
    → selected_route next req ≡ some route
unfolding selected_route
selected_of next req route e named = ground (arith, eq_iff req.model "")

-- When a catalog passes `Snapshot.Validate`, the router accepts the inputs that `routingInputs`
-- makes of it, whatever the table held before; and a request for a model that the catalog routes
-- then gets a plan with one attempt for each of the route's targets, in order, each of which calls
-- the enabled provider that the catalog names. The two maps have distinct keys, as Go maps do.
pub validate-resolve :
    (parse_url : String → Option Url) (s : Snapshot) (credentials : Map String String) (r : Table)
    (req : Request) (route : List RouteTarget)
    → validate parse_url s ≡ ok tt
    → IsUnique s.defaults
    → IsUnique s.routes
    → lookup req.model s.routes ≡ some route
    → let (ts, ds, rs) = routing_inputs s credentials in
      ((replace_protocols ts ds rs r).1 ≡ none)
      × (plan : Plan) × (resolve (replace_protocols ts ds rs r).0 req ≡ ok plan)
      × (plan.requested_model ≡ req.model)
      × CallAll s credentials req.model route plan.attempts
unfolding routing_inputs replace_protocols resolve
validate-resolve parse_url s credentials r req route accepted u v e =
    let valid = (validate_iff parse_url s).0 accepted in
    let (named, _, good) = route_of s.providers s.routes req.model route valid.routes_ok e in
    let (next, built, found, _, kept) =
      build_snapshot_complete (routing_targets s.providers credentials) s.defaults s.routes
        (routing_inputs-Acceptable parse_url credentials s valid u v) in
    let selected =
      selected_of next req route (kept req.model ∙ e) (trim_nonempty req.model named) in
    let (plan, resolved, same, _, served) =
      resolve_in_route next req
        (build_snapshot-IsBuilt (routing_targets s.providers credentials) s.defaults s.routes next
          built)
        route selected in
    (
      rw (built, replace_protocols),
      plan,
      rw (built, replace_protocols) resolved,
      same,
      CallAll-ServeAll parse_url s credentials valid next.providers req.model route plan.attempts
          found good served,
    )
