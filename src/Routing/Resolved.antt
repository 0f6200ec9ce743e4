-- ===== src/Routing/Resolved.antt =====
-- `Resolve` on the snapshots that `Replace` publishes: when it fails, and what its plans hold.
use kokekokkor.Common.{
  String, ◌≡◌, ◌≢◌, refl, ◌↔◌, inl, inr, none, some, List, [], ◌∷◌, ok, err, ◌==◌, string_eq,
  if◌then◌else◌, eq_iff, arith, All, Option-cases, Result-cases,
}
use kokekokkor.Common.Map.{Map, lookup}
use kokekokkor.Provider.{Protocol, Target}
use kokekokkor.Routing.{
  RouteError, no_route, Request, RouteTarget, Attempt, Plan, Snapshot, Table, build_snapshot,
  replace_protocols, attempts_of, request_protocol, resolve_default, selected_route, resolve_in,
}
use kokekokkor.Routing.Built.{TargetOk, IsBuilt, build_snapshot-IsBuilt}

-- One call of `ReplaceProtocols`: its three arguments.
abbrev pub Inputs : Type 0
Inputs = List Target × Map Protocol String × Map String (List RouteTarget)

-- The table after a sequence of calls, failed ones included.
unfoldable pub replace_all : List Inputs → Table → Table
replace_all [] r = r
replace_all ((ts, ds, rs) ∷ calls) r = replace_all calls (replace_protocols ts ds rs r).0

abbrev pub TableOk : Table → Type 0
TableOk r = (s : Snapshot) → r.snapshot ≡ some s → IsBuilt s

replace_protocols-TableOk :
    (ts : List Target) (ds : Map Protocol String) (rs : Map String (List RouteTarget)) (r : Table)
    → TableOk r
    → TableOk (replace_protocols ts ds rs r).0
unfolding replace_protocols
replace_protocols-TableOk ts ds rs r h s e = elim (Result-cases (build_snapshot ts ds rs)) [
  | inl (next, built) ↦
      let same : next ≡ s = ground arith in
      build_snapshot-IsBuilt ts ds rs s (ground (arith, built, same))
  | inr (failed, refused) ↦ h s (ground (arith, refused))
]

replace_all-TableOk : (calls : List Inputs) (r : Table) → TableOk r → TableOk (replace_all calls r)
unfolding replace_all
replace_all-TableOk [] r h = h
replace_all-TableOk ((ts, ds, rs) ∷ calls) r h =
    replace_all-TableOk calls _ (replace_protocols-TableOk ts ds rs r h)

abbrev pub empty_table : Table
empty_table = record { snapshot = none }

-- After any sequence of `ReplaceProtocols` calls on a new table, failed ones included, the
-- published snapshot, if there is one, is consistent (`IsBuilt`).
pub replace_all-IsBuilt :
    (calls : List Inputs) (s : Snapshot)
    → (replace_all calls empty_table).snapshot ≡ some s
    → IsBuilt s
replace_all-IsBuilt calls s e = replace_all-TableOk calls empty_table (λ t h. cc) s e

-- An attempt carries out its route target: the snapshot's provider, and the target's model or, if
-- it names none, the requested one.
abbrev pub Serves : Map String Target → String → RouteTarget → Attempt → Type 0
Serves providers requested r a =
    (lookup r.provider_id providers ≡ some a.target)
    × (a.model ≡ (if r.model == "" then requested else r.model))

-- Pointwise, in order.
abbrev pub ServeAll : Map String Target → String → List RouteTarget → List Attempt → Type 0
ServeAll providers requested [] [] = Unit {0}
ServeAll providers requested (r ∷ rs) (a ∷ as') =
    Serves providers requested r a × ServeAll providers requested rs as'
ServeAll providers requested _ _ = ⊥

attempts_of-ServeAll :
    (providers : Map String Target) (requested : String) (route : List RouteTarget)
    → All (TargetOk providers) route
    → (attempts : List Attempt) × (attempts_of providers requested route ≡ ok attempts)
      × ServeAll providers requested route attempts
unfolding attempts_of
attempts_of-ServeAll providers requested [] h = ([], refl, tt)
attempts_of-ServeAll providers requested (r ∷ rs) ((t, found), h) =
    let (more, e, served) = attempts_of-ServeAll providers requested rs h in
    (
      record { target = t; model = if r.model == "" then requested else r.model } ∷ more,
      rw (found, e, attempts_of),
      ((found, refl), served),
    )

ServeAll-ne-nil :
    (providers : Map String Target) (requested : String) (route : List RouteTarget)
    (attempts : List Attempt)
    → route ≢ []
    → ServeAll providers requested route attempts
    → attempts ≢ []
ServeAll-ne-nil providers requested [] attempts ne h = absurd (ne refl)
ServeAll-ne-nil providers requested (r ∷ rs) [] ne h = absurd h
ServeAll-ne-nil providers requested (r ∷ rs) (a ∷ as') ne h = λ e. cc

selected_lookup :
    (s : Snapshot) (req : Request) (route : List RouteTarget)
    → selected_route s req ≡ some route
    → lookup req.model s.model_routes ≡ some route
unfolding selected_route
selected_lookup s req route e = ground arith

module _ (s : Snapshot) (req : Request) (built : IsBuilt s) where
  -- On a consistent snapshot a request whose model has a route gets a plan that tries the route's
  -- targets, all of them and in the route's order.
  pub resolve_in_route :
      (route : List RouteTarget)
      → selected_route s req ≡ some route
      → (plan : Plan) × (resolve_in s req ≡ ok plan)
        × (plan.requested_model ≡ req.model)
        × (plan.attempts ≢ [])
        × ServeAll s.providers req.model route plan.attempts
  unfolding resolve_in
  resolve_in_route route e =
      let (named, nonempty, targets) =
        built.routes_ok req.model route (selected_lookup s req route e) in
      let (attempts, attempted, served) =
        attempts_of-ServeAll s.providers req.model route targets in
      (
        record { requested_model = req.model; attempts = attempts },
        rw (e, attempted, resolve_in),
        refl,
        ServeAll-ne-nil s.providers req.model route attempts nonempty served,
        served,
      )

  -- Without a route the plan is one attempt: the protocol's default provider, which speaks that
  -- protocol, asked for the requested model.
  resolve_in_default :
      (id : String)
      → selected_route s req ≡ none
      → lookup (request_protocol req) s.default_provider_ids ≡ some id
      → (t : Target) × (lookup id s.providers ≡ some t)
        × (t.protocol ≡ request_protocol req)
        × (resolve_in s req
            ≡ ok (record {
              requested_model = req.model;
              attempts = record { target = t; model = req.model } ∷ [];
            }))
  unfolding resolve_in resolve_default
  resolve_in_default id e d =
      let (named, t, found, speaks) = built.defaults_ok (request_protocol req) id d in
      (t, found, speaks, ground (arith, e, d, eq_iff id ""))

  -- On a consistent snapshot `Resolve` fails in one case only, with `ErrNoRoute`: the model has no
  -- route and the request's protocol has no default. It never meets an unknown provider.
  pub resolve_in_fails_iff :
      (e : RouteError)
      → (resolve_in s req ≡ err e) ↔ (
          (e ≡ no_route)
          × (selected_route s req ≡ none)
          × (lookup (request_protocol req) s.default_provider_ids ≡ none))
  unfolding resolve_in resolve_default
  resolve_in_fails_iff e = elim (Option-cases (selected_route s req)) [
    | inr (route, found) ↦
        let (plan, served, _, _, _) = resolve_in_route route found in ground (arith, found, served)
    | inl unrouted ↦ elim (Option-cases (lookup (request_protocol req) s.default_provider_ids)) [
      | inl missing ↦ ground (arith, unrouted, missing)
      | inr (id, found) ↦
          let (t, known, _, served) = resolve_in_default id unrouted found in
          ground (arith, unrouted, found, served)
    ]
  ]
