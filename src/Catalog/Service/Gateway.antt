-- ===== src/Catalog/Service/Gateway.antt =====
-- internal/bootstrap/admin.go: the catalog service over the gateway's own parts, with the store's
-- transactional `Replace` (internal/persistence/sqlite/store.go) on one side and the routing table on
-- the other. Faults of the database come from a list, one entry for each write.
use kokekokkor.Common.{
  String, Bool, true, ◌≡◌, refl, sym, ◌∙◌, subst, inl, inr, Option, none, some, List, [], ◌∷◌,
  Result, ok, err, arith, Result-cases, Bool-cases, if_split, if◌then◌else◌, string_eq, ap, false,
}
use kokekokkor.Common.Map.{Map}
use kokekokkor.Provider.{Protocol, Target}
use kokekokkor.Routing.{RouteError, RouteTarget, Table, replace_protocols, build_snapshot}
use kokekokkor.Common.Text.{text_before, text_before-not}
use kokekokkor.Catalog.{
  Provider, Snapshot, CatalogError, Url, catalog_is_empty, routing_inputs, validate,
}
use kokekokkor.Catalog.Service.{Backend}
use kokekokkor.Catalog.Service.Atomic.{Laws}

pub data GatewayError : Type 0 where
  database_fault : GatewayError
  rejected : CatalogError → GatewayError
  route_error : RouteError → GatewayError

pub record World : Type 0 where
  pub stored : Snapshot
  pub router : Table
  pub credentials : Map String String
  pub faults : List Bool

-- `ORDER BY id`: SQLite compares the bytes of text.
unfoldable pub insert_by_id : Provider → List Provider → List Provider
insert_by_id p [] = p ∷ []
insert_by_id p (q ∷ items) =
    let rest = insert_by_id p items in if text_before q.id p.id then q ∷ rest else p ∷ q ∷ items

unfoldable pub order_by_id : List Provider → List Provider
unfolding insert_by_id
order_by_id [] = []
order_by_id (p ∷ items) = insert_by_id p (order_by_id items)

-- The catalog as it is read: the defaults and the routes are maps, the providers come by ID.
abbrev pub as_read : Snapshot → Snapshot
as_read s = record s { providers = order_by_id s.providers }

-- No provider stands before one with a smaller ID.
abbrev pub IsOrdered : List Provider → Type 0
IsOrdered [] = Unit
IsOrdered (p ∷ []) = Unit
IsOrdered (p ∷ q ∷ items) = (text_before q.id p.id ≡ false) × IsOrdered (q ∷ items)

-- What stands in front after an insertion: the new provider or the old first one.
insert_by_id-IsOrdered :
    (p : Provider) (items : List Provider) → IsOrdered items → IsOrdered (insert_by_id p items)
unfolding insert_by_id
insert_by_id-IsOrdered p [] o = tt
insert_by_id-IsOrdered p (q ∷ []) o =
    if_split IsOrdered (text_before q.id p.id) (λ after. (text_before-not q.id p.id after, tt))
      λ first. (first, tt)
insert_by_id-IsOrdered p (q ∷ r ∷ items) (fits, o) =
    let rest = insert_by_id-IsOrdered p (r ∷ items) o in
    if_split IsOrdered (text_before q.id p.id)
      (λ after. elim (Bool-cases (text_before r.id p.id)) [
        | inl further ↦
            let same : insert_by_id p (r ∷ items) ≡ r ∷ insert_by_id p items =
              rw (insert_by_id, further) refl in
            subst (λ l. IsOrdered (q ∷ l)) (sym same) (fits, subst IsOrdered same rest)
        | inr here ↦
            let same : insert_by_id p (r ∷ items) ≡ p ∷ r ∷ items = rw (insert_by_id, here) refl in
            subst (λ l. IsOrdered (q ∷ l)) (sym same)
              (text_before-not q.id p.id after, subst IsOrdered same rest)
      ])
      λ first. (first, (fits, o))

order_by_id-IsOrdered : (items : List Provider) → IsOrdered (order_by_id items)
unfolding order_by_id
order_by_id-IsOrdered [] = tt
order_by_id-IsOrdered (p ∷ items) =
    insert_by_id-IsOrdered p (order_by_id items) (order_by_id-IsOrdered items)

ordered_once : (items : List Provider) → IsOrdered items → order_by_id items ≡ items
unfolding order_by_id insert_by_id
ordered_once [] o = refl
ordered_once (p ∷ []) o = refl
ordered_once (p ∷ q ∷ items) (fits, o) =
    ap (insert_by_id p) (ordered_once (q ∷ items) o) ∙ rw (fits) refl

-- The next write's fault, and the list that is left; no entry is no fault.
abbrev next_fault : List Bool → Bool × List Bool
next_fault [] = (false, [])
next_fault (f ∷ fs) = (f, fs)

-- A replacement that fails leaves the table as it was.
replace_undone :
    (ts : List Target) (ds : Map Protocol String) (rs : Map String (List RouteTarget)) (r : Table)
    (e : RouteError)
    → (replace_protocols ts ds rs r).1 ≡ some e
    → (replace_protocols ts ds rs r).0 ≡ r
unfolding replace_protocols
replace_undone ts ds rs r e h = elim (Result-cases (build_snapshot ts ds rs)) [
  | inl (next, built) ↦ ground (arith, built)
  | inr (f, refused) ↦ ground (arith, refused)
]

abbrev route_fault : Option RouteError → Option GatewayError
route_fault none = none
route_fault (some e) = some (route_error e)

no_fault : (o : Option RouteError) → route_fault o ≡ none → o ≡ none
no_fault none h = refl
no_fault (some e) h = cc

a_fault :
    (o : Option RouteError) {x : GatewayError}
    → route_fault o ≡ some x
    → (e : RouteError) × (o ≡ some e)
a_fault none h = cc
a_fault (some e) h = (e, refl)

module _ (parse_url : String → Option Url) where
  -- `Store.Replace`: the catalog is validated, then written in one transaction.
  unfoldable pub store_replace : Snapshot → World → Option GatewayError × World
  store_replace s w =
      let (fault, faults) = next_fault w.faults in
      elim (validate parse_url s) [
        | err e ↦ (some (rejected e), w)
        | ok _ ↦ elim fault [
          | true ↦ (some database_fault, record w { faults = faults })
          | false ↦ (none, record w { faults = faults; stored = s })
        ]
      ]

  -- The closure that `resolveAdminHandler` gives the service.
  unfoldable pub runtime_apply : Snapshot → World → Option GatewayError × World
  runtime_apply s w =
      let (ts, ds, rs) = routing_inputs s w.credentials in
      let (router, failed) = replace_protocols ts ds rs w.router in
      (route_fault failed, record w { router = router })

  -- `Store.Load`: a catalog that is not empty must be valid.
  unfoldable pub load_catalog : World → Result GatewayError Snapshot
  unfolding order_by_id
  load_catalog w =
      let s = as_read w.stored in
      elim (validate parse_url s) [
        | ok _ ↦ ok s
        | err e ↦ if catalog_is_empty s then ok s else err (rejected e)
      ]

  load_catalog_stored : (w : World) (s : Snapshot) → load_catalog w ≡ ok s → s ≡ as_read w.stored
  unfolding load_catalog
  load_catalog_stored w s e = ground arith

  abbrev pub gateway : Backend World GatewayError
  gateway = record { load = load_catalog; persist = store_replace; apply = runtime_apply }

  -- What the runtime holds: the table with the credentials that it was built with.
  abbrev pub runtime : World → Table × Map String String
  runtime w = (w.router, w.credentials)

  -- The table is what `ReplaceProtocols` makes of the catalog, from some earlier table.
  abbrev pub IsServed : Snapshot → Table × Map String String → Type 0
  IsServed s r =
      let (ts, ds, rs) = routing_inputs s r.1 in
      (before : Table) × (replace_protocols ts ds rs before ≡ (r.0, none))

  pub gateway-Laws : Laws gateway as_read (λ w. as_read w.stored) runtime IsServed
  unfolding load_catalog store_replace runtime_apply
  gateway-Laws = record {
    kept_stored = λ w.
        ap (λ items. record (w.stored) { providers = items })
          (ordered_once (order_by_id (w.stored).providers)
            (order_by_id-IsOrdered (w.stored).providers));
    load_stored = λ w s e. load_catalog_stored w s e;
    persist_done = λ s w e. ground arith;
    persist_undone = λ s w x e. ground arith;
    persist_runtime = λ s w. ground arith;
    apply_done = λ s w e.
        let (ts, ds, rs) = routing_inputs s w.credentials in
        (w.router, λ i. ((replace_protocols ts ds rs w.router).0, no_fault _ e i));
    apply_undone = λ s w x e.
        let (ts, ds, rs) = routing_inputs s w.credentials in
        λ i. (replace_undone ts ds rs w.router (a_fault _ e).0 (a_fault _ e).1 i, w.credentials);
    apply_stored = λ s w. refl;
  }
