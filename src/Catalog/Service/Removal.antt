-- ===== src/Catalog/Service/Removal.antt =====
-- `DeleteProvider` against validity: its guards keep a valid catalog valid.
use kokekokkor.Common.{
  String, false, ◌≡◌, ◌≢◌, refl, ◌∙◌, inl, inr, Option, none, some, List, [], ◌∷◌, ok, arith,
  Option-cases, Bool-cases, All, All-map, eq_iff, ◌==◌, string_eq, if◌then◌else◌,
}
use kokekokkor.Common.Map.{Map}
use kokekokkor.Common.Text.{trim_space}
use kokekokkor.Provider.{Protocol}
use kokekokkor.Routing.{RouteTarget}
use kokekokkor.Catalog.{Provider, Snapshot, Url}
use kokekokkor.Catalog.Valid.{
  find_provider, ProviderOk, HasDistinctIds, DefaultOk, TargetOk, RouteOk, IsValid,
}
use kokekokkor.Catalog.Service.{
  remove_first, default_user, targets_use, route_user, delete_provider,
}

module _ {ℓ} (P : Provider → Type ℓ) where
  remove_first-All :
      (id : String) (items kept : List Provider)
      → remove_first id items ≡ some kept
      → All P items
      → All P kept
  unfolding remove_first
  remove_first-All id [] kept e h = cc
  remove_first-All id (item ∷ items) kept e (p, h) = elim (Bool-cases (item.id == id)) [
    | inl here ↦ let same : items ≡ kept = ground (arith, here) in rw (← same) h
    | inr there ↦ elim (Option-cases (remove_first id items)) [
      | inl missing ↦ ground (arith, there, missing)
      | inr (rest, found) ↦
          let same : item ∷ rest ≡ kept = ground (arith, there, found) in
          rw (← same) (p, remove_first-All id items rest found h)
    ]
  ]

remove_first-HasDistinctIds :
    (id : String) (items kept : List Provider)
    → remove_first id items ≡ some kept
    → HasDistinctIds items
    → HasDistinctIds kept
unfolding remove_first
remove_first-HasDistinctIds id [] kept e h = cc
remove_first-HasDistinctIds id (item ∷ items) kept e (p, h) = elim (Bool-cases (item.id == id)) [
  | inl here ↦ let same : items ≡ kept = ground (arith, here) in rw (← same) h
  | inr there ↦ elim (Option-cases (remove_first id items)) [
    | inl missing ↦ ground (arith, there, missing)
    | inr (rest, found) ↦
        let same : item ∷ rest ≡ kept = ground (arith, there, found) in
        rw (← same) (
          remove_first-All (λ o. item.id ≢ o.id) id items rest found p,
          remove_first-HasDistinctIds id items rest found h,
        )
  ]
]

find_absent :
    (id : String) (items : List Provider)
    → All (λ o. id ≢ o.id) items
    → find_provider id items ≡ none
unfolding find_provider
find_absent id [] h = refl
find_absent id (item ∷ items) (ne, h) = ground (arith, eq_iff item.id id, find_absent id items h)

-- Removal takes away one ID and no other.
find_provider-remove_first :
    (id j : String) (items kept : List Provider)
    → remove_first id items ≡ some kept
    → HasDistinctIds items
    → find_provider j kept ≡ (if id == j then none else find_provider j items)
unfolding remove_first find_provider
find_provider-remove_first id j [] kept e h = cc
find_provider-remove_first id j (item ∷ items) kept e (p, h) = elim (Bool-cases (item.id == id)) [
  | inl here ↦
      let same : items ≡ kept = ground (arith, here) in
      let at_id : item.id ≡ id = (eq_iff item.id id).0 here in
      let gone : find_provider id items ≡ none = find_absent id items (rw at_id at p) in
      rw (← same) (ground (arith, at_id, gone, eq_iff id j, eq_iff item.id j, eq_iff item.id id))
  | inr there ↦ elim (Option-cases (remove_first id items)) [
    | inl missing ↦ ground (arith, there, missing)
    | inr (rest, found) ↦
        let same : item ∷ rest ≡ kept = ground (arith, there, found) in
        rw (← same) (
          ground (
            arith,
            find_provider-remove_first id j items rest found h,
            eq_iff id j,
            eq_iff item.id j,
            eq_iff item.id id,
          ))
  ]
]

default_user-none :
    (id : String) (ds : Map Protocol String)
    → default_user id ds ≡ none
    → All (λ d. (id == d.1) ≡ false) ds
unfolding default_user
default_user-none id [] e = tt
default_user-none id ((p, d) ∷ ds) e =
    (ground (arith, eq_iff d id, eq_iff id d), default_user-none id ds (ground arith))

targets_use-false :
    (id : String) (ts : List RouteTarget)
    → targets_use id ts ≡ false
    → All (λ t. (id == t.provider_id) ≡ false) ts
unfolding targets_use
targets_use-false id [] e = tt
targets_use-false id (t ∷ ts) e = (
  ground (arith, eq_iff t.provider_id id, eq_iff id t.provider_id),
  targets_use-false id ts (ground arith),
)

route_user-none :
    (id : String) (rs : Map String (List RouteTarget))
    → route_user id rs ≡ none
    → All (λ r. All (λ t. (id == t.provider_id) ≡ false) r.1) rs
unfolding route_user
route_user-none id [] e = tt
route_user-none id ((model, ts) ∷ rs) e =
    (targets_use-false id ts (ground arith), route_user-none id rs (ground arith))

All-both {ℓ κ μ} :
    {A : Type ℓ} (P : A → Type κ) (Q : A → Type μ) (xs : List A)
    → All P xs
    → All Q xs
    → All (λ x. P x × Q x) xs
All-both P Q [] h k = tt
All-both P Q (x ∷ xs) (p, h) (q, k) = ((p, q), All-both P Q xs h k)

-- The parts of a deletion that succeeds.
delete_provider_parts :
    (E : Type 0) (given : String) (s next : Snapshot)
    → delete_provider {E = E} given s ≡ ok next
    → (kept : List Provider) × (remove_first (trim_space given) s.providers ≡ some kept)
      × (default_user (trim_space given) s.defaults ≡ none)
      × (route_user (trim_space given) s.routes ≡ none)
      × (next ≡ record s { providers = kept })
unfolding delete_provider
delete_provider_parts E given s next e =
    elim (Option-cases (remove_first (trim_space given) s.providers)) [
      | inl missing ↦ ground (arith, missing)
      | inr (kept, found) ↦
          (kept, found, ground (arith, found), ground (arith, found), ground (arith, found))
    ]

-- Deleting a provider of a valid catalog, where `DeleteProvider` does not refuse, gives a valid
-- catalog: the guards on defaults and routes are enough. The provider is gone, every other ID finds
-- what it found before, and defaults and routes are as they were.
pub delete_provider-IsValid :
    (E : Type 0) (parse_url : String → Option Url) (given : String) (s next : Snapshot)
    → IsValid parse_url s
    → delete_provider {E = E} given s ≡ ok next
    → IsValid parse_url next
      × ((j : String)
          → find_provider j next.providers
            ≡ (if trim_space given == j then none else find_provider j s.providers))
      × (next.defaults ≡ s.defaults)
      × (next.routes ≡ s.routes)
delete_provider-IsValid E parse_url given s next valid e =
    let id = trim_space given in
    let (kept, removed, no_default, no_route, same) = delete_provider_parts E given s next e in
    let found : ((j : String)
        → find_provider j kept ≡ (if id == j then none else find_provider j s.providers)) =
      λ j. find_provider-remove_first id j s.providers kept removed valid.distinct in
    rw same (
      record {
        providers_ok =
            remove_first-All (ProviderOk parse_url) id s.providers kept removed valid.providers_ok;
        distinct = remove_first-HasDistinctIds id s.providers kept removed valid.distinct;
        defaults_ok =
            All-map _ _
              (λ d ((known, c, f, speaks, on), other).
                (known, c, found d.1 ∙ (rw other f), speaks, on))
              s.defaults
              (All-both (DefaultOk s.providers) _ s.defaults valid.defaults_ok
                (default_user-none id s.defaults no_default));
        routes_ok =
            All-map _ _
              (λ r ((named, some_target, g), others). (
                named,
                some_target,
                All-map _ _ (λ t ((c, f, on), other). (c, found t.provider_id ∙ (rw other f), on))
                    r.1 (All-both (TargetOk s.providers) _ r.1 g others),
              ))
              s.routes
              (All-both (RouteOk s.providers) _ s.routes valid.routes_ok
                (route_user-none id s.routes no_route));
      },
      found,
      refl,
      refl,
    )
