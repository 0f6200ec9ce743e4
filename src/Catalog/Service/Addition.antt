-- ===== src/Catalog/Service/Addition.antt =====
-- `CreateProvider` and `SetProviderEnabled` against validity.
use kokekokkor.Common.{
  String, true, false, ◌≡◌, ◌≢◌, refl, inl, inr, ◌↔◌, Option, none, some, List, [], ◌∷◌, ◌++◌, ok,
  arith, Option-cases, Bool-cases, All, All-map, All-append, eq_iff, ◌==◌, string_eq, or_else,
}
use kokekokkor.Common.Map.{Map}
use kokekokkor.Common.Text.{trim_space}
use kokekokkor.Provider.{Protocol}
use kokekokkor.Catalog.{Provider, Snapshot, Url, validate}
use kokekokkor.Catalog.Valid.{find_provider, ProviderOk, HasDistinctIds, DefaultOk, IsValid}
use kokekokkor.Catalog.Valid.Links.{validate_iff}
use kokekokkor.Catalog.Service.{
  has_provider, create_provider, default_user, change_first, set_provider_enabled,
}

find_provider-append :
    (id : String) (items more : List Provider)
    → find_provider id (items ++ more) ≡ or_else (find_provider id items) (find_provider id more)
unfolding find_provider
find_provider-append id [] more = refl
find_provider-append id (item ∷ items) more = ground (arith, find_provider-append id items more)

has_provider-false :
    (id : String) (items : List Provider)
    → has_provider id items ≡ false
    → All (λ o. o.id ≢ id) items
unfolding has_provider
has_provider-false id [] e = tt
has_provider-false id (o ∷ items) e =
    (ground (arith, eq_iff o.id id), has_provider-false id items (ground arith))

HasDistinctIds-append :
    (items : List Provider) (item : Provider)
    → HasDistinctIds items
    → All (λ o. o.id ≢ item.id) items
    → HasDistinctIds (items ++ item ∷ [])
HasDistinctIds-append [] item h k = (tt, tt)
HasDistinctIds-append (o ∷ items) item (p, h) (ne, k) = (
  All-append (λ q. o.id ≢ q.id) items (item ∷ []) p (ne, tt),
  HasDistinctIds-append items item h k,
)

-- The provider that `CreateProvider` adds.
abbrev pub trimmed : Provider → Provider
trimmed given = record given { id = trim_space given.id; base_url = trim_space given.base_url }

create_provider_parts :
    (E : Type 0) (given : Provider) (s next : Snapshot)
    → create_provider {E = E} given s ≡ ok next
    → All (λ o. o.id ≢ trim_space given.id) s.providers
      × (next ≡ record s { providers = s.providers ++ trimmed given ∷ [] })
unfolding create_provider
create_provider_parts E given s next e =
    elim (Bool-cases (has_provider (trim_space given.id) s.providers)) [
      | inl taken ↦ ground (arith, taken)
      | inr free ↦ (has_provider-false _ s.providers free, ground (arith, free))
    ]

find_fresh :
    (id : String) (items : List Provider)
    → All (λ o. o.id ≢ id) items
    → find_provider id items ≡ none
unfolding find_provider
find_fresh id [] h = refl
find_fresh id (item ∷ items) (ne, h) = ground (arith, eq_iff item.id id, find_fresh id items h)

find_older :
    (id : String) (items more : List Provider) (c : Provider)
    → find_provider id items ≡ some c
    → find_provider id (items ++ more) ≡ some c
find_older id items more c f = rw (find_provider-append id items more, f)

All-last :
    (P : Provider → Type 0) (items : List Provider) (item : Provider)
    → All P (items ++ item ∷ [])
    → P item
All-last P [] item h = h.0
All-last P (o ∷ items) item h = All-last P items item h.1

-- `CreateProvider` on a valid catalog refuses an ID that is taken; otherwise it appends the trimmed
-- provider, and the result is valid exactly when that provider passes the provider checks.
pub create_provider-IsValid :
    (E : Type 0) (parse_url : String → Option Url) (given : Provider) (s next : Snapshot)
    → IsValid parse_url s
    → create_provider {E = E} given s ≡ ok next
    → (next ≡ record s { providers = s.providers ++ trimmed given ∷ [] })
      × (find_provider (trim_space given.id) s.providers ≡ none)
      × (IsValid parse_url next ↔ ProviderOk parse_url (trimmed given))
create_provider-IsValid E parse_url given s next valid e =
    let item = trimmed given in
    let (fresh, same) = create_provider_parts E given s next e in
    let absent = find_fresh item.id s.providers fresh in
    (
      same,
      absent,
      rw same (
        λ v. All-last (ProviderOk parse_url) s.providers item v.providers_ok,
        λ good. record {
          providers_ok = All-append _ s.providers (item ∷ []) valid.providers_ok (good, tt);
          distinct = HasDistinctIds-append s.providers item valid.distinct fresh;
          defaults_ok =
              All-map _ _
                (λ d (known, c, f, speaks, on).
                  (known, c, find_older d.1 s.providers (item ∷ []) c f, speaks, on))
                s.defaults valid.defaults_ok;
          routes_ok =
              All-map _ _
                (λ r (named, some_target, g). (
                  named,
                  some_target,
                  All-map _ _
                      (λ t (c, f, on).
                        (c, find_older t.provider_id s.providers (item ∷ []) c f, on))
                      r.1 g,
                ))
                s.routes valid.routes_ok;
        },
      ),
    )

change_first_disabled :
    (id : String) (items changed : List Provider)
    → change_first (λ item. record item { enabled = false }) id items ≡ some changed
    → (c : Provider) × (find_provider id changed ≡ some c) × (c.enabled ≡ false)
unfolding change_first find_provider
change_first_disabled id [] changed e = cc
change_first_disabled id (item ∷ items) changed e = elim (Bool-cases (item.id == id)) [
  | inl here ↦
      let same : record item { enabled = false } ∷ items ≡ changed = ground (arith, here) in
      rw (← same) (record item { enabled = false }, rw here, refl)
  | inr there ↦
      elim (Option-cases (change_first (λ item. record item { enabled = false }) id items)) [
        | inl missing ↦ ground (arith, there, missing)
        | inr (rest, found) ↦
            let same : item ∷ rest ≡ changed = ground (arith, there, found) in
            let (c, f, off) = change_first_disabled id items rest found in
            rw (← same) (c, ground (arith, there, f), off)
      ]
]

set_provider_enabled_parts :
    (E : Type 0) (given : String) (s next : Snapshot)
    → set_provider_enabled {E = E} given false s ≡ ok next
    → (changed : List Provider) × (change_first
          (λ item. record item { enabled = false })
          (trim_space given)
          s.providers
        ≡ some changed)
      × (next ≡ record s { providers = changed })
unfolding set_provider_enabled
set_provider_enabled_parts E given s next e =
    elim (Option-cases
      (change_first (λ item. record item { enabled = false }) (trim_space given) s.providers)) [
        | inl missing ↦ ground (arith, missing)
        | inr (changed, found) ↦ (changed, found, ground (arith, found))
      ]

default_user-DefaultOk :
    (id : String) (p : Protocol) (items : List Provider) (ds : Map Protocol String)
    → default_user id ds ≡ some p
    → All (DefaultOk items) ds
    → (c : Provider) × (find_provider id items ≡ some c) × (c.enabled ≡ true)
unfolding default_user
default_user-DefaultOk id p items [] e h = cc
default_user-DefaultOk id p items ((q, d) ∷ ds) e ((known, c, f, speaks, on), h) =
    elim (Bool-cases (d == id)) [
      | inl here ↦ (c, rw (← ((eq_iff d id).0 here)) f, on)
      | inr there ↦ default_user-DefaultOk id p items ds (rw there at e) h
    ]

-- A provider that is a protocol's default cannot be disabled: `Validate` refuses what
-- `SetProviderEnabled` makes of a valid catalog.
pub set_provider_enabled-default :
    (E : Type 0) (parse_url : String → Option Url) (given : String) (s next : Snapshot)
    (p : Protocol)
    → default_user (trim_space given) s.defaults ≡ some p
    → set_provider_enabled {E = E} given false s ≡ ok next
    → validate parse_url next ≢ ok tt
set_provider_enabled-default E parse_url given s next p used e accepted =
    let (changed, disabled, same) = set_provider_enabled_parts E given s next e in
    let valid =
      (validate_iff parse_url (record s { providers = changed })).0 (rw same at accepted) in
    let (c, f, on) =
      default_user-DefaultOk (trim_space given) p changed s.defaults used valid.defaults_ok in
    let (d, g, off) = change_first_disabled (trim_space given) s.providers changed disabled in
    ground (arith, f, g, on, off)
