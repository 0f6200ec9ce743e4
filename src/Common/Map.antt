-- ===== src/Common/Map.antt =====
-- A Go map as an association list: the order of the list is the order in which `range` visits it.
use Prim.Native.Nat.{◌+◌, ◌≤◌}
use mathlib.Core.Path.{◌≡◌, refl}
use mathlib.Core.Bool.{Bool, true, false, ◌||◌}
use mathlib.Core.Option.{Option, none, some}
use mathlib.Core.List.{List, [], ◌∷◌, map}
use native.Mathlib.Omega.{arith}
use kokekokkor.Common.Tests.{KeyEq, ◌==◌, if◌then◌else◌}
use kokekokkor.Common.Lists.{length}

abbrev pub Map {ℓ κ} : Type ℓ → Type κ → Type (ℓ ⊔ κ)
Map K V = List (K × V)

module _ {ℓ κ} {K : Type ℓ} {V : Type κ} where
  abbrev pub keys : Map K V → List K
  keys = map λ p. p.0

  abbrev pub values : Map K V → List V
  values = map λ p. p.1

module _ {ℓ κ} {K : Type ℓ} {V : Type κ} ⦃e : KeyEq K⦄ where
  -- `m[k]`, with `none` for the second result `false`.
  unfoldable pub lookup : K → Map K V → Option V
  lookup sought [] = none
  lookup sought ((key, value) ∷ rest) = if key == sought then some value else lookup sought rest

  unfoldable pub has_key : K → Map K V → Bool
  has_key sought [] = false
  has_key sought ((key, value) ∷ rest) = key == sought || has_key sought rest

  -- `m[k] = v`: a key that is there keeps its place.
  unfoldable pub insert : K → V → Map K V → Map K V
  insert new value [] = (new, value) ∷ []
  insert new value ((key, old) ∷ rest) =
      if key == new then (new, value) ∷ rest else (key, old) ∷ insert new value rest

  unfoldable pub delete : K → Map K V → Map K V
  delete k [] = []
  delete k ((j, w) ∷ m) = let rest = delete k m in if j == k then rest else (j, w) ∷ rest

  -- No key stands twice, as in every Go map.
  abbrev pub IsUnique : Map K V → Type 0
  IsUnique [] = Unit {0}
  IsUnique ((k, v) ∷ m) = (has_key k m ≡ false) × IsUnique m

  pub lookup-insert :
      (new sought : K) (value : V) (m : Map K V)
      → lookup sought (insert new value m) ≡ (if new == sought then some value else lookup sought m)
  unfolding lookup insert
  lookup-insert new sought value [] = refl
  lookup-insert new sought value ((key, old) ∷ rest) = ground (
    arith,
    lookup-insert new sought value rest,
    e.same_iff key new,
    e.same_iff key sought,
    e.same_iff new sought,
  )

  pub lookup-delete :
      (k j : K) (m : Map K V) → lookup j (delete k m) ≡ (if k == j then none else lookup j m)
  unfolding lookup delete
  lookup-delete k j [] = ground arith
  lookup-delete k j ((i, w) ∷ m) =
      ground (arith, e.same_iff k j, e.same_iff i k, e.same_iff i j, lookup-delete k j m)

  pub has_key-lookup : (k : K) (m : Map K V) → has_key k m ≡ false → lookup k m ≡ none
  unfolding lookup has_key
  has_key-lookup k [] h = refl
  has_key-lookup k ((j, w) ∷ m) h = ground (arith, has_key-lookup k m)

  pub lookup-has_key : (k : K) (v : V) (m : Map K V) → lookup k m ≡ some v → has_key k m ≡ true
  unfolding lookup has_key
  lookup-has_key k v [] h = cc
  lookup-has_key k v ((j, w) ∷ m) h = ground (arith, lookup-has_key k v m)

  pub has_key-insert :
      (k j : K) (v : V) (m : Map K V) → has_key j (insert k v m) ≡ (k == j || has_key j m)
  unfolding has_key insert
  has_key-insert k j v [] = refl
  has_key-insert k j v ((i, w) ∷ m) =
      ground (arith, e.same_iff k j, e.same_iff i k, e.same_iff i j, has_key-insert k j v m)

  pub has_key-delete :
      (k j : K) (m : Map K V) → has_key j m ≡ false → has_key j (delete k m) ≡ false
  unfolding has_key delete
  has_key-delete k j [] h = refl
  has_key-delete k j ((i, w) ∷ m) h = ground (arith, has_key-delete k j m)

  pub insert-IsUnique : (k : K) (v : V) (m : Map K V) → IsUnique m → IsUnique (insert k v m)
  unfolding insert has_key
  insert-IsUnique k v [] u = (refl, tt)
  insert-IsUnique k v ((j, w) ∷ m) u =
      ground
        (arith, e.same_iff j k, e.same_iff k j, insert-IsUnique k v m u.1, has_key-insert k j v m)

  pub delete-IsUnique : (k : K) (m : Map K V) → IsUnique m → IsUnique (delete k m)
  unfolding delete
  delete-IsUnique k [] u = tt
  delete-IsUnique k ((j, w) ∷ m) u = ground (arith, delete-IsUnique k m u.1, has_key-delete k j m)

  pub length-delete-le : (k : K) (m : Map K V) → length (delete k m) ≤ length m
  unfolding delete
  length-delete-le k [] = omega arith
  length-delete-le k ((j, w) ∷ m) = ground (arith, length-delete-le k m)

  pub length-insert-le : (k : K) (v : V) (m : Map K V) → length (insert k v m) ≤ length m + 1
  unfolding insert
  length-insert-le k v [] = omega arith
  length-insert-le k v ((j, w) ∷ m) = ground (arith, length-insert-le k v m)

  -- A key that is there takes no new place, and one that leaves frees one.
  pub length-insert_old :
      (k : K) (v : V) (m : Map K V) → has_key k m ≡ true → length (insert k v m) ≡ length m
  unfolding insert has_key
  length-insert_old k v [] h = cc
  length-insert_old k v ((j, w) ∷ m) h = ground (arith, length-insert_old k v m)

  pub length-delete-lt :
      (k : K) (m : Map K V) → has_key k m ≡ true → length (delete k m) + 1 ≤ length m
  unfolding delete has_key
  length-delete-lt k [] h = cc
  length-delete-lt k ((j, w) ∷ m) h = ground (arith, length-delete-lt k m, length-delete-le k m)
