-- ===== src/Common/Expiring.antt =====
-- Maps whose entries expire and that hold a limited number of them: the pending authorizations of
-- internal/application/oauth/state_memory.go and the sessions of internal/transport/adminhttp/session.go.
use Prim.Native.Nat.{ℕ, ◌+◌, ◌≤◌, ◌<◌}
use Prim.Native.String.{String}
use mathlib.Core.Path.{◌≡◌, refl}
use mathlib.Core.Logic.{◌⊎◌, inl, inr}
use mathlib.Core.Bool.{Bool, true, false, ◌&&◌, ◌||◌}
use mathlib.Core.List.{[], ◌∷◌}
use native.Mathlib.Omega.{arith}
use text.Mathlib.TextEquality.{eq_iff}
use kokekokkor.Common.Tests.{
  leb, ltb, leb→le, leb-false, ◌==◌, string_eq, ℕ_eq, if◌then◌else◌, if_both, Bool-cases,
}
use kokekokkor.Common.Lists.{length, All}
use kokekokkor.Common.Text.{text_before}
use kokekokkor.Common.Map.{
  Map, has_key, insert, delete, IsUnique, delete-IsUnique, length-insert-le, length-delete-lt,
}

module _ {V : Type 0} (expired : V → Bool) where
  -- The loop that deletes what has expired.
  unfoldable pub prune : Map String V → Map String V
  prune [] = []
  prune ((key, value) ∷ items) =
      let rest = prune items in if expired value then rest else (key, value) ∷ rest

  has_key-prune :
      (k : String) (items : Map String V)
      → has_key k items ≡ false
      → has_key k (prune items) ≡ false
  unfolding has_key prune
  has_key-prune k [] h = refl
  has_key-prune k (entry ∷ items) h = ground (arith, has_key-prune k items)

  pub prune-IsUnique : (items : Map String V) → IsUnique items → IsUnique (prune items)
  unfolding prune
  prune-IsUnique [] u = tt
  prune-IsUnique ((k, p) ∷ items) u =
      if_both IsUnique (expired p) (prune-IsUnique items u.1)
        (has_key-prune k items u.0, prune-IsUnique items u.1)

  pub prune-All :
      (P : String × V → Type 0) (items : Map String V) → All P items → All P (prune items)
  unfolding prune
  prune-All P [] f = tt
  prune-All P ((k, p) ∷ items) f =
      if_both (All P) (expired p) (prune-All P items f.1) (f.0, prune-All P items f.1)

  pub length-prune : (items : Map String V) → length (prune items) ≤ length items
  unfolding prune
  length-prune [] = omega arith
  length-prune ((k, p) ∷ items) = ground (arith, length-prune items)

module _ {V : Type 0} (P : String × V → Type 0) where
  pub delete-All : (k : String) (items : Map String V) → All P items → All P (delete k items)
  unfolding delete
  delete-All k [] f = tt
  delete-All k ((j, p) ∷ items) f =
      if_both (All P) (j == k) (delete-All k items f.1) (f.0, delete-All k items f.1)

  -- The new entry takes the place of one with its key, whose key it has.
  pub insert-All :
      (k : String) (p : V) (items : Map String V)
      → P (k, p)
      → All P items
      → All P (insert k p items)
  unfolding insert
  insert-All k p [] e f = (e, tt)
  insert-All k p ((j, q) ∷ items) e f =
      if_both (All P) (j == k) (e, f.1) (f.0, insert-All k p items e f.1)

-- No entry stands under the empty key.
abbrev pub IsKeyed : {V : Type 0} → Map String V → Type 0
IsKeyed = All λ entry. (entry.0 == "") ≡ false

module _ {V : Type 0} (time_of : V → ℕ) where
  unfoldable pub is_older : String → V → String → ℕ → Bool
  is_older key value oldest time =
      oldest == "" || ltb (time_of value) time || time_of value == time && text_before key oldest

  -- The loop that looks for the oldest entry; "" while there is none.
  unfoldable pub oldest_from : String → ℕ → Map String V → String
  oldest_from oldest time [] = oldest
  oldest_from oldest time ((key, value) ∷ items) =
      let taken = oldest_from key (time_of value) items in
      let kept = oldest_from oldest time items in
      if is_older key value oldest time then taken else kept

  unfoldable pub evict_oldest : Map String V → Map String V
  evict_oldest items =
      let oldest = oldest_from "" 0 items in if oldest == "" then items else delete oldest items

  -- The oldest entry is one of the map's, once there is one.
  oldest_from-has_key :
      (oldest : String) (time : ℕ) (items : Map String V)
      → (oldest_from oldest time items ≡ oldest)
        ⊎ (has_key (oldest_from oldest time items) items ≡ true)
  unfolding oldest_from has_key
  oldest_from-has_key oldest time [] = inl refl
  oldest_from-has_key oldest time ((k, p) ∷ items) =
      let Found : String → Type 0 = λ s. (s ≡ oldest) ⊎ ((k == s || has_key s items) ≡ true) in
      let newer = oldest_from k (time_of p) items in
      if_both Found (is_older k p oldest time)
        (elim (oldest_from-has_key k (time_of p) items) [
          | inl same ↦ inr (ground (arith, same, eq_iff k newer))
          | inr there ↦ inr (ground (arith, there))
        ])
        (elim (oldest_from-has_key oldest time items) [
          | inl same ↦ inl same
          | inr there ↦ inr (ground (arith, there))
        ])

  has_key-named :
      (s : String) (items : Map String V)
      → IsKeyed items
      → has_key s items ≡ true
      → (s == "") ≡ false
  unfolding has_key
  has_key-named s [] f h = cc
  has_key-named s ((k, p) ∷ items) f h =
      ground (arith, f.0, h, eq_iff k s, eq_iff s "", eq_iff k "", has_key-named s items f.1)

  oldest_from-named :
      (items : Map String V)
      → IsKeyed items
      → 0 < length items
      → ((oldest_from "" 0 items == "") ≡ false) × (has_key (oldest_from "" 0 items) items ≡ true)
  unfolding oldest_from is_older has_key
  oldest_from-named [] f h = absurd (omega arith)
  oldest_from-named ((k, p) ∷ items) f h =
      let found = oldest_from-has_key k (time_of p) items in
      let s = oldest_from k (time_of p) items in
      ground (arith, found, f.0, eq_iff k s, eq_iff s "", has_key-named s items f.1)

  evict_oldest-lt :
      (items : Map String V)
      → IsKeyed items
      → 0 < length items
      → length (evict_oldest items) + 1 ≤ length items
  unfolding evict_oldest
  evict_oldest-lt items f h =
      let (named, there) = oldest_from-named items f h in
      let freed = length-delete-lt (oldest_from "" 0 items) items there in rw named freed

  pub evict_oldest-kept :
      (P : String × V → Type 0) (items : Map String V)
      → IsUnique items
      → All P items
      → IsUnique (evict_oldest items) × All P (evict_oldest items)
  unfolding evict_oldest
  evict_oldest-kept P items u f =
      let oldest = oldest_from "" 0 items in
      if_both (λ m. IsUnique m × All P m) (oldest == "") (u, f)
        (delete-IsUnique oldest items u, delete-All P oldest items f)

  -- A full map has room for one entry more once its oldest is gone.
  pub length-insert-evict_oldest :
      (key : String) (value : V) (items : Map String V) (limit : ℕ)
      → IsKeyed items
      → 0 < limit
      → length items ≤ limit
      → length (insert key value (if leb limit (length items) then evict_oldest items else items))
        ≤ limit
  length-insert-evict_oldest key value items limit keyed positive fits =
      elim (Bool-cases (leb limit (length items))) [
        | inl full ↦
            let some_items = leb→le limit (length items) full in
            let freed = evict_oldest-lt items keyed (omega (arith, some_items, positive)) in
            let added = length-insert-le key value (evict_oldest items) in
            rw (full) (omega (arith, added, freed, fits))
        | inr room ↦
            let added = length-insert-le key value items in
            let less = leb-false limit (length items) room in
            rw (room) (ground (arith, added, less))
      ]
