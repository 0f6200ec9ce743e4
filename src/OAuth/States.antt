-- ===== src/OAuth/States.antt =====
-- internal/application/oauth/state_memory.go: the pending authorizations in memory.
-- The clock's reading is an argument; an entry of the map is visited in the list's order.
use kokekokkor.Common.{
  String, ℕ, Bool, not, ◌&&◌, none, some, [], length, Result, ok, err, leb, ltb, ◌==◌, string_eq,
  ℕ_eq, if◌then◌else◌,
}
use kokekokkor.Common.Expiring.{prune, evict_oldest as evict}
use kokekokkor.Common.Map.{Map, lookup, has_key, insert, delete}
use kokekokkor.OAuth.{PendingAuthorization}

abbrev pub max_pending_states : ℕ
max_pending_states = 1024

pub data StateError : Type 0 where
  state_not_found state_expired : StateError

pub record MemoryStates : Type 0 where
  pub items : Map String PendingAuthorization
  pub max_items : ℕ

abbrev pub new_states : MemoryStates
new_states = record { items = []; max_items = max_pending_states }

unfoldable pub is_expired : ℕ → PendingAuthorization → Bool
is_expired now p = not (p.expires_at == 0) && not (ltb now p.expires_at)

abbrev pub prune_expired : ℕ → Map String PendingAuthorization → Map String PendingAuthorization
prune_expired now = prune (is_expired now)

abbrev pub evict_oldest : Map String PendingAuthorization → Map String PendingAuthorization
evict_oldest = evict λ p. p.created_at

unfoldable pub put : ℕ → PendingAuthorization → MemoryStates → MemoryStates
unfolding prune evict is_expired
put now pending r =
    let items = prune_expired now r.items in
    let full =
      not (has_key pending.state items) && ltb 0 r.max_items && leb r.max_items (length items) in
    let room = if full then evict_oldest items else items in
    record r { items = insert pending.state pending room }

unfoldable pub consume :
    ℕ → String → MemoryStates → Result StateError PendingAuthorization × MemoryStates
consume now state r = elim (lookup state r.items) [
  | none ↦ (err state_not_found, r)
  | some pending ↦
      let left = record r { items = delete state r.items } in
      if is_expired now pending then (err state_expired, left) else (ok pending, left)
]
