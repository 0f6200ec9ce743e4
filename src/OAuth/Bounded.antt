-- ===== src/OAuth/Bounded.antt =====
-- What Put and Consume of internal/application/oauth/state_memory.go keep.
use kokekokkor.Common.{
  String, ℕ, ◌≤◌, ◌<◌, ◌≡◌, refl, sym, ap, ◌∙◌, subst, true, false, not, ◌&&◌, some, length, All,
  All-map, leb, ltb, ◌==◌, string_eq, ℕ_eq, if◌then◌else◌, if_both, Bool-cases, Option-cases,
  ==-refl, ◌⊎◌, inl, inr, arith,
}
use kokekokkor.Common.Map.{
  Map, lookup, has_key, insert, delete, IsUnique, lookup-insert, insert-IsUnique, delete-IsUnique,
  length-insert_old, length-delete-le,
}
use kokekokkor.Common.Expiring.{
  prune-IsUnique, prune-All, length-prune, delete-All, insert-All, IsKeyed, evict_oldest-kept,
  length-insert-evict_oldest,
}
use kokekokkor.OAuth.{PendingAuthorization}
use kokekokkor.OAuth.States.{
  MemoryStates, new_states, is_expired, prune_expired, evict_oldest, put, consume,
}

-- Every entry stands under its own state, which is not empty.
abbrev Filed : String × PendingAuthorization → Type 0
Filed entry = (entry.1.state ≡ entry.0) × ((entry.0 == "") ≡ false)

abbrev pub IsFiled : Map String PendingAuthorization → Type 0
IsFiled = All Filed

pub record IsWell (r : MemoryStates) : Type 0 where
  pub unique : IsUnique r.items
  pub filed : IsFiled r.items
  pub limited : 0 < r.max_items
  pub bounded : length r.items ≤ r.max_items

-- What Put's room for the new entry keeps.
abbrev room_of :
    MemoryStates
    → PendingAuthorization
    → Map String PendingAuthorization
    → Map String PendingAuthorization
room_of r pending items =
    if not (has_key pending.state items) && ltb 0 r.max_items && leb r.max_items (length items)
    then evict_oldest items
    else items

-- A state that is filed stands under a key that is not empty.
IsFiled-IsKeyed : (items : Map String PendingAuthorization) → IsFiled items → IsKeyed items
IsFiled-IsKeyed = All-map Filed (λ entry. (entry.0 == "") ≡ false) λ entry h. h.1

length_room :
    (r : MemoryStates) (pending : PendingAuthorization) (items : Map String PendingAuthorization)
    → IsFiled items
    → 0 < r.max_items
    → length items ≤ r.max_items
    → length (insert pending.state pending (room_of r pending items)) ≤ r.max_items
length_room r pending items filed limited fits = elim (Bool-cases (has_key pending.state items)) [
  | inl there ↦
      let same = length-insert_old pending.state pending items there in
      rw there (omega (arith, same, fits))
  | inr new ↦
      let positive : ltb 0 r.max_items ≡ true = ground (arith, limited) in
      rw (new, positive)
        (length-insert-evict_oldest (λ p. p.created_at) pending.state pending items r.max_items
          (IsFiled-IsKeyed items filed) limited fits)
]

-- Put keeps the map well-formed and within its bound, and the new entry is found under its state.
pub put-IsWell :
    (now : ℕ) (pending : PendingAuthorization) (r : MemoryStates)
    → IsWell r
    → (pending.state == "") ≡ false
    → IsWell (put now pending r) × (lookup pending.state (put now pending r).items ≡ some pending)
unfolding put
put-IsWell now pending r well named =
    let items = prune_expired now r.items in
    let room = room_of r pending items in
    let unique = prune-IsUnique (is_expired now) r.items well.unique in
    let filed = prune-All (is_expired now) Filed r.items well.filed in
    let fewer = length-prune (is_expired now) r.items in
    let kept =
      if_both (λ m. IsUnique m × IsFiled m)
        (not (has_key pending.state items) && ltb 0 r.max_items && leb r.max_items (length items))
        (evict_oldest-kept (λ p. p.created_at) Filed items unique filed) (unique, filed) in
    (
      record {
        unique = insert-IsUnique pending.state pending room kept.0;
        filed = insert-All Filed pending.state pending room (refl, named) kept.1;
        limited = well.limited;
        bounded =
            length_room r pending items filed well.limited (omega (arith, fewer, well.bounded));
      },
      lookup-insert pending.state pending.state pending room ∙ (rw (==-refl pending.state)),
    )

consume_left :
    (now : ℕ) (state : String) (r : MemoryStates)
    → ((consume now state r).1 ≡ r)
      ⊎ ((consume now state r).1 ≡ record r { items = delete state r.items })
unfolding consume
consume_left now state r = elim (Option-cases (lookup state r.items)) [
  | inl absent ↦ inl (ground (arith, absent))
  | inr (pending, found) ↦ inr (ground (arith, found))
]

consume-IsWell :
    (now : ℕ) (state : String) (r : MemoryStates) → IsWell r → IsWell (consume now state r).1
consume-IsWell now state r well =
    let left : MemoryStates = record r { items = delete state r.items } in
    let left-IsWell : IsWell left = record {
      unique = delete-IsUnique state r.items well.unique;
      filed = delete-All Filed state r.items well.filed;
      limited = well.limited;
      bounded = omega (arith, length-delete-le state r.items, well.bounded);
    } in
    elim (consume_left now state r) [
      | inl same ↦ subst IsWell (sym same) well
      | inr taken ↦ subst IsWell (sym taken) left-IsWell
    ]

put-max_items :
    (now : ℕ) (pending : PendingAuthorization) (r : MemoryStates)
    → (put now pending r).max_items ≡ r.max_items
unfolding put
put-max_items now pending r = refl

consume-max_items :
    (now : ℕ) (state : String) (r : MemoryStates) → (consume now state r).1.max_items ≡ r.max_items
consume-max_items now state r = elim (consume_left now state r) [
  | inl same ↦ ap (λ s. s.max_items) same
  | inr taken ↦ ap (λ s. s.max_items) taken
]

-- What the calls make of a new repository, at any times; the states that are put are not empty.
pub data IsReached : MemoryStates → Type 0 where
  fresh : IsReached new_states
  after_put :
      (now : ℕ) (pending : PendingAuthorization) (r : MemoryStates)
      → (pending.state == "") ≡ false
      → IsReached r
      → IsReached (put now pending r)
  after_consume :
      (now : ℕ) (state : String) (r : MemoryStates)
      → IsReached r
      → IsReached (consume now state r).1

-- Whatever Put and Consume calls were made of a new repository, no state stands twice or under
-- another's name, and at most 1024 are held.
pub reached-IsWell : (r : MemoryStates) → IsReached r → IsWell r × (r.max_items ≡ 1024)
reached-IsWell r fresh =
    (record { unique = tt; filed = tt; limited = omega arith; bounded = omega arith }, refl)
reached-IsWell r (after_put now pending before named reached) =
    let (well, limit) = reached-IsWell before reached in
    ((put-IsWell now pending before well named).0, put-max_items now pending before ∙ limit)
reached-IsWell r (after_consume now state before reached) =
    let (well, limit) = reached-IsWell before reached in
    (consume-IsWell now state before well, consume-max_items now state before ∙ limit)
