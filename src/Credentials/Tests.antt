-- ===== src/Credentials/Tests.antt =====
-- A store and a runtime that fail on a schedule, runs of the service on them, and its theorems there.
use kokekokkor.Common.{
  String, Bool, true, false, ◌≡◌, refl, Option, none, some, List, [], ◌∷◌, arith, string_eq,
  if◌then◌else◌, ◌==◌,
}
use kokekokkor.Common.Map.{Map, lookup, insert, delete, lookup-insert, lookup-delete}
use kokekokkor.Common.Text.{trim_space, is_space}
use kokekokkor.Credentials.{
  apply_failed, Repository, RuntimeApply, Service, persist_change, changed_values, rollback,
  update_with, update, set_api_key, delete_api_key,
}
use kokekokkor.Credentials.Agreement.{Laws, Outcome, set_api_key-Outcome, delete_api_key-Outcome}

record World : Type 0 where
  keys : Map String String
  served : Map String String
  faults : List Bool

abbrev failing : List Bool → Bool
failing [] = false
failing (f ∷ fs) = f

abbrev later : List Bool → List Bool
later [] = []
later (f ∷ fs) = fs

abbrev fault : Bool → Option String
fault true = some "fault"
fault false = none

abbrev step : World → World → World
step w done =
    if failing w.faults
    then record w { faults = later w.faults }
    else record done { faults = later w.faults }

abbrev store : Repository World String
store = record {
  put =
      λ id value w. (fault (failing w.faults), step w (record w { keys = insert id value w.keys }));
  remove = λ id w. (fault (failing w.faults), step w (record w { keys = delete id w.keys }));
}

abbrev serve : RuntimeApply World String
serve m w = (fault (failing w.faults), step w (record w { served = m }))

abbrev held : World → String → Option String
held w id = lookup id w.keys

abbrev runtime : World → Map String String
runtime w = w.served

abbrev Serves : Map String String → Map String String → Type 0
Serves m r = m ≡ r

store_write_done :
    (id : String) (value : Option String) (w : World) (j : String)
    → (persist_change store id value w).0 ≡ none
    → held (persist_change store id value w).1 j ≡ (if id == j then value else held w j)
unfolding persist_change
store_write_done id none w j e = ground (arith, lookup-delete id j w.keys)
store_write_done id (some v) w j e = ground (arith, lookup-insert id j v w.keys)

store_write_undone :
    (id : String) (value : Option String) (w : World) (e : String) (j : String)
    → (persist_change store id value w).0 ≡ some e
    → held (persist_change store id value w).1 j ≡ held w j
unfolding persist_change
store_write_undone id none w e j h = ground arith
store_write_undone id (some v) w e j h = ground arith

store_write_runtime :
    (id : String) (value : Option String) (w : World)
    → runtime (persist_change store id value w).1 ≡ runtime w
unfolding persist_change
store_write_runtime id none w = ground arith
store_write_runtime id (some v) w = ground arith

store-Laws : Laws store serve held runtime Serves
store-Laws = record {
  write_done = store_write_done;
  write_undone = store_write_undone;
  write_runtime = store_write_runtime;
  apply_done = λ m w e. ground arith;
  apply_undone = λ m w x e. ground arith;
  apply_held = λ m w j. ground arith;
}

abbrev service : Service World String
service = record { repository = some store; apply = some serve; values = ("openai", "old") ∷ [] }

abbrev world : List Bool → World
world faults = record {
  keys = ("openai", "old") ∷ [];
  served = ("openai", "old") ∷ [];
  faults = faults;
}

-- The runtime refuses: the store gets the old key back.
put_back :
    set_api_key "openai" " new " service (world (false ∷ true ∷ []))
    ≡ (some (apply_failed "fault" none), service, world [])
unfolding set_api_key update update_with persist_change changed_values rollback trim_space is_space
    lookup insert
put_back = refl

set_api_key-Outcome_example :
    Outcome store serve held runtime Serves store-Laws service.values "openai"
      (some "new")
      (set_api_key "openai" " new " service (world (false ∷ true ∷ [])))
unfolding trim_space is_space
set_api_key-Outcome_example =
    set_api_key-Outcome store serve held runtime Serves store-Laws service
      (world (false ∷ true ∷ [])) refl refl (λ j. refl, refl) "openai" " new "

delete_api_key-Outcome_example :
    Outcome store serve held runtime Serves store-Laws service.values "openai" none
      (delete_api_key "openai" service (world []))
unfolding trim_space is_space
delete_api_key-Outcome_example =
    delete_api_key-Outcome store serve held runtime Serves store-Laws service (world []) refl refl
      (λ j. refl, refl) "openai"
