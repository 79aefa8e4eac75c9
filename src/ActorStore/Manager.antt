-- ===== src/ActorStore/Manager.antt =====
-- internal/actorstore/manager.go: the actors' stores by DID. An actor that is open is in the cache and
-- on disk, and one that was never opened has neither, so the stores are one list. The lock of a
-- DID makes the calls of WithLock follow one another, as the calls of `with_lock` do here.
use text.Mathlib.Text.{find?}
use robby.Prelude.{
  String, Bool, true, false, ◌&&◌, ◌||◌, not, Option, none, some, List, [], ◌∷◌, ◌++◌, ◌==◌,
  string_eq, if◌then◌else◌, Result, err, Exec, select_one, update, some_row,
}
use robby.ActorStore.Rows.{ActorStore, empty_db}

abbrev contains : String → String → Bool
contains text part = elim (find? text part) [ none ↦ false | some at ↦ true ]

-- `parse_did` is whether indigo's syntax.ParseDID accepts.
unfoldable pub valid_did : (String → Bool) → String → Bool
valid_did parse_did did =
    parse_did did
    && not (contains did "/" || contains did "\\" || did == "." || did == ".." || contains did "..")

abbrev pub of_did : String → ActorStore → Bool
of_did did s = s.did == did

abbrev pub new_store : String → ActorStore
new_store did = record { did = did; db = empty_db; files = [] }

-- The stores after Manager.Get opened the DID's.
unfoldable pub opened : String → List ActorStore → List ActorStore
opened did stores = if some_row (of_did did) stores then stores else stores ++ new_store did ∷ []

abbrev pub store_or_new : String → Option ActorStore → ActorStore
store_or_new did none = new_store did
store_or_new did (some s) = s

unfoldable pub find_store : String → List ActorStore → ActorStore
find_store did stores = store_or_new did (select_one (of_did did) stores)

-- Manager.GetExisting: a DID without a store gets none.
unfoldable pub get_existing : (String → Bool) → String → List ActorStore → Option ActorStore
get_existing parse_did did stores =
    if valid_did parse_did did then select_one (of_did did) stores else none

-- Manager.WithLock; `invalid` is the error on a DID that is not valid.
unfoldable pub with_lock :
    {E A : Type 0}
    → (String → Bool)
    → E
    → String
    → (ActorStore → Result E A × ActorStore)
    → Exec (List ActorStore) E A
with_lock parse_did invalid did fn stores =
    if valid_did parse_did did
    then (let (res, s) = fn (find_store did stores) in
        (res, update (of_did did) (λ _. s) (opened did stores)))
    else (err invalid, stores)
