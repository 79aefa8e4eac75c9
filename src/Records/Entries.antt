-- ===== src/Records/Entries.antt =====
-- internal/xrpc/repo.go: the entries of applyWrites, and the parsing of a record.
use robby.Prelude.{
  String, Option, none, some, List, [], ◌∷◌, ◌==◌, string_eq, if◌then◌else◌, Result, ok, err,
  from_option,
}
use robby.Prelude.Results.{◌>>=◌}
use robby.Session.Principal.{HttpError}
use robby.Repo.Batch.{WriteOp, action_create, action_update, action_delete}
use robby.Migration.Car.{bad_request}

-- One entry of applyWrites, decoded; `write_type` is its "$type".
pub record WriteEntry : Type 0 where
  pub write_type : String
  pub collection : String
  pub rkey : String
  pub value : String

unfoldable pub action_of : String → Option String
action_of t =
    if t == "com.atproto.repo.applyWrites#create"
    then some action_create
    else if t == "com.atproto.repo.applyWrites#update"
    then some action_update
    else if t == "com.atproto.repo.applyWrites#delete"
    then some action_delete
    else none

-- `unmarshal_json` is atdata.UnmarshalJSON.
unfoldable pub parse_record : {R : Type 0} → (String → Option R) → String → Option R
parse_record unmarshal_json raw = if raw == "" then none else unmarshal_json raw

-- The record of an entry that is no deletion.
abbrev pub entry_value :
    {R : Type 0} → (String → Option R) → String → String → Result HttpError (Option R)
entry_value unmarshal_json action raw =
    if action == action_delete
    then ok none
    else elim (parse_record unmarshal_json raw) [ none ↦ err bad_request | some v ↦ ok (some v) ]

-- The loop over the entries of applyWrites; `none` is an entry that does not decode.
unfoldable pub ops_of :
    {R : Type 0}
    → (String → Option R)
    → List (Option WriteEntry)
    → Result HttpError (List (WriteOp R))
ops_of unmarshal_json [] = ok []
ops_of unmarshal_json (none ∷ rest) = err bad_request
ops_of unmarshal_json (some head ∷ rest) = do
  action ← from_option (action_of head.write_type) bad_request
  value ← entry_value unmarshal_json action head.value
  ops ← ops_of unmarshal_json rest
  ok (
      record { action = action; collection = head.collection; rkey = head.rkey; entry = value }
      ∷ ops)
