-- ===== src/Records/Lookup.antt =====
-- internal/xrpc/repo.go: what getRecord and listRecords read of an actor's database.
use robby.Prelude.{ℕ, String, Bool, Option, List, [], ◌∷◌, map, Result, ok, from_option}
use robby.Prelude.Results.{◌>>=◌}
use robby.ActorStore.Rows.{ActorDb, RecordEntry}
use robby.ActorStore.Blocks.{get_block}
use robby.ActorStore.Records.{get_record_cid, list_records}
use robby.Session.Principal.{HttpError, xrpc}
use robby.Migration.Account.{record_uri, internal_error, limit_or, next_cursor}

pub record RecordOutput (R : Type 0) : Type 0 where
  pub uri : String
  pub cid : String
  pub value : R

pub record RecordsOutput (R : Type 0) : Type 0 where
  pub records : List (RecordOutput R)
  pub cursor : Option String

-- The query of listRecords; an absent cursor is empty.
pub record ListQuery : Type 0 where
  pub repo : String
  pub collection : String
  pub limit : Option ℕ
  pub reverse : Bool
  pub cursor : String

-- `unmarshal_record` is atdata.UnmarshalCBOR.
module _ {R : Type 0} (unmarshal_record : List ℕ → Option R) where
  -- The record's block, decoded.
  unfoldable pub read_record :
      String → String → String → String → ActorDb → Result HttpError (RecordOutput R)
  read_record did collection rkey c db = do
    blk ← from_option (get_block c db) internal_error
    value ← from_option (unmarshal_record blk.bytes) internal_error
    ok (record { uri = record_uri did collection rkey; cid = c; value = value })

  unfoldable pub get_record : String → String → String → ActorDb → Result HttpError (RecordOutput R)
  get_record did collection rkey db = do
    c ← from_option (get_record_cid collection rkey db) (xrpc 404 "RecordNotFound")
    read_record did collection rkey c db

  unfoldable pub read_entries :
      String → List RecordEntry → ActorDb → Result HttpError (List (RecordOutput R))
  read_entries did [] db = ok []
  read_entries did (e ∷ es) db = do
    out ← read_record did e.collection e.rkey e.cid db
    outs ← read_entries did es db
    ok (out ∷ outs)

  unfoldable pub list_page : String → ListQuery → ActorDb → Result HttpError (RecordsOutput R)
  list_page did q db =
      let limit = limit_or 50 100 q.limit in
      let entries = list_records q.collection q.cursor limit q.reverse db in
      do
        outs ← read_entries did entries db
        ok (record { records = outs; cursor = next_cursor limit (map (λ e. e.rkey) entries) })
