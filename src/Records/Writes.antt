-- ===== src/Records/Writes.antt =====
-- internal/xrpc/repo.go: createRecord, putRecord, deleteRecord and applyWrites.
use Prim.Native.String.{◌++◌ as append_text}
use robby.Prelude.{
  ℕ, String, Bool, not, ◌&&◌, Option, none, some, List, [], ◌∷◌, map, ◌==◌, string_eq,
  if◌then◌else◌, ok, is_ok, Exec, pure, reads, try_with, raise_if, result_or, from_option, ◌>>=◌,
  ◌>>◌,
}
use robby.ActorStore.Records.{get_record_cid}
use robby.Session.Principal.{HttpError, Env, Request}
use robby.Server.State.{Server, Syntax, Keys, reads_actor}
use robby.Server.Writes.{signing_key_for, write}
use robby.Repo.Indigo.{Indigo}
use robby.Repo.Batch.{WriteOp, WriteResult, action_create, action_update, action_delete}
use robby.Repo.Writer.{Written}
use robby.Records.Entries.{WriteEntry, parse_record, ops_of}
use robby.Repo.Errors.{write_write_error}
use robby.Repo.Owner.{require_own_repo}
use robby.Migration.Account.{record_uri, internal_error}
use robby.Migration.Car.{bad_request}

-- The body of createRecord and putRecord; `entry` is the raw JSON of the record.
pub record RecordInput : Type 0 where
  pub repo : String
  pub collection : String
  pub rkey : String
  pub entry : String

pub record RecordKeyInput : Type 0 where
  pub repo : String
  pub collection : String
  pub rkey : String

-- The answer to a write; a deletion has no URI and no CID.
pub record WriteOutput : Type 0 where
  pub uri : Option String
  pub cid : Option String
  pub commit_cid : String
  pub rev : String

pub record ApplyOutput : Type 0 where
  pub commit_cid : String
  pub rev : String
  pub results : List (String × Option String × Option String)

unfoldable pub write_output : String → Written → WriteResult → WriteOutput
write_output did w res =
    let deletion = res.action == action_delete in
    record {
      uri = if deletion then none else some (record_uri did res.collection res.rkey);
      cid = if deletion then none else res.cid;
      commit_cid = w.commit_cid;
      rev = w.commit.rev;
    }

unfoldable pub apply_result : String → WriteResult → String × Option String × Option String
apply_result did res =
    if res.action == action_delete
    then ("com.atproto.repo.applyWrites#deleteResult", none, none)
    else (
      append_text "com.atproto.repo.applyWrites#" (append_text res.action "Result"),
      some (record_uri did res.collection res.rkey),
      res.cid,
    )

-- `results[0]`; a batch of one operation has one result.
abbrev pub first_result : List WriteResult → Option WriteResult
first_result [] = none
first_result (res ∷ rest) = some res

module _ {T C R K : Type 0} (env : Env) (syn : Syntax) (keys : Keys K) (ext : Indigo T C R K)
    (unmarshal_json : String → Option R) where
  -- The call of ApplyWrites, with the account's key.
  unfoldable pub write_as : ℕ → String → List (WriteOp R) → Exec Server HttpError Written
  write_as now did ops = do
    key ← reads (λ s. result_or (signing_key_for keys did s.store) internal_error)
    try_with (write ext syn.parse_did now did key ops) write_write_error

  unfoldable pub do_write : ℕ → String → WriteOp R → Exec Server HttpError WriteOutput
  do_write now did op = do
    w ← write_as now did (op ∷ [])
    res ← reads (λ s. from_option (first_result w.results) internal_error)
    pure (write_output did w res)

  unfoldable pub handle_create_record :
      ℕ → Request → Option RecordInput → Exec Server HttpError WriteOutput
  handle_create_record now r body = do
    input ← reads (λ s. from_option body bad_request)
    raise_if (not (syn.parse_nsid input.collection)) bad_request
    raise_if (not (input.rkey == "") && not (syn.parse_record_key input.rkey)) bad_request
    did ← reads (λ s. require_own_repo env now r input.repo s.store)
    value ← reads (λ s. from_option (parse_record unmarshal_json input.entry) bad_request)
    do_write now did (record {
      action = action_create;
      collection = input.collection;
      rkey = input.rkey;
      entry = some value;
    })

  -- Whether the index has the record; a store that does not open has none.
  abbrev pub has_record : String → String → String → Exec Server HttpError Bool
  has_record did collection rkey s =
      let (found, s') =
        reads_actor syn.parse_did internal_error did
          (λ st. from_option (get_record_cid collection rkey st.db) internal_error) s in
      (ok (is_ok found), s')

  unfoldable pub handle_put_record :
      ℕ → Request → Option RecordInput → Exec Server HttpError WriteOutput
  handle_put_record now r body = do
    input ← reads (λ s. from_option body bad_request)
    raise_if (not (syn.parse_nsid input.collection)) bad_request
    raise_if (not (syn.parse_record_key input.rkey)) bad_request
    did ← reads (λ s. require_own_repo env now r input.repo s.store)
    value ← reads (λ s. from_option (parse_record unmarshal_json input.entry) bad_request)
    exists ← has_record did input.collection input.rkey
    do_write now did (record {
      action = if exists then action_update else action_create;
      collection = input.collection;
      rkey = input.rkey;
      entry = some value;
    })

  unfoldable pub handle_delete_record :
      ℕ → Request → Option RecordKeyInput → Exec Server HttpError WriteOutput
  handle_delete_record now r body = do
    input ← reads (λ s. from_option body bad_request)
    did ← reads (λ s. require_own_repo env now r input.repo s.store)
    do_write now did (record {
      action = action_delete;
      collection = input.collection;
      rkey = input.rkey;
      entry = none;
    })

  -- `body` is the repository and the entries.
  unfoldable pub handle_apply_writes :
      ℕ → Request → Option (String × List (Option WriteEntry)) → Exec Server HttpError ApplyOutput
  handle_apply_writes now r body = do
    input ← reads (λ s. from_option body bad_request)
    did ← reads (λ s. require_own_repo env now r (input.0) s.store)
    ops ← reads (λ s. ops_of unmarshal_json (input.1))
    w ← write_as now did ops
    pure (record {
      commit_cid = w.commit_cid;
      rev = w.commit.rev;
      results = map (apply_result did) w.results;
    })
