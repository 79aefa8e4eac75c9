-- ===== src/Records/Reads.antt =====
-- internal/xrpc/repo.go: getRecord, listRecords and describeRepo, which need no session.
use robby.Prelude.{
  ℕ, String, ◌||◌, Option, List, ◌==◌, string_eq, Exec, pure, reads, raise_if, result_or,
  trim_prefix, ◌>>=◌, ◌>>◌,
}
use robby.Accounts.Users.{get_account_by_identifier}
use robby.Session.Principal.{HttpError, xrpc}
use robby.Server.State.{Server, Syntax, reads_actor}
use robby.Repo.Owner.{resolve_repo_did}
use robby.Records.Lookup.{RecordOutput, RecordsOutput, ListQuery, get_record, list_page}
use robby.Migration.Account.{internal_error}
use robby.Migration.Car.{bad_request}

module _ {R : Type 0} (syn : Syntax) (unmarshal_record : List ℕ → Option R) where
  unfoldable pub handle_get_record :
      String → String → String → Exec Server HttpError (RecordOutput R)
  handle_get_record repo collection rkey = do
    raise_if (repo == "" || collection == "" || rkey == "") bad_request
    did ← reads (λ s. result_or (resolve_repo_did repo s.store) (xrpc 404 "RepoNotFound"))
    reads_actor syn.parse_did internal_error did
        (λ st. get_record unmarshal_record did collection rkey st.db)

  unfoldable pub handle_list_records : ListQuery → Exec Server HttpError (RecordsOutput R)
  handle_list_records q = do
    raise_if (q.repo == "" || q.collection == "") bad_request
    did ← reads (λ s. result_or (resolve_repo_did q.repo s.store) (xrpc 404 "RepoNotFound"))
    reads_actor syn.parse_did internal_error did (λ st. list_page unmarshal_record did q st.db)

-- The handle and the DID; the other fields of the answer are constants.
unfoldable pub handle_describe_repo : String → Exec Server HttpError (String × String)
handle_describe_repo repo = do
  raise_if (repo == "") bad_request
  acct ← reads (λ s.
      result_or (get_account_by_identifier (trim_prefix repo "at://") s.store)
        (xrpc 404 "RepoNotFound"))
  pure (acct.handle, acct.did)
