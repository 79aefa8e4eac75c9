-- ===== src/Migration/Account.antt =====
-- internal/xrpc/migration.go: activating, deactivating and deleting an account, the report on its state,
-- and the blobs that are still missing.
use Prim.Native.String.{◌++◌ as append_text}
use robby.Prelude.{
  ℕ, String, Bool, true, false, not, ◌&&◌, Option, none, some, List, [], ◌∷◌, ◌==◌, nat_eq,
  string_eq, text_ltb, ltb, leb, length, take, select, map, if◌then◌else◌, ok, Exec, pure, reads,
  try_or, raise_if, result_or, from_option, ◌>>=◌, ◌>>◌,
}
use robby.Accounts.Rows.{Account, status_active, status_deactivated}
use robby.Accounts.Users.{get_account_by_did, activate_account, delete_account}
use robby.Accounts.Tokens.{
  consume_admin_token, delete_refresh_tokens_for_did, token_purpose_delete_account,
}
use robby.ActorStore.Rows.{ActorStore, RepoRoot}
use robby.ActorStore.Blocks.{get_repo_root, count_blocks}
use robby.ActorStore.Records.{count_records}
use robby.ActorStore.Blobs.{MissingBlobRef, missing_blob_refs, count_blobs, count_imported_blobs}
use robby.Session.Principal.{
  HttpError, xrpc, Env, Request, require_access_token, require_privileged_access_token,
  require_migration_access_token,
}
use robby.Server.State.{Server, Syntax, on_store, reads_actor}
use robby.Server.Events.{emit_account_event}
use robby.Admin.Accounts.{suspend}

-- recordURI.String of internal/xrpc/repo.go.
unfoldable pub record_uri : String → String → String → String
record_uri did collection rkey =
    append_text "at://"
      (append_text did (append_text "/" (append_text collection (append_text "/" rkey))))

-- A query's limit as Atoi reads it: `none` where it is absent or no number, or negative. A limit that is
-- 0 or above `most` leaves the default.
unfoldable pub limit_or : ℕ → ℕ → Option ℕ → ℕ
limit_or default most none = default
limit_or default most (some n) = if ltb 0 n && leb n most then n else default

abbrev pub internal_error : HttpError
internal_error = xrpc 500 "InternalServerError"

pub record MissingBlob : Type 0 where
  pub cid : String
  pub record_uri : String

pub record MissingBlobs : Type 0 where
  pub blobs : List MissingBlob
  pub cursor : Option String

-- `cursor != "" && cidStr <= cursor`
abbrev pub is_passed : String → String → Bool
is_passed cursor cid = not (cursor == "") && not (text_ltb cursor cid)

abbrev pub last_of : List String → Option String
last_of [] = none
last_of (c ∷ []) = some c
last_of (c ∷ d ∷ cs) = last_of (d ∷ cs)

-- The cursor after a page: its last key, if the page is full.
unfoldable pub next_cursor : ℕ → List String → Option String
next_cursor limit page = if length page == limit then last_of page else none

-- The loop over the references, which stops when the page is full; a limit is never 0.
unfoldable pub missing_page : String → ℕ → List MissingBlobRef → List MissingBlobRef
missing_page cursor limit refs = take limit (select (λ r. not (is_passed cursor r.cid)) refs)

abbrev pub missing_output : String → MissingBlobRef → MissingBlob
missing_output did ref = record {
  cid = ref.cid;
  record_uri = record_uri did ref.collection ref.rkey;
}

pub record DeleteAccountInput : Type 0 where
  pub did : String
  pub password : String
  pub token : String

pub record AccountReport : Type 0 where
  pub activated : Bool
  pub valid_did : Bool
  pub repo_commit : String
  pub repo_rev : String
  pub repo_blocks : ℕ
  pub indexed_records : ℕ
  pub expected_blobs : ℕ
  pub imported_blobs : ℕ

-- A service of a DID document: whether its id ends in #atproto_pds, and its endpoint without slashes at
-- the end.
pub record DocService : Type 0 where
  pub is_pds : Bool
  pub endpoint : String

unfoldable pub some_service : String → List DocService → Bool
some_service host [] = false
some_service host (svc ∷ svcs) =
    if svc.is_pds && svc.endpoint == host then true else some_service host svcs

-- `none` is a DID that does not resolve.
abbrev pub document_names_host : String → Option (List DocService) → Bool
document_names_host hostname none = true
document_names_host hostname (some svcs) = some_service (append_text "https://" hostname) svcs

module _ (env : Env) (syn : Syntax) where
  -- `limit` and `cursor` are the query's; an absent cursor is empty.
  unfoldable pub handle_list_missing_blobs :
      ℕ → Request → Option ℕ → String → Exec Server HttpError MissingBlobs
  handle_list_missing_blobs now r limit cursor = do
    did ← reads (λ s. require_migration_access_token env now r s.store)
    refs ← reads_actor syn.parse_did internal_error did (λ st. ok (missing_blob_refs st))
    let page = missing_page cursor (limit_or 500 1000 limit) refs in
        pure (record {
          blobs = map (missing_output did) page;
          cursor = next_cursor (limit_or 500 1000 limit) (map (λ b. b.cid) page);
        })

  unfoldable pub handle_activate_account : ℕ → Request → Exec Server HttpError (Unit {0})
  handle_activate_account now r = do
    did ← reads (λ s. require_migration_access_token env now r s.store)
    reads_actor syn.parse_did internal_error did
        (λ st. from_option (get_repo_root st.db) (xrpc 400 "InvalidRequest"))
    try_or (on_store (activate_account did)) (xrpc 404 "NotFound")
    try_or (emit_account_event now did true none) internal_error

  -- The body is not used.
  unfoldable pub handle_deactivate_account_self : ℕ → Request → Exec Server HttpError (Unit {0})
  handle_deactivate_account_self now r = do
    did ← reads (λ s. require_privileged_access_token env now r s.store)
    suspend now did status_deactivated

  unfoldable pub handle_delete_account :
      ℕ → Request → Option DeleteAccountInput → Exec Server HttpError (Unit {0})
  handle_delete_account now r body = do
    caller ← reads (λ s. require_privileged_access_token env now r s.store)
    input ← reads (λ s. from_option body (xrpc 400 "InvalidRequest"))
    raise_if (not (input.did == caller)) (xrpc 403 "AuthRequired")
    acct ← reads (λ s. result_or (get_account_by_did caller s.store) (xrpc 404 "NotFound"))
    raise_if (not (env.verify_password input.password acct.password_hash))
        (xrpc 401 "AuthenticationRequired")
    try_or (on_store (consume_admin_token now input.token caller token_purpose_delete_account))
        (xrpc 401 "InvalidToken")
    try_or (on_store (delete_refresh_tokens_for_did caller)) internal_error
    try_or (on_store (delete_account caller)) internal_error

  abbrev pub root_or_empty : Option RepoRoot → RepoRoot
  root_or_empty none = record { commit_cid = ""; rev = "" }
  root_or_empty (some root) = root

  -- `valid_did` is the verdict on the resolved DID document, or true where it does not resolve.
  unfoldable pub account_report : Account → Bool → ActorStore → AccountReport
  account_report acct valid_did st =
      let root = root_or_empty (get_repo_root st.db) in
      record {
        activated = acct.status == status_active;
        valid_did = valid_did;
        repo_commit = root.commit_cid;
        repo_rev = root.rev;
        repo_blocks = count_blocks st.db;
        indexed_records = count_records st.db;
        expected_blobs = count_blobs st.db;
        imported_blobs = count_imported_blobs st;
      }

  unfoldable pub handle_check_account_status :
      (String → Option (List DocService)) → ℕ → Request → Exec Server HttpError AccountReport
  handle_check_account_status resolve_did now r = do
    did ← reads (λ s. require_access_token env now r s.store)
    acct ← reads (λ s. result_or (get_account_by_did did s.store) (xrpc 404 "NotFound"))
    reads_actor syn.parse_did internal_error did
        (λ st. ok (account_report acct (document_names_host env.hostname (resolve_did did)) st))
