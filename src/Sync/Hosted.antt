-- ===== src/Sync/Hosted.antt =====
-- internal/xrpc/sync.go: hostedActorStore and the endpoints on the repository of one account.
use robby.Prelude.{
  String, Bool, true, false, not, ◌||◌, Option, none, some, List, [], ◌∷◌, ◌==◌, string_eq,
  if◌then◌else◌, Result, ok, err, result_or, from_option,
}
use robby.Prelude.Results.{◌>>=◌, ◌>>◌, refuse_if}
use robby.Accounts.Rows.{Account, status_active}
use robby.Accounts.Users.{get_account_by_did}
use robby.Firehose.{Block, Car, write_car}
use robby.ActorStore.Rows.{ActorStore, ActorDb, RepoRoot}
use robby.ActorStore.Blocks.{get_block, get_repo_root, all_blocks}
use robby.ActorStore.Records.{get_record_cid}
use robby.ActorStore.Manager.{get_existing, valid_did}
use robby.Session.Principal.{HttpError, xrpc}
use robby.Server.State.{Server}
use robby.Migration.Account.{internal_error}
use robby.Migration.Car.{bad_request}

abbrev pub repo_not_found : HttpError
repo_not_found = xrpc 404 "RepoNotFound"

pub record RepoStatus : Type 0 where
  pub did : String
  pub active : Bool
  pub status : Option String
  pub rev : Option String

abbrev pub inactive_status : Account → Option String
inactive_status a = if a.status == status_active then none else some a.status

module _ (parse_did : String → Bool) where
  -- With writeActorStoreError's answers: a DID that is not hosted here is not found, and one that is not
  -- valid an internal error.
  unfoldable pub hosted_actor_store : String → Server → Result HttpError ActorStore
  hosted_actor_store did s = do
    result_or (get_account_by_did did s.store) repo_not_found
    refuse_if (not (valid_did parse_did did)) internal_error
    from_option (get_existing parse_did did s.actors) repo_not_found

  -- The root of a hosted repository.
  abbrev pub hosted_root : String → Server → Result HttpError (ActorStore × RepoRoot)
  hosted_root did s = do
    st ← hosted_actor_store did s
    root ← from_option (get_repo_root st.db) repo_not_found
    ok (st, root)

  unfoldable pub handle_sync_get_repo : String → Server → Result HttpError Car
  handle_sync_get_repo did s = do
    refuse_if (did == "") bad_request
    hosted ← hosted_root did s
    ok (write_car ((hosted.1).commit_cid ∷ []) (all_blocks ((hosted.0).db)))

  unfoldable pub handle_sync_get_latest_commit :
      String → Server → Result HttpError (String × String)
  handle_sync_get_latest_commit did s = do
    refuse_if (did == "") bad_request
    hosted ← hosted_root did s
    ok ((hosted.1).commit_cid, (hosted.1).rev)

  -- The proof of a record is the whole repository.
  unfoldable pub handle_sync_get_record : String → String → String → Server → Result HttpError Car
  handle_sync_get_record did collection rkey s = do
    refuse_if (did == "" || collection == "" || rkey == "") bad_request
    hosted ← hosted_root did s
    from_option (get_record_cid collection rkey ((hosted.0).db)) (xrpc 404 "RecordNotFound")
    ok (write_car ((hosted.1).commit_cid ∷ []) (all_blocks ((hosted.0).db)))

  -- The loop over the asked CIDs; `decode` is cid.Decode and the canonical text.
  unfoldable pub blocks_of :
      (String → Option String) → List String → ActorDb → Result HttpError (List Block)
  blocks_of decode [] db = ok []
  blocks_of decode (t ∷ ts) db = do
    c ← from_option (decode t) bad_request
    blk ← from_option (get_block c db) (xrpc 404 "BlockNotFound")
    rest ← blocks_of decode ts db
    ok (blk ∷ rest)

  abbrev is_empty : List String → Bool
  is_empty [] = true
  is_empty (t ∷ ts) = false

  unfoldable pub handle_sync_get_blocks :
      (String → Option String) → String → List String → Server → Result HttpError Car
  handle_sync_get_blocks decode did cids s = do
    refuse_if (did == "" || is_empty cids) bad_request
    st ← hosted_actor_store did s
    blks ← blocks_of decode cids st.db
    ok (write_car [] blks)

  abbrev rev_of : Result HttpError (ActorStore × RepoRoot) → Option String
  rev_of (ok (st, root)) = some root.rev
  rev_of (err e) = none

  unfoldable pub handle_sync_get_repo_status : String → Server → Result HttpError RepoStatus
  handle_sync_get_repo_status did s = do
    refuse_if (did == "") bad_request
    acct ← result_or (get_account_by_did did s.store) repo_not_found
    ok (record {
      did = acct.did;
      active = acct.status == status_active;
      status = inactive_status acct;
      rev = rev_of (hosted_root did s);
    })
