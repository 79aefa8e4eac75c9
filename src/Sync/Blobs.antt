-- ===== src/Sync/Blobs.antt =====
-- internal/xrpc/sync.go: the endpoints on the blobs of one account.
use robby.Prelude.{ℕ, String, Bool, ◌||◌, Option, List, ◌==◌, string_eq, Result, ok, from_option}
use robby.Prelude.Results.{◌>>=◌, ◌>>◌, refuse_if}
use robby.ActorStore.Blobs.{get_blob_meta, read_blob_file, list_blob_cids}
use robby.Session.Principal.{HttpError, xrpc}
use robby.Server.State.{Server}
use robby.Migration.Account.{limit_or, next_cursor}
use robby.Migration.Car.{bad_request}
use robby.Sync.Hosted.{hosted_actor_store}

-- The content type and the bytes.
pub record BlobContent : Type 0 where
  pub mime : String
  pub bytes : List ℕ

pub record BlobPage : Type 0 where
  pub cids : List String
  pub cursor : Option String

abbrev pub blob_not_found : HttpError
blob_not_found = xrpc 404 "BlobNotFound"

module _ (parse_did : String → Bool) where
  -- `limit` and `cursor` are the query's; an absent cursor is empty.
  unfoldable pub handle_sync_list_blobs :
      String → Option ℕ → String → Server → Result HttpError BlobPage
  handle_sync_list_blobs did limit cursor s = do
    refuse_if (did == "") bad_request
    st ← hosted_actor_store parse_did did s
    let cids = list_blob_cids cursor (limit_or 500 1000 limit) st.db in
        ok (record { cids = cids; cursor = next_cursor (limit_or 500 1000 limit) cids })

  -- `decode` is cid.Decode and the canonical text.
  unfoldable pub handle_sync_get_blob :
      (String → Option String) → String → String → Server → Result HttpError BlobContent
  handle_sync_get_blob decode did cid s = do
    refuse_if (did == "" || cid == "") bad_request
    c ← from_option (decode cid) bad_request
    st ← hosted_actor_store parse_did did s
    meta ← from_option (get_blob_meta c st.db) blob_not_found
    bytes ← from_option (read_blob_file c st) blob_not_found
    ok (record { mime = meta.mime; bytes = bytes })
