-- ===== src/Records/Blobs.antt =====
-- internal/xrpc/repo.go: uploadBlob, and internal/xrpc/preferences.go.
use robby.Prelude.{
  ℕ, suc, ◌*◌, ◌^◌, String, Option, none, some, List, ◌==◌, string_eq, ltb, take, length,
  if◌then◌else◌, Result, ok, err, Exec, pure, reads, from_option, ◌>>=◌, ◌>>◌,
}
use robby.ActorStore.Rows.{ActorStore}
use robby.ActorStore.Blobs.{put_blob_meta, write_blob_file}
use robby.ActorStore.Records.{get_preferences, set_preferences}
use robby.Session.Principal.{
  HttpError, Env, Request, require_access_token, require_migratable_access_token,
}
use robby.Server.State.{Server, Syntax, with_actor, reads_actor}
use robby.Migration.Account.{internal_error}
use robby.Migration.Car.{bad_request}

abbrev pub max_blob_size : ℕ
max_blob_size = 100 * 2 ^ 20

pub record BlobOutput : Type 0 where
  pub ref : String
  pub mime_type : String
  pub size : ℕ

abbrev pub mime_or_default : String → String
mime_or_default mime = if mime == "" then "application/octet-stream" else mime

-- The file first, then the row in its transaction.
unfoldable pub store_blob : ℕ → String → String → List ℕ → ActorStore → ActorStore
store_blob now c mime bytes st =
    let written = write_blob_file c bytes st in
    record written { db = put_blob_meta now c mime (length bytes) written.db }

-- At most `n` bytes; the body is read up to one byte more than is allowed.
unfoldable pub limited : ℕ → List ℕ → Result HttpError (List ℕ)
limited n body =
    if ltb n (length (take (suc n) body)) then err bad_request else ok (take (suc n) body)

module _ (env : Env) (syn : Syntax) (blob_cid : List ℕ → String) where
  -- `content_type` is the request's header.
  unfoldable pub handle_upload_blob :
      ℕ → Request → String → List ℕ → Exec Server HttpError BlobOutput
  handle_upload_blob now r content_type body = do
    did ← reads (λ s. require_migratable_access_token env now r s.store)
    bytes ← reads (λ s. limited max_blob_size body)
    with_actor syn.parse_did internal_error did
        (λ st. (ok tt, store_blob now (blob_cid bytes) (mime_or_default content_type) bytes st))
    pure (record {
      ref = blob_cid bytes;
      mime_type = mime_or_default content_type;
      size = length bytes;
    })

  -- The stored JSON, or an empty array.
  abbrev pub preferences_or_empty : Option String → String
  preferences_or_empty none = "[]"
  preferences_or_empty (some raw) = raw

  unfoldable pub handle_get_preferences : ℕ → Request → Exec Server HttpError String
  handle_get_preferences now r = do
    did ← reads (λ s. require_access_token env now r s.store)
    reads_actor syn.parse_did internal_error did
        (λ st. ok (preferences_or_empty (get_preferences st.db)))

  -- `body` is the raw JSON of the preferences; none where the body does not decode or lacks them.
  unfoldable pub handle_put_preferences :
      ℕ → Request → Option String → Exec Server HttpError (Unit {0})
  handle_put_preferences now r body = do
    did ← reads (λ s. require_migratable_access_token env now r s.store)
    value ← reads (λ s. from_option body bad_request)
    with_actor syn.parse_did internal_error did
        (λ st. (ok tt, record st { db = set_preferences now value st.db }))
