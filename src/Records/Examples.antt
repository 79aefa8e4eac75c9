-- ===== src/Records/Examples.antt =====
-- A blob that an account uploads, at a concrete server.
use robby.Prelude.{
  ℕ, ◌+◌, true, sym, ◌∙◌, ◌≢◌, ok_injective, String, ◌≡◌, refl, some, none, List, [], ◌∷◌, arith,
  ok, eq_iff, select_one, select, delete, update, some_row,
}
use robby.Auth.{parse_access_token, parse}
use robby.Accounts.Users.{get_account_by_did}
use robby.Accounts.Tokens.{list_app_passwords}
use robby.ActorStore.Blobs.{put_blob_meta, write_blob_file}
use robby.Server.Toy.{env, server, access_request, syn, keys}
use robby.Server.State.{Server}
use robby.ActorStore.Manager.{find_store, opened, valid_did, with_lock}
use robby.ActorStore.Blobs.{get_blob_meta}
use robby.Session.Principal.{
  require_principal, require_migratable_access_token, bearer_token, check_principal,
  status_permitted, matching_app_credential,
}
use robby.Records.Blobs.{handle_upload_blob, limited, store_blob}
use robby.Records.Uploads.{get-upload_blob}
use robby.Sync.Blobs.{handle_sync_get_blob}
use robby.Records.Uploads.{mime_kept}
use robby.Records.Owned.{RecordWrite, creates, Keeps, record_write, record_write-Keeps}
use robby.Repo.Indigo.{Indigo}
use robby.Session.Principal.{HttpError, require_access_token}

abbrev blob_cid : List ℕ → String
blob_cid bytes = "bafyblob"

abbrev stored : Server
stored = (handle_upload_blob env syn blob_cid 5 access_request "" (1 ∷ 2 ∷ []) server).1

-- Opening this opens all that the tests run through.
runs : Unit {0}
unfolding require_principal check_principal bearer_token status_permitted matching_app_credential
    parse_access_token parse get_account_by_did list_app_passwords select_one select delete update
    some_row require_access_token require_migratable_access_token handle_upload_blob limited
    store_blob put_blob_meta write_blob_file find_store opened valid_did with_lock
runs = tt

get-upload_blob_example :
    handle_sync_get_blob syn.parse_did (λ c. some c) "did:plc:a" "bafyblob" stored
    ≡ ok (record {
      mime =
          mime_kept
            (get_blob_meta "bafyblob" (find_store "did:plc:a" server.actors).db)
            "application/octet-stream";
      bytes = 1 ∷ 2 ∷ [];
    })
unfolding runs
get-upload_blob_example =
    get-upload_blob env syn blob_cid (λ c. some c) 5 access_request "" (1 ∷ 2 ∷ []) server
      "did:plc:a" (record { ref = "bafyblob"; mime_type = "application/octet-stream"; size = 2 })
      refl (ground (arith, eq_iff "did:plc:a" "")) (ground (arith, eq_iff "bafyblob" "")) refl refl

-- A toy of indigo whose trees are the number of their records.
abbrev toy : Indigo ℕ ℕ String String
toy = record {
  empty_tree = 0;
  load_tree = λ f r. some 0;
  insert = λ t p c. some (none, t + 1);
  remove = λ t p. some (none, t);
  write_diff_blocks = λ t. some ("root", []);
  new_clock = 0;
  clock_from_tid = λ tid. 1;
  next_tid = λ now n. ("tid", n + 1);
  has_type = λ r. true;
  with_type = λ r c. r;
  is_valid = λ r. true;
  marshal = λ r. some (1 ∷ []);
  extract_blobs = λ r. [];
  sign = λ key c. some (1 ∷ []);
  marshal_commit = λ c. some [];
  unmarshal_commit = λ bytes. none;
  sum = λ bytes. "cid";
}

abbrev creating : RecordWrite
creating =
    creates (some (record { repo = "did:plc:a"; collection = "a.b"; rkey = "k"; entry = "{}" }))

not_alice :
    (did : String)
    → require_access_token env 5 access_request server.store ≡ ok did
    → "did:plc:b" ≢ did
unfolding runs
not_alice did h e = ground (
  arith,
  e ∙ sym (ok_injective {E = HttpError} "did:plc:a" did h),
  eq_iff "did:plc:b" "did:plc:a",
)

record_write-Keeps_example :
    Keeps "did:plc:b" server
      (record_write env syn keys toy (λ raw. some raw) 5 access_request creating server)
unfolding runs
record_write-Keeps_example =
    record_write-Keeps env syn keys toy (λ raw. some raw) 5 access_request "did:plc:b" server
      not_alice creating
