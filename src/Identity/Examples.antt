-- ===== src/Identity/Examples.antt =====
-- A change of handle at a concrete server with a directory that takes every operation.
use robby.Prelude.{
  ◌*◌, ok, String, ◌≡◌, refl, some, [], ◌∷◌, select_one, select, update, some_row, delete,
}
use robby.Accounts.Users.{get_account_by_did, get_account_by_handle, set_handle}
use robby.Accounts.Tokens.{list_app_passwords, token_purpose_plc_sign, consume_admin_token}
use robby.Auth.{parse_access_token, parse}
use robby.Session.Principal.{
  bearer_token, check_principal, require_principal, status_permitted, matching_app_credential,
  require_privileged_access_token,
}
use robby.Firehose.{seq_of, serialize}
use robby.Sequencer.Log.{commit}
use robby.Sequencer.Broadcast.{append}
use robby.Server.Events.{emit_identity_event, append_event}
use robby.Server.Toy.{env, server, access_request, syn, keys}
use robby.Identity.Json.{
  Fields, text, field, no_field, lookup, pick_string_slice, pick_map, to_string_slice, to_map,
  string_items, with_field,
}
use robby.Identity.Plc.{Signing, Directory, sign_op, submit, get_last_op, last_entry, unsigned_op}
use robby.Identity.Handlers.{handle_update_handle, handle_sign_plc_operation}
use robby.Server.State.{Server}
use robby.Accounts.Rows.{second}

abbrev signing : Signing String
signing = record {
  dump = λ fields. some [];
  hash_and_sign = λ key bytes. some [];
  public_did_key = λ key. some key;
  base64_url = λ bytes. "sig";
  digest_base32 = λ bytes. "digest";
}

abbrev dir : Directory
dir = record {
  post = λ did op. some 200;
  get_log = λ did. some (200, some (record { cid = "c0"; operation = no_field } ∷ []));
}

-- Opening this opens all that the tests run through.
runs : Unit {0}
unfolding require_principal check_principal bearer_token status_permitted matching_app_credential
    parse_access_token parse get_account_by_did get_account_by_handle list_app_passwords select_one
    select update some_row delete require_privileged_access_token set_handle sign_op submit
    get_last_op last_entry handle_update_handle emit_identity_event append_event append commit
    seq_of serialize handle_sign_plc_operation lookup pick_string_slice pick_map to_string_slice
    to_map string_items with_field unsigned_op consume_admin_token
runs = tt

renamed :
    (handle_update_handle env syn keys signing dir 5 access_request (some "new.test") server).0
    ≡ ok tt
unfolding runs
renamed = refl

abbrev asking : Fields
asking = field "token" (text "t2") no_field

-- The server with a token that lets the account sign a PLC operation.
abbrev approving : Server
approving = record server {
  store = record server.store {
    admin_tokens =
        record {
          token = "t2";
          did = "did:plc:a";
          purpose = token_purpose_plc_sign;
          expires_at = 900 * second;
          created_at = 0;
        }
        ∷ [];
  };
}

abbrev signed : Fields
signed =
    with_field
      (unsigned_op (some "c0") (record {
        rotation_keys = [];
        verification_methods = no_field;
        also_known_as = [];
        services = no_field;
      }))
      "sig" (text "sig")
