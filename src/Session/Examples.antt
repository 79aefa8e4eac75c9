-- ===== src/Session/Examples.antt =====
-- The session theorems at a concrete server with one account, and tests of the handlers.
use robby.Prelude.{
  String, true, false, ◌≡◌, refl, some, none, [], ◌∷◌, arith, ok, err, ◌==◌, string_eq,
  if◌then◌else◌, eq_iff, ◌*◌, select_one, select, delete, update, some_row, order_by,
}
use robby.Accounts.Rows.{
  Account, RefreshToken, Store, status_active, status_deactivated, status_taken_down, second,
}
use robby.Accounts.Users.{
  set_status, set_password_hash, activate_account, delete_account, create_account, account_row,
  get_account_by_did, get_account_by_identifier, get_account_by_handle,
}
use robby.Accounts.Tokens.{
  revoke_app_password, list_app_passwords, create_refresh_token, refresh_row, get_refresh_token,
  consume_refresh_token,
}
use robby.Accounts.Calls.{activates, run_all}
use robby.Auth.{
  Claims, Jwt, ParsedToken, Credential, scope_access, scope_refresh, credential_primary,
  credential_app_password, parse_access_token, parse_refresh_token, parse, issue_access_token,
  issue_refresh_token,
}
use robby.Session.Principal.{
  require_access_token, optional_access_token, Env, Request, require_principal, check_principal,
  status_permitted, matching_app_credential, bearer_token, xrpc,
}
use robby.Session.Handlers.{
  handle_refresh_session, handle_create_session, SessionOutput, issue_session, login_credential,
  verify_app_password, first_verified, service_did, status_or_empty,
}
use robby.Session.Entitlement.{IsEntitled, require_principal-IsEntitled}
use robby.Session.Revocation.{
  revoked_forever, activate-keeps_session, deleted_session_revives, Unauthorized,
}
use robby.Repo.Owner.{IsOwner, require_own_repo-IsOwner, require_own_repo, resolve_repo_did}
use robby.Session.AppPasswords.{revoked_app_password_refused}
use robby.Session.Rotation.{refresh_once}

abbrev primary : Credential
primary = record { kind = credential_primary; app_password_name = "" }

abbrev claims_of : String → String → Claims
claims_of scope jti = record {
  scope = scope;
  auth_version = 1;
  credential_kind = credential_primary;
  app_password_name = "";
  subject = "did:plc:a";
  audience = "did:web:pds.test";
  issued_at = 0;
  expires_at = 7200 * second;
  id = jti;
}

-- A signer whose tokens are the scopes.
abbrev toy_jwt : Jwt
toy_jwt = record {
  sign = λ key c. c.scope;
  parse_with_claims = λ kf now t.
      if t == scope_access
      then some (claims_of scope_access "")
      else if t == scope_refresh
      then some (claims_of scope_refresh "j1")
      else none;
}

abbrev env : Env
env = record {
  jwt = toy_jwt;
  jwt_secret = "s";
  hostname = "pds.test";
  verify_password = λ p h. p == h;
  hash_token = λ j. j;
}

abbrev alice : Account
alice = record {
  did = "did:plc:a";
  handle = "a.test";
  password_hash = "pw";
  signing_key = "k";
  rotation_key = "k2";
  status = status_active;
  auth_version = 1;
  created_at = 0;
}

abbrev alice_row : RefreshToken
alice_row = record {
  token_hash = "j1";
  did = "did:plc:a";
  expires_at = 7200 * second;
  created_at = 0;
  auth_version = 1;
  credential_kind = credential_primary;
  app_password_name = "";
}

abbrev store : Store
store = record {
  accounts = alice ∷ [];
  refresh_tokens = alice_row ∷ [];
  app_passwords = [];
  reserved_signing_keys = [];
  admin_tokens = [];
}

abbrev access_request : Request
access_request = record { authorization = "Bearer com.atproto.access" }

abbrev refresh_request : Request
refresh_request = record { authorization = "Bearer com.atproto.refresh" }

abbrev parsed : ParsedToken
parsed = record {
  did = "did:plc:a";
  jti = "";
  scope = scope_access;
  auth_version = 1;
  credential_kind = credential_primary;
  app_password_name = "";
}

-- Opening this opens all that the tests run through.
runs : Unit {0}
unfolding require_principal check_principal bearer_token status_permitted matching_app_credential
    parse_access_token parse_refresh_token parse get_account_by_did get_account_by_identifier
    get_account_by_handle list_app_passwords select_one select delete update some_row order_by
    set_status set_password_hash activate_account delete_account create_account account_row
    create_refresh_token refresh_row get_refresh_token consume_refresh_token handle_refresh_session
    handle_create_session login_credential verify_app_password first_verified issue_session
    issue_access_token issue_refresh_token service_did status_or_empty
runs = tt

accepted : require_principal env 5 access_request true true store ≡ ok parsed
unfolding runs
accepted = refl

revoked_forever_example :
    (require_principal env 9 access_request false true
        (run_all (activates "did:plc:a" ∷ []) (set_status "did:plc:a" status_taken_down store).1)
      ≡ err (xrpc 401 "ExpiredToken"))
    × (require_principal env 9 access_request false true
          (run_all (activates "did:plc:a" ∷ []) (set_password_hash "did:plc:a" "new" store).1)
        ≡ err (xrpc 401 "ExpiredToken"))
unfolding runs
revoked_forever_example =
    revoked_forever env 9 access_request false true "com.atproto.access" parsed store alice
      status_taken_down "new" (activates "did:plc:a" ∷ []) refl refl refl (omega arith) (tt, tt)

abbrev migrating : Store
migrating = record store { accounts = record alice { status = status_deactivated } ∷ [] }

activate-keeps_session_example :
    require_principal env 5 access_request true false (activate_account "did:plc:a" migrating).1
    ≡ ok parsed
unfolding runs
activate-keeps_session_example =
    activate-keeps_session env 5 access_request true false parsed migrating refl

abbrev returning : Account
returning = record alice { handle = "b.test"; status = status_deactivated }

deleted_session_revives_example :
    require_principal env 5 access_request true true
      (create_account returning (delete_account "did:plc:a" store).1).1
    ≡ ok parsed
unfolding runs
deleted_session_revives_example =
    deleted_session_revives env 5 access_request true parsed store returning refl refl refl refl
      refl refl refl

abbrev session : SessionOutput
session = record {
  access_jwt = "com.atproto.access";
  refresh_jwt = "com.atproto.refresh";
  handle = "a.test";
  did = "did:plc:a";
  active = true;
  status = "";
}

abbrev refresh_parsed : ParsedToken
refresh_parsed = record parsed { jti = "j1"; scope = scope_refresh }

refresh_once_example :
    Unauthorized
      (handle_refresh_session env 8 "j3" refresh_request
        (handle_refresh_session env 5 "j2" refresh_request store).1).0
unfolding runs
refresh_once_example =
    refresh_once env 5 8 "j2" "j3" refresh_request "com.atproto.refresh" refresh_parsed store
      session refl refl refl (omega arith) (ground (arith, eq_iff "j2" "j1")) refl

login :
    (handle_create_session env 5 "j2"
      (some (record { identifier = "at://a.test"; password = "pw" }))
      store).0
    ≡ ok session
unfolding runs
login = refl

wrong_password :
    (handle_create_session env 5 "j2"
      (some (record { identifier = "did:plc:a"; password = "no" }))
      store).0
    ≡ err (xrpc 401 "AuthenticationRequired")
unfolding runs
wrong_password = refl

abbrev bot_claims : Claims
bot_claims = record (claims_of scope_access "") {
  credential_kind = credential_app_password;
  app_password_name = "bot";
}

-- A signer that answers every token with the claims of an app password session.
abbrev bot_env : Env
bot_env = record env {
  jwt = record { sign = λ key c. c.scope; parse_with_claims = λ kf now t. some bot_claims };
}

abbrev bot : ParsedToken
bot = record parsed { credential_kind = credential_app_password; app_password_name = "bot" }

abbrev with_bot : Store
with_bot = record store {
  app_passwords =
      record {
        did = "did:plc:a";
        name = "bot";
        password_hash = "pw";
        privileged = false;
        created_at = 0;
      }
      ∷ [];
}

bot_accepted : require_principal bot_env 5 access_request false false with_bot ≡ ok bot
unfolding runs
bot_accepted = refl

require_principal-IsEntitled_example : IsEntitled bot_env 5 access_request false false with_bot bot
unfolding runs
require_principal-IsEntitled_example =
    (require_principal-IsEntitled bot_env 5 access_request false false with_bot (refl, tt) bot).0
      refl

revoked_app_password_refused_example :
    (require_principal bot_env 9 access_request false false
        (run_all (activates "did:plc:a" ∷ []) (revoke_app_password "did:plc:a" "bot" with_bot).1)
      ≡ err (xrpc 401 "ExpiredToken"))
    × (optional_access_token bot_env 9 access_request
          (run_all (activates "did:plc:a" ∷ []) (revoke_app_password "did:plc:a" "bot" with_bot).1)
        ≡ none)
unfolding runs
revoked_app_password_refused_example =
    revoked_app_password_refused bot_env 9 access_request false false "com.atproto.access" bot
      with_bot (activates "did:plc:a" ∷ []) refl refl (ground (arith, eq_iff "bot" "")) (tt, tt)

require_own_repo-IsOwner_example : IsOwner env 5 access_request "a.test" store "did:plc:a"
unfolding runs require_own_repo resolve_repo_did require_access_token
require_own_repo-IsOwner_example =
    require_own_repo-IsOwner env 5 access_request "a.test" store "did:plc:a" refl
