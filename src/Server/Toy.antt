-- ===== src/Server/Toy.antt =====
-- A concrete server with one account, for the examples of the handlers' theorems.
use robby.Prelude.{String, true, some, none, [], ◌∷◌, ◌==◌, string_eq, if◌then◌else◌, ◌*◌}
use robby.Accounts.Rows.{Account, AdminToken, RefreshToken, Store, status_active, second}
use robby.Accounts.Tokens.{token_purpose_delete_account}
use robby.ActorStore.Rows.{empty_db}
use robby.Auth.{Claims, Jwt, ParsedToken, scope_access, scope_refresh, credential_primary}
use robby.Session.Principal.{Env, Request}
use robby.Sequencer.Log.{empty_log}
use robby.Server.State.{Server, Syntax, Keys}

abbrev claims_of : String → String → Claims
claims_of scope jti = record {
  scope = scope;
  auth_version = 1;
  credential_kind = credential_primary;
  app_password_name = "";
  subject = "did:plc:a";
  audience = "did:web:pds.test";
  issued_at = 0;
  expires_at = 7200 * second;
  id = jti;
}

-- A signer whose tokens are the scopes.
abbrev toy_jwt : Jwt
toy_jwt = record {
  sign = λ key c. c.scope;
  parse_with_claims = λ kf now t.
      if t == scope_access
      then some (claims_of scope_access "")
      else if t == scope_refresh
      then some (claims_of scope_refresh "j1")
      else none;
}

abbrev pub env : Env
env = record {
  jwt = toy_jwt;
  jwt_secret = "s";
  hostname = "pds.test";
  verify_password = λ p h. p == h;
  hash_token = λ j. j;
}

abbrev pub alice : Account
alice = record {
  did = "did:plc:a";
  handle = "a.test";
  password_hash = "pw";
  signing_key = "k";
  rotation_key = "k2";
  status = status_active;
  auth_version = 1;
  created_at = 0;
}

abbrev alice_row : RefreshToken
alice_row = record {
  token_hash = "j1";
  did = "did:plc:a";
  expires_at = 7200 * second;
  created_at = 0;
  auth_version = 1;
  credential_kind = credential_primary;
  app_password_name = "";
}

abbrev approved_deletion : AdminToken
approved_deletion = record {
  token = "t1";
  did = "did:plc:a";
  purpose = token_purpose_delete_account;
  expires_at = 900 * second;
  created_at = 0;
}

abbrev pub store : Store
store = record {
  accounts = alice ∷ [];
  refresh_tokens = alice_row ∷ [];
  app_passwords = [];
  reserved_signing_keys = [];
  admin_tokens = approved_deletion ∷ [];
}

abbrev pub server : Server
server = record {
  store = store;
  actors = record { did = "did:plc:a"; db = empty_db; files = [] } ∷ [];
  seqr = record { log = empty_log; subs = []; next_id = 0 };
}

abbrev pub access_request : Request
access_request = record { authorization = "Bearer com.atproto.access" }

abbrev pub refresh_request : Request
refresh_request = record { authorization = "Bearer com.atproto.refresh" }

abbrev pub parsed_of : String → String → ParsedToken
parsed_of scope jti = record {
  did = "did:plc:a";
  jti = jti;
  scope = scope;
  auth_version = 1;
  credential_kind = credential_primary;
  app_password_name = "";
}

abbrev pub syn : Syntax
syn = record {
  parse_did = λ d. true;
  parse_handle = λ h. some h;
  parse_nsid = λ n. n == "a.b";
  parse_record_key = λ k. true;
}

-- A private key is its multibase text.
abbrev pub keys : Keys String
keys = record { parse_private = λ t. some t; multibase = λ k. k; did_key = λ k. some k }
