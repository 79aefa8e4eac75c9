-- ===== src/Session/Handlers.antt =====
-- internal/xrpc/session.go and apppassword.go: the handlers of com.atproto.server.*Session and
-- *AppPassword. A handler runs at one instant `now`; `jti` and `password` are what it draws at
-- random, and a body that does not decode is `none`. Signing with HS256 does not fail.
use Prim.Native.String.{◌++◌ as append_text}
use robby.Prelude.{
  ℕ, String, Bool, ◌||◌, not, Option, none, some, List, [], ◌∷◌, map, ◌==◌, nat_eq, string_eq,
  trim_prefix, if◌then◌else◌, Result, ok, err, Exec, pure, reads, try_or, raise_if, result_or,
  from_option, ◌>>=◌, ◌>>◌,
}
use robby.Accounts.Rows.{
  Account, AppPassword, RefreshToken, Store, status_active, status_taken_down, rfc3339,
}
use robby.Accounts.Users.{get_account_by_did, get_account_by_identifier}
use robby.Accounts.Tokens.{
  create_refresh_token, get_refresh_token, consume_refresh_token, delete_refresh_token,
  create_app_password, list_app_passwords, revoke_app_password,
}
use robby.Auth.{
  Credential, ParsedToken, issue_access_token, issue_refresh_token, parse_refresh_token,
  credential_primary, credential_app_password, credential_privileged_app_password,
}
use robby.Session.Principal.{
  HttpError, xrpc, Request, Env, bearer_token, require_access_token,
  require_privileged_access_token,
}

-- ServiceDID of internal/xrpc/server.go.
unfoldable pub service_did : Env → String
service_did env = append_text "did:web:" env.hostname

pub record CreateSessionInput : Type 0 where
  pub identifier : String
  pub password : String

pub record SessionOutput : Type 0 where
  pub access_jwt : String
  pub refresh_jwt : String
  pub handle : String
  pub did : String
  pub active : Bool
  pub status : String

unfoldable pub status_or_empty : String → String
status_or_empty status = if status == status_active then "" else status

-- The first app password, oldest first, that the text verifies against.
unfoldable pub first_verified : Env → String → List AppPassword → Option AppPassword
first_verified env password [] = none
first_verified env password (ap ∷ aps) =
    if env.verify_password password ap.password_hash
    then some ap
    else first_verified env password aps

unfoldable pub verify_app_password : Env → String → String → Store → Option AppPassword
verify_app_password env did password s = first_verified env password (list_app_passwords did s)

abbrev app_credential : AppPassword → Credential
app_credential ap = record {
  kind = if ap.privileged then credential_privileged_app_password else credential_app_password;
  app_password_name = ap.name;
}

-- The account's own password first, then its app passwords.
unfoldable pub login_credential : Env → Account → String → Store → Result HttpError Credential
login_credential env acct password s =
    if env.verify_password password acct.password_hash
    then ok (record { kind = credential_primary; app_password_name = "" })
    else elim (verify_app_password env acct.did password s) [
      | none ↦ err (xrpc 401 "AuthenticationRequired")
      | some ap ↦ ok (app_credential ap)
    ]

unfoldable pub issue_session :
    Env → ℕ → String → Account → Credential → Exec Store HttpError SessionOutput
issue_session env now jti acct credential =
    let access =
      issue_access_token env.jwt env.jwt_secret acct.did (service_did env) acct.auth_version
        credential now in
    let refresh =
      issue_refresh_token env.jwt env.jwt_secret acct.did (service_did env) acct.auth_version
        credential jti now in
    let row : RefreshToken = record {
      token_hash = env.hash_token jti;
      did = acct.did;
      expires_at = refresh.1;
      created_at = now;
      auth_version = acct.auth_version;
      credential_kind = credential.kind;
      app_password_name = credential.app_password_name;
    } in
    do
      try_or (create_refresh_token now row) (xrpc 500 "InternalServerError")
      pure (record {
        access_jwt = access;
        refresh_jwt = refresh.0;
        handle = acct.handle;
        did = acct.did;
        active = acct.status == status_active;
        status = status_or_empty acct.status;
      })

unfoldable pub handle_create_session :
    Env → ℕ → String → Option CreateSessionInput → Exec Store HttpError SessionOutput
handle_create_session env now jti body = do
  input ← reads (λ s. from_option body (xrpc 400 "InvalidRequest"))
  raise_if (input.identifier == "" || input.password == "") (xrpc 400 "InvalidRequest")
  acct ← reads (λ s.
      result_or (get_account_by_identifier (trim_prefix input.identifier "at://") s)
        (xrpc 401 "AuthenticationRequired"))
  credential ← reads (login_credential env acct input.password)
  raise_if (acct.status == status_taken_down) (xrpc 401 "AccountTakedown")
  issue_session env now jti acct credential

-- The source's condition on the parsed token, its stored row and the account.
abbrev pub session_revoked : Account → ParsedToken → RefreshToken → Bool
session_revoked acct parsed stored =
    not (acct.status == status_active)
    || not (parsed.auth_version == acct.auth_version)
    || not (stored.auth_version == parsed.auth_version)
    || not (stored.credential_kind == parsed.credential_kind)
    || not (stored.app_password_name == parsed.app_password_name)

unfoldable pub handle_refresh_session :
    Env → ℕ → String → Request → Exec Store HttpError SessionOutput
handle_refresh_session env now jti r = do
  token ← reads (λ s. from_option (bearer_token r) (xrpc 401 "AuthenticationRequired"))
  parsed ← reads (λ s.
      from_option (parse_refresh_token env.jwt env.jwt_secret now token) (xrpc 401 "ExpiredToken"))
  stored ←
      reads
        (λ s. result_or (get_refresh_token (env.hash_token parsed.jti) s) (xrpc 401 "ExpiredToken"))
  acct ←
      reads (λ s. result_or (get_account_by_did parsed.did s) (xrpc 401 "AuthenticationRequired"))
  raise_if (session_revoked acct parsed stored) (xrpc 401 "ExpiredToken")
  try_or (consume_refresh_token now (env.hash_token parsed.jti) parsed.did parsed.auth_version)
      (xrpc 401 "ExpiredToken")
  issue_session env now jti acct
      (record { kind = parsed.credential_kind; app_password_name = parsed.app_password_name })

-- A token that is already invalid makes the deletion a success.
unfoldable pub handle_delete_session : Env → ℕ → Request → Exec Store HttpError (Unit {0})
handle_delete_session env now r s = elim (bearer_token r) [
  | none ↦ (err (xrpc 401 "AuthenticationRequired"), s)
  | some token ↦ elim (parse_refresh_token env.jwt env.jwt_secret now token) [
    | none ↦ (ok tt, s)
    | some parsed ↦
        try_or (delete_refresh_token (env.hash_token parsed.jti)) (xrpc 500 "InternalServerError") s
  ]
]

pub record SessionInfo : Type 0 where
  pub handle : String
  pub did : String
  pub active : Bool
  pub status : String

unfoldable pub handle_get_session : Env → ℕ → Request → Exec Store HttpError SessionInfo
handle_get_session env now r = do
  did ← reads (require_access_token env now r)
  acct ← reads (λ s. result_or (get_account_by_did did s) (xrpc 401 "AuthenticationRequired"))
  pure (record {
    handle = acct.handle;
    did = acct.did;
    active = acct.status == status_active;
    status = status_or_empty acct.status;
  })

pub record CreateAppPasswordInput : Type 0 where
  pub name : String
  pub privileged : Bool

pub record AppPasswordOutput : Type 0 where
  pub name : String
  pub password : String
  pub created_at : ℕ
  pub privileged : Bool

-- `password` is the generated password and `hash` its scrypt hash.
unfoldable pub handle_create_app_password :
    Env
    → ℕ
    → String
    → String
    → Request
    → Option CreateAppPasswordInput
    → Exec Store HttpError AppPasswordOutput
handle_create_app_password env now password hash r body = do
  did ← reads (require_privileged_access_token env now r)
  input ← reads (λ s. from_option body (xrpc 400 "InvalidRequest"))
  raise_if (input.name == "") (xrpc 400 "InvalidRequest")
  try_or
      (create_app_password (record {
        did = did;
        name = input.name;
        password_hash = hash;
        privileged = input.privileged;
        created_at = now;
      }))
      (xrpc 400 "InvalidRequest")
  pure (record {
    name = input.name;
    password = password;
    created_at = rfc3339 now;
    privileged = input.privileged;
  })

-- The listing leaves the passwords out.
unfoldable pub handle_list_app_passwords :
    Env → ℕ → Request → Exec Store HttpError (List AppPasswordOutput)
handle_list_app_passwords env now r = do
  did ← reads (require_privileged_access_token env now r)
  aps ← reads (λ s. ok (list_app_passwords did s))
  pure (map (λ ap. shown ap) aps)
  where
    shown : AppPassword → AppPasswordOutput
    shown ap = record {
      name = ap.name;
      password = "";
      created_at = rfc3339 ap.created_at;
      privileged = ap.privileged;
    }

unfoldable pub handle_revoke_app_password :
    Env → ℕ → Request → Option String → Exec Store HttpError (Unit {0})
handle_revoke_app_password env now r body = do
  did ← reads (require_privileged_access_token env now r)
  name ← reads (λ s. from_option body (xrpc 400 "InvalidRequest"))
  try_or (revoke_app_password did name) (xrpc 404 "NotFound")
