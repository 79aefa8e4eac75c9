-- ===== src/Session/Principal.antt =====
-- internal/xrpc/session.go: the bearer token of a request and the checks of `requirePrincipal`, and
-- internal/xrpc/proxy.go: `optionalAccessToken`.
use robby.Prelude.{
  ℕ, String, Bool, true, false, ◌&&◌, ◌||◌, not, Option, none, some, List, [], ◌∷◌, ◌==◌, nat_eq,
  string_eq, has_prefix, trim_prefix, if◌then◌else◌, Result, ok, err, result_or, from_option,
}
use robby.Prelude.Results.{◌>>=◌, ◌>>◌, refuse_if}
use robby.Accounts.Rows.{Account, Store, AppPassword, status_active, status_deactivated}
use robby.Accounts.Users.{get_account_by_did}
use robby.Accounts.Tokens.{list_app_passwords}
use robby.Auth.{
  Jwt, ParsedToken, parse_access_token, credential_primary, credential_app_password,
  credential_privileged_app_password,
}

-- An XRPC error: the HTTP status and the error's name. The message is not modelled.
pub data HttpError : Type 0 where
  xrpc : ℕ → String → HttpError

-- What the handlers read of a request; an absent header is the empty text.
pub record Request : Type 0 where
  pub authorization : String

-- What a handler takes from the server besides accounts.db: golang-jwt, the configured secret and
-- hostname, scrypt's verdict on a password, and the digest of a token's id.
pub record Env : Type 0 where
  pub jwt : Jwt
  pub jwt_secret : String
  pub hostname : String
  pub verify_password : String → String → Bool
  pub hash_token : String → String

abbrev pub bearer_prefix : String
bearer_prefix = "Bearer "

unfoldable pub bearer_token : Request → Option String
bearer_token r =
    if not (has_prefix r.authorization bearer_prefix)
    then none
    else some (trim_prefix r.authorization bearer_prefix)

unfoldable pub status_permitted : String → Bool → Bool
status_permitted status allow_deactivated =
    if status == status_active then true else allow_deactivated && status == status_deactivated

-- The first password with the token's name decides.
unfoldable pub matching_app_credential : List AppPassword → ParsedToken → Bool
matching_app_credential [] parsed = false
matching_app_credential (ap ∷ aps) parsed =
    if not (ap.name == parsed.app_password_name)
    then matching_app_credential aps parsed
    else (ap.privileged && parsed.credential_kind == credential_privileged_app_password)
      || (not ap.privileged && parsed.credential_kind == credential_app_password)

-- The source's condition on an account and a parsed token, for an app password session.
abbrev pub app_credential_revoked : Store → ParsedToken → Bool
app_credential_revoked s parsed =
    not (parsed.app_password_name == "")
    && not (matching_app_credential (list_app_passwords parsed.did s) parsed)

abbrev pub lacks_privilege : ParsedToken → Bool
lacks_privilege parsed =
    not (parsed.credential_kind == credential_primary)
    && not (parsed.credential_kind == credential_privileged_app_password)

-- The part of `requirePrincipal` that follows the account's lookup.
unfoldable pub check_principal :
    Bool → Bool → Store → ParsedToken → Account → Result HttpError ParsedToken
check_principal privileged allow_deactivated s parsed acct = do
  refuse_if
      (not (status_permitted acct.status allow_deactivated)
        || not (acct.auth_version == parsed.auth_version))
      (xrpc 401 "ExpiredToken")
  refuse_if (app_credential_revoked s parsed) (xrpc 401 "ExpiredToken")
  refuse_if (privileged && lacks_privilege parsed) (xrpc 403 "AuthRequired")
  ok parsed

unfoldable pub require_principal :
    Env → ℕ → Request → Bool → Bool → Store → Result HttpError ParsedToken
require_principal env now r privileged allow_deactivated s = do
  token ← from_option (bearer_token r) (xrpc 401 "AuthenticationRequired")
  parsed ←
      from_option (parse_access_token env.jwt env.jwt_secret now token) (xrpc 401 "ExpiredToken")
  acct ← result_or (get_account_by_did parsed.did s) (xrpc 401 "ExpiredToken")
  check_principal privileged allow_deactivated s parsed acct

unfoldable pub require_access_token : Env → ℕ → Request → Store → Result HttpError String
require_access_token env now r s = do
  parsed ← require_principal env now r false false s
  ok parsed.did

unfoldable pub require_privileged_access_token : Env → ℕ → Request → Store → Result HttpError String
require_privileged_access_token env now r s = do
  parsed ← require_principal env now r true false s
  ok parsed.did

unfoldable pub require_migration_access_token : Env → ℕ → Request → Store → Result HttpError String
require_migration_access_token env now r s = do
  parsed ← require_principal env now r true true s
  ok parsed.did

unfoldable pub require_migratable_access_token : Env → ℕ → Request → Store → Result HttpError String
require_migratable_access_token env now r s = do
  parsed ← require_principal env now r false true s
  ok parsed.did

-- Proxied reads are often anonymous: no error, and no account.
unfoldable pub optional_access_token : Env → ℕ → Request → Store → Option String
optional_access_token env now r s = elim (bearer_token r) [
  | none ↦ none
  | some token ↦ elim (parse_access_token env.jwt env.jwt_secret now token) [
    | none ↦ none
    | some parsed ↦ elim (get_account_by_did parsed.did s) [
      | err e ↦ none
      | ok acct ↦
          if not (acct.status == status_active) || not (acct.auth_version == parsed.auth_version)
          then none
          else if app_credential_revoked s parsed
          then none
          else some parsed.did
    ]
  ]
]
