-- ===== src/Auth.antt =====
-- internal/auth/auth.go: issuing and parsing access and refresh tokens. golang-jwt is a parameter:
-- `Jwt` has what the code calls. A NumericDate has whole seconds, like the database's times.
use robby.Prelude.{
  ℕ, ◌+◌, ◌*◌, String, ◌||◌, not, Option, none, some, ltb, ◌==◌, string_eq, if◌then◌else◌,
}
use robby.Accounts.Rows.{second, rfc3339}

abbrev pub access_token_ttl : ℕ
access_token_ttl = 2 * 3600 * second

abbrev pub refresh_token_ttl : ℕ
refresh_token_ttl = 90 * 24 * 3600 * second

abbrev pub scope_access : String
scope_access = "com.atproto.access"

abbrev pub scope_refresh : String
scope_refresh = "com.atproto.refresh"

abbrev pub credential_primary : String
credential_primary = "primary"

abbrev pub credential_app_password : String
credential_app_password = "app_password"

abbrev pub credential_privileged_app_password : String
credential_privileged_app_password = "privileged_app_password"

-- `claims`, with the registered claims that the code sets.
pub record Claims : Type 0 where
  pub scope : String
  pub auth_version : ℕ
  pub credential_kind : String
  pub app_password_name : String
  pub subject : String
  pub audience : String
  pub issued_at : ℕ
  pub expires_at : ℕ
  pub id : String

pub record Credential : Type 0 where
  pub kind : String
  pub app_password_name : String

pub record ParsedToken : Type 0 where
  pub did : String
  pub jti : String
  pub scope : String
  pub auth_version : ℕ
  pub credential_kind : String
  pub app_password_name : String

-- The signing method that a token's header names.
pub data Method : Type 0 where
  hmac other : Method

-- `sign` signs with HS256; `parse_with_claims` asks for the key by the token's method, and answers
-- with the claims only if the signature and the times are valid at the given instant.
pub record Jwt : Type 0 where
  pub sign : String → Claims → String
  pub parse_with_claims : (Method → Option String) → ℕ → String → Option Claims

unfoldable pub keyfunc : String → Method → Option String
keyfunc secret Method.hmac = some secret
keyfunc secret Method.other = none

unfoldable pub access_claims : String → String → ℕ → Credential → ℕ → Claims
access_claims did service_did auth_version credential now = record {
  scope = scope_access;
  auth_version = auth_version;
  credential_kind = credential.kind;
  app_password_name = credential.app_password_name;
  subject = did;
  audience = service_did;
  issued_at = rfc3339 now;
  expires_at = rfc3339 (now + access_token_ttl);
  id = "";
}

unfoldable pub issue_access_token : Jwt → String → String → String → ℕ → Credential → ℕ → String
unfolding access_claims
issue_access_token jwt secret did service_did auth_version credential now =
    jwt.sign secret (access_claims did service_did auth_version credential now)

-- `jti` is the hexadecimal text of the 16 random bytes that the source draws.
unfoldable pub refresh_claims : String → String → ℕ → Credential → String → ℕ → Claims
refresh_claims did service_did auth_version credential jti now = record {
  scope = scope_refresh;
  auth_version = auth_version;
  credential_kind = credential.kind;
  app_password_name = credential.app_password_name;
  subject = did;
  audience = service_did;
  issued_at = rfc3339 now;
  expires_at = rfc3339 (now + refresh_token_ttl);
  id = jti;
}

unfoldable pub issue_refresh_token :
    Jwt → String → String → String → ℕ → Credential → String → ℕ → String × ℕ
unfolding refresh_claims
issue_refresh_token jwt secret did service_did auth_version credential jti now = (
  jwt.sign secret (refresh_claims did service_did auth_version credential jti now),
  now + refresh_token_ttl,
)

-- What `parse` checks of verified claims.
unfoldable pub check_claims : String → Claims → Option ParsedToken
check_claims want_scope c =
    if not (c.scope == want_scope)
    then none
    else if ltb c.auth_version 1 || c.credential_kind == ""
    then none
    else some (record {
      did = c.subject;
      jti = c.id;
      scope = c.scope;
      auth_version = c.auth_version;
      credential_kind = c.credential_kind;
      app_password_name = c.app_password_name;
    })

unfoldable pub parse : Jwt → String → ℕ → String → String → Option ParsedToken
unfolding keyfunc check_claims
parse jwt secret now token want_scope = elim (jwt.parse_with_claims (keyfunc secret) now token) [
  | none ↦ none
  | some c ↦ check_claims want_scope c
]

unfoldable pub parse_access_token : Jwt → String → ℕ → String → Option ParsedToken
parse_access_token jwt secret now token = parse jwt secret now token scope_access

unfoldable pub parse_refresh_token : Jwt → String → ℕ → String → Option ParsedToken
parse_refresh_token jwt secret now token = parse jwt secret now token scope_refresh
