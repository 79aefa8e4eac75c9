-- ===== src/Migration/Signup.antt =====
-- internal/xrpc/migration.go: reserveSigningKey, and createAccount for an account that moves in.
use robby.Prelude.{
  ℕ, String, not, ◌&&◌, Option, none, some, ◌==◌, string_eq, if◌then◌else◌, Result, ok, err, Exec,
  pure, reads, try_or, raise_if, from_option, ◌>>=◌, ◌>>◌,
}
use robby.Accounts.Rows.{Account, Store, StoreError, status_deactivated}
use robby.Accounts.Users.{create_account}
use robby.Accounts.Tokens.{reserve_signing_key, get_reserved_signing_key}
use robby.Auth.{Credential, credential_primary}
use robby.Session.Principal.{HttpError, xrpc, Env, Request}
use robby.Session.Handlers.{SessionOutput, issue_session}
use robby.Server.State.{Server, Syntax, Keys, on_store}
use robby.Admin.Signup.{NewKeys}
use robby.Migration.Checks.{CreateAccountInput, Validator, check_move}

abbrev pub kept_key : Result StoreError String → Option String
kept_key (ok key) = some key
kept_key (err e) = none

abbrev pub primary_credential : Credential
primary_credential = record { kind = credential_primary; app_password_name = "" }

module _ {K : Type 0} (env : Env) (syn : Syntax) (keys : Keys K) (validate : Validator) where
  -- The key that is kept for a DID; a request without a DID keeps none.
  abbrev pub kept_for : ℕ → String → Store → Option String
  kept_for now did s = if did == "" then none else kept_key (get_reserved_signing_key now did s)

  abbrev reserve : ℕ → String → String → Exec Store StoreError (Unit {0})
  reserve now did key s = if did == "" then (ok tt, s) else reserve_signing_key now did key s

  abbrev answer_kept : ℕ → K → String → Option String → Exec Server HttpError String
  answer_kept now drawn did (some key) = do
    priv ← reads (λ s. from_option (keys.parse_private key) (xrpc 500 "InternalServerError"))
    reads (λ s. from_option (keys.did_key priv) (xrpc 500 "InternalServerError"))
  answer_kept now drawn did none = do
    pub_key ← reads (λ s. from_option (keys.did_key drawn) (xrpc 500 "InternalServerError"))
    try_or (on_store (reserve now did (keys.multibase drawn))) (xrpc 500 "InternalServerError")
    pure pub_key

  -- `did` is empty where the body has none; `drawn` is a fresh key.
  unfoldable pub handle_reserve_signing_key : ℕ → K → String → Exec Server HttpError String
  handle_reserve_signing_key now drawn did = do
    raise_if (not (did == "") && not (syn.parse_did did)) (xrpc 400 "InvalidRequest")
    kept ← reads (λ s. ok (kept_for now did s.store))
    answer_kept now drawn did kept

  -- The reserved key, or the fresh one.
  abbrev pub established : K → Option String → Option K
  established drawn none = some drawn
  established drawn (some key) = keys.parse_private key

  abbrev pub moved_account : ℕ → String → String → String → K → K → Account
  moved_account now did handle hash signing rotation = record {
    did = did;
    handle = handle;
    password_hash = hash;
    signing_key = keys.multibase signing;
    rotation_key = keys.multibase rotation;
    status = status_deactivated;
    auth_version = 1;
    created_at = now;
  }

  -- `jti`, `drawn` and `hash` are drawn at random, `hash` from the password.
  unfoldable pub handle_server_create_account :
      ℕ
      → String
      → NewKeys K
      → String
      → Request
      → Option CreateAccountInput
      → Exec Server HttpError SessionOutput
  handle_server_create_account now jti drawn hash r body = do
    input ← reads (λ s. from_option body (xrpc 400 "InvalidRequest"))
    handle ← reads (λ s. check_move env syn validate now r input s.store)
    signing ← reads (λ s.
        from_option
          (established drawn.signing (kept_key (get_reserved_signing_key now input.did s.store)))
          (xrpc 500 "InternalServerError"))
    try_or
        (on_store (create_account (moved_account now input.did handle hash signing drawn.rotation)))
        (xrpc 500 "InternalServerError")
    on_store (
        issue_session env now jti (moved_account now input.did handle hash signing drawn.rotation)
          primary_credential)
