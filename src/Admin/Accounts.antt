-- ===== src/Admin/Accounts.antt =====
-- internal/xrpc/admin.go: the admin handlers on accounts that exist. They run behind requireAdmin.
use robby.Prelude.{
  ℕ, ◌+◌, ◌*◌, String, Bool, false, ◌||◌, ◌&&◌, not, Option, some, List, map, ◌==◌, string_eq,
  if◌then◌else◌, ok, Exec, pure, reads, try_or, ignoring, raise_if, result_or, from_option, ◌>>=◌,
  ◌>>◌,
}
use robby.Accounts.Rows.{Account, second, rfc3339, status_deactivated, status_taken_down}
use robby.Accounts.Users.{get_account_by_did, list_accounts, set_password_hash, set_status}
use robby.Accounts.Tokens.{
  create_admin_token, delete_refresh_tokens_for_did, token_purpose_plc_sign,
  token_purpose_delete_account,
}
use robby.Session.Principal.{HttpError, xrpc}
use robby.Server.State.{Server, on_store}
use robby.Server.Events.{emit_account_event, emit_identity_event}

pub record AdminAccountOutput : Type 0 where
  pub did : String
  pub handle : String
  pub status : String

abbrev pub account_output : Account → AdminAccountOutput
account_output a = record { did = a.did; handle = a.handle; status = a.status }

unfoldable pub handle_admin_list_accounts : Exec Server HttpError (List AdminAccountOutput)
handle_admin_list_accounts = do
  accts ← reads (λ s. ok (list_accounts s.store))
  pure (map account_output accts)

pub record AdminSetPasswordInput : Type 0 where
  pub did : String
  pub password : String

-- `hash` is the scrypt hash of the password.
unfoldable pub handle_admin_set_password :
    String → Option AdminSetPasswordInput → Exec Server HttpError (Unit {0})
handle_admin_set_password hash body = do
  input ← reads (λ s. from_option body (xrpc 400 "InvalidRequest"))
  raise_if (input.did == "" || input.password == "") (xrpc 400 "InvalidRequest")
  try_or (on_store (set_password_hash input.did hash)) (xrpc 404 "NotFound")
  ignoring (on_store (delete_refresh_tokens_for_did input.did))

-- The status of an account is set, its refresh tokens go, and an #account event tells of it.
unfoldable pub suspend : ℕ → String → String → Exec Server HttpError (Unit {0})
suspend now did status = do
  try_or (on_store (set_status did status)) (xrpc 404 "NotFound")
  ignoring (on_store (delete_refresh_tokens_for_did did))
  try_or (emit_account_event now did false (some status)) (xrpc 500 "InternalServerError")

-- A body is the account's DID.
unfoldable pub handle_admin_deactivate_account :
    ℕ → Option String → Exec Server HttpError (Unit {0})
handle_admin_deactivate_account now body = do
  did ← reads (λ s. from_option body (xrpc 400 "InvalidRequest"))
  raise_if (did == "") (xrpc 400 "InvalidRequest")
  suspend now did status_deactivated

unfoldable pub handle_admin_takedown_account : ℕ → Option String → Exec Server HttpError (Unit {0})
handle_admin_takedown_account now body = do
  did ← reads (λ s. from_option body (xrpc 400 "InvalidRequest"))
  raise_if (did == "") (xrpc 400 "InvalidRequest")
  suspend now did status_taken_down

unfoldable pub handle_admin_refresh_identity :
    ℕ → Option String → Exec Server HttpError (String × String)
handle_admin_refresh_identity now body = do
  did ← reads (λ s. from_option body (xrpc 400 "InvalidRequest"))
  raise_if (did == "") (xrpc 400 "InvalidRequest")
  acct ← reads (λ s. result_or (get_account_by_did did s.store) (xrpc 404 "NotFound"))
  try_or (emit_identity_event now acct.did acct.handle) (xrpc 500 "InternalServerError")
  pure (acct.did, acct.handle)

pub record AdminApproveTokenInput : Type 0 where
  pub did : String
  pub purpose : String

pub record AdminApproveTokenOutput : Type 0 where
  pub token : String
  pub purpose : String
  pub expires_at : ℕ

abbrev pub admin_token_ttl : ℕ
admin_token_ttl = 15 * 60 * second

abbrev pub purpose_or_default : String → String
purpose_or_default purpose = if purpose == "" then token_purpose_plc_sign else purpose

abbrev pub unknown_purpose : String → Bool
unknown_purpose purpose =
    not (purpose == token_purpose_plc_sign) && not (purpose == token_purpose_delete_account)

-- `token` is what randomToken draws.
unfoldable pub handle_admin_approve_token :
    ℕ → String → Option AdminApproveTokenInput → Exec Server HttpError AdminApproveTokenOutput
handle_admin_approve_token now token body = do
  input ← reads (λ s. from_option body (xrpc 400 "InvalidRequest"))
  raise_if (input.did == "") (xrpc 400 "InvalidRequest")
  raise_if (unknown_purpose (purpose_or_default input.purpose)) (xrpc 400 "InvalidRequest")
  reads (λ s. result_or (get_account_by_did input.did s.store) (xrpc 404 "NotFound"))
  try_or
      (on_store (
        create_admin_token now token input.did (purpose_or_default input.purpose)
          (now + admin_token_ttl)))
      (xrpc 500 "InternalServerError")
  pure (record {
    token = token;
    purpose = purpose_or_default input.purpose;
    expires_at = rfc3339 (now + admin_token_ttl);
  })
