-- ===== src/Migration/Checks.antt =====
-- internal/xrpc/migration.go: what createAccount checks of its body and its service token.
use robby.Prelude.{
  ℕ, String, Bool, false, not, Option, none, some, ◌==◌, string_eq, Result, is_ok, ok, from_option,
}
use robby.Prelude.Results.{◌>>=◌, ◌>>◌, refuse_if}
use robby.Accounts.Rows.{Store}
use robby.Accounts.Users.{get_account_by_did, get_account_by_handle}
use robby.Session.Principal.{HttpError, xrpc, Env, Request, bearer_token}
use robby.Session.Handlers.{service_did}
use robby.Server.State.{Syntax}
use robby.Migration.Car.{bad_request}

pub record CreateAccountInput : Type 0 where
  pub did : String
  pub handle : String
  pub password : String

-- indigo's ServiceAuthValidator: the DID that a token at an instant proves, by audience and method.
abbrev pub Validator : Type 0
Validator = ℕ → String → String → String → Option String

-- Whether the token's DID is the account's.
abbrev pub proves : String → Option String → Bool
proves did none = false
proves did (some caller) = caller == did

-- It gives the new account's handle.
unfoldable pub check_move :
    Env → Syntax → Validator → ℕ → Request → CreateAccountInput → Store → Result HttpError String
check_move env syn validate now r input s = do
  refuse_if (input.did == "") bad_request
  refuse_if (not (syn.parse_did input.did)) bad_request
  handle ← from_option (syn.parse_handle input.handle) (xrpc 400 "InvalidHandle")
  refuse_if (input.password == "") (xrpc 400 "InvalidPassword")
  token ← from_option (bearer_token r) (xrpc 401 "AuthenticationRequired")
  refuse_if
      (not (
        proves input.did (validate now (service_did env) "com.atproto.server.createAccount" token)))
      (xrpc 401 "AuthenticationRequired")
  refuse_if (is_ok (get_account_by_did input.did s)) bad_request
  refuse_if (is_ok (get_account_by_handle handle s)) (xrpc 400 "HandleNotAvailable")
  ok handle
