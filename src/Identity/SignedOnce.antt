-- ===== src/Identity/SignedOnce.antt =====
-- internal/xrpc/identity.go: what an approved token lets an account sign, and that it does so once.
use robby.Prelude.{ℕ, String, Bool, false, ◌==◌, string_eq, ◌≡◌, some, ok, Result, delete}
use robby.Accounts.Rows.{Account, AdminToken}
use robby.Accounts.Tokens.{redeemable, token_purpose_plc_sign}
use robby.Accounts.Versions.{account_of}
use robby.Session.Principal.{HttpError, Env, Request, require_privileged_access_token}
use robby.Server.State.{Server, Syntax, Keys}
use robby.Identity.Json.{Json, Fields, lookup, to_string_slice, to_map}
use robby.Identity.Operation.{IsChosen, IsOperation}
use robby.Identity.Plc.{OpFields, Signing, Directory, get_last_op}
use robby.Identity.Handlers.{handle_sign_plc_operation, string_or_empty}

-- The body's token.
abbrev pub token_of : Fields → String
token_of input = string_or_empty (lookup "token" input)

module _ {K : Type 0} (env : Env) (syn : Syntax) (keys : Keys K) (signing : Signing K)
    (dir : Directory) where
  -- Each field of the operation is the caller's or else the last operation's, and its signature is by the
  -- rotation key in the account's row.
  pub record IsSigned (did : String) (input signed : Fields) (s : Server) : Type 0 where
    pub acct : Account
    pub found : account_of did s.store ≡ some acct
    pub key : K
    pub rotation_key : keys.parse_private acct.rotation_key ≡ some key
    pub last : String × Fields
    pub latest : get_last_op dir did ≡ ok last
    pub fields : OpFields
    pub rotation_keys :
        (v : Json) × IsChosen input last.1 "rotationKeys" v
        × (fields.rotation_keys ≡ to_string_slice v)
    pub verification_methods :
        (v : Json) × IsChosen input last.1 "verificationMethods" v
        × (fields.verification_methods ≡ to_map v)
    pub also_known_as :
        (v : Json) × IsChosen input last.1 "alsoKnownAs" v
        × (fields.also_known_as ≡ to_string_slice v)
    pub services : (v : Json) × IsChosen input last.1 "services" v × (fields.services ≡ to_map v)
    pub signature : IsOperation signing key last.0 fields signed

  abbrev signs : ℕ → Request → Fields → Server → Result HttpError Fields × Server
  signs now r input = handle_sign_plc_operation env syn keys signing dir now r (some input)

  module _ (now : ℕ) (r : Request) (input signed : Fields) (s : Server) (did : String)
      (acts : require_privileged_access_token env now r s.store ≡ ok did)
      (h : (signs now r input s).0 ≡ ok signed) where
    abbrev spent : AdminToken → Bool
    spent = redeemable now (token_of input) did token_purpose_plc_sign

    -- What the handler went through.
    record IsRun : Type 0 where
      given : (token_of input == "") ≡ false
      is_signed : IsSigned did input signed s
      left : (signs now r input s).1.store.admin_tokens ≡ delete spent s.store.admin_tokens
