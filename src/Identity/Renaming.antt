-- ===== src/Identity/Renaming.antt =====
-- internal/xrpc/identity.go: what it takes to change a handle, and what is published and stored then.
use Prim.Native.String.{◌++◌ as append_text}
use robby.Prelude.{
  none, err, ◌⊎◌, ◌≢◌, [], ◌∷◌, ℕ, String, false, not, ◌&&◌, ◌==◌, string_eq, ◌≡◌, some, ok, Result,
  select_one, some_row,
}
use robby.Accounts.Rows.{Account, Store}
use robby.Accounts.Users.{by_handle}
use robby.Accounts.Versions.{account_of}
use robby.Session.Principal.{xrpc, HttpError, Env, Request}
use robby.Server.State.{Server, Syntax, Keys}
use robby.Identity.Json.{Fields, lookup, value_or_nil, to_string_slice, to_map}
use robby.Identity.Operation.{IsOperation}
use robby.Identity.Plc.{PlcError, OpFields, Signing, Directory, sign_op, submit, get_last_op}
use robby.Identity.Handlers.{handle_update_handle}

-- No account of the table has the handle but this one.
abbrev pub IsFree : String → String → Store → Type 0
IsFree did handle s = some_row (λ b. not (b.did == did) && b.handle == handle) s.accounts ≡ false

-- The account that is found by the handle is another one; below, it is this one or there is none.
abbrev pub IsTaken : String → String → Store → Type 0
IsTaken did handle s =
    (a : Account) × (select_one (by_handle handle) s.accounts ≡ some a) × (a.did ≢ did)

abbrev pub IsOpen : String → String → Store → Type 0
IsOpen did handle s =
    (select_one (by_handle handle) s.accounts ≡ none)
    ⊎ ((a : Account) × (select_one (by_handle handle) s.accounts ≡ some a) × (a.did ≡ did))

-- The last operation with the handle as its only name.
abbrev pub with_name : Fields → String → OpFields
with_name last handle = record {
  rotation_keys = to_string_slice (value_or_nil (lookup "rotationKeys" last));
  verification_methods = to_map (value_or_nil (lookup "verificationMethods" last));
  also_known_as = append_text "at://" handle ∷ [];
  services = to_map (value_or_nil (lookup "services" last));
}

module _ {K : Type 0} (env : Env) (syn : Syntax) (keys : Keys K) (signing : Signing K)
    (dir : Directory) where
  -- The directory has taken an operation that is signed with the account's rotation key and says what the
  -- last one said but for its names, of which the handle is the only one. The account has the handle.
  pub record IsRenaming (did handle : String) (s t : Server) : Type 0 where
    pub free : IsFree did handle s.store
    pub acct : Account
    pub found : account_of did s.store ≡ some acct
    pub key : K
    pub rotation_key : keys.parse_private acct.rotation_key ≡ some key
    pub last : String × Fields
    pub latest : get_last_op dir did ≡ ok last
    pub signed : Fields
    pub signature : IsOperation signing key last.0 (with_name last.1 handle) signed
    pub submitted : submit dir did signed ≡ ok tt
    pub renamed : account_of did t.store ≡ some (record acct { handle = handle })
    pub actors : t.actors ≡ s.actors

  -- A step that fails, and the error that the request is answered with for it.
  pub data IsFailure (did handle : String) (s : Server) : HttpError → Type 0 where
    no_account : account_of did s.store ≡ none → IsFailure did handle s (xrpc 404 "NotFound")
    no_key :
        {acct : Account}
        → account_of did s.store ≡ some acct
        → keys.parse_private acct.rotation_key ≡ none
        → IsFailure did handle s (xrpc 500 "InternalServerError")
    no_last_op :
        {e : PlcError}
        → get_last_op dir did ≡ err e
        → IsFailure did handle s (xrpc 500 "InternalServerError")
    not_signed :
        {acct : Account} {key : K} {last : String × Fields} {e : PlcError}
        → account_of did s.store ≡ some acct
        → keys.parse_private acct.rotation_key ≡ some key
        → get_last_op dir did ≡ ok last
        → sign_op signing key (some last.0) (with_name last.1 handle) ≡ err e
        → IsFailure did handle s (xrpc 500 "InternalServerError")
    not_taken :
        {acct : Account} {key : K} {last : String × Fields} {signed : Fields} {e : PlcError}
        → account_of did s.store ≡ some acct
        → keys.parse_private acct.rotation_key ≡ some key
        → get_last_op dir did ≡ ok last
        → IsOperation signing key last.0 (with_name last.1 handle) signed
        → submit dir did signed ≡ err e
        → IsFailure did handle s (xrpc 502 "UpstreamFailure")
    not_free : ¬ IsFree did handle s.store → IsFailure did handle s (xrpc 500 "InternalServerError")

  module _ (now : ℕ) (r : Request) (input : String) (s : Server) where
    abbrev handled : Result HttpError (Unit {0}) × Server
    handled = handle_update_handle env syn keys signing dir now r (some input) s

    -- How the request ends for the account `did` and the normal form of its handle.
    abbrev pub IsOutcome : String → String → Type 0
    IsOutcome did handle =
        (IsTaken did handle s.store × (handled ≡ (err (xrpc 400 "HandleNotAvailable"), s)))
        ⊎ (IsOpen did handle s.store
            × (((handled.0 ≡ ok tt) × IsRenaming did handle s handled.1)
                ⊎ ((e : HttpError) × IsFailure did handle s e × (handled ≡ (err e, s)))))
