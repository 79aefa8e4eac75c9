-- ===== src/Session/Revocation.antt =====
-- internal/xrpc/session.go with internal/store/store.go: what ends a session.
use robby.Prelude.{
  Bool-cases, some_row, ◌||◌, ◌==◌, string_eq, select_one-append_none, select_one-delete_all, sym,
  delete, false, ℕ, ◌+◌, ◌≤◌, String, Bool, true, ◌≡◌, refl, some, List, inl, inr, arith, ok, err,
  All, Result, select_one-update_self, eq_iff,
}
use robby.Accounts.Rows.{Account, Store, status_active, status_deactivated}
use robby.Accounts.Users.{
  by_did, get_account_by_did, set_status, set_password_hash, delete_account, create_account,
  account_row, activate_account,
}
use robby.Accounts.Tokens.{list_app_passwords}
use robby.Accounts.Calls.{Call, run_all}
use robby.Accounts.Versions.{account_of, HasVersion, Spares, run_all-HasVersion}
use robby.Auth.{ParsedToken, parse_access_token}
use robby.Session.Principal.{
  HttpError, Env, Request, bearer_token, require_principal, check_principal, xrpc,
}
use robby.Session.Authorization.{require_principal-IsAuthorized, IsAuthorized-require_principal}

-- A refusal with HTTP status 401.
abbrev pub Unauthorized : {A : Type 0} → Result HttpError A → Type 0
Unauthorized r = (name : String) × (r ≡ err (xrpc 401 name))

module _ (env : Env) (now : ℕ) (r : Request) (privileged allow_deactivated : Bool) (token : String)
    (p : ParsedToken) (bearer : bearer_token r ≡ some token)
    (verified : parse_access_token env.jwt env.jwt_secret now token ≡ some p) where
  -- A token whose version is not the account's is refused.
  pub stale_version_refused :
      (s : Store)
      → HasVersion p.did (p.auth_version + 1) s
      → require_principal env now r privileged allow_deactivated s ≡ err (xrpc 401 "ExpiredToken")
  unfolding require_principal get_account_by_did check_principal
  stale_version_refused s (a, e, h) = rw (bearer, verified, e) (ground arith)

registered :
    (did : String) (a : Account) (s : Store)
    → a.did ≡ did
    → (create_account a (delete_account did s).1).0 ≡ ok tt
    → account_of did (create_account a (delete_account did s).1).1 ≡ some (account_row a)
unfolding create_account delete_account
registered did a s same created =
    elim (Bool-cases
      (some_row (λ b. b.did == a.did || b.handle == a.handle) (delete (by_did did) s.accounts))) [
        | inl taken ↦ absurd (ground arith)
        | inr free ↦ rw free (
            select_one-append_none (by_did did) _ _
              (select_one-delete_all (by_did did) (by_did did) s.accounts (λ x h. h))
              (unfold account_row in (eq_iff a.did did).1 same))
      ]

pub bumped :
    (did status hash : String) (s : Store) (a : Account)
    → account_of did s ≡ some a
    → HasVersion did (a.auth_version + 1) (set_status did status s).1
      × HasVersion did (a.auth_version + 1) (set_password_hash did hash s).1
unfolding set_status set_password_hash
bumped did status hash s a e = (
  (
    record a { status = status; auth_version = a.auth_version + 1 },
    select_one-update_self (by_did did) _ s.accounts a (λ x h. h) e,
    omega arith,
  ),
  (
    record a { password_hash = hash; auth_version = a.auth_version + 1 },
    select_one-update_self (by_did did) _ s.accounts a (λ x h. h) e,
    omega arith,
  ),
)

-- Once an account's status or password has been set, a token that was issued before is refused, at
-- every instant and whatever calls follow, as long as none of them deletes the account.
pub revoked_forever :
    (env : Env) (now : ℕ) (r : Request) (privileged allow_deactivated : Bool) (token : String)
    (p : ParsedToken) (s : Store) (a : Account) (status hash : String) (cs : List Call)
    → bearer_token r ≡ some token
    → parse_access_token env.jwt env.jwt_secret now token ≡ some p
    → account_of p.did s ≡ some a
    → p.auth_version ≤ a.auth_version
    → All (Spares p.did) cs
    → (require_principal env now r privileged allow_deactivated
          (run_all cs (set_status p.did status s).1)
        ≡ err (xrpc 401 "ExpiredToken"))
      × (require_principal env now r privileged allow_deactivated
            (run_all cs (set_password_hash p.did hash s).1)
          ≡ err (xrpc 401 "ExpiredToken"))
revoked_forever env now r privileged allow_deactivated token p s a status hash cs bearer verified e
      h spared =
    let b = bumped p.did status hash s a e in
    let refused =
      stale_version_refused env now r privileged allow_deactivated token p bearer verified in
    (refused _ (later _ b.0), refused _ (later _ b.1))
  where
    later :
        (t : Store)
        → HasVersion p.did (a.auth_version + 1) t
        → HasVersion p.did (p.auth_version + 1) (run_all cs t)
    later t v = let (x, e', h') = run_all-HasVersion p.did _ cs t spared v in (x, e', omega arith)

-- Activation keeps the session that asks for it: a request that passed while the account was allowed
-- to be deactivated passes after the activation, also where a deactivated account is refused.
pub activate-keeps_session :
    (env : Env) (now : ℕ) (r : Request) (privileged allow_deactivated : Bool) (p : ParsedToken)
    (s : Store)
    → require_principal env now r privileged true s ≡ ok p
    → require_principal env now r privileged allow_deactivated (activate_account p.did s).1 ≡ ok p
unfolding activate_account
activate-keeps_session env now r privileged allow_deactivated p s h =
    let v = require_principal-IsAuthorized env now r privileged true s p h in
    IsAuthorized-require_principal env now r privileged allow_deactivated _ p (record {
      token = v.token;
      acct = record (v.acct) { status = status_active };
      bearer = v.bearer;
      verified = v.verified;
      account = select_one-update_self (by_did p.did) _ s.accounts v.acct (λ x k. k) v.account;
      status = inl refl;
      version = v.version;
      credential = unfold list_app_passwords in v.credential;
      privilege = v.privilege;
    })

-- A deletion is not for good: when the DID is registered again, with the first auth version, a
-- primary session of the deleted account that had that version acts again.
pub deleted_session_revives :
    (env : Env) (now : ℕ) (r : Request) (privileged : Bool) (p : ParsedToken) (s : Store)
    (a : Account)
    → require_principal env now r privileged false s ≡ ok p
    → p.app_password_name ≡ ""
    → p.auth_version ≡ 1
    → a.did ≡ p.did
    → a.auth_version ≡ 1
    → a.status ≡ status_deactivated
    → (create_account a (delete_account p.did s).1).0 ≡ ok tt
    → require_principal env now r privileged true (create_account a (delete_account p.did s).1).1
      ≡ ok p
deleted_session_revives env now r privileged p s a h name v1 same a1 st created =
    let v = require_principal-IsAuthorized env now r privileged false s p h in
    IsAuthorized-require_principal env now r privileged true _ p (record {
      token = v.token;
      acct = account_row a;
      bearer = v.bearer;
      verified = v.verified;
      account = registered p.did a s same created;
      status = unfold account_row in inr (refl, st);
      version = unfold account_row in rw a1 (sym v1);
      credential = inl name;
      privilege = v.privilege;
    })
