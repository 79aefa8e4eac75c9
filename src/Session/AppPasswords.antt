-- ===== src/Session/AppPasswords.antt =====
-- internal/xrpc/session.go and apppassword.go: what revoking an app password ends, and what an app password
-- session can never do.
use robby.Prelude.{
  ℕ, String, Bool, true, false, ◌==◌, string_eq, nat_eq, ◌≡◌, ◌≢◌, refl, ◌∙◌, some, none, List, [],
  ◌∷◌, arith, inl, inr, eq_iff, err, All, Option-cases, some_row, some_row-order_by,
  some_row-select, select, select_one,
}
use robby.Accounts.Rows.{AppPassword, Store}
use robby.Accounts.Users.{by_did, get_account_by_did}
use robby.Accounts.Tokens.{list_app_passwords, revoke_app_password}
use robby.Accounts.Calls.{Call, run_all}
use robby.Accounts.AppPasswords.{Lacks, Withholds, run_all-Lacks, revoked-Lacks}
use robby.Auth.{ParsedToken, parse_access_token}
use robby.Session.Principal.{
  Env, Request, xrpc, bearer_token, matching_app_credential, check_principal, require_principal,
  app_credential_revoked, optional_access_token,
}

-- No app password of the name is listed, so none matches.
unmatched :
    (aps : List AppPassword) (p : ParsedToken)
    → some_row (λ ap. ap.name == p.app_password_name) aps ≡ false
    → matching_app_credential aps p ≡ false
unfolding some_row matching_app_credential
unmatched [] p h = refl
unmatched (ap ∷ aps) p h = ground (arith, unmatched aps p)

Lacks-revoked :
    (p : ParsedToken) (s : Store)
    → p.app_password_name ≢ ""
    → Lacks p.did p.app_password_name s
    → app_credential_revoked s p ≡ true
unfolding list_app_passwords
Lacks-revoked p s named h =
    rw
      (unmatched (list_app_passwords p.did s) p (
        some_row-order_by (λ ap. ap.name == p.app_password_name) (λ x. x.created_at)
          (select (λ x. x.did == p.did) s.app_passwords)
        ∙ some_row-select (λ ap. ap.name == p.app_password_name) (λ x. x.did == p.did)
            s.app_passwords
        ∙ h))
      (ground (arith, eq_iff p.app_password_name "", named))

module _ (env : Env) (now : ℕ) (r : Request) (privileged allow_deactivated : Bool) (token : String)
    (p : ParsedToken) (bearer : bearer_token r ≡ some token)
    (verified : parse_access_token env.jwt env.jwt_secret now token ≡ some p) where
  revoked_refused :
      (s : Store)
      → app_credential_revoked s p ≡ true
      → (require_principal env now r privileged allow_deactivated s ≡ err (xrpc 401 "ExpiredToken"))
        × (optional_access_token env now r s ≡ none)
  unfolding require_principal get_account_by_did check_principal optional_access_token
  revoked_refused s h = elim (Option-cases (select_one (by_did p.did) s.accounts)) [
    | inl e ↦ (rw (bearer, verified, e) refl, ground arith)
    | inr (acct, e) ↦ (rw (bearer, verified, e) (ground arith), ground arith)
  ]

-- Once an app password is revoked, no access token of its sessions is accepted, neither where a token
-- is asked for nor where it is optional, at every instant and whatever calls follow, until an app
-- password of that name is created again.
pub revoked_app_password_refused :
    (env : Env) (now : ℕ) (r : Request) (privileged allow_deactivated : Bool) (token : String)
    (p : ParsedToken) (s : Store) (cs : List Call)
    → bearer_token r ≡ some token
    → parse_access_token env.jwt env.jwt_secret now token ≡ some p
    → p.app_password_name ≢ ""
    → All (Withholds p.did p.app_password_name) cs
    → (require_principal env now r privileged allow_deactivated
          (run_all cs (revoke_app_password p.did p.app_password_name s).1)
        ≡ err (xrpc 401 "ExpiredToken"))
      × (optional_access_token env now r
            (run_all cs (revoke_app_password p.did p.app_password_name s).1)
          ≡ none)
revoked_app_password_refused env now r privileged allow_deactivated token p s cs bearer verified
      named withheld =
    revoked_refused env now r privileged allow_deactivated token p bearer verified _ (
      Lacks-revoked p _ named (
        run_all-Lacks p.did p.app_password_name cs _ withheld
          (revoked-Lacks p.did p.app_password_name s)))
