-- ===== src/Repo/Owner.antt =====
-- internal/xrpc/repo.go: resolveRepoDID and requireOwnRepo, which guard every write to a repository.
use robby.Prelude.{
  ℕ, String, false, not, ◌==◌, string_eq, ◌≡◌, inl, inr, arith, eq_iff, trim_prefix, subst, Result,
  ok, result_or, Result-cases, ok_injective, Bool-cases,
}
use robby.Prelude.Results.{◌>>=◌, ◌>>◌, refuse_if}
use robby.Accounts.Rows.{Store, StoreError}
use robby.Accounts.Users.{get_account_by_identifier}
use robby.Auth.{ParsedToken}
use robby.Session.Principal.{HttpError, xrpc, Request, Env, require_principal, require_access_token}
use robby.Session.Authorization.{IsAuthorized, require_principal-IsAuthorized}

unfoldable pub resolve_repo_did : String → Store → Result StoreError String
resolve_repo_did repo s = do
  acct ← get_account_by_identifier (trim_prefix repo "at://") s
  ok acct.did

unfoldable pub require_own_repo : Env → ℕ → Request → String → Store → Result HttpError String
require_own_repo env now r repo s = do
  auth_did ← require_access_token env now r s
  target_did ← result_or (resolve_repo_did repo s) (xrpc 404 "RepoNotFound")
  refuse_if (not (target_did == auth_did)) (xrpc 403 "AuthRequired")
  ok auth_did

-- The request acts for an account, the repository's name resolves to it, and `did` is its DID.
pub record IsOwner (env : Env) (now : ℕ) (r : Request) (repo : String) (s : Store) (did : String)
    : Type 0 where
  pub parsed : ParsedToken
  pub authorized : IsAuthorized env now r false false s parsed
  pub same : parsed.did ≡ did
  pub resolved : resolve_repo_did repo s ≡ ok did

-- A write passes only with an access token that acts for the account that the repository's name
-- resolves to, where it is active, and goes to that account's repository.
pub require_own_repo-IsOwner :
    (env : Env) (now : ℕ) (r : Request) (repo : String) (s : Store) (did : String)
    → require_own_repo env now r repo s ≡ ok did
    → IsOwner env now r repo s did
unfolding require_own_repo require_access_token
require_own_repo-IsOwner env now r repo s did h =
    elim (Result-cases (require_principal env now r false false s)) [
      | inl (e, h1) ↦ absurd (ground arith)
      | inr (p, h1) ↦ elim (Result-cases (resolve_repo_did repo s)) [
        | inl (e, h2) ↦ absurd (ground arith)
        | inr (target, h2) ↦ elim (Bool-cases (target == p.did)) [
          | inr e ↦ absurd (ground arith)
          | inl e ↦
              let same : p.did ≡ did = ok_injective {E = HttpError} p.did did (ground arith) in
              record {
                parsed = p;
                authorized = require_principal-IsAuthorized env now r false false s p h1;
                same = same;
                resolved =
                    subst (λ d. resolve_repo_did repo s ≡ ok d) same
                      (subst (λ d. resolve_repo_did repo s ≡ ok d) ((eq_iff target p.did).0 e) h2);
              }
        ]
      ]
    ]
