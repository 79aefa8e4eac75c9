-- ===== src/Session/Rotation.antt =====
-- internal/xrpc/session.go: a refresh token serves once.
use robby.Prelude.{
  delete, ◌&&◌, ◌==◌, string_eq, nat_eq, leb, ℕ, ◌≤◌, String, Bool, true, false, ◌≡◌, ◌≢◌, refl,
  some, inl, inr, arith, ok, Option-cases, Bool-cases, select_one, some_row, some_row-delete_all,
  some_row-delete_none, some_row-append_none, some_row_mono, eq_iff,
}
use robby.Accounts.Rows.{Account, RefreshToken, Store, rfc3339}
use robby.Accounts.Users.{by_did, get_account_by_did}
use robby.Accounts.Tokens.{
  by_hash, consumable, get_refresh_token, consume_refresh_token, create_refresh_token, refresh_row,
}
use robby.Auth.{Credential, ParsedToken, parse_refresh_token, issue_refresh_token}
use robby.Session.Principal.{Env, Request, bearer_token}
use robby.Session.Handlers.{SessionOutput, issue_session, handle_refresh_session, session_revoked}
use robby.Session.Revocation.{Unauthorized}

module _ (env : Env) (now : ℕ) (jti : String) (r : Request) (token : String) (p : ParsedToken)
    (bearer : bearer_token r ≡ some token)
    (verified : parse_refresh_token env.jwt env.jwt_secret now token ≡ some p) where
  abbrev spendable : RefreshToken → Bool
  spendable = consumable now (env.hash_token p.jti) p.did p.auth_version

  -- With no row to consume, the refresh is refused.
  unspendable_refused :
      (s : Store)
      → some_row spendable s.refresh_tokens ≡ false
      → Unauthorized (handle_refresh_session env now jti r s).0
  unfolding handle_refresh_session get_refresh_token get_account_by_did consume_refresh_token
  unspendable_refused s h =
      elim (Option-cases (select_one (by_hash (env.hash_token p.jti)) s.refresh_tokens)) [
        | inl e ↦ ("ExpiredToken", rw (bearer, verified, e))
        | inr (stored, e) ↦ elim (Option-cases (select_one (by_did p.did) s.accounts)) [
          | inl e' ↦ ("AuthenticationRequired", rw (bearer, verified, e, e'))
          | inr (acct, e') ↦ elim (Bool-cases (session_revoked acct p stored)) [
            | inl c ↦ ("ExpiredToken", rw (bearer, verified, e, e', c))
            | inr c ↦ ("ExpiredToken", rw (bearer, verified, e, e', c, h))
          ]
        ]
      ]

-- A new session adds no row that the test sees, if the test asks for another hash.
issue_session-unseen :
    (env : Env) (now : ℕ) (jti hash : String) (acct : Account) (c : Credential)
    (test : RefreshToken → Bool) (s : Store)
    → ((t : RefreshToken) → test t ≡ true → t.token_hash ≡ hash)
    → env.hash_token jti ≢ hash
    → some_row test s.refresh_tokens ≡ false
    → some_row test (issue_session env now jti acct c s).1.refresh_tokens ≡ false
unfolding issue_session create_refresh_token refresh_row issue_refresh_token
issue_session-unseen env now jti hash acct c test s only fresh h =
    elim (Bool-cases (
      some_row (by_hash (env.hash_token jti))
        (delete (λ r. r.did == acct.did && leb r.expires_at (rfc3339 now)) s.refresh_tokens))) [
          | inl taken ↦ rw taken (some_row-delete_none test _ s.refresh_tokens h)
          | inr free ↦ rw free (
              some_row-append_none test _ _ (some_row-delete_none test _ s.refresh_tokens h)
                (unseen _ (λ e. fresh (only _ e))))
        ]
  where
    unseen : (b : Bool) → ¬ (b ≡ true) → b ≡ false
    unseen true k = absurd (k refl)
    unseen false k = refl

-- After a refresh, whatever its outcome past the consumption, the token's row is gone.
refresh-spends :
    (env : Env) (now : ℕ) (jti : String) (r : Request) (token : String) (p : ParsedToken)
    (s : Store) (out : SessionOutput)
    → bearer_token r ≡ some token
    → parse_refresh_token env.jwt env.jwt_secret now token ≡ some p
    → env.hash_token jti ≢ env.hash_token p.jti
    → (handle_refresh_session env now jti r s).0 ≡ ok out
    → some_row
        (consumable now (env.hash_token p.jti) p.did p.auth_version)
        (handle_refresh_session env now jti r s).1.refresh_tokens
      ≡ false
unfolding handle_refresh_session get_refresh_token get_account_by_did consume_refresh_token
refresh-spends env now jti r token p s out bearer verified fresh h =
    elim (Option-cases (select_one (by_hash (env.hash_token p.jti)) s.refresh_tokens)) [
      | inl e ↦ absurd (ground arith)
      | inr (stored, e) ↦ elim (Option-cases (select_one (by_did p.did) s.accounts)) [
        | inl e' ↦ absurd (ground arith)
        | inr (acct, e') ↦ elim (Bool-cases (session_revoked acct p stored)) [
          | inl c ↦ absurd (ground arith)
          | inr c ↦
              elim (Bool-cases (
                some_row (consumable now (env.hash_token p.jti) p.did p.auth_version)
                  s.refresh_tokens)) [
                    | inl there ↦
                        rw (bearer, verified, e, e', c, there)
                          (issue_session-unseen env now jti (env.hash_token p.jti) acct _ _ _
                            (λ t k. ground (arith, eq_iff t.token_hash (env.hash_token p.jti)))
                            fresh (some_row-delete_all _ _ s.refresh_tokens (λ t k. k)))
                    | inr gone ↦ absurd (ground arith)
                  ]
        ]
      ]
    ]

-- A refresh token serves once: after a refresh with it has succeeded, the same request is refused
-- with 401 at that instant and at every later one, provided that the new token's hash is another.
pub refresh_once :
    (env : Env) (now later : ℕ) (jti jti' : String) (r : Request) (token : String) (p : ParsedToken)
    (s : Store) (out : SessionOutput)
    → bearer_token r ≡ some token
    → parse_refresh_token env.jwt env.jwt_secret now token ≡ some p
    → parse_refresh_token env.jwt env.jwt_secret later token ≡ some p
    → now ≤ later
    → env.hash_token jti ≢ env.hash_token p.jti
    → (handle_refresh_session env now jti r s).0 ≡ ok out
    → Unauthorized
        (handle_refresh_session env later jti' r (handle_refresh_session env now jti r s).1).0
refresh_once env now later jti jti' r token p s out bearer verified still after fresh h =
    unspendable_refused env later jti' r token p bearer still _ (
      some_row_mono _ _ _ (λ t k. ground arith)
        (refresh-spends env now jti r token p s out bearer verified fresh h))
