-- ===== src/Session/Authorization.antt =====
-- internal/xrpc/session.go: exactly which requests `requirePrincipal` lets through.
use robby.Prelude.{
  subst, not, ◌&&◌, ◌||◌, ◌==◌, nat_eq, string_eq, ℕ, String, Bool, true, false, some, ◌≡◌, ◌↔◌,
  ◌⊎◌, inl, inr, arith, eq_iff, ok, Option-cases, select_one,
}
use robby.Prelude.Results.{refuse_if-eq-ok}
use robby.Accounts.Rows.{Store, Account, status_active, status_deactivated}
use robby.Accounts.Users.{by_did, get_account_by_did}
use robby.Accounts.Tokens.{list_app_passwords}
use robby.Auth.{
  ParsedToken, parse_access_token, credential_primary, credential_privileged_app_password,
}
use robby.Session.Principal.{
  Request, Env, bearer_token, require_principal, matching_app_credential, status_permitted,
  check_principal, app_credential_revoked, lacks_privilege,
}

abbrev pub MayAct : String → Bool → Type 0
MayAct status allow_deactivated =
    (status ≡ status_active) ⊎ ((allow_deactivated ≡ true) × (status ≡ status_deactivated))

abbrev pub Privileged : String → Type 0
Privileged kind = (kind ≡ credential_primary) ⊎ (kind ≡ credential_privileged_app_password)

-- What a request must carry for the token `parsed` to act in the store `s`.
pub record IsAuthorized (env : Env) (now : ℕ) (r : Request) (privileged allow_deactivated : Bool)
    (s : Store) (parsed : ParsedToken) : Type 0 where
  pub token : String
  pub acct : Account
  pub bearer : bearer_token r ≡ some token
  pub verified : parse_access_token env.jwt env.jwt_secret now token ≡ some parsed
  pub account : select_one (by_did parsed.did) s.accounts ≡ some acct
  pub status : MayAct acct.status allow_deactivated
  pub version : acct.auth_version ≡ parsed.auth_version
  pub credential :
      (parsed.app_password_name ≡ "")
      ⊎ (matching_app_credential (list_app_passwords parsed.did s) parsed ≡ true)
  pub privilege : (privileged ≡ false) ⊎ Privileged parsed.credential_kind

module _ (env : Env) (now : ℕ) (r : Request) (privileged allow_deactivated : Bool) (s : Store) where
  permitted :
      (acct : Account) (p : ParsedToken)
      → (not (status_permitted acct.status allow_deactivated)
          || not (acct.auth_version == p.auth_version))
        ≡ false
      → MayAct acct.status allow_deactivated × (acct.auth_version ≡ p.auth_version)
  unfolding status_permitted
  permitted acct p h =
      ground (arith, eq_iff acct.status status_active, eq_iff acct.status status_deactivated)

  unrevoked :
      (p : ParsedToken)
      → app_credential_revoked s p ≡ false
      → (p.app_password_name ≡ "") ⊎ (matching_app_credential (list_app_passwords p.did s) p ≡ true)
  unrevoked p h = ground (arith, eq_iff p.app_password_name "")

  has_privilege :
      (p : ParsedToken)
      → (privileged && lacks_privilege p) ≡ false
      → (privileged ≡ false) ⊎ Privileged p.credential_kind
  has_privilege p h = ground (
    arith,
    eq_iff p.credential_kind credential_primary,
    eq_iff p.credential_kind credential_privileged_app_password,
  )

  check_principal-eq-ok :
      (p q : ParsedToken) (acct : Account)
      → check_principal privileged allow_deactivated s p acct ≡ ok q
      → (p ≡ q)
        × MayAct acct.status allow_deactivated
        × (acct.auth_version ≡ p.auth_version)
        × ((p.app_password_name ≡ "")
            ⊎ (matching_app_credential (list_app_passwords p.did s) p ≡ true))
        × ((privileged ≡ false) ⊎ Privileged p.credential_kind)
  unfolding check_principal
  check_principal-eq-ok p q acct h =
      let (c1, h1) = refuse_if-eq-ok _ _ _ h in
      let (c2, h2) = refuse_if-eq-ok _ _ _ h1 in
      let (c3, h3) = refuse_if-eq-ok _ _ _ h2 in
      let m = permitted acct p c1 in (cc, m.0, m.1, unrevoked p c2, has_privilege p c3)

  pub require_principal-IsAuthorized :
      (p : ParsedToken)
      → require_principal env now r privileged allow_deactivated s ≡ ok p
      → IsAuthorized env now r privileged allow_deactivated s p
  unfolding require_principal get_account_by_did
  require_principal-IsAuthorized p h = elim (Option-cases (bearer_token r)) [
    | inl e ↦ absurd (ground arith)
    | inr (token, e) ↦ elim (Option-cases (parse_access_token env.jwt env.jwt_secret now token)) [
      | inl e' ↦ absurd (ground arith)
      | inr (q, e') ↦ elim (Option-cases (select_one (by_did q.did) s.accounts)) [
        | inl e'' ↦ absurd (ground arith)
        | inr (a, e'') ↦
            let (same, status, version, credential, privilege) =
              check_principal-eq-ok q p a (ground arith) in
            subst (IsAuthorized env now r privileged allow_deactivated s) same (record {
              token = token;
              acct = a;
              bearer = e;
              verified = e';
              account = e'';
              status = status;
              version = version;
              credential = credential;
              privilege = privilege;
            })
      ]
    ]
  ]

  ok-check_principal :
      (p : ParsedToken) (acct : Account)
      → MayAct acct.status allow_deactivated
      → acct.auth_version ≡ p.auth_version
      → (p.app_password_name ≡ "") ⊎ (matching_app_credential (list_app_passwords p.did s) p ≡ true)
      → (privileged ≡ false) ⊎ Privileged p.credential_kind
      → check_principal privileged allow_deactivated s p acct ≡ ok p
  unfolding check_principal status_permitted
  ok-check_principal p acct st v c k = ground (
    arith,
    eq_iff acct.status status_active,
    eq_iff acct.status status_deactivated,
    eq_iff p.app_password_name "",
    eq_iff p.credential_kind credential_primary,
    eq_iff p.credential_kind credential_privileged_app_password,
  )

  pub IsAuthorized-require_principal :
      (p : ParsedToken)
      → IsAuthorized env now r privileged allow_deactivated s p
      → require_principal env now r privileged allow_deactivated s ≡ ok p
  unfolding require_principal get_account_by_did
  IsAuthorized-require_principal p v =
      rw (v.bearer, v.verified, v.account)
        (ok-check_principal p v.acct v.status v.version v.credential v.privilege)

  -- A request passes exactly if its bearer token verifies, the token's account exists with a status
  -- that may act and with the token's version, an app password session still has a matching app
  -- password, and the credential is privileged where that is asked for.
  pub require_principal_iff :
      (p : ParsedToken)
      → (require_principal env now r privileged allow_deactivated s ≡ ok p)
        ↔ IsAuthorized env now r privileged allow_deactivated s p
  require_principal_iff p = (require_principal-IsAuthorized p, IsAuthorized-require_principal p)
