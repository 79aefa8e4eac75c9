-- ===== src/Session/Entitlement.antt =====
-- internal/xrpc/session.go: what `requirePrincipal` asks for, in terms of the Authorization header, the
-- verified claims and the rows of accounts.db alone.
use Prim.Native.String.{◌++◌ as append_text, slice, len}
use text.Mathlib.TextEquality.{starts_with_iff}
use text.Mathlib.TextPositions.{starts_with-append, slice-append_right, len-append}
use robby.Prelude.{
  ℕ, ◌≤◌, ltb, String, Bool, true, false, not, ◌&&◌, ◌||◌, ◌==◌, nat_eq, string_eq, ◌≡◌, ◌≢◌, ◌↔◌,
  ◌⊎◌, refl, sym, ap, ◌∙◌, subst, some, Option, List, [], ◌∷◌, inl, inr, arith, eq_iff, ok,
  Option-cases, Bool-cases, select, select_one, some_row, order_by, some_row-order_by,
  some_row-select, some_row_mono, Keyed, order_by-Keyed, has_prefix, trim_prefix,
}
use robby.Accounts.Rows.{Store, Account, AppPassword}
use robby.Accounts.Users.{by_did}
use robby.Accounts.Tokens.{list_app_passwords}
use robby.Auth.{
  Claims, ParsedToken, keyfunc, check_claims, parse, parse_access_token, scope_access,
  credential_app_password, credential_privileged_app_password,
}
use robby.Session.Principal.{Request, Env, bearer_token, require_principal, matching_app_credential}
use robby.Session.Authorization.{IsAuthorized, MayAct, Privileged, require_principal_iff}

-- The kind of the sessions of an app password.
abbrev pub kind_of : Bool → String
kind_of true = credential_privileged_app_password
kind_of false = credential_app_password

-- An app password with the token's name, of the token's kind.
abbrev grants : ParsedToken → AppPassword → Bool
grants p a = a.name == p.app_password_name && kind_of a.privileged == p.credential_kind

abbrev same_name : AppPassword → AppPassword → Bool
same_name a b = a.name == b.name

-- The primary key of the table.
abbrev pub same_row : AppPassword → AppPassword → Bool
same_row a b = a.did == b.did && a.name == b.name

same_name_sym : (a b : AppPassword) → same_name a b ≡ same_name b a
same_name_sym a b = ground (arith, eq_iff a.name b.name, eq_iff b.name a.name)

no_other_name :
    (p : ParsedToken) (a : AppPassword) (rs : List AppPassword)
    → some_row (same_name a) rs ≡ false
    → a.name ≡ p.app_password_name
    → some_row (grants p) rs ≡ false
no_other_name p a rs h e =
    some_row_mono (grants p) (same_name a) rs
      (λ b k. ground (arith, e, eq_iff a.name b.name, eq_iff b.name p.app_password_name)) h

matching-grants :
    (rs : List AppPassword) (p : ParsedToken)
    → Keyed same_name rs
    → matching_app_credential rs p ≡ some_row (grants p) rs
unfolding some_row matching_app_credential
matching-grants [] p h = refl
matching-grants (a ∷ rs) p h = elim (Bool-cases (a.name == p.app_password_name)) [
  | inr e ↦ rw e (matching-grants rs p h.1)
  | inl e ↦
      rw (e, no_other_name p a rs h.0 ((eq_iff a.name p.app_password_name).0 e))
        (by_kind a.privileged)
]
  where
    by_kind :
        (privileged : Bool)
        → (privileged && p.credential_kind == credential_privileged_app_password
            || not privileged && p.credential_kind == credential_app_password)
          ≡ (kind_of privileged == p.credential_kind || false)
    by_kind true = ground (
      arith,
      eq_iff p.credential_kind credential_privileged_app_password,
      eq_iff credential_privileged_app_password p.credential_kind,
    )
    by_kind false = ground (
      arith,
      eq_iff p.credential_kind credential_app_password,
      eq_iff credential_app_password p.credential_kind,
    )

select-Keyed :
    (did : String) (rs : List AppPassword)
    → Keyed same_row rs
    → Keyed same_name (select (λ b. b.did == did) rs)
unfolding select
select-Keyed did [] h = tt
select-Keyed did (a ∷ rs) h = elim (Bool-cases (a.did == did)) [
  | inr e ↦ rw e (select-Keyed did rs h.1)
  | inl e ↦ rw e (
    some_row-select (same_name a) (λ b. b.did == did) rs
        ∙ some_row_mono _ (same_row a) rs
            (λ b k. ground (arith, e, eq_iff a.did did, eq_iff b.did did, eq_iff a.did b.did)) h.0,
    select-Keyed did rs h.1,
  )
]

-- Among the account's app passwords one grants the token, whichever comes first.
granted :
    (s : Store) (p : ParsedToken)
    → Keyed same_row s.app_passwords
    → matching_app_credential (list_app_passwords p.did s) p
      ≡ some_row (λ a. a.did == p.did && grants p a) s.app_passwords
unfolding list_app_passwords
granted s p h =
    matching-grants (order_by (λ a. a.created_at) (select (λ a. a.did == p.did) s.app_passwords)) p
      (order_by-Keyed same_name same_name_sym (λ a. a.created_at) _
        (select-Keyed p.did s.app_passwords h))
    ∙ some_row-order_by (grants p) (λ a. a.created_at)
        (select (λ a. a.did == p.did) s.app_passwords)
    ∙ some_row-select (grants p) (λ a. a.did == p.did) s.app_passwords

slice-after : (t s : String) → slice (append_text t s) (len t) (len (append_text t s)) ≡ s
slice-after t s = ap (slice (append_text t s) (len t)) (len-append t s) ∙ slice-append_right t s

trim_prefix-append : (t s : String) → trim_prefix (append_text t s) t ≡ s
trim_prefix-append t s = rw (starts_with-append t s) (slice-after t s)

some_injective : {A : Type 0} {a b : A} → ◌≡◌ {A = Option A} (some a) (some b) → a ≡ b
some_injective h = cc

bearer_iff :
    (r : Request) (token : String)
    → (bearer_token r ≡ some token) ↔ (r.authorization ≡ append_text "Bearer " token)
unfolding bearer_token
bearer_iff r token = (
  λ h. elim (Bool-cases (has_prefix r.authorization "Bearer ")) [
    | inr e ↦ absurd (ground (arith, e))
    | inl e ↦
        let (rest, split) = (starts_with_iff r.authorization "Bearer ").0 e in
        let bearer : some (trim_prefix r.authorization "Bearer ") ≡ some token =
          ground (arith, e, h) in
        let same : rest ≡ token =
          sym (trim_prefix-append "Bearer " rest)
          ∙ ap (λ w. trim_prefix w "Bearer ") split
          ∙ some_injective bearer in
        sym split ∙ ap (append_text "Bearer ") same
  ],
  λ e.
      subst (λ w. bearer_token (record { authorization = w }) ≡ some token) (sym e)
        (rw (starts_with-append "Bearer " token) (ap some (slice-after "Bearer " token))),
)

-- The token that claims stand for.
abbrev pub said : Claims → ParsedToken
said c = record {
  did = c.subject;
  jti = c.id;
  scope = c.scope;
  auth_version = c.auth_version;
  credential_kind = c.credential_kind;
  app_password_name = c.app_password_name;
}

-- What a request must carry for the token `parsed` to act, in terms of the header, of what golang-jwt
-- verified, and of the rows in accounts.db.
pub record IsEntitled (env : Env) (now : ℕ) (r : Request) (privileged allow_deactivated : Bool)
    (s : Store) (parsed : ParsedToken) : Type 0 where
  pub token : String
  pub header : r.authorization ≡ append_text "Bearer " token
  pub claims : Claims
  pub verified : env.jwt.parse_with_claims (keyfunc env.jwt_secret) now token ≡ some claims
  pub scope : claims.scope ≡ "com.atproto.access"
  pub versioned : 1 ≤ claims.auth_version
  pub kind : claims.credential_kind ≢ ""
  pub says : parsed ≡ said claims
  pub acct : Account
  pub account : select_one (by_did parsed.did) s.accounts ≡ some acct
  pub status : MayAct acct.status allow_deactivated
  pub version : acct.auth_version ≡ parsed.auth_version
  pub credential :
      (parsed.app_password_name ≡ "")
      ⊎ (some_row
            (λ a.
              a.did == parsed.did
              && (a.name == parsed.app_password_name
                  && kind_of a.privileged == parsed.credential_kind))
            s.app_passwords
          ≡ true)
  pub privilege : (privileged ≡ false) ⊎ Privileged parsed.credential_kind

-- What `check_claims` makes of verified claims.
check_claims-cases :
    (c : Claims) (p : ParsedToken)
    → check_claims scope_access c ≡ some p
    → (c.scope ≡ scope_access) × (1 ≤ c.auth_version) × (c.credential_kind ≢ "") × (p ≡ said c)
unfolding check_claims
check_claims-cases c p h = elim (Bool-cases (c.scope == scope_access)) [
  | inr e ↦ absurd (ground (arith, h))
  | inl e ↦ elim (Bool-cases (ltb c.auth_version 1 || c.credential_kind == "")) [
    | inl e' ↦ absurd (ground (arith, h))
    | inr e' ↦ (
      (eq_iff c.scope scope_access).0 e,
      ground arith,
      ground (arith, eq_iff c.credential_kind ""),
      sym (some_injective {a = said c} {b = p} (ground (arith, h, e, e'))),
    )
  ]
]

check_claims-said :
    (c : Claims)
    → c.scope ≡ scope_access
    → 1 ≤ c.auth_version
    → c.credential_kind ≢ ""
    → check_claims scope_access c ≡ some (said c)
unfolding check_claims
check_claims-said c scope versioned kind =
    ground (arith, scope, eq_iff c.scope scope_access, versioned, eq_iff c.credential_kind "", kind)

module _ (env : Env) (now : ℕ) (r : Request) (privileged allow_deactivated : Bool) (s : Store)
    (keyed : Keyed same_row s.app_passwords) (p : ParsedToken) where
  entitled :
      IsAuthorized env now r privileged allow_deactivated s p
      → IsEntitled env now r privileged allow_deactivated s p
  unfolding parse_access_token parse
  entitled v =
      elim (Option-cases (env.jwt.parse_with_claims (keyfunc env.jwt_secret) now v.token)) [
        | inl e ↦ absurd (ground (arith, v.verified))
        | inr (c, e) ↦
            let (scope, versioned, kind, says) =
              check_claims-cases c p (ground (arith, v.verified)) in
            record {
              token = v.token;
              header = (bearer_iff r v.token).0 v.bearer;
              claims = c;
              verified = e;
              scope = scope;
              versioned = versioned;
              kind = kind;
              says = says;
              acct = v.acct;
              account = v.account;
              status = v.status;
              version = v.version;
              credential = elim v.credential [
                | inl e' ↦ inl e'
                | inr e' ↦ inr (sym (granted s p keyed) ∙ e')
              ];
              privilege = v.privilege;
            }
      ]

  parsed_by :
      (token : String) (c : Claims)
      → env.jwt.parse_with_claims (keyfunc env.jwt_secret) now token ≡ some c
      → check_claims scope_access c ≡ some p
      → parse_access_token env.jwt env.jwt_secret now token ≡ some p
  unfolding parse_access_token parse
  parsed_by token c h k = ground (arith, h, k)

  authorized :
      IsEntitled env now r privileged allow_deactivated s p
      → IsAuthorized env now r privileged allow_deactivated s p
  authorized v = record {
    token = v.token;
    acct = v.acct;
    bearer = (bearer_iff r v.token).1 v.header;
    verified =
        parsed_by v.token v.claims v.verified
          (check_claims-said v.claims v.scope v.versioned v.kind ∙ ap some (sym v.says));
    account = v.account;
    status = v.status;
    version = v.version;
    credential = elim v.credential [ inl e ↦ inl e | inr e ↦ inr (granted s p keyed ∙ e) ];
    privilege = v.privilege;
  }

  -- Where no two app passwords of an account have one name, a request passes exactly if it has a bearer token
  -- with access claims that golang-jwt verifies, the account of the claims exists with a status that may act
  -- and with the version of the claims, a session of an app password still has one of its name and kind, and
  -- the credential is privileged where that is asked for.
  pub require_principal-IsEntitled :
      (require_principal env now r privileged allow_deactivated s ≡ ok p)
      ↔ IsEntitled env now r privileged allow_deactivated s p
  require_principal-IsEntitled =
      let (forward, back) = require_principal_iff env now r privileged allow_deactivated s p in
      (λ h. entitled (forward h), λ v. back (authorized v))
