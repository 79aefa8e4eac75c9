-- ===== src/Admin/Approval.antt =====
-- internal/xrpc/admin.go: a token that approveToken gives is good once, for what it was given.
use robby.Prelude.{
  ℕ, ◌+◌, ◌<◌, ◌≤◌, String, Bool, true, false, ◌==◌, string_eq, ◌≡◌, ◌↔◌, refl, ap, ◌∙◌, List, [],
  ◌∷◌, ◌++◌, some, inl, inr, arith, eq_iff, ok, err, Result-cases, Bool-cases, some_row,
  some_row-delete_all, ok_injective, some_row_mono,
}
use robby.Accounts.Rows.{AdminToken, Store, not_found, rfc3339}
use robby.Accounts.Users.{check_rows_affected, get_account_by_did}
use robby.Accounts.Tokens.{create_admin_token, consume_admin_token, redeemable}
use robby.Session.Principal.{HttpError}
use robby.Server.State.{Server}
use robby.Admin.Accounts.{
  AdminApproveTokenInput, AdminApproveTokenOutput, handle_admin_approve_token, admin_token_ttl,
  purpose_or_default, unknown_purpose,
}

-- The row that the handler inserts.
abbrev approved_row : ℕ → String → AdminApproveTokenInput → AdminToken
approved_row now token input = record {
  token = token;
  did = input.did;
  purpose = purpose_or_default input.purpose;
  expires_at = rfc3339 (now + admin_token_ttl);
  created_at = rfc3339 now;
}

-- What an approval that succeeded did.
record IsApproval (now : ℕ) (token : String) (input : AdminApproveTokenInput) (s : Server)
    (out : AdminApproveTokenOutput) : Type 0 where
  fresh : some_row (λ t. t.token == token) s.store.admin_tokens ≡ false
  stored :
      (handle_admin_approve_token now token (some input) s).1.store.admin_tokens
      ≡ s.store.admin_tokens ++ approved_row now token input ∷ []
  purpose : purpose_or_default input.purpose ≡ out.purpose
  expires_at : rfc3339 (now + admin_token_ttl) ≡ out.expires_at

approve-IsApproval :
    (now : ℕ) (token : String) (input : AdminApproveTokenInput) (s : Server)
    (out : AdminApproveTokenOutput)
    → (handle_admin_approve_token now token (some input) s).0 ≡ ok out
    → IsApproval now token input s out
unfolding handle_admin_approve_token create_admin_token
approve-IsApproval now token input s out h = elim (Bool-cases (input.did == "")) [
  | inl e ↦ absurd (ground arith)
  | inr e ↦ elim (Bool-cases (unknown_purpose (purpose_or_default input.purpose))) [
    | inl e1 ↦ absurd (ground arith)
    | inr e1 ↦ elim (Result-cases (get_account_by_did input.did s.store)) [
      | inl (x, e2) ↦ absurd (ground arith)
      | inr (a, e2) ↦ elim (Bool-cases (some_row (λ t. t.token == token) s.store.admin_tokens)) [
        | inl e3 ↦ absurd (ground arith)
        | inr e3 ↦
            let given : AdminApproveTokenOutput = record {
              token = token;
              purpose = purpose_or_default input.purpose;
              expires_at = rfc3339 (now + admin_token_ttl);
            } in
            let same : given ≡ out = ok_injective {E = HttpError} given out (ground arith) in
            record {
              fresh = e3;
              stored = rw (e, e1, e2, e3) refl;
              purpose = ap (λ (o : AdminApproveTokenOutput). o.purpose) same;
              expires_at = ap (λ (o : AdminApproveTokenOutput). o.expires_at) same;
            }
      ]
    ]
  ]
]

some_row-append :
    (p : AdminToken → Bool) (rs : List AdminToken) (x : AdminToken)
    → some_row p rs ≡ false
    → some_row p (rs ++ x ∷ []) ≡ p x
unfolding some_row
some_row-append p [] x h = ground arith
some_row-append p (r ∷ rs) x h = ground (arith, some_row-append p rs x)

-- What is redeemable later is so now.
pub redeemable_before :
    (t t' : ℕ) (token did purpose : String) (row : AdminToken)
    → t ≤ t'
    → redeemable t' token did purpose row ≡ true
    → redeemable t token did purpose row ≡ true
redeemable_before t t' token did purpose row le h = ground arith

check_rows_iff : (b : Bool) → (check_rows_affected b ≡ ok tt) ↔ (b ≡ true)
check_rows_iff true = (λ h. refl, λ h. refl)
check_rows_iff false = (λ h. absurd (ground arith), λ h. absurd (ground arith))

module _ (now : ℕ) (token : String) (input : AdminApproveTokenInput) (s : Server)
    (out : AdminApproveTokenOutput)
    (approved : (handle_admin_approve_token now token (some input) s).0 ≡ ok out) where
  abbrev after : Store
  after = (handle_admin_approve_token now token (some input) s).1.store

  redeemable_iff :
      (t : ℕ) (did purpose : String)
      → (redeemable t token did purpose (approved_row now token input) ≡ true)
        ↔ ((did ≡ input.did) × (purpose ≡ out.purpose) × (rfc3339 t < out.expires_at))
  redeemable_iff t did purpose =
      let a = approve-IsApproval now token input s out approved in
      rw (← a.purpose, ← a.expires_at)
        (ground (
          arith,
          eq_iff token token,
          eq_iff input.did did,
          eq_iff (purpose_or_default input.purpose) purpose,
        ))

  -- Of the rows only the new one has the token.
  seen :
      (t : ℕ) (did purpose : String)
      → some_row (redeemable t token did purpose) after.admin_tokens
        ≡ redeemable t token did purpose (approved_row now token input)
  seen t did purpose =
      let a = approve-IsApproval now token input s out approved in
      ap (some_row (redeemable t token did purpose)) a.stored
      ∙ some_row-append (redeemable t token did purpose) s.store.admin_tokens
          (approved_row now token input)
          (some_row_mono (redeemable t token did purpose) (λ r. r.token == token)
            s.store.admin_tokens (λ r h. ground arith) a.fresh)

  -- The token that approveToken gives is accepted for its account and its purpose until it expires, and
  -- for nothing else; a second use for the same account and purpose is refused.
  pub approved_token_iff :
      (t t' : ℕ) (did purpose : String)
      → t ≤ t'
      → (((consume_admin_token t token did purpose after).0 ≡ ok tt)
          ↔ ((did ≡ input.did) × (purpose ≡ out.purpose) × (rfc3339 t < out.expires_at)))
        × ((consume_admin_token t' token did purpose
              (consume_admin_token t token did purpose after).1).0
            ≡ err not_found)
  unfolding consume_admin_token
  approved_token_iff t t' did purpose le =
      let (given, taken) = redeemable_iff t did purpose in
      let row = approved_row now token input in
      let (only, passes) = check_rows_iff (redeemable t token did purpose row) in
      (
        rw (seen t did purpose) (λ h. given (only h), λ h. passes (taken h)),
        ap check_rows_affected (
            some_row-delete_all (redeemable t' token did purpose) (redeemable t token did purpose)
              after.admin_tokens (λ r. redeemable_before t t' token did purpose r le)),
      )
