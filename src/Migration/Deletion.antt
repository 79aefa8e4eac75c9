-- ===== src/Migration/Deletion.antt =====
-- internal/xrpc/migration.go: what it takes to delete an account, and what is left of it.
use robby.Prelude.{
  ℕ, String, true, false, ◌==◌, string_eq, ◌≡◌, refl, sym, ap, ◌∙◌, subst, none, some, inl, inr,
  arith, eq_iff, ok, Result, Result-cases, Bool-cases, Option-cases, select_one,
  select_one-delete_all, some_row, some_row-delete_all,
}
use robby.Accounts.Rows.{Account, Store}
use robby.Accounts.Users.{by_did, get_account_by_did, delete_account}
use robby.Accounts.Tokens.{
  consume_admin_token, delete_refresh_tokens_for_did, redeemable, token_purpose_delete_account,
}
use robby.Accounts.Versions.{account_of}
use robby.Session.Principal.{HttpError, Env, Request, require_privileged_access_token}
use robby.Server.State.{Server, Syntax}
use robby.Migration.Account.{DeleteAccountInput, handle_delete_account}

-- The account, its sessions, app passwords, reserved keys and tokens are gone.
pub record IsGone (did : String) (s : Store) : Type 0 where
  pub account : account_of did s ≡ none
  pub refresh_tokens : some_row (λ t. t.did == did) s.refresh_tokens ≡ false
  pub app_passwords : some_row (λ p. p.did == did) s.app_passwords ≡ false
  pub reserved_signing_keys : some_row (λ k. k.did == did) s.reserved_signing_keys ≡ false
  pub admin_tokens : some_row (λ t. t.did == did) s.admin_tokens ≡ false

delete_account-IsGone : (did : String) (s : Store) → IsGone did (delete_account did s).1
unfolding delete_account
delete_account-IsGone did s = record {
  account = select_one-delete_all (by_did did) (by_did did) s.accounts (λ r h. h);
  refresh_tokens = some_row-delete_all _ _ s.refresh_tokens (λ r h. h);
  app_passwords = some_row-delete_all _ _ s.app_passwords (λ r h. h);
  reserved_signing_keys = some_row-delete_all _ _ s.reserved_signing_keys (λ r h. h);
  admin_tokens = some_row-delete_all _ _ s.admin_tokens (λ r h. h);
}

pub record IsDeletion (env : Env) (now : ℕ) (r : Request) (input : DeleteAccountInput)
    (s t : Server) : Type 0 where
  pub acts : require_privileged_access_token env now r s.store ≡ ok input.did
  pub acct : Account
  pub found : account_of input.did s.store ≡ some acct
  pub password : env.verify_password input.password acct.password_hash ≡ true
  pub token :
      some_row
        (redeemable now input.token input.did token_purpose_delete_account)
        s.store.admin_tokens
      ≡ true
  pub gone : IsGone input.did t.store
  pub actors : t.actors ≡ s.actors
  pub seqr : t.seqr ≡ s.seqr

module _ (env : Env) (syn : Syntax) (now : ℕ) (r : Request) (input : DeleteAccountInput)
    (s : Server) where
  abbrev done : Result HttpError (Unit {0}) × Server
  done = handle_delete_account env syn now r (some input) s

  -- An account is deleted only for a privileged session of its own, with its password and a token that an
  -- admin approved for this. Its rows are gone then; its repository stays, and no event tells of it.
  pub delete_account-IsDeletion : done.0 ≡ ok tt → IsDeletion env now r input s done.1
  unfolding handle_delete_account get_account_by_did consume_admin_token
      delete_refresh_tokens_for_did
  delete_account-IsDeletion h =
      elim (Result-cases (require_privileged_access_token env now r s.store)) [
        | inl (e, h1) ↦ absurd (ground arith)
        | inr (caller, h1) ↦ elim (Bool-cases (input.did == caller)) [
          | inr h2 ↦ absurd (ground arith)
          | inl h2 ↦ elim (Option-cases (select_one (by_did caller) s.store.accounts)) [
            | inl h3 ↦ absurd (ground arith)
            | inr (acct, h3) ↦
                elim (Bool-cases (env.verify_password input.password acct.password_hash)) [
                  | inr h4 ↦ absurd (ground arith)
                  | inl h4 ↦
                      elim (Bool-cases (
                        some_row (redeemable now input.token caller token_purpose_delete_account)
                          s.store.admin_tokens)) [
                            | inr h5 ↦ absurd (ground arith)
                            | inl h5 ↦
                                let same = sym ((eq_iff input.did caller).0 h2) in
                                let left : Store =
                                  (delete_refresh_tokens_for_did caller
                                    (consume_admin_token now input.token caller
                                      token_purpose_delete_account s.store).1).1 in
                                rw (h1, h2, h3, h4, h5)
                                  (record {
                                    acts = h1 ∙ ap ok same;
                                    acct = acct;
                                    found = subst (λ d. account_of d s.store ≡ some acct) same h3;
                                    password = h4;
                                    token =
                                        subst
                                          (λ d.
                                            some_row
                                              (redeemable now input.token d
                                                token_purpose_delete_account)
                                              s.store.admin_tokens
                                            ≡ true)
                                          same h5;
                                    gone =
                                        subst (λ d. IsGone d (delete_account caller left).1) same
                                          (delete_account-IsGone caller left);
                                    actors = refl;
                                    seqr = refl;
                                  })
                          ]
                ]
          ]
        ]
      ]
