-- ===== src/Accounts/Versions.antt =====
-- internal/store/store.go: an account's auth version, which revokes the sessions below it.
use robby.Prelude.{
  Bool-cases, some_row, not, ◌||◌, ◌&&◌, ◌∙◌, ap, update, Bool, ℕ, ◌≤◌, String, ◌≡◌, ◌≢◌, refl,
  Option, some, List, [], ◌∷◌, inl, inr, arith, eq_iff, select_one, select_one-append_some,
  select_one-update_cases, select_one-delete_other, All, ◌==◌, string_eq,
}
use robby.Accounts.Rows.{Account, Store}
use robby.Accounts.Users.{
  by_did, set_password_hash, set_status, create_account, set_handle, activate_account,
  delete_account,
}
use robby.Accounts.Tokens.{
  create_refresh_token, consume_refresh_token, delete_refresh_token, delete_refresh_tokens_for_did,
  create_app_password, delete_app_password, revoke_app_password, reserve_signing_key,
  create_admin_token, consume_admin_token,
}
use robby.Accounts.Calls.{
  Call, creates_account, sets_password_hash, sets_handle, sets_status, activates, deletes_account,
  creates_refresh_token, consumes_refresh_token, deletes_refresh_token,
  deletes_refresh_tokens_for_did, creates_app_password, deletes_app_password, revokes_app_password,
  reserves_signing_key, creates_admin_token, consumes_admin_token, run, run_all,
}

abbrev pub account_of : String → Store → Option Account
account_of did s = select_one (by_did did) s.accounts

-- The account is there, with a version of at least `v`.
abbrev pub HasVersion : String → ℕ → Store → Type 0
HasVersion did v s = (a : Account) × (account_of did s ≡ some a) × (v ≤ a.auth_version)

abbrev pub Spares : String → Call → Type 0
Spares did (deletes_account d) = d ≢ did
Spares did _ = Unit {0}

HasVersion-update :
    (did : String) (q : Account → Bool) (f : Account → Account) (v : ℕ) (rs : List Account)
    → ((x : Account) → (f x).did ≡ x.did)
    → ((x : Account) → x.auth_version ≤ (f x).auth_version)
    → (a : Account) → select_one (by_did did) rs ≡ some a
    → v ≤ a.auth_version
    → (b : Account) × (select_one (by_did did) (update q f rs) ≡ some b) × (v ≤ b.auth_version)
HasVersion-update did q f v rs k m a e h =
    elim (select_one-update_cases (by_did did) q f rs a (λ x. ap (λ d. d == did) (k x)) e) [
      | inl e' ↦ (a, e', h)
      | inr e' ↦ (f a, e', omega (arith, m a))
    ]

create_account-HasVersion :
    (did : String) (v : ℕ) (a : Account) (s : Store)
    → HasVersion did v s
    → HasVersion did v (create_account a s).1
unfolding create_account
create_account-HasVersion did v a s (x, e, h) =
    elim (Bool-cases (some_row (λ b. b.did == a.did || b.handle == a.handle) s.accounts)) [
      | inl taken ↦ rw taken (x, e, h)
      | inr free ↦ rw free (x, select_one-append_some (by_did did) s.accounts _ x e, h)
    ]

set_handle-HasVersion :
    (did d handle : String) (v : ℕ) (s : Store)
    → HasVersion did v s
    → HasVersion did v (set_handle d handle s).1
unfolding set_handle
set_handle-HasVersion did d handle v s (x, e, h) =
    elim (Bool-cases (
      some_row (by_did d) s.accounts
      && some_row (λ b. not (b.did == d) && b.handle == handle) s.accounts)) [
        | inl taken ↦ rw taken (x, e, h)
        | inr free ↦ rw free (HasVersion-update did _ _ v _ (λ y. refl) (λ y. omega arith) x e h)
      ]

delete_account-HasVersion :
    (did d : String) (v : ℕ) (s : Store)
    → d ≢ did
    → HasVersion did v s
    → HasVersion did v (delete_account d s).1
unfolding delete_account
delete_account-HasVersion did d v s k (x, e, h) = (
  x,
  select_one-delete_other (by_did did) (by_did d) s.accounts
        (λ r p. ground (arith, eq_iff r.did did, eq_iff r.did d))
      ∙ e,
  h,
)

-- A call that leaves the accounts alone.
HasVersion-same :
    (did : String) (v : ℕ) (s t : Store)
    → t.accounts ≡ s.accounts
    → HasVersion did v s
    → HasVersion did v t
HasVersion-same did v s t e (x, e', h) = (x, rw e e', h)

run-HasVersion :
    (did : String) (v : ℕ) (c : Call) (s : Store)
    → Spares did c
    → HasVersion did v s
    → HasVersion did v (run c s)
unfolding run set_password_hash set_status activate_account consume_refresh_token
    delete_refresh_token delete_refresh_tokens_for_did delete_app_password consume_admin_token
run-HasVersion did v (creates_account a) s k h = create_account-HasVersion did v a s h
run-HasVersion did v (sets_password_hash d hash) s k (x, e, h) =
    HasVersion-update did _ _ v _ (λ y. refl) (λ y. omega arith) x e h
run-HasVersion did v (sets_handle d handle) s k h = set_handle-HasVersion did d handle v s h
run-HasVersion did v (sets_status d status) s k (x, e, h) =
    HasVersion-update did _ _ v _ (λ y. refl) (λ y. omega arith) x e h
run-HasVersion did v (activates d) s k (x, e, h) =
    HasVersion-update did _ _ v _ (λ y. refl) (λ y. omega arith) x e h
run-HasVersion did v (deletes_account d) s k h = delete_account-HasVersion did d v s k h
run-HasVersion did v (creates_refresh_token now t) s k h =
    HasVersion-same did v s (create_refresh_token now t s).1
      (unfold create_refresh_token in ground arith) h
run-HasVersion did v (creates_app_password ap) s k h =
    HasVersion-same did v s (create_app_password ap s).1
      (unfold create_app_password in ground arith) h
run-HasVersion did v (revokes_app_password d name) s k h =
    HasVersion-same did v s (revoke_app_password d name s).1
      (unfold revoke_app_password in ground arith) h
run-HasVersion did v (reserves_signing_key now d key) s k h =
    HasVersion-same did v s (reserve_signing_key now d key s).1
      (unfold reserve_signing_key in ground arith) h
run-HasVersion did v (creates_admin_token now token d purpose expires_at) s k h =
    HasVersion-same did v s (create_admin_token now token d purpose expires_at s).1
      (unfold create_admin_token in ground arith) h
run-HasVersion did v (consumes_refresh_token now hash d w) s k h = h
run-HasVersion did v (deletes_refresh_token hash) s k h = h
run-HasVersion did v (deletes_refresh_tokens_for_did d) s k h = h
run-HasVersion did v (deletes_app_password d name) s k h = h
run-HasVersion did v (consumes_admin_token now token d purpose) s k h = h

pub run_all-HasVersion :
    (did : String) (v : ℕ) (cs : List Call) (s : Store)
    → All (Spares did) cs
    → HasVersion did v s
    → HasVersion did v (run_all cs s)
unfolding run_all
run_all-HasVersion did v [] s k h = h
run_all-HasVersion did v (c ∷ cs) s k h =
    run_all-HasVersion did v cs (run c s) k.1 (run-HasVersion did v c s k.0 h)
