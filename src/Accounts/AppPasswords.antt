-- ===== src/Accounts/AppPasswords.antt =====
-- internal/store/store.go: an app password that is gone stays gone until one is created under its name.
use robby.Prelude.{
  String, false, string_eq, ◌≡◌, List, [], ◌∷◌, arith, inl, inr, All, Bool-cases, some_row,
  some_row-delete_all, some_row-delete_none, some_row-append_none,
}
use robby.Accounts.Rows.{AppPassword, Store}
use robby.Accounts.Users.{
  create_account, set_password_hash, set_handle, set_status, activate_account, delete_account,
}
use robby.Accounts.Tokens.{
  by_did_name, app_password_row, create_refresh_token, consume_refresh_token, delete_refresh_token,
  delete_refresh_tokens_for_did, create_app_password, delete_app_password, revoke_app_password,
  reserve_signing_key, create_admin_token, consume_admin_token,
}
use robby.Accounts.Calls.{
  Call, creates_account, sets_password_hash, sets_handle, sets_status, activates, deletes_account,
  creates_refresh_token, consumes_refresh_token, deletes_refresh_token,
  deletes_refresh_tokens_for_did, creates_app_password, deletes_app_password, revokes_app_password,
  reserves_signing_key, creates_admin_token, consumes_admin_token, run, run_all,
}

abbrev pub Lacks : String → String → Store → Type 0
Lacks did name s = some_row (by_did_name did name) s.app_passwords ≡ false

-- The call creates no app password of that account and name.
abbrev pub Withholds : String → String → Call → Type 0
Withholds did name (creates_app_password ap) = by_did_name did name ap ≡ false
Withholds did name _ = Unit {0}

module _ (did name : String) where
  create_app_password-Lacks :
      (ap : AppPassword) (s : Store)
      → by_did_name did name ap ≡ false
      → Lacks did name s
      → Lacks did name (create_app_password ap s).1
  unfolding create_app_password app_password_row
  create_app_password-Lacks ap s k h =
      elim (Bool-cases (some_row (by_did_name ap.did ap.name) s.app_passwords)) [
        | inl e ↦ rw e h
        | inr e ↦ rw e (some_row-append_none (by_did_name did name) s.app_passwords _ h k)
      ]

  revoke_app_password-Lacks :
      (d n : String) (s : Store) → Lacks did name s → Lacks did name (revoke_app_password d n s).1
  unfolding revoke_app_password
  revoke_app_password-Lacks d n s h =
      elim (Bool-cases (some_row (by_did_name d n) s.app_passwords)) [
        | inl e ↦ rw e (some_row-delete_none (by_did_name did name) _ s.app_passwords h)
        | inr e ↦ rw e h
      ]

  same-Lacks :
      (s t : Store) → t.app_passwords ≡ s.app_passwords → Lacks did name s → Lacks did name t
  same-Lacks s t e h = rw e h

  run-Lacks :
      (c : Call) (s : Store) → Withholds did name c → Lacks did name s → Lacks did name (run c s)
  unfolding run set_password_hash set_status activate_account consume_refresh_token
      delete_refresh_token delete_refresh_tokens_for_did delete_app_password consume_admin_token
      delete_account
  run-Lacks (creates_account a) s k h =
      same-Lacks s (create_account a s).1 (unfold create_account in ground arith) h
  run-Lacks (sets_password_hash d hash) s k h = h
  run-Lacks (sets_handle d handle) s k h =
      same-Lacks s (set_handle d handle s).1 (unfold set_handle in ground arith) h
  run-Lacks (sets_status d status) s k h = h
  run-Lacks (activates d) s k h = h
  run-Lacks (deletes_account d) s k h =
      some_row-delete_none (by_did_name did name) _ s.app_passwords h
  run-Lacks (creates_refresh_token now t) s k h =
      same-Lacks s (create_refresh_token now t s).1 (unfold create_refresh_token in ground arith) h
  run-Lacks (creates_app_password ap) s k h = create_app_password-Lacks ap s k h
  run-Lacks (revokes_app_password d n) s k h = revoke_app_password-Lacks d n s h
  run-Lacks (reserves_signing_key now d key) s k h =
      same-Lacks s (reserve_signing_key now d key s).1 (unfold reserve_signing_key in ground arith)
        h
  run-Lacks (creates_admin_token now token d purpose expires_at) s k h =
      same-Lacks s (create_admin_token now token d purpose expires_at s).1
        (unfold create_admin_token in ground arith) h
  run-Lacks (consumes_refresh_token now hash d w) s k h = h
  run-Lacks (deletes_refresh_token hash) s k h = h
  run-Lacks (deletes_refresh_tokens_for_did d) s k h = h
  run-Lacks (deletes_app_password d n) s k h =
      some_row-delete_none (by_did_name did name) _ s.app_passwords h
  run-Lacks (consumes_admin_token now token d purpose) s k h = h

  pub run_all-Lacks :
      (cs : List Call) (s : Store)
      → All (Withholds did name) cs
      → Lacks did name s
      → Lacks did name (run_all cs s)
  unfolding run_all
  run_all-Lacks [] s k h = h
  run_all-Lacks (c ∷ cs) s k h = run_all-Lacks cs (run c s) k.1 (run-Lacks c s k.0 h)

  -- A revocation takes the app password, whether it was there or not.
  pub revoked-Lacks : (s : Store) → Lacks did name (revoke_app_password did name s).1
  unfolding revoke_app_password
  revoked-Lacks s = elim (Bool-cases (some_row (by_did_name did name) s.app_passwords)) [
    | inl e ↦ rw e (some_row-delete_all (by_did_name did name) _ s.app_passwords (λ r h. h))
    | inr e ↦ rw e e
  ]
