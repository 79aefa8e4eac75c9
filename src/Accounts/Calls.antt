-- ===== src/Accounts/Calls.antt =====
-- internal/store/store.go: every method that changes accounts.db, as one type of calls, and sequences of them.
use robby.Prelude.{ℕ, String, List, [], ◌∷◌}
use robby.Accounts.Rows.{Account, RefreshToken, AppPassword, Store}
use robby.Accounts.Users.{
  create_account, set_password_hash, set_handle, set_status, activate_account, delete_account,
}
use robby.Accounts.Tokens.{
  create_refresh_token, consume_refresh_token, delete_refresh_token, delete_refresh_tokens_for_did,
  create_app_password, delete_app_password, revoke_app_password, reserve_signing_key,
  create_admin_token, consume_admin_token,
}

pub data Call : Type 0 where
  creates_account : Account → Call
  sets_password_hash sets_handle sets_status : String → String → Call
  activates deletes_account : String → Call
  creates_refresh_token : ℕ → RefreshToken → Call
  consumes_refresh_token : ℕ → String → String → ℕ → Call
  deletes_refresh_token deletes_refresh_tokens_for_did : String → Call
  creates_app_password : AppPassword → Call
  deletes_app_password revokes_app_password : String → String → Call
  reserves_signing_key : ℕ → String → String → Call
  creates_admin_token : ℕ → String → String → String → ℕ → Call
  consumes_admin_token : ℕ → String → String → String → Call

-- The database after the call, whether it succeeds or fails.
unfoldable pub run : Call → Store → Store
run (creates_account a) s = (create_account a s).1
run (sets_password_hash did hash) s = (set_password_hash did hash s).1
run (sets_handle did handle) s = (set_handle did handle s).1
run (sets_status did status) s = (set_status did status s).1
run (activates did) s = (activate_account did s).1
run (deletes_account did) s = (delete_account did s).1
run (creates_refresh_token now t) s = (create_refresh_token now t s).1
run (consumes_refresh_token now hash did v) s = (consume_refresh_token now hash did v s).1
run (deletes_refresh_token hash) s = (delete_refresh_token hash s).1
run (deletes_refresh_tokens_for_did did) s = (delete_refresh_tokens_for_did did s).1
run (creates_app_password ap) s = (create_app_password ap s).1
run (deletes_app_password did name) s = (delete_app_password did name s).1
run (revokes_app_password did name) s = (revoke_app_password did name s).1
run (reserves_signing_key now did key) s = (reserve_signing_key now did key s).1
run (creates_admin_token now token did purpose expires_at) s =
    (create_admin_token now token did purpose expires_at s).1
run (consumes_admin_token now token did purpose) s = (consume_admin_token now token did purpose s).1

unfoldable pub run_all : List Call → Store → Store
run_all [] s = s
run_all (c ∷ cs) s = run_all cs (run c s)
