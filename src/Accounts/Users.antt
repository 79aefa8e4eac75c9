-- ===== src/Accounts/Users.antt =====
-- internal/store/store.go: the operations on the `accounts` table, and account deletion.
use Prim.Native.String.{slice, len}
use robby.Prelude.{
  ℕ, ◌+◌, String, Bool, ◌&&◌, ◌||◌, not, List, [], ◌∷◌, ◌++◌, ltb, ◌==◌, string_eq, if◌then◌else◌,
  select_one, delete, update, some_row, order_by, Result, ok, err, Exec, from_option,
}
use robby.Accounts.Rows.{Account, Store, StoreError, not_found, constraint, status_active, rfc3339}

max_auth_version : ℕ → ℕ
max_auth_version v = if ltb v 1 then 1 else v

abbrev pub by_did : String → Account → Bool
by_did did a = a.did == did

abbrev pub by_handle : String → Account → Bool
by_handle handle a = a.handle == handle

-- The number of affected rows is 0 just if no row passes the WHERE clause.
abbrev pub check_rows_affected : Bool → Result StoreError (Unit {0})
check_rows_affected affected = if affected then ok tt else err not_found

-- The row that CreateAccount inserts.
unfoldable pub account_row : Account → Account
unfolding max_auth_version
account_row a = record a {
  auth_version = max_auth_version a.auth_version;
  created_at = rfc3339 a.created_at;
}

unfoldable pub create_account : Account → Exec Store StoreError (Unit {0})
create_account a s =
    if some_row (λ b. b.did == a.did || b.handle == a.handle) s.accounts
    then (err constraint, s)
    else (ok tt, record s { accounts = s.accounts ++ account_row a ∷ [] })

unfoldable pub get_account_by_did : String → Store → Result StoreError Account
get_account_by_did did s = from_option (select_one (by_did did) s.accounts) not_found

unfoldable pub get_account_by_handle : String → Store → Result StoreError Account
get_account_by_handle handle s = from_option (select_one (by_handle handle) s.accounts) not_found

-- An identifier longer than four bytes that begins with "did:" is a DID.
unfoldable pub get_account_by_identifier : String → Store → Result StoreError Account
unfolding get_account_by_did get_account_by_handle
get_account_by_identifier identifier s =
    if ltb 4 (len identifier) && slice identifier 0 4 == "did:"
    then get_account_by_did identifier s
    else get_account_by_handle identifier s

unfoldable pub list_accounts : Store → List Account
list_accounts s = order_by (λ a. a.created_at) s.accounts

unfoldable pub set_password_hash : String → String → Exec Store StoreError (Unit {0})
set_password_hash did hash s = (
  check_rows_affected (some_row (by_did did) s.accounts),
  record s {
    accounts =
        update (by_did did)
          (λ a. record a { password_hash = hash; auth_version = a.auth_version + 1 }) s.accounts;
  },
)

-- The UNIQUE handle column refuses a handle that another row has.
unfoldable pub set_handle : String → String → Exec Store StoreError (Unit {0})
set_handle did handle s =
    if some_row (by_did did) s.accounts
      && some_row (λ b. not (b.did == did) && b.handle == handle) s.accounts
    then (err constraint, s)
    else (
      check_rows_affected (some_row (by_did did) s.accounts),
      record s { accounts = update (by_did did) (λ a. record a { handle = handle }) s.accounts },
    )

unfoldable pub set_status : String → String → Exec Store StoreError (Unit {0})
set_status did status s = (
  check_rows_affected (some_row (by_did did) s.accounts),
  record s {
    accounts =
        update (by_did did) (λ a. record a { status = status; auth_version = a.auth_version + 1 })
          s.accounts;
  },
)

unfoldable pub activate_account : String → Exec Store StoreError (Unit {0})
activate_account did s = (
  check_rows_affected (some_row (by_did did) s.accounts),
  record s { accounts = update (by_did did) (λ a. record a { status = status_active }) s.accounts },
)

-- Five statements with no transaction: what the first four delete stays deleted if the last one
-- finds no account.
unfoldable pub delete_account : String → Exec Store StoreError (Unit {0})
delete_account did s = (
  check_rows_affected (some_row (by_did did) s.accounts),
  record {
    refresh_tokens = delete (λ t. t.did == did) s.refresh_tokens;
    app_passwords = delete (λ p. p.did == did) s.app_passwords;
    reserved_signing_keys = delete (λ k. k.did == did) s.reserved_signing_keys;
    admin_tokens = delete (λ t. t.did == did) s.admin_tokens;
    accounts = delete (by_did did) s.accounts;
  },
)
