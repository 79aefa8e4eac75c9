-- ===== src/Accounts/Tokens.antt =====
-- internal/store/store.go: refresh tokens, app passwords, reserved signing keys and admin tokens.
-- The source reads the clock in each method; here the time is the argument `now`.
use robby.Prelude.{
  ℕ, ◌+◌, ◌*◌, String, Bool, ◌&&◌, List, [], ◌∷◌, ◌++◌, ltb, leb, ◌==◌, nat_eq, string_eq,
  if◌then◌else◌, select_one, select, delete, some_row, order_by, Result, ok, err, Exec, from_option,
  Option, none, some,
}
use robby.Accounts.Rows.{
  RefreshToken, AppPassword, ReservedKey, AdminToken, Store, StoreError, not_found, constraint,
  second, rfc3339,
}
use robby.Accounts.Users.{check_rows_affected}

abbrev pub by_hash : String → RefreshToken → Bool
by_hash hash t = t.token_hash == hash

unfoldable pub refresh_row : RefreshToken → RefreshToken
refresh_row t = record t { expires_at = rfc3339 t.expires_at; created_at = rfc3339 t.created_at }

-- The account's expired rows are pruned first, by a statement of its own.
unfoldable pub create_refresh_token : ℕ → RefreshToken → Exec Store StoreError (Unit {0})
create_refresh_token now t s =
    let pruned = delete (λ r. r.did == t.did && leb r.expires_at (rfc3339 now)) s.refresh_tokens in
    if some_row (by_hash t.token_hash) pruned
    then (err constraint, record s { refresh_tokens = pruned })
    else (ok tt, record s { refresh_tokens = pruned ++ refresh_row t ∷ [] })

unfoldable pub get_refresh_token : String → Store → Result StoreError RefreshToken
get_refresh_token hash s = from_option (select_one (by_hash hash) s.refresh_tokens) not_found

-- The WHERE clause of ConsumeRefreshToken.
abbrev pub consumable : ℕ → String → String → ℕ → RefreshToken → Bool
consumable now hash did auth_version r =
    r.token_hash == hash
    && r.did == did
    && r.auth_version == auth_version
    && ltb (rfc3339 now) r.expires_at

unfoldable pub consume_refresh_token : ℕ → String → String → ℕ → Exec Store StoreError (Unit {0})
consume_refresh_token now hash did auth_version s = (
  check_rows_affected (some_row (consumable now hash did auth_version) s.refresh_tokens),
  record s { refresh_tokens = delete (consumable now hash did auth_version) s.refresh_tokens },
)

unfoldable pub delete_refresh_token : String → Exec Store StoreError (Unit {0})
delete_refresh_token hash s =
    (ok tt, record s { refresh_tokens = delete (by_hash hash) s.refresh_tokens })

unfoldable pub delete_refresh_tokens_for_did : String → Exec Store StoreError (Unit {0})
delete_refresh_tokens_for_did did s =
    (ok tt, record s { refresh_tokens = delete (λ t. t.did == did) s.refresh_tokens })

abbrev pub by_did_name : String → String → AppPassword → Bool
by_did_name did name p = p.did == did && p.name == name

unfoldable pub app_password_row : AppPassword → AppPassword
app_password_row ap = record ap { created_at = rfc3339 ap.created_at }

unfoldable pub create_app_password : AppPassword → Exec Store StoreError (Unit {0})
create_app_password ap s =
    if some_row (by_did_name ap.did ap.name) s.app_passwords
    then (err constraint, s)
    else (ok tt, record s { app_passwords = s.app_passwords ++ app_password_row ap ∷ [] })

unfoldable pub list_app_passwords : String → Store → List AppPassword
list_app_passwords did s = order_by (λ p. p.created_at) (select (λ p. p.did == did) s.app_passwords)

unfoldable pub delete_app_password : String → String → Exec Store StoreError (Unit {0})
delete_app_password did name s = (
  check_rows_affected (some_row (by_did_name did name) s.app_passwords),
  record s { app_passwords = delete (by_did_name did name) s.app_passwords },
)

-- One transaction: if no app password goes, it is rolled back.
unfoldable pub revoke_app_password : String → String → Exec Store StoreError (Unit {0})
revoke_app_password did name s =
    if some_row (by_did_name did name) s.app_passwords
    then (
      ok tt,
      record s {
        app_passwords = delete (by_did_name did name) s.app_passwords;
        refresh_tokens = delete (λ t. t.did == did && t.app_password_name == name) s.refresh_tokens;
      },
    )
    else (err not_found, s)

-- Expired reservations of every account go first; an unexpired one of this DID is kept.
unfoldable pub reserve_signing_key : ℕ → String → String → Exec Store StoreError (Unit {0})
reserve_signing_key now did signing_key s =
    let live = delete (λ k. leb k.expires_at (rfc3339 now)) s.reserved_signing_keys in
    if some_row (λ k. k.did == did) live
    then (ok tt, record s { reserved_signing_keys = live })
    else (ok tt, record s { reserved_signing_keys = live ++ row ∷ [] })
  where
    row : ReservedKey
    row = record {
      did = did;
      signing_key = signing_key;
      created_at = rfc3339 now;
      expires_at = rfc3339 (now + 3600 * second);
    }

abbrev pub reserved_now : ℕ → String → ReservedKey → Bool
reserved_now now did k = k.did == did && ltb (rfc3339 now) k.expires_at

abbrev pub key_of : Option ReservedKey → Result StoreError String
key_of none = err not_found
key_of (some k) = ok k.signing_key

unfoldable pub get_reserved_signing_key : ℕ → String → Store → Result StoreError String
get_reserved_signing_key now did s =
    key_of (select_one (reserved_now now did) s.reserved_signing_keys)

abbrev pub token_purpose_plc_sign : String
token_purpose_plc_sign = "plc_sign"

abbrev pub token_purpose_delete_account : String
token_purpose_delete_account = "delete_account"

unfoldable pub create_admin_token :
    ℕ → String → String → String → ℕ → Exec Store StoreError (Unit {0})
create_admin_token now token did purpose expires_at s =
    if some_row (λ t. t.token == token) s.admin_tokens
    then (err constraint, s)
    else (ok tt, record s { admin_tokens = s.admin_tokens ++ row ∷ [] })
  where
    row : AdminToken
    row = record {
      token = token;
      did = did;
      purpose = purpose;
      expires_at = rfc3339 expires_at;
      created_at = rfc3339 now;
    }

-- The WHERE clause of ConsumeAdminToken.
abbrev pub redeemable : ℕ → String → String → String → AdminToken → Bool
redeemable now token did purpose t =
    t.token == token && t.did == did && t.purpose == purpose && ltb (rfc3339 now) t.expires_at

unfoldable pub consume_admin_token : ℕ → String → String → String → Exec Store StoreError (Unit {0})
consume_admin_token now token did purpose s = (
  check_rows_affected (some_row (redeemable now token did purpose) s.admin_tokens),
  record s { admin_tokens = delete (redeemable now token did purpose) s.admin_tokens },
)
