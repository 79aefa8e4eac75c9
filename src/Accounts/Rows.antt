-- ===== src/Accounts/Rows.antt =====
-- internal/store/store.go: the rows of accounts.db and the tables that hold them.
--
-- Times are nanoseconds. The database keeps a time as RFC 3339 text in UTC with whole seconds, whose
-- byte order is the order of the instants; `rfc3339` is the instant that the text denotes.
use robby.Prelude.{ℕ, ◌*◌, ◌/◌, String, Bool, List, []}

abbrev pub second : ℕ
second = 1000000000

abbrev pub rfc3339 : ℕ → ℕ
rfc3339 t = t / second * second

abbrev pub status_active : String
status_active = "active"

abbrev pub status_deactivated : String
status_deactivated = "deactivated"

abbrev pub status_taken_down : String
status_taken_down = "taken-down"

pub record Account : Type 0 where
  pub did : String
  pub handle : String
  pub password_hash : String
  pub signing_key : String
  pub rotation_key : String
  pub status : String
  pub auth_version : ℕ
  pub created_at : ℕ

pub record RefreshToken : Type 0 where
  pub token_hash : String
  pub did : String
  pub expires_at : ℕ
  pub created_at : ℕ
  pub auth_version : ℕ
  pub credential_kind : String
  pub app_password_name : String

pub record AppPassword : Type 0 where
  pub did : String
  pub name : String
  pub password_hash : String
  pub privileged : Bool
  pub created_at : ℕ

-- A row of `reserved_signing_keys`.
pub record ReservedKey : Type 0 where
  pub did : String
  pub signing_key : String
  pub created_at : ℕ
  pub expires_at : ℕ

-- A row of `admin_tokens`.
pub record AdminToken : Type 0 where
  pub token : String
  pub did : String
  pub purpose : String
  pub expires_at : ℕ
  pub created_at : ℕ

pub record Store : Type 0 where
  pub accounts : List Account
  pub refresh_tokens : List RefreshToken
  pub app_passwords : List AppPassword
  pub reserved_signing_keys : List ReservedKey
  pub admin_tokens : List AdminToken

abbrev pub empty_store : Store
empty_store = record {
  accounts = [];
  refresh_tokens = [];
  app_passwords = [];
  reserved_signing_keys = [];
  admin_tokens = [];
}

-- `constraint`: a primary key or a UNIQUE column refuses the row.
pub data StoreError : Type 0 where
  not_found constraint : StoreError
