-- ===== src/Accounts.antt =====
-- internal/store/store.go: accounts.db, with its rows, its operations and what they keep.
pub mod Rows
pub mod Users
pub mod Tokens
pub mod Calls
pub mod Versions
pub mod AppPasswords
