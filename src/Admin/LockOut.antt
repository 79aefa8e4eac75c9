-- ===== src/Admin/LockOut.antt =====
-- internal/xrpc/admin.go: setPassword, deactivateAccount and takedownAccount end every session of the
-- account.
use robby.Prelude.{
  ◌==◌, nat_eq, string_eq, ℕ, ◌+◌, ◌≤◌, String, Bool, true, false, ◌≡◌, refl, sym, ap, subst, some,
  List, [], ◌∷◌, inl, inr, arith, ok, err, All, Result, result_or, eq_iff, ◌≢◌, Option-cases,
  select_one, some_row, some_row-select_one,
}
use robby.Accounts.Rows.{Account, Store, status_deactivated, status_taken_down}
use robby.Accounts.Users.{by_did, get_account_by_did, set_password_hash, set_status}
use robby.Accounts.Tokens.{by_hash, get_refresh_token, delete_refresh_tokens_for_did}
use robby.Accounts.Calls.{
  Call, run, run_all, sets_password_hash, sets_status, deletes_refresh_tokens_for_did,
}
use robby.Accounts.Versions.{account_of, HasVersion, Spares, run_all-HasVersion}
use robby.Auth.{ParsedToken, parse_access_token, parse_refresh_token}
use robby.Session.Principal.{Env, Request, HttpError, xrpc, bearer_token, require_principal}
use robby.Session.Handlers.{handle_refresh_session, session_revoked}
use robby.Session.Revocation.{Unauthorized, bumped, stale_version_refused}
use robby.Server.State.{Server}
use robby.Server.Effects.{emit_account_event-SameData, emit_account_event-ok}
use robby.Admin.Accounts.{
  handle_admin_set_password, handle_admin_deactivate_account, handle_admin_takedown_account,
  suspend,
}

-- A refresh token of an older version is refused.
pub stale_refresh_refused :
    (env : Env) (now : ℕ) (jti : String) (r : Request) (token : String) (p : ParsedToken)
    → bearer_token r ≡ some token
    → parse_refresh_token env.jwt env.jwt_secret now token ≡ some p
    → (s : Store) → HasVersion p.did (p.auth_version + 1) s
    → Unauthorized (handle_refresh_session env now jti r s).0
unfolding handle_refresh_session get_refresh_token get_account_by_did
stale_refresh_refused env now jti r token p bearer verified s (a, e, h) =
    elim (Option-cases (select_one (by_hash (env.hash_token p.jti)) s.refresh_tokens)) [
      | inl e' ↦ ("ExpiredToken", rw (bearer, verified, e'))
      | inr (stored, e') ↦
          let c : session_revoked a p stored ≡ true = ground arith in
          ("ExpiredToken", rw (bearer, verified, e', e, c))
    ]

filled : (text : String) → text ≢ "" → (text == "") ≡ false
filled text h = ground (arith, eq_iff text "", h)

-- Where the account exists, these handlers succeed, and leave its store as two calls make it.
abbrev DoneBy : (Server → Result HttpError (Unit {0}) × Server) → List Call → Server → Type 0
DoneBy handler calls s = ((handler s).0 ≡ ok tt) × ((handler s).1.store ≡ run_all calls s.store)

-- What an admin does to end an account's sessions.
pub data Lockout : Type 0 where
  sets_password : String → String → Lockout
  deactivates takes_down : Lockout

abbrev pub lock_out : ℕ → String → Lockout → Server → Result HttpError (Unit {0}) × Server
lock_out now did (sets_password hash password) =
    handle_admin_set_password hash (some (record { did = did; password = password }))
lock_out now did deactivates = handle_admin_deactivate_account now (some did)
lock_out now did takes_down = handle_admin_takedown_account now (some did)

abbrev pub GivesPassword : Lockout → Type 0
GivesPassword (sets_password hash password) = password ≢ ""
GivesPassword _ = Unit {0}

abbrev calls_of : String → Lockout → List Call
calls_of did (sets_password hash password) =
    sets_password_hash did hash ∷ deletes_refresh_tokens_for_did did ∷ []
calls_of did deactivates =
    sets_status did status_deactivated ∷ deletes_refresh_tokens_for_did did ∷ []
calls_of did takes_down =
    sets_status did status_taken_down ∷ deletes_refresh_tokens_for_did did ∷ []

module _ (now : ℕ) (did : String) (s : Server) (a : Account)
    (found : account_of did s.store ≡ some a) where
  suspend-DoneBy :
      (status : String)
      → DoneBy
          (suspend now did status)
          (sets_status did status ∷ deletes_refresh_tokens_for_did did ∷ [])
          s
  unfolding suspend set_status delete_refresh_tokens_for_did run_all run
  suspend-DoneBy status = rw (some_row-select_one (by_did did) s.store.accounts a found) (
    ap (λ r. result_or r (xrpc 500 "InternalServerError"))
        (emit_account_event-ok now did _ false (some status)),
    (emit_account_event-SameData now did _ false (some status)).0,
  )

  lock_out-DoneBy :
      (c : Lockout) → did ≢ "" → GivesPassword c → DoneBy (lock_out now did c) (calls_of did c) s
  unfolding handle_admin_set_password handle_admin_deactivate_account handle_admin_takedown_account
      set_password_hash delete_refresh_tokens_for_did run_all run
  lock_out-DoneBy (sets_password hash password) named given =
      rw (filled did named, filled password given, known) (refl, refl)
    where
      known : some_row (by_did did) s.store.accounts ≡ true
      known = some_row-select_one (by_did did) s.store.accounts a found
  lock_out-DoneBy deactivates named given =
      rw (filled did named) (suspend-DoneBy status_deactivated)
  lock_out-DoneBy takes_down named given = rw (filled did named) (suspend-DoneBy status_taken_down)

  raised : (c : Lockout) → HasVersion did (a.auth_version + 1) (run_all (calls_of did c) s.store)
  unfolding run_all run delete_refresh_tokens_for_did
  raised (sets_password hash password) = (bumped did "" hash s.store a found).1
  raised deactivates = (bumped did status_deactivated "" s.store a found).0
  raised takes_down = (bumped did status_taken_down "" s.store a found).0

  locked_version :
      (c : Lockout) (cs : List Call)
      → did ≢ ""
      → GivesPassword c
      → All (Spares did) cs
      → HasVersion did (a.auth_version + 1) (run_all cs (lock_out now did c s).1.store)
  locked_version c cs named given spared = run_all-HasVersion did _ cs _ spared (
      subst (HasVersion did (a.auth_version + 1)) (sym (lock_out-DoneBy c named given).1)
        (raised c))

module _ (env : Env) (now : ℕ) (jti : String) (s : Server) (a : Account) (c : Lockout)
    (cs : List Call) (access refresh : Request) (token token' : String) (p q : ParsedToken) where
  -- setPassword, deactivateAccount and takedownAccount succeed on an account that exists, and every
  -- access and refresh token that the account had is refused from then on, at any time `later` and
  -- after any store calls that do not delete the account.
  pub admin_locks_out :
      (did : String) (later : ℕ) (privileged allow_deactivated : Bool)
      → did ≢ ""
      → GivesPassword c
      → account_of did s.store ≡ some a
      → All (Spares did) cs
      → bearer_token access ≡ some token
      → parse_access_token env.jwt env.jwt_secret later token ≡ some p
      → p.did ≡ did
      → p.auth_version ≤ a.auth_version
      → bearer_token refresh ≡ some token'
      → parse_refresh_token env.jwt env.jwt_secret later token' ≡ some q
      → q.did ≡ did
      → q.auth_version ≤ a.auth_version
      → ((lock_out now did c s).0 ≡ ok tt)
        × (require_principal env later access privileged allow_deactivated
              (run_all cs (lock_out now did c s).1.store)
            ≡ err (xrpc 401 "ExpiredToken"))
        × Unauthorized
            (handle_refresh_session env later jti refresh
              (run_all cs (lock_out now did c s).1.store)).0
  admin_locks_out did later privileged allow_deactivated named given found spared bearer verified
        same old bearer' verified' same' old' =
      let t = run_all cs (lock_out now did c s).1.store in
      let v = locked_version now did s a found c cs named given spared in
      (
        (lock_out-DoneBy now did s a found c named given).0,
        stale_version_refused env later access privileged allow_deactivated token p bearer verified
            t (older p same old t v),
        stale_refresh_refused env later jti refresh token' q bearer' verified' t
            (older q same' old' t v),
      )
    where
      older :
          (p : ParsedToken)
          → p.did ≡ did
          → p.auth_version ≤ a.auth_version
          → (t : Store) → HasVersion did (a.auth_version + 1) t
          → HasVersion p.did (p.auth_version + 1) t
      older p same old t (x, e, h) = rw same (x, e, omega arith)
