-- ===== src/Admin/Signup.antt =====
-- internal/xrpc/admin.go: creating an account, its DID and its first repository.
use Prim.Native.String.{◌++◌ as append_text}
use robby.Prelude.{
  ℕ, String, true, Option, none, some, List, [], ◌∷◌, ◌==◌, string_eq, ok, is_ok, Exec, pure, reads,
  try_or, raise_if, result_or, from_option, ◌>>=◌, ◌>>◌,
}
use robby.Accounts.Rows.{Account, status_active}
use robby.Accounts.Users.{create_account, get_account_by_handle}
use robby.Session.Principal.{HttpError, xrpc}
use robby.Identity.Plc.{Signing, Directory, genesis, submit}
use robby.Repo.Indigo.{Indigo}
use robby.Repo.Batch.{WriteOp, action_create}
use robby.Server.State.{Server, Syntax, Keys, on_store}
use robby.Server.Events.{emit_sync_event, emit_account_event}
use robby.Server.Writes.{write}
use robby.Admin.Accounts.{AdminAccountOutput, account_output}

pub record AdminCreateAccountInput : Type 0 where
  pub handle : String
  pub password : String

-- `declaration` is the value of the record that the source writes out.
unfoldable pub default_seed_records : {R : Type 0} → R → List (WriteOp R)
default_seed_records declaration =
    record {
      action = action_create;
      collection = "app.bsky.notification.declaration";
      rkey = "self";
      entry = some declaration;
    }
    ∷ []

-- The account's two keys, as GeneratePrivateKeyK256 draws them.
pub record NewKeys (K : Type 0) : Type 0 where
  pub signing : K
  pub rotation : K

module _ {T C R K : Type 0} (ext : Indigo T C R K) (syn : Syntax) (keys : Keys K)
    (signing : Signing K) (dir : Directory) (hostname : String) (declaration : R) where
  abbrev pub new_account : ℕ → String → String → String → NewKeys K → Account
  new_account now did handle hash drawn = record {
    did = did;
    handle = handle;
    password_hash = hash;
    signing_key = keys.multibase drawn.signing;
    rotation_key = keys.multibase drawn.rotation;
    status = status_active;
    auth_version = 0;
    created_at = now;
  }

  -- `hash` is the scrypt hash of the password.
  unfoldable pub handle_admin_create_account :
      ℕ
      → NewKeys K
      → String
      → Option AdminCreateAccountInput
      → Exec Server HttpError AdminAccountOutput
  handle_admin_create_account now drawn hash body = do
    input ← reads (λ s. from_option body (xrpc 400 "InvalidRequest"))
    handle ← reads (λ s. from_option (syn.parse_handle input.handle) (xrpc 400 "InvalidRequest"))
    raise_if (input.password == "") (xrpc 400 "InvalidRequest")
    taken ← reads (λ s. ok (is_ok (get_account_by_handle handle s.store)))
    raise_if taken (xrpc 400 "HandleNotAvailable")
    signing_pub ←
        reads (λ s. from_option (keys.did_key drawn.signing) (xrpc 500 "InternalServerError"))
    made ← reads (λ s.
        result_or
          (genesis signing drawn.rotation signing_pub handle (append_text "https://" hostname))
          (xrpc 500 "InternalServerError"))
    reads (λ s. result_or (submit dir (made.0) (made.1)) (xrpc 500 "InternalServerError"))
    try_or (on_store (create_account (new_account now (made.0) handle hash drawn)))
        (xrpc 500 "InternalServerError")
    written ←
        try_or
          (write ext syn.parse_did now (made.0) drawn.signing (default_seed_records declaration))
          (xrpc 500 "InternalServerError")
    try_or (emit_sync_event syn.parse_did now (made.0) written.commit_cid written.commit.rev)
        (xrpc 500 "InternalServerError")
    try_or (emit_account_event now (made.0) true none) (xrpc 500 "InternalServerError")
    pure (account_output (new_account now (made.0) handle hash drawn))
