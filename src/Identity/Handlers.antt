-- ===== src/Identity/Handlers.antt =====
-- internal/xrpc/identity.go: the handlers of com.atproto.identity that this server answers itself.
use Prim.Native.String.{◌++◌ as append_text}
use robby.Prelude.{
  ℕ, String, Bool, false, not, Option, none, some, List, [], ◌∷◌, ◌==◌, string_eq, if◌then◌else◌,
  trim_prefix, Result, ok, err, Exec, pure, reads, try_or, ignoring, raise_if, result_or,
  from_option, ◌>>=◌, ◌>>◌,
}
use robby.Accounts.Rows.{Account, StoreError}
use robby.Accounts.Users.{get_account_by_did, get_account_by_handle, set_handle}
use robby.Accounts.Tokens.{consume_admin_token, token_purpose_plc_sign}
use robby.Session.Principal.{HttpError, xrpc, Env, Request, require_privileged_access_token}
use robby.Server.State.{Server, Syntax, Keys, on_store}
use robby.Server.Events.{emit_identity_event}
use robby.Identity.Json.{
  Json, Fields, Items, null, text, scalar, array, object, no_item, item, lookup, value_or_nil,
  to_string_slice, to_map, pick_string_slice, pick_map,
}
use robby.Identity.Plc.{Signing, Directory, OpFields, sign_op, submit, get_last_op}

abbrev pub other_account : String → Result StoreError Account → Bool
other_account did (err e) = false
other_account did (ok a) = not (a.did == did)

-- The value of a key that is a string, and otherwise the empty text.
abbrev pub string_or_empty : Option Json → String
string_or_empty (some (text s)) = s
string_or_empty none = ""
string_or_empty (some null) = ""
string_or_empty (some (scalar s)) = ""
string_or_empty (some (array xs)) = ""
string_or_empty (some (object fs)) = ""

abbrev first_alias : Items → String
first_alias (item (text s) rest) = trim_prefix s "at://"
first_alias no_item = ""
first_alias (item null rest) = ""
first_alias (item (scalar s) rest) = ""
first_alias (item (array xs) rest) = ""
first_alias (item (object fs) rest) = ""

-- The handle that an operation announces: its first alias.
abbrev pub announced_handle : Option Json → String
announced_handle (some (array xs)) = first_alias xs
announced_handle none = ""
announced_handle (some null) = ""
announced_handle (some (text s)) = ""
announced_handle (some (scalar s)) = ""
announced_handle (some (object fs)) = ""

-- What GetRecommendedDidCredentials answers.
pub record Recommended : Type 0 where
  pub rotation_keys : List String
  pub also_known_as : List String
  pub atproto : String
  pub endpoint : String

module _ {K : Type 0} (env : Env) (syn : Syntax) (keys : Keys K) (signing : Signing K)
    (dir : Directory) where
  -- The operation for a new handle: the other fields are the last operation's.
  abbrev pub handle_fields : Fields → String → OpFields
  handle_fields last handle = record {
    rotation_keys = to_string_slice (value_or_nil (lookup "rotationKeys" last));
    verification_methods = to_map (value_or_nil (lookup "verificationMethods" last));
    also_known_as = append_text "at://" handle ∷ [];
    services = to_map (value_or_nil (lookup "services" last));
  }

  -- `body` is the decoded handle.
  unfoldable pub handle_update_handle :
      ℕ → Request → Option String → Exec Server HttpError (Unit {0})
  handle_update_handle now r body = do
    did ← reads (λ s. require_privileged_access_token env now r s.store)
    input ← reads (λ s. from_option body (xrpc 400 "InvalidRequest"))
    handle ← reads (λ s. from_option (syn.parse_handle input) (xrpc 400 "InvalidRequest"))
    taken ← reads (λ s. ok (other_account did (get_account_by_handle handle s.store)))
    raise_if taken (xrpc 400 "HandleNotAvailable")
    acct ← reads (λ s. result_or (get_account_by_did did s.store) (xrpc 404 "NotFound"))
    rotation_key ←
        reads
          (λ s. from_option (keys.parse_private acct.rotation_key) (xrpc 500 "InternalServerError"))
    last ← reads (λ s. result_or (get_last_op dir did) (xrpc 500 "InternalServerError"))
    signed ← reads (λ s.
        result_or (sign_op signing rotation_key (some (last.0)) (handle_fields (last.1) handle))
          (xrpc 500 "InternalServerError"))
    reads (λ s. result_or (submit dir did signed) (xrpc 502 "UpstreamFailure"))
    try_or (on_store (set_handle did handle)) (xrpc 500 "InternalServerError")
    try_or (emit_identity_event now did handle) (xrpc 500 "InternalServerError")

  unfoldable pub public_key_of : String → Option String
  public_key_of multibase_priv = elim (keys.parse_private multibase_priv) [
    | none ↦ none
    | some priv ↦ keys.did_key priv
  ]

  unfoldable pub handle_get_recommended_did_credentials :
      ℕ → Request → Exec Server HttpError Recommended
  handle_get_recommended_did_credentials now r = do
    did ← reads (λ s. require_privileged_access_token env now r s.store)
    acct ← reads (λ s. result_or (get_account_by_did did s.store) (xrpc 404 "NotFound"))
    signing_pub ←
        reads (λ s. from_option (public_key_of acct.signing_key) (xrpc 500 "InternalServerError"))
    rotation_pub ←
        reads (λ s. from_option (public_key_of acct.rotation_key) (xrpc 500 "InternalServerError"))
    pure (record {
      rotation_keys = rotation_pub ∷ [];
      also_known_as = append_text "at://" acct.handle ∷ [];
      atproto = signing_pub;
      endpoint = append_text "https://" env.hostname;
    })

  -- The caller's fields over the last operation's.
  abbrev pub merged_fields : Fields → Fields → OpFields
  merged_fields input last = record {
    rotation_keys =
        pick_string_slice input "rotationKeys" (value_or_nil (lookup "rotationKeys" last));
    verification_methods =
        pick_map input "verificationMethods" (value_or_nil (lookup "verificationMethods" last));
    also_known_as =
        pick_string_slice input "alsoKnownAs" (value_or_nil (lookup "alsoKnownAs" last));
    services = pick_map input "services" (value_or_nil (lookup "services" last));
  }

  unfoldable pub handle_sign_plc_operation :
      ℕ → Request → Option Fields → Exec Server HttpError Fields
  handle_sign_plc_operation now r body = do
    did ← reads (λ s. require_privileged_access_token env now r s.store)
    input ← reads (λ s. from_option body (xrpc 400 "InvalidRequest"))
    raise_if (string_or_empty (lookup "token" input) == "") (xrpc 400 "InvalidRequest")
    try_or
        (on_store (
          consume_admin_token now (string_or_empty (lookup "token" input)) did
            token_purpose_plc_sign))
        (xrpc 401 "InvalidToken")
    acct ← reads (λ s. result_or (get_account_by_did did s.store) (xrpc 404 "NotFound"))
    rotation_key ←
        reads
          (λ s. from_option (keys.parse_private acct.rotation_key) (xrpc 500 "InternalServerError"))
    last ← reads (λ s. result_or (get_last_op dir did) (xrpc 500 "InternalServerError"))
    reads (λ s.
        result_or (sign_op signing rotation_key (some (last.0)) (merged_fields input (last.1)))
          (xrpc 500 "InternalServerError"))

  -- `if newHandle != "" { _ = s.store.SetHandle(…) }`
  abbrev keep_handle : String → String → Exec Server HttpError (Unit {0})
  keep_handle did handle s =
      if handle == "" then (ok tt, s) else ignoring (on_store (set_handle did handle)) s

  -- `body` is the decoded operation; an absent one is `none`.
  unfoldable pub handle_submit_plc_operation :
      ℕ → Request → Option Fields → Exec Server HttpError (Unit {0})
  handle_submit_plc_operation now r body = do
    did ← reads (λ s. require_privileged_access_token env now r s.store)
    operation ← reads (λ s. from_option body (xrpc 400 "InvalidRequest"))
    reads (λ s. result_or (submit dir did operation) (xrpc 502 "UpstreamFailure"))
    keep_handle did (announced_handle (lookup "alsoKnownAs" operation))
    try_or (emit_identity_event now did (announced_handle (lookup "alsoKnownAs" operation)))
        (xrpc 500 "InternalServerError")
