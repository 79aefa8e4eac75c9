-- ===== src/Admin/Examples.antt =====
-- The admin API at a concrete server.
use robby.Prelude.{
  ℕ, ◌+◌, String, true, ◌≡◌, ◌⊎◌, ◌↔◌, refl, some, false, [], ◌∷◌, arith, ok, err, eq_iff, ◌==◌,
  string_eq, if◌then◌else◌, select_one, select, delete, update, some_row, ◌*◌, ◌<◌, Exec,
}
use robby.Accounts.Rows.{second, rfc3339, not_found}
use robby.Accounts.Users.{get_account_by_did}
use robby.Accounts.Tokens.{consume_admin_token, create_admin_token, token_purpose_plc_sign}
use robby.Accounts.Calls.{activates, run_all}
use robby.Auth.{scope_access, scope_refresh, parse_access_token, parse_refresh_token, parse}
use robby.Session.Principal.{HttpError, xrpc, require_principal, bearer_token}
use robby.Session.Handlers.{handle_refresh_session}
use robby.Session.Revocation.{Unauthorized}
use robby.Network.Addr.{v4, unmap, contains}
use robby.Network.ClientIp.{Parsers, effective, client_addr, addr_in_prefixes}
use robby.Server.Toy.{env, alice, server, access_request, refresh_request, parsed_of}
use robby.Server.State.{Server}
use robby.Admin.Guard.{AdminEnv, AdminRequest, IsAdmin, require_admin, require_admin-IsAdmin}
use robby.Admin.Accounts.{handle_admin_approve_token}
use robby.Admin.LockOut.{lock_out, takes_down, admin_locks_out}
use robby.Admin.Approval.{approved_token_iff}

-- "lan" is 10.0.0.7, and every other text is 8.8.8.8.
abbrev toy : Parsers
toy = record {
  split_host = λ t. some t;
  parse_addr = λ t. if t == "lan" then some (v4 167772167) else some (v4 134744072);
}

abbrev admin_env : AdminEnv
admin_env = record {
  parsers = toy;
  admin_nets = [];
  admin_password = "root";
  basic_auth = λ t. some ("admin", t);
}

abbrev stranger : AdminRequest
stranger = record { remote = "8.8.8.8"; cf_connecting_ip = ""; authorization = "root" }

abbrev next : Exec Server HttpError ℕ
next s = (ok 1, s)

-- Opening this opens all that the tests run through.
runs : Unit {0}
unfolding require_admin unmap contains effective client_addr addr_in_prefixes bearer_token
    parse_access_token parse_refresh_token parse select_one select delete update some_row
    handle_admin_approve_token get_account_by_did create_admin_token
runs = tt

refused : require_admin admin_env stranger next server ≡ (err (xrpc 403 "Forbidden"), server)
unfolding runs
refused = refl

require_admin-IsAdmin_example :
    (IsAdmin admin_env stranger × (require_admin admin_env stranger next server ≡ next server))
    ⊎ (¬ IsAdmin admin_env stranger
        × ((require_admin admin_env stranger next server ≡ (err (xrpc 403 "Forbidden"), server))
            ⊎ (require_admin admin_env stranger next server
                ≡ (err (xrpc 401 "AuthenticationRequired"), server))))
require_admin-IsAdmin_example = require_admin-IsAdmin admin_env stranger next server

admin_locks_out_example :
    ((lock_out 5 "did:plc:a" takes_down server).0 ≡ ok tt)
    × (require_principal env 9 access_request false true
          (run_all (activates "did:plc:a" ∷ []) (lock_out 5 "did:plc:a" takes_down server).1.store)
        ≡ err (xrpc 401 "ExpiredToken"))
    × Unauthorized
        (handle_refresh_session env 9 "j2" refresh_request (
          run_all
            (activates "did:plc:a" ∷ [])
            (lock_out 5 "did:plc:a" takes_down server).1.store)).0
unfolding runs
admin_locks_out_example =
    admin_locks_out env 5 "j2" server alice takes_down (activates "did:plc:a" ∷ []) access_request
      refresh_request scope_access scope_refresh (parsed_of scope_access "")
      (parsed_of scope_refresh "j1") "did:plc:a" 9 false true
      (ground (arith, eq_iff "did:plc:a" "")) tt refl (tt, tt) refl refl refl (omega arith) refl
      refl refl (omega arith)

approved_token_iff_example :
    (((consume_admin_token 100 "t2" "did:plc:a" token_purpose_plc_sign
          (handle_admin_approve_token 5 "t2"
            (some (record { did = "did:plc:a"; purpose = "" }))
            server).1.store).0
        ≡ ok tt)
      ↔ ((◌≡◌ {A = String} "did:plc:a" "did:plc:a")
          × (◌≡◌ {A = String} token_purpose_plc_sign token_purpose_plc_sign)
          × (rfc3339 100 < rfc3339 (5 + 900 * second))))
    × ((consume_admin_token 200 "t2" "did:plc:a" token_purpose_plc_sign
          (consume_admin_token 100 "t2" "did:plc:a" token_purpose_plc_sign
            (handle_admin_approve_token 5 "t2"
              (some (record { did = "did:plc:a"; purpose = "" }))
              server).1.store).1).0
        ≡ err not_found)
unfolding runs
approved_token_iff_example =
    approved_token_iff 5 "t2" (record { did = "did:plc:a"; purpose = "" }) server
      (record {
        token = "t2";
        purpose = token_purpose_plc_sign;
        expires_at = rfc3339 (5 + 900 * second);
      })
      refl 100 200 "did:plc:a" token_purpose_plc_sign (omega arith)
