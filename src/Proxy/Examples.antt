-- ===== src/Proxy/Examples.antt =====
-- A token for another service and a request that is passed on, at a concrete server.
use Prim.Native.String.{◌++◌ as append_text}
use robby.Prelude.{String, true, false, refl, some, none, [], ◌∷◌, string_eq, select_one, select}
use robby.Accounts.Users.{get_account_by_did}
use robby.Accounts.Tokens.{list_app_passwords}
use robby.Auth.{parse_access_token, parse}
use robby.Session.Principal.{
  bearer_token, check_principal, require_principal, status_permitted, matching_app_credential,
  require_privileged_access_token, optional_access_token,
}
use robby.Server.Toy.{env, store, access_request, syn, keys}
use robby.Server.Writes.{signing_key_for}
use robby.Proxy.ServiceAuth.{
  Signer, exp_at, chosen_ttl, handle_get_service_auth, IsServiceToken,
  get_service_auth-IsServiceToken,
}
use robby.Proxy.Target.{ProxyEnv, cut_fragment, target_of, resolve_proxy_target}
use robby.Proxy.Forward.{
  Header, ProxyRequest, OutRequest, is_listed, copy_proxy_headers, set_header, trim_slashes,
  proxied_request,
}

abbrev sign : Signer String
sign key iss aud ttl lxm = some (append_text key aud)

abbrev proxy : ProxyEnv
proxy = record {
  appview_did = "did:web:view.test";
  appview_url = "https://view.test/";
  parse_did = λ d. true;
  method = λ d. "web";
  resolve = λ d. none;
  resolve_untrusted =
      λ d. some (record { id = "#atproto_labeler"; endpoint = "https://label.test" } ∷ []);
}

abbrev cookie : Header
cookie = record { name = "Authorization"; value = "Bearer com.atproto.access" }

abbrev accept_language : Header
accept_language = record { name = "Accept-Language"; value = "en" }

abbrev asked : ProxyRequest
asked = record {
  path = "/xrpc/a.b";
  query = "q=1";
  verb = "GET";
  atproto_proxy = "did:web:label.test#atproto_labeler";
  headers = cookie ∷ accept_language ∷ [];
}

abbrev sent : OutRequest
sent = record {
  url = "https://label.test/xrpc/a.b?q=1";
  verb = "GET";
  has_body = false;
  headers = record { name = "User-Agent"; value = "robby-proxy" } ∷ accept_language ∷ [];
  authorization = some "Bearer kdid:web:label.test";
  guarded = true;
}

-- Opening this opens all that the tests run through.
runs : Unit {0}
unfolding require_principal check_principal bearer_token status_permitted matching_app_credential
    parse_access_token parse get_account_by_did list_app_passwords select_one select
    require_privileged_access_token optional_access_token signing_key_for handle_get_service_auth
    chosen_ttl cut_fragment target_of resolve_proxy_target is_listed copy_proxy_headers set_header
    trim_slashes proxied_request
runs = tt

get_service_auth-IsServiceToken_example :
    IsServiceToken env syn keys sign 5 access_request "did:web:x"
      (exp_at 100)
      "a.b"
      store
      "kdid:web:x"
unfolding runs
get_service_auth-IsServiceToken_example =
    get_service_auth-IsServiceToken env syn keys sign 5 access_request "did:web:x" (exp_at 100)
      "a.b" store "kdid:web:x" refl
