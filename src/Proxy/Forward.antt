-- ===== src/Proxy/Forward.antt =====
-- internal/xrpc/proxy.go: handleServiceProxy up to the request that it sends, and what it passes back.
use Prim.Native.Char.{code}
use Prim.Native.String.{String, [] as empty_text, ◌∷◌ as char_text, ◌++◌ as append_text}
use text.Mathlib.Text.{find?}
use robby.Prelude.{
  ℕ, ◌*◌, Bool, true, false, not, ◌||◌, ◌&&◌, Option, none, some, List, [], ◌∷◌, ◌==◌, string_eq,
  nat_eq, has_prefix, trim_prefix, if◌then◌else◌, select, Result, ok, err,
}
use robby.Prelude.Results.{◌>>=◌, ◌>>◌, refuse_if}
use robby.Accounts.Rows.{Store, second}
use robby.Session.Principal.{HttpError, xrpc, Env, Request, optional_access_token}
use robby.Server.State.{Syntax, Keys}
use robby.Server.Writes.{KeyError, signing_key_for}
use robby.Migration.Car.{bad_request}
use robby.Proxy.ServiceAuth.{Signer}
use robby.Proxy.Target.{ProxyEnv, ProxyTarget, resolve_proxy_target}

abbrev pub proxy_service_auth_ttl : ℕ
proxy_service_auth_ttl = 60 * second

-- One value of a header; Go's header names are in canonical form.
pub record Header : Type 0 where
  pub name : String
  pub value : String

pub record ProxyRequest : Type 0 where
  pub path : String
  pub query : String
  pub verb : String
  pub atproto_proxy : String
  pub headers : List Header

-- The request that is sent; `authorization` is the header that the handler sets, and `guarded` whether the
-- client refuses addresses that are not public.
pub record OutRequest : Type 0 where
  pub url : String
  pub verb : String
  pub has_body : Bool
  pub headers : List Header
  pub authorization : Option String
  pub guarded : Bool

abbrev pub hop_by_hop_headers : List String
hop_by_hop_headers =
    "Connection" ∷ "Keep-Alive" ∷ "Proxy-Authenticate" ∷ "Proxy-Authorization" ∷ "Te" ∷ "Trailer"
    ∷ "Transfer-Encoding" ∷ "Upgrade" ∷ "Authorization" ∷ "Content-Length" ∷ "If-None-Match"
    ∷ "If-Modified-Since" ∷ "If-Match" ∷ "If-Unmodified-Since" ∷ "If-Range" ∷ "Range" ∷ []

unfoldable pub is_listed : String → List String → Bool
is_listed name [] = false
is_listed name (n ∷ ns) = n == name || is_listed name ns

unfoldable pub copy_proxy_headers : List Header → List Header
copy_proxy_headers headers = select (λ h. not (is_listed h.name hop_by_hop_headers)) headers

-- Header.Set: the values that were there go.
unfoldable pub set_header : String → String → List Header → List Header
set_header name value headers =
    record { name = name; value = value } ∷ select (λ h. not (h.name == name)) headers

-- strings.TrimRight(url, "/")
unfoldable pub trim_slashes : String → String
trim_slashes empty_text = empty_text
trim_slashes (char_text c s) =
    let rest = trim_slashes s in if code c == 47 && rest == "" then "" else char_text c rest

abbrev pub with_query : String → String → String
with_query url query = if query == "" then url else append_text url (append_text "?" query)

abbrev contains_slash : String → Bool
contains_slash text = elim (find? text "/") [ none ↦ false | some i ↦ true ]

module _ {K : Type 0} (env : Env) (syn : Syntax) (keys : Keys K) (sign : Signer K)
    (proxy : ProxyEnv) where
  abbrev pub signed_by : Result KeyError K → String → String → String → Option String
  signed_by (err e) caller aud nsid = none
  signed_by (ok key) caller aud nsid = sign key caller aud proxy_service_auth_ttl (some nsid)

  abbrev pub token_for : Option String → String → String → Store → Option String
  token_for none aud nsid s = none
  token_for (some caller) aud nsid s = signed_by (signing_key_for keys caller s) caller aud nsid

  abbrev pub bearer_of : Option String → Option String
  bearer_of none = none
  bearer_of (some token) = some (append_text "Bearer " token)

  abbrev pub outgoing : ℕ → Request → ProxyRequest → String → ProxyTarget → Store → OutRequest
  outgoing now r pr nsid target s = record {
    url = with_query (append_text (trim_slashes target.url) (append_text "/xrpc/" nsid)) pr.query;
    verb = pr.verb;
    has_body = pr.verb == "POST";
    headers = set_header "User-Agent" "robby-proxy" (copy_proxy_headers pr.headers);
    authorization = bearer_of (token_for (optional_access_token env now r s) target.did nsid s);
    guarded = not target.trusted;
  }

  -- handleServiceProxy up to the sending of the request.
  unfoldable pub proxied_request : ℕ → Request → ProxyRequest → Store → Result HttpError OutRequest
  proxied_request now r pr s =
      let nsid = trim_prefix pr.path "/xrpc/" in
      do
        refuse_if (nsid == "" || contains_slash nsid) (xrpc 404 "XRPCNotSupported")
        refuse_if (not (syn.parse_nsid nsid)) bad_request
        target ← resolve_proxy_target proxy pr.atproto_proxy
        ok (outgoing now r pr nsid target s)

-- The upstream's headers that are passed back: its CORS headers are not.
unfoldable pub returned_headers : List Header → List Header
returned_headers headers = select (λ h. not (has_prefix h.name "Access-Control-")) headers
