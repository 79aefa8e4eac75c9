-- ===== src/Proxy/Outgoing.antt =====
-- internal/xrpc/proxy.go: what a request that is passed on can carry, and where it can go.
use Prim.Native.String.append
use Prim.Native.String.{[] as empty_text, ◌∷◌ as char_text, ◌++◌ as append_text}
use robby.Server.SigningKey.{IsKeyOf}
use robby.Prelude.{
  nat_eq, zero, suc, ◌≢◌, ℕ, String, true, false, not, string_eq, has_prefix, trim_prefix, ◌≡◌,
  none, some, List, [], ◌∷◌, ◌⊎◌, All, ok,
}
use robby.Accounts.Rows.{Store}
use robby.Session.Principal.{Env, Request, optional_access_token}
use robby.Server.State.{Syntax, Keys}
use robby.Proxy.ServiceAuth.{Signer}
use robby.Proxy.Target.{ProxyEnv, ProxyTarget, resolve_proxy_target}
use robby.Proxy.Forward.{Header, ProxyRequest, OutRequest, proxy_service_auth_ttl}

-- The headers that stay here: those of one connection, those that the server sets itself, and those that
-- ask for a part or a change only.
abbrev pub withheld : List String
withheld =
    "Connection" ∷ "Keep-Alive" ∷ "Proxy-Authenticate" ∷ "Proxy-Authorization" ∷ "Te" ∷ "Trailer"
    ∷ "Transfer-Encoding" ∷ "Upgrade" ∷ "Authorization" ∷ "Content-Length" ∷ "If-None-Match"
    ∷ "If-Modified-Since" ∷ "If-Match" ∷ "If-Unmodified-Since" ∷ "If-Range" ∷ "Range" ∷ []

abbrev pub IsForwardable : Header → Type 0
IsForwardable h = All (λ name. h.name ≢ name) withheld

-- A target that is not trusted was named by the client, and is reached over HTTPS.
abbrev pub IsAllowed : ProxyEnv → ProxyTarget → Type 0
IsAllowed proxy t =
    ((t.trusted ≡ true) × (t.did ≡ proxy.appview_did) × (t.url ≡ proxy.appview_url))
    ⊎ ((t.trusted ≡ false) × (has_prefix t.url "https://" ≡ true))

-- A number of slashes.
abbrev pub slashes : ℕ → String
slashes zero = ""
slashes (suc n) = append_text "/" (slashes n)

-- The target's URL without slashes at its end, the path of the method, and the query if there is one.
abbrev pub IsAddress : String → String → String → String → Type 0
IsAddress base nsid query url =
    (tail : String) × (url ≡ append_text base (append_text "/xrpc/" (append_text nsid tail)))
    × (((query ≡ "") × (tail ≡ "")) ⊎ (tail ≡ append_text "?" query))

-- What a request that is passed on is made of.
pub record IsForwarded {K : Type 0} (env : Env) (syn : Syntax) (keys : Keys K) (sign : Signer K)
    (proxy : ProxyEnv) (now : ℕ) (r : Request) (s : Store) (pr : ProxyRequest) (out : OutRequest)
    : Type 0 where
  pub target : ProxyTarget
  pub resolved : resolve_proxy_target proxy pr.atproto_proxy ≡ ok target
  pub allowed : IsAllowed proxy target
  pub nsid : String
  pub method : syn.parse_nsid nsid ≡ true
  pub path : nsid ≡ trim_prefix pr.path "/xrpc/"
  pub base : String
  pub slashes_at_end : (n : ℕ) × (target.url ≡ append_text base (slashes n))
  pub address : IsAddress base nsid pr.query out.url
  pub guarded : out.guarded ≡ not target.trusted
  pub headers : All IsForwardable out.headers
  pub authorization :
      (out.authorization ≡ none)
      ⊎ ((did : String) × (key : K) × (token : String) × (optional_access_token env now r s
            ≡ some did)
          × IsKeyOf keys did s key
          × (sign key did target.did proxy_service_auth_ttl (some nsid) ≡ some token)
          × (out.authorization ≡ some (append_text "Bearer " token)))
