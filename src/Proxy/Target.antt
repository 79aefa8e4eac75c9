-- ===== src/Proxy/Target.antt =====
-- internal/xrpc/proxy.go: where a request that is not handled here is passed on to.
use Prim.Native.String.{◌++◌ as append_text, slice, len}
use text.Mathlib.Text.{find?}
use robby.Prelude.{
  ℕ, ◌+◌, String, Bool, true, false, not, ◌||◌, Option, none, some, List, [], ◌∷◌, ◌==◌, string_eq,
  has_prefix, if◌then◌else◌, Result, ok, err, from_option,
}
use robby.Prelude.Results.{◌>>=◌, ◌>>◌, refuse_if}
use robby.Session.Principal.{HttpError, xrpc}

pub record ProxyTarget : Type 0 where
  pub did : String
  pub url : String
  pub trusted : Bool

-- A service of a DID document.
pub record Service : Type 0 where
  pub id : String
  pub endpoint : String

-- The configured AppView, and the two directories that resolve a DID's services: the guarded one for
-- did:web, whose host the client names, and the other for the rest.
pub record ProxyEnv : Type 0 where
  pub appview_did : String
  pub appview_url : String
  pub parse_did : String → Bool
  pub method : String → String
  pub resolve : String → Option (List Service)
  pub resolve_untrusted : String → Option (List Service)

abbrev pub upstream_failure : HttpError
upstream_failure = xrpc 502 "UpstreamFailure"

abbrev cut_on : String → Option ℕ → String × String
cut_on text none = (text, "")
cut_on text (some i) = (slice text 0 i, slice text (i + 1) (len text))

-- strings.Cut(header, "#")
unfoldable pub cut_fragment : String → String × String
cut_fragment header = cut_on header (find? header "#")

abbrev pub fragment_or_default : String → String
fragment_or_default fragment = if fragment == "" then "atproto_pds" else fragment

-- The loop over the document's services: the first that matches decides.
unfoldable pub target_of : String → String → List Service → Result HttpError ProxyTarget
target_of did service_id [] = err upstream_failure
target_of did service_id (svc ∷ svcs) =
    if svc.id == service_id || svc.id == append_text did service_id
    then (if has_prefix svc.endpoint "https://"
        then ok (record { did = did; url = svc.endpoint; trusted = false })
        else err upstream_failure)
    else target_of did service_id svcs

abbrev pub resolver : ProxyEnv → String → String → Option (List Service)
resolver env did = if env.method did == "web" then env.resolve_untrusted else env.resolve

-- `header` is atproto-proxy; an absent one is empty. Every error is the handler's 502.
unfoldable pub resolve_proxy_target : ProxyEnv → String → Result HttpError ProxyTarget
resolve_proxy_target env header =
    let (did, fragment) = cut_fragment header in
    if header == ""
    then ok (record { did = env.appview_did; url = env.appview_url; trusted = true })
    else (do
      refuse_if (not (env.parse_did did)) upstream_failure
      svcs ← from_option (resolver env did did) upstream_failure
      target_of did (append_text "#" (fragment_or_default fragment)) svcs)
