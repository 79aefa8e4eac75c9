-- ===== src/Admin/Guard.antt =====
-- internal/xrpc/admin.go: requireAdmin, which guards the admin API by the client's network and a password.
use robby.Prelude.{
  String, Bool, true, false, not, Option, none, some, List, ◌==◌, string_eq, ◌≡◌, ◌⊎◌, inl, inr,
  refl, arith, eq_iff, err, Exec, Bool-cases, ap, subst, if◌then◌else◌,
}
use robby.Network.Addr.{Addr, Prefix}
use robby.Network.ClientIp.{Parsers, client_addr, addr_in_prefixes}
use robby.Session.Principal.{HttpError, xrpc}

-- What the guard reads of a request: RemoteAddr, CF-Connecting-IP and the Authorization header.
pub record AdminRequest : Type 0 where
  pub remote : String
  pub cf_connecting_ip : String
  pub authorization : String

-- The configuration of the guard. Go's parsers of addresses and of HTTP Basic credentials are
-- parameters; `basic_auth` gives the user name and the password.
pub record AdminEnv : Type 0 where
  pub parsers : Parsers
  pub admin_nets : List Prefix
  pub admin_password : String
  pub basic_auth : String → Option (String × String)

abbrev pub client_of : AdminEnv → AdminRequest → Addr
client_of env r = client_addr env.parsers r.remote r.cf_connecting_ip

-- The user name is ignored.
abbrev pub password_matches : AdminEnv → Option (String × String) → Bool
password_matches env none = false
password_matches env (some (user, pass)) = pass == env.admin_password

unfoldable pub require_admin :
    {S A : Type 0} → AdminEnv → AdminRequest → Exec S HttpError A → Exec S HttpError A
require_admin env r next s =
    if not (addr_in_prefixes (client_of env r) env.admin_nets)
    then (err (xrpc 403 "Forbidden"), s)
    else if not (password_matches env (env.basic_auth r.authorization))
    then (err (xrpc 401 "AuthenticationRequired"), s)
    else next s

-- The client is in an admin network, and the request carries the configured password.
pub record IsAdmin (env : AdminEnv) (r : AdminRequest) : Type 0 where
  pub network : addr_in_prefixes (client_of env r) env.admin_nets ≡ true
  pub user : String
  pub credentials : env.basic_auth r.authorization ≡ some (user, env.admin_password)

matches-credentials :
    (env : AdminEnv) (o : Option (String × String))
    → password_matches env o ≡ true
    → (user : String) × (o ≡ some (user, env.admin_password))
matches-credentials env none h = absurd (ground arith)
matches-credentials env (some (user, pass)) h =
    (user, ap (λ p. some (user, p)) ((eq_iff pass env.admin_password).0 h))

module _ {S A : Type 0} (env : AdminEnv) (r : AdminRequest) (next : Exec S HttpError A)
    (s : S) where
  refused_network :
      addr_in_prefixes (client_of env r) env.admin_nets ≡ false
      → require_admin env r next s ≡ (err (xrpc 403 "Forbidden"), s)
  unfolding require_admin
  refused_network h = rw h refl

  refused_password :
      addr_in_prefixes (client_of env r) env.admin_nets ≡ true
      → password_matches env (env.basic_auth r.authorization) ≡ false
      → require_admin env r next s ≡ (err (xrpc 401 "AuthenticationRequired"), s)
  unfolding require_admin
  refused_password h k = rw (h, k) refl

  admitted :
      addr_in_prefixes (client_of env r) env.admin_nets ≡ true
      → password_matches env (env.basic_auth r.authorization) ≡ true
      → require_admin env r next s ≡ next s
  unfolding require_admin
  admitted h k = rw (h, k) refl

  -- Either the client is in an admin network and knows the password, and the handler runs, or the
  -- request is refused with 401 or 403 and nothing changes.
  pub require_admin-IsAdmin :
      (IsAdmin env r × (require_admin env r next s ≡ next s))
      ⊎ (¬ IsAdmin env r
          × ((require_admin env r next s ≡ (err (xrpc 403 "Forbidden"), s))
              ⊎ (require_admin env r next s ≡ (err (xrpc 401 "AuthenticationRequired"), s))))
  require_admin-IsAdmin = elim (Bool-cases (addr_in_prefixes (client_of env r) env.admin_nets)) [
    | inr out ↦ inr (λ a. absurd (ground (arith, a.network)), inl (refused_network out))
    | inl h ↦ elim (Bool-cases (password_matches env (env.basic_auth r.authorization))) [
      | inl k ↦
          let (user, e) = matches-credentials env (env.basic_auth r.authorization) k in
          inl (record { network = h; user = user; credentials = e }, admitted h k)
      | inr wrong ↦ inr (
        λ a. absurd (
            ground
              (arith, wrong_password a.user (env.basic_auth r.authorization) a.credentials wrong)),
        inr (refused_password h wrong),
      )
    ]
  ]
    where
      wrong_password :
          (user : String) (o : Option (String × String))
          → o ≡ some (user, env.admin_password)
          → password_matches env o ≡ false
          → ⊥
      wrong_password user o e k =
          let k' : password_matches env (some (user, env.admin_password)) ≡ false =
            subst (λ o. password_matches env o ≡ false) e k in
          ground (arith, k', eq_iff env.admin_password env.admin_password)
