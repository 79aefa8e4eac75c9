-- ===== src/Network/Examples.antt =====
-- The network policies at concrete addresses.
use robby.Prelude.{
  ℕ, ◌-◌, true, ◌≡◌, refl, some, List, [], ◌∷◌, arith, ◌==◌, string_eq, if◌then◌else◌, All, ltb,
}
use robby.Network.Addr.{
  v4, unmap, is_loopback, contains, is_global_unicast, is_unspecified, is_multicast,
  is_link_local_unicast, addr_from_slice,
}
use robby.Network.ClientIp.{Parsers, effective, client_addr, addr_in_prefixes}
use robby.Network.SafeDial.{
  non_public_prefixes, is_public_ip, connected, dial_first, safe_dial_context,
}
use robby.Network.Limiter.{Rate, IpRateLimiter}
use robby.Network.Public.{Public, Internal, is_public_ip-Internal, safe_dial_context-Public}

-- "lan" is 10.0.0.7, "lo" is 127.0.0.1 and every other text is 8.8.8.8.
abbrev toy : Parsers
toy = record {
  split_host = λ t. some t;
  parse_addr = λ t.
      if t == "lan"
      then some (v4 167772167)
      else if t == "lo"
      then some (v4 2130706433)
      else some (v4 134744072);
}

runs : Unit {0}
unfolding unmap is_loopback contains is_global_unicast is_unspecified is_multicast
    is_link_local_unicast addr_from_slice effective client_addr addr_in_prefixes non_public_prefixes
    is_public_ip dial_first safe_dial_context
runs = tt

forged_header : client_addr toy "lan" "8.8.8.8" ≡ v4 167772167
unfolding runs
forged_header = refl

tunnel_header : client_addr toy "lo" "8.8.8.8" ≡ v4 134744072
unfolding runs
tunnel_header = refl

abbrev quad8 : List ℕ
quad8 = 8 ∷ 8 ∷ 8 ∷ 8 ∷ []

is_public_ip-Internal_example :
    (¬ Internal 8 8)
    × (is_public_ip (0 ∷ 0 ∷ 0 ∷ 0 ∷ 0 ∷ 0 ∷ 0 ∷ 0 ∷ 0 ∷ 0 ∷ 255 ∷ 255 ∷ 8 ∷ 8 ∷ 8 ∷ 8 ∷ []) ≡ true)
unfolding runs
is_public_ip-Internal_example =
    is_public_ip-Internal 8 8 8 8 (omega arith) (omega arith) (omega arith) (omega arith) refl

dialed :
    safe_dial_context (λ ip. true) ((10 ∷ 0 ∷ 0 ∷ 7 ∷ []) ∷ quad8 ∷ [])
    ≡ (connected quad8, quad8 ∷ [])
unfolding runs
dialed = refl

safe_dial_context-Public_example :
    All Public (safe_dial_context (λ ip. true) ((10 ∷ 0 ∷ 0 ∷ 7 ∷ []) ∷ quad8 ∷ [])).1
safe_dial_context-Public_example =
    safe_dial_context-Public (λ ip. true) ((10 ∷ 0 ∷ 0 ∷ 7 ∷ []) ∷ quad8 ∷ [])

-- A bucket of ten attempts that never refills.
abbrev ten : Rate ℕ
ten = record { new_bucket = 10; allow_bucket = λ now n. (ltb 0 n, n - 1) }

abbrev fresh : IpRateLimiter ℕ
fresh = record { buckets = []; last_sweep = 0 }
