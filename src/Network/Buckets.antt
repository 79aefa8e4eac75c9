-- ===== src/Network/Buckets.antt =====
-- internal/xrpc/clientip.go: whose bucket an attempt to log in draws from.
use robby.Prelude.{◌+◌, ◌/◌, ◌^◌, ◌≤◌, ◌⊎◌, none, some, ℕ, ◌≡◌, nat_eq, select_one}
use robby.Network.Addr.{Addr, unusable, v4, v6}
use robby.Network.Limiter.{Rate, IpBucket, IpRateLimiter, keyed, ip_bucket_idle_ttl}

-- The two addresses are one client: IPv6 addresses are where their first 64 bits agree.
abbrev pub IsClient : Addr → Addr → Type 0
IsClient unusable unusable = Unit {0}
IsClient (v4 m) (v4 n) = m ≡ n
IsClient (v6 m) (v6 n) = m / 2 ^ 64 ≡ n / 2 ^ 64
IsClient _ _ = ⊥

module _ {B : Type 0} (rate : Rate B) where
  -- The bucket of the key at the instant `t`: a new one where there is none, and otherwise one that was used
  -- within the TTL.
  abbrev pub Holds : ℕ → Addr → B → IpRateLimiter B → Type 0
  Holds t a x l =
      ((select_one (keyed rate a) l.buckets ≡ none) × (x ≡ rate.new_bucket))
      ⊎ ((e : IpBucket B) × (select_one (keyed rate a) l.buckets ≡ some e)
          × (e.limiter ≡ x)
          × (t ≤ e.last_seen + ip_bucket_idle_ttl))
