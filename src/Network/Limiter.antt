-- ===== src/Network/Limiter.antt =====
-- internal/xrpc/clientip.go: the limiter of login attempts, a token bucket per client. The bucket itself,
-- golang.org/x/time's rate.Limiter, is a parameter: a new one, and what Allow answers at an instant.
use robby.Prelude.{
  ℕ, ◌-◌, ◌*◌, ◌/◌, ◌^◌, Bool, Option, none, some, List, [], ◌∷◌, ◌++◌, ltb, if◌then◌else◌, Result,
  ok, err, select_one, delete, update, some_row,
}
use robby.Accounts.Rows.{second}
use robby.Session.Principal.{HttpError, xrpc}
use robby.Network.Addr.{Addr, unusable, v4, v6, addr_beq}

pub record Rate (B : Type 0) : Type 0 where
  pub new_bucket : B
  pub allow_bucket : ℕ → B → Bool × B

abbrev pub ip_bucket_idle_ttl : ℕ
ip_bucket_idle_ttl = 15 * 60 * second

pub record IpBucket (B : Type 0) : Type 0 where
  pub addr : Addr
  pub limiter : B
  pub last_seen : ℕ

pub record IpRateLimiter (B : Type 0) : Type 0 where
  pub buckets : List (IpBucket B)
  pub last_sweep : ℕ

-- An IPv6 client is its /64.
unfoldable pub bucket_addr : Addr → Addr
bucket_addr unusable = unusable
bucket_addr (v4 n) = v4 n
bucket_addr (v6 n) = v6 (n / 2 ^ 64 * 2 ^ 64)

module _ {B : Type 0} (rate : Rate B) where
  abbrev pub keyed : Addr → IpBucket B → Bool
  keyed a b = addr_beq b.addr a

  -- Idle buckets go, at most once per TTL.
  unfoldable pub sweep : ℕ → IpRateLimiter B → IpRateLimiter B
  sweep now l =
      if ltb ip_bucket_idle_ttl (now - l.last_sweep)
      then record {
        buckets = delete (λ b. ltb ip_bucket_idle_ttl (now - b.last_seen)) l.buckets;
        last_sweep = now;
      }
      else l

  abbrev pub bucket_or_new : Option (IpBucket B) → B
  bucket_or_new none = rate.new_bucket
  bucket_or_new (some b) = b.limiter

  -- The limiter of a client, a new one where it has none.
  unfoldable pub bucket_for : Addr → IpRateLimiter B → B
  bucket_for a l = bucket_or_new (select_one (keyed a) l.buckets)

  unfoldable pub set_bucket : ℕ → Addr → B → IpRateLimiter B → IpRateLimiter B
  set_bucket now a b l =
      let entry : IpBucket B = record { addr = a; limiter = b; last_seen = now } in
      if some_row (keyed a) l.buckets
      then record l { buckets = update (keyed a) (λ _. entry) l.buckets }
      else record l { buckets = l.buckets ++ entry ∷ [] }

  unfoldable pub allow : ℕ → Addr → IpRateLimiter B → Bool × IpRateLimiter B
  allow now addr l =
      let swept = sweep now l in
      let answer = rate.allow_bucket now (bucket_for (bucket_addr addr) swept) in
      (answer.0, set_bucket now (bucket_addr addr) answer.1 swept)

  -- The wrapper of a handler: the refusal, or nothing.
  unfoldable pub rate_limited :
      ℕ → Addr → IpRateLimiter B → Result HttpError (Unit {0}) × IpRateLimiter B
  rate_limited now addr l =
      let (allowed, l') = allow now addr l in
      (if allowed then ok tt else err (xrpc 429 "RateLimitExceeded"), l')
