-- ===== src/Policy/RateLimiting.antt =====
-- internal/policy/rate_limiting.go: a token bucket for each service and endpoint.
-- `tokens_for elapsed rate` stands for `int(elapsed.Seconds() * float64(rate))`, which is float64
-- arithmetic of the machine; a time is a number of nanoseconds since Go's zero time.
pub mod Bounds
pub mod Conformance
use simulation_core.Base.{ℕ, Bool, true, false, String, Option, none, some, [], if◌then◌else◌}
use simulation_core.Base.Int.{ℤ, pos, negsuc, ◌+ℤ◌, ◌-ℤ◌, ltb_ℤ, sub_ℕ}
use simulation_core.Base.Dict.{Dict, lookup, insert}
use simulation_core.Base.Key.{endpoint_key}

pub record TokenBucket : Type 0 where
  pub capacity : ℤ
  pub tokens : ℤ
  pub refill_rate : ℤ
  pub last_refill : ℕ

pub record RateLimiter : Type 0 where
  pub enabled : Bool
  pub rate_limit_per_second : ℤ
  pub buckets : Dict TokenBucket

unfoldable pub new_rate_limiter : Bool → ℤ → RateLimiter
new_rate_limiter enabled rate = record {
  enabled = enabled;
  rate_limit_per_second = rate;
  buckets = [];
}

-- A new bucket is full.
unfoldable pub bucket_or_full : Option TokenBucket → ℤ → ℕ → TokenBucket
bucket_or_full (some b) rate now = b
bucket_or_full none rate now = record {
  capacity = rate;
  tokens = rate;
  refill_rate = rate;
  last_refill = now;
}

-- `bucket.tokens--`, if a token is there.
unfoldable pub take_token : TokenBucket → TokenBucket × Bool
take_token b =
    if ltb_ℤ (pos 0) b.tokens then (record b { tokens = b.tokens -ℤ pos 1 }, true) else (b, false)

module _ (tokens_for : ℤ → ℤ → ℤ) where
  -- The refill that AllowRequest and GetRemainingQuota both spell out.
  unfoldable pub refill : TokenBucket → ℕ → TokenBucket
  refill b now =
      let added = tokens_for (sub_ℕ now b.last_refill) b.refill_rate in
      let total = b.tokens +ℤ added in
      if ltb_ℤ (pos 0) added
      then record b {
        tokens = if ltb_ℤ b.capacity total then b.capacity else total;
        last_refill = now;
      }
      else b

  unfoldable pub allow_request : RateLimiter → String → String → ℕ → RateLimiter × Bool
  unfolding bucket_or_full take_token refill
  allow_request p service path now =
      let key = endpoint_key service path in
      let b = bucket_or_full (lookup key p.buckets) p.rate_limit_per_second now in
      let r = take_token (refill b now) in
      if p.enabled then (record p { buckets = insert key r.0 p.buckets }, r.1) else (p, true)

  -- The -1 of a disabled limiter stands for no limit.
  unfoldable pub get_remaining_quota : RateLimiter → String → String → ℕ → RateLimiter × ℤ
  unfolding refill
  get_remaining_quota p service path now =
      let key = endpoint_key service path in
      if p.enabled
      then (elim (lookup key p.buckets) [
        | none ↦ (p, p.rate_limit_per_second)
        | some b ↦ let c = refill b now in (record p { buckets = insert key c p.buckets }, c.tokens)
      ])
      else (p, negsuc 0)
