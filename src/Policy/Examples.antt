-- ===== src/Policy/Examples.antt =====
-- The policies at concrete inputs.
use simulation_core.Base.{
  ℕ, Bool, ◌⊎◌, not, ◌||◌, ◌+◌, ◌*◌, ◌/◌, ◌≤◌, ◌≡◌, ◌*◌, refl, ◌≢◌, true, false, String, [], ◌∷◌,
  arith, eq_iff,
}
use simulation_core.Base.Int.{ℤ, pos, negsuc, pos_part, ◌≤ℤ◌, ltb_ℤ}
use simulation_core.Base.Dict.{lookup, insert}
use simulation_core.Policy.CircuitBreaker
use simulation_core.Policy.CircuitBreaker.{CircuitBreaker, closed, half_open, new_circuit_breaker}
use simulation_core.Policy.CircuitBreaker.Machine.{Moves, state_at, step, failure, step-Moves}
use simulation_core.Policy.CircuitBreaker.Threshold
use simulation_core.Policy.CircuitBreaker.Threshold.{step-IsValid}
use simulation_core.Policy.CircuitBreaker.Trip.{record_failures}
use simulation_core.Policy.RateLimiting
use simulation_core.Policy.RateLimiting.{RateLimiter, new_rate_limiter, get_remaining_quota}
use simulation_core.Policy.RateLimiting.Bounds
use simulation_core.Policy.RateLimiting.Bounds.{
  allow_request-IsValid, get_remaining_quota-IsValid, allow_request-get_remaining_quota,
}
use simulation_core.Policy.RateLimiting.Conformance.{
  IsRounded, token, earnings, admitted, admitted-le-budget,
}
use simulation_core.Policy.Retry.{RetryPolicy, get_backoff_duration}
use simulation_core.Policy.Retry.Backoff.{
  get_backoff_duration_bounds, get_backoff_duration-exponential,
}

-- Two failures open a circuit, one success closes it, and it stays open for 100 ns.
abbrev breaker : CircuitBreaker
breaker = record {
  enabled = true;
  failure_threshold = pos 2;
  success_threshold = pos 1;
  timeout = pos 100;
  circuits = [];
}

breaker-IsValid : CircuitBreaker.Threshold.IsValid breaker
unfolding lookup
breaker-IsValid = record {
  failures_pos = omega arith;
  successes_pos = omega arith;
  within = λ k c e. cc;
}

step-Moves_example :
    Moves (state_at "a:/x" breaker) (state_at "a:/x" (step breaker (failure "a" "/x" 5)))
step-Moves_example = step-Moves breaker (failure "a" "/x" 5) "a:/x"

step-IsValid_example : CircuitBreaker.Threshold.IsValid (step breaker (failure "a" "/x" 5))
step-IsValid_example = step-IsValid breaker (failure "a" "/x" 5) breaker-IsValid

-- A whole life of one circuit.
half_open_after_timeout :
    state_at "a:/x"
      (CircuitBreaker.allow_request (record_failures breaker "a" "/x" (1 ∷ 2 ∷ [])) "a" "/x" 102).0
    ≡ half_open
unfolding record_failures CircuitBreaker.record_failure CircuitBreaker.allow_request lookup insert
half_open_after_timeout = refl

-- Tokens earned by exact arithmetic: nanoseconds times the rate, by 10^9, rounded down.
abbrev exact_units : ℕ → ℕ → ℕ
exact_units e r = e * r / 1000000000

abbrev exact_tokens : ℤ → ℤ → ℤ
exact_tokens e r = pos (exact_units (pos_part e) (pos_part r))

exact_tokens-IsRounded : IsRounded exact_tokens
exact_tokens-IsRounded = record { bounded = λ e n. grind arith }

abbrev limiter : RateLimiter
limiter = record { enabled = true; rate_limit_per_second = pos 3; buckets = [] }

limiter-IsValid : RateLimiting.Bounds.IsValid limiter
unfolding lookup
limiter-IsValid = record { rate_nonneg = omega arith; bucket = λ k b e. cc }

exact_tokens_idle : (rate : ℤ) → exact_tokens (pos 0) rate ≡ pos 0
exact_tokens_idle rate = ground arith

allow_request-IsValid_example :
    RateLimiting.Bounds.IsValid (RateLimiting.allow_request exact_tokens limiter "a" "/x" 7).0
allow_request-IsValid_example =
    allow_request-IsValid exact_tokens limiter "a" "/x" 7 limiter-IsValid

get_remaining_quota-IsValid_example :
    let r = get_remaining_quota exact_tokens limiter "a" "/x" 7 in
    RateLimiting.Bounds.IsValid r.0
    × (((◌≡◌ {A = Bool} true true) × (pos 0 ≤ℤ r.1) × (r.1 ≤ℤ pos 3))
        ⊎ ((◌≡◌ {A = Bool} true false) × (r.1 ≡ negsuc 0)))
get_remaining_quota-IsValid_example =
    get_remaining_quota-IsValid exact_tokens limiter "a" "/x" 7 limiter-IsValid

allow_request-get_remaining_quota_example :
    (RateLimiting.allow_request exact_tokens limiter "a" "/x" 7).1
    ≡ (not true || ltb_ℤ (pos 0) (get_remaining_quota exact_tokens limiter "a" "/x" 7).1)
allow_request-get_remaining_quota_example =
    allow_request-get_remaining_quota exact_tokens limiter "a" "/x" 7 exact_tokens_idle

admitted-le-budget_example :
    admitted exact_tokens limiter "a" "/x" (0 ∷ 0 ∷ 0 ∷ 0 ∷ 1000000000 ∷ []) * token
    ≤ 3 * token + earnings 1000000000 3
unfolding lookup
admitted-le-budget_example =
    admitted-le-budget exact_tokens exact_tokens-IsRounded 3 limiter "a" "/x" 0
      (0 ∷ 0 ∷ 0 ∷ 1000000000 ∷ []) 1000000000 refl refl refl (omega arith)

abbrev doubling : RetryPolicy
doubling = record {
  enabled = true;
  max_retries = pos 5;
  backoff = "exponential";
  base_ms = pos 100;
}

exponential-ne-constant : ◌≢◌ {A = String} "exponential" "constant"
exponential-ne-constant = ground (arith, eq_iff "exponential" "constant")

get_backoff_duration_bounds_example :
    (pos 0 ≤ℤ get_backoff_duration doubling (pos 40))
    × (get_backoff_duration doubling (pos 40) ≤ℤ pos 60000000000)
get_backoff_duration_bounds_example =
    get_backoff_duration_bounds doubling (pos 40) exponential-ne-constant

get_backoff_duration-exponential_example : get_backoff_duration doubling (pos 4) ≡ pos 800000000
get_backoff_duration-exponential_example =
    get_backoff_duration-exponential doubling 100 3 refl refl refl (omega arith) (omega arith)
