-- ===== src/Policy/Retry.antt =====
-- internal/policy/retry.go. `int` has 64 bits and wraps; `math.Pow` is exact at the powers of two up
-- to 2^20 that it is asked for. Durations are in nanoseconds.
pub mod Backoff
use simulation_core.Base.{ℕ, ◌^◌, not, Bool, true, false, String, ◌||◌, ◌=ₛ◌, if◌then◌else◌}
use simulation_core.Base.Int.{ℤ, pos, pos_part, ◌*ℤ◌, ◌-ℤ◌, ltb_ℤ, leb_ℤ, wrap_64}

pub record RetryPolicy : Type 0 where
  pub enabled : Bool
  pub max_retries : ℤ
  pub backoff : String
  pub base_ms : ℤ

abbrev pub max_backoff_ms : ℤ
max_backoff_ms = pos 60000

abbrev pub millisecond : ℤ
millisecond = pos 1000000

unfoldable pub new_retry_policy : Bool → ℤ → String → ℤ → RetryPolicy
new_retry_policy enabled retries backoff base = record {
  enabled = enabled;
  max_retries = retries;
  backoff = backoff;
  base_ms = base;
}

-- `failed` says that the error is not nil.
unfoldable pub should_retry : RetryPolicy → ℤ → Bool → Bool
should_retry p attempt failed =
    if p.enabled then (if leb_ℤ p.max_retries attempt then false else failed) else false

-- `if durationMs > maxBackoffMs || durationMs < 0`
unfoldable pub cap_backoff : ℤ → ℤ
cap_backoff d = if ltb_ℤ max_backoff_ms d || ltb_ℤ d (pos 0) then max_backoff_ms else d

unfoldable pub exponential_ms : ℤ → ℤ → ℤ
exponential_ms base attempt =
    let exponent = attempt -ℤ pos 1 in
    if ltb_ℤ (pos 20) exponent
    then max_backoff_ms
    else cap_backoff (wrap_64 (base *ℤ pos (2 ^ pos_part exponent)))

unfoldable pub linear_ms : ℤ → ℤ → ℤ
linear_ms base attempt = cap_backoff (wrap_64 (base *ℤ attempt))

unfoldable pub duration_ms : String → ℤ → ℤ → ℤ
duration_ms backoff base attempt =
    if backoff =ₛ "exponential"
    then exponential_ms base attempt
    else if backoff =ₛ "linear"
    then linear_ms base attempt
    else if backoff =ₛ "constant"
    then base
    else exponential_ms base attempt

unfoldable pub get_backoff_duration : RetryPolicy → ℤ → ℤ
get_backoff_duration p attempt =
    if not p.enabled || leb_ℤ attempt (pos 0)
    then pos 0
    else wrap_64 (duration_ms p.backoff p.base_ms attempt *ℤ millisecond)
