-- ===== src/Policy/Autoscaling.antt =====
-- internal/policy/autoscaling.go, and Manager of internal/policy/types.go, which holds the policies.
-- `F` is float64. Replica counts stay far below the ends of `int`.
pub mod Bounds
mod Examples
use simulation_core.Base.{ℕ, Bool, true, false, String, Option, none, some, ◌&&◌, if◌then◌else◌}
use simulation_core.Base.Int.{ℤ, pos, ltb_ℤ, leb_ℤ, ◌+ℤ◌, ◌-ℤ◌}
use simulation_core.Policy.CircuitBreaker.{CircuitBreaker}
use simulation_core.Policy.RateLimiting.{RateLimiter}
use simulation_core.Policy.Retry.{RetryPolicy, new_retry_policy}

-- The float64 operations and constants that scaling uses: 0, the default target 0.7 and the factor 0.8.
pub record ScaleOps (F : Type 0) : Type 0 where
  pub nought : F
  pub default_target : F
  pub hysteresis : F
  pub less : F → F → Bool
  pub at_most : F → F → Bool
  pub times : F → F → F

pub record AutoscalingPolicy (F : Type 0) : Type 0 where
  pub enabled : Bool
  pub target_cpu_util : F
  pub scale_step : ℤ
  pub min_replicas : ℤ
  pub max_replicas : ℤ

-- The sections of a configuration that the manager reads.
pub record AutoscalingConfig (F : Type 0) : Type 0 where
  pub enabled : Bool
  pub target_cpu_util : F
  pub scale_step : ℤ

pub record RetryConfig : Type 0 where
  pub enabled : Bool
  pub max_retries : ℤ
  pub backoff : String
  pub base_ms : ℤ

pub record Policies (F : Type 0) : Type 0 where
  pub autoscaling : Option (AutoscalingConfig F)
  pub retries : Option RetryConfig

pub record Manager (F : Type 0) : Type 0 where
  pub autoscaling : Option (AutoscalingPolicy F)
  pub rate_limiting : Option RateLimiter
  pub retry : Option RetryPolicy
  pub circuit_breaker : Option CircuitBreaker

abbrev pub clamp_replicas : (min max target : ℤ) → ℤ
clamp_replicas min max target =
    let raised = if ltb_ℤ target min then min else target in
    if ltb_ℤ max raised then max else raised

abbrev pub retry_of : Option RetryConfig → Option RetryPolicy
retry_of none = none
retry_of (some cfg) =
    if cfg.enabled
    then some (new_retry_policy cfg.enabled cfg.max_retries cfg.backoff cfg.base_ms)
    else none

module _ {F : Type 0} where
  abbrev pub manager_with : Option (AutoscalingPolicy F) → Option RetryPolicy → Manager F
  manager_with autoscaling retry = record {
    autoscaling = autoscaling;
    rate_limiting = none;
    retry = retry;
    circuit_breaker = none;
  }

  abbrev pub set_circuit_breaker : Manager F → Option CircuitBreaker → Manager F
  set_circuit_breaker m breaker = record m { circuit_breaker = breaker }

module _ {F : Type 0} (ops : ScaleOps F) where
  abbrev pub target_or_default : F → F
  target_or_default target = if ops.at_most target ops.nought then ops.default_target else target

  abbrev pub new_autoscaling_policy : Bool → F → (step min max : ℤ) → AutoscalingPolicy F
  new_autoscaling_policy enabled target step min max = record {
    enabled = enabled;
    target_cpu_util = target_or_default target;
    scale_step = step;
    min_replicas = min;
    max_replicas = max;
  }

  abbrev pub new_autoscaling_policy_from_config : AutoscalingConfig F → AutoscalingPolicy F
  new_autoscaling_policy_from_config cfg =
      new_autoscaling_policy cfg.enabled cfg.target_cpu_util cfg.scale_step (pos 1) (pos 100)

  unfoldable pub should_scale_up : AutoscalingPolicy F → ℤ → F → Bool
  should_scale_up p current util =
      if p.enabled
      then (if leb_ℤ p.max_replicas current then false else ops.less p.target_cpu_util util)
      else false

  unfoldable pub should_scale_down : AutoscalingPolicy F → ℤ → F → Bool
  should_scale_down p current util =
      if p.enabled
      then (if leb_ℤ current p.min_replicas
          then false
          else ops.less util (ops.times p.target_cpu_util ops.hysteresis))
      else false

  unfoldable pub get_target_replicas : AutoscalingPolicy F → ℤ → F → ℤ
  get_target_replicas p current util =
      if p.enabled
      then (if should_scale_up p current util
          then clamp_replicas p.min_replicas p.max_replicas (current +ℤ p.scale_step)
          else if should_scale_down p current util
          then clamp_replicas p.min_replicas p.max_replicas (current -ℤ p.scale_step)
          else current)
      else current

  abbrev pub autoscaling_of : Option (AutoscalingConfig F) → Option (AutoscalingPolicy F)
  autoscaling_of none = none
  autoscaling_of (some cfg) =
      if cfg.enabled then some (new_autoscaling_policy_from_config cfg) else none

  abbrev pub new_policy_manager : Option (Policies F) → Manager F
  new_policy_manager none = manager_with none none
  new_policy_manager (some policies) =
      manager_with (autoscaling_of policies.autoscaling) (retry_of policies.retries)

  abbrev pub update_autoscaling : Manager F → Option (AutoscalingConfig F) → Manager F
  update_autoscaling m cfg = record m { autoscaling = autoscaling_of cfg }
