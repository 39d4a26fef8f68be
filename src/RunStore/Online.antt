-- ===== src/RunStore/Online.antt =====
-- internal/simd/onlinelimits.go: the limits of online runs, and the input that Create prepares by them.
-- Durations of the limits are nanoseconds, those of the input milliseconds.
-- The product of a variable in milliseconds and 1000000 is taken to fit 64 bits.
use simulation_core.Base.{
  ℕ, suc, ◌*◌, ◌/◌, ◌-◌, Bool, String, Option, none, some, ◌&&◌, ◌||◌, not, ◌==◌, if◌then◌else◌,
  ltb,
}
use simulation_core.Base.Int.{ℤ, pos, negsuc, pos_part, ltb_ℤ, leb_ℤ, ◌+ℤ◌, ◌-ℤ◌, wrap_64}

pub record OnlineRunLimits : Type 0 where
  pub server_max_online_duration : ℕ
  pub server_max_controller_steps : ℤ
  pub max_concurrent_online_runs : ℕ
  pub default_max_online_duration : ℕ
  pub heartbeat_required_after_duration : ℕ

-- OptimizationConfig of the protocol, as far as online runs set it.
pub record OnlineOptions : Type 0 where
  pub online : Bool
  pub control_interval_ms : ℤ
  pub allow_unbounded_online : Bool
  pub max_online_duration_ms : ℤ
  pub max_controller_steps : ℤ
  pub lease_ttl_ms : ℤ
  pub max_noop_intervals : ℤ

abbrev pub default_online_run_limits : OnlineRunLimits
default_online_run_limits = record {
  server_max_online_duration = 1800000000000;
  server_max_controller_steps = pos 0;
  max_concurrent_online_runs = 0;
  default_max_online_duration = 600000000000;
  heartbeat_required_after_duration = 600000000000;
}

abbrev pub max_int32 : ℤ
max_int32 = pos 2147483647

-- A variable that is not set, no number or negative leaves the default.
abbrev pub or_not_negative : ℕ → Option ℤ → ℕ
or_not_negative default none = default
or_not_negative default (some (pos n)) = n
or_not_negative default (some (negsuc n)) = default

abbrev pub or_duration_ms : ℕ → Option ℤ → ℕ
or_duration_ms default none = default
or_duration_ms default (some (pos n)) = n * 1000000
or_duration_ms default (some (negsuc n)) = default

abbrev pub or_int32 : ℤ → Option ℤ → ℤ
or_int32 default none = default
or_int32 default (some n) = if ltb_ℤ n (pos 0) || ltb_ℤ max_int32 n then default else n

-- The argument is what strconv makes of an environment variable.
abbrev pub online_run_limits_from_env : (String → Option ℤ) → OnlineRunLimits
online_run_limits_from_env ints =
    let d = default_online_run_limits in
    record {
      server_max_online_duration =
          or_duration_ms d.server_max_online_duration (ints "SIMD_SERVER_MAX_ONLINE_DURATION_MS");
      default_max_online_duration =
          or_duration_ms d.default_max_online_duration (ints "SIMD_DEFAULT_MAX_ONLINE_DURATION_MS");
      heartbeat_required_after_duration =
          or_duration_ms d.heartbeat_required_after_duration
            (ints "SIMD_HEARTBEAT_REQUIRED_AFTER_MS");
      server_max_controller_steps =
          or_int32 d.server_max_controller_steps (ints "SIMD_SERVER_MAX_CONTROLLER_STEPS");
      max_concurrent_online_runs =
          or_not_negative d.max_concurrent_online_runs
            (ints "SIMD_SERVER_MAX_CONCURRENT_ONLINE_RUNS");
    }

abbrev pub milliseconds : ℕ → ℤ
milliseconds ns = pos (ns / 1000000)

abbrev pub is_zero : ℤ → Bool
is_zero n = leb_ℤ n (pos 0) && leb_ℤ (pos 0) n

-- Go's division of an int64 by a positive one, which rounds towards zero.
abbrev pub quotient : ℤ → ℕ → ℤ
quotient (pos a) n = pos (a / n)
quotient (negsuc a) n = let q = suc a / n in if q == 0 then pos 0 else negsuc (q - 1)

-- `(total + interval - 1) / interval`, in 64 bits.
abbrev pub ticks_of : ℤ → ℤ → ℤ
ticks_of total interval = quotient (wrap_64 (total +ℤ interval -ℤ pos 1)) (pos_part interval)

abbrev pub clamp_int32 : ℤ → ℤ → ℤ
clamp_int32 least n =
    let raised = if ltb_ℤ n least then least else n in
    if ltb_ℤ max_int32 raised then max_int32 else raised

abbrev pub interval_of : OnlineOptions → ℤ
interval_of opt =
    if leb_ℤ opt.control_interval_ms (pos 0) then pos 1000 else opt.control_interval_ms

-- The duration that is asked for, or the default, under the server's cap.
abbrev pub duration_of : OnlineRunLimits → OnlineOptions → ℤ
duration_of limits opt =
    let asked =
      if not opt.allow_unbounded_online && is_zero opt.max_online_duration_ms
      then milliseconds limits.default_max_online_duration
      else opt.max_online_duration_ms in
    let cap = milliseconds limits.server_max_online_duration in
    if ltb 0 limits.server_max_online_duration && ltb_ℤ (pos 0) asked && ltb_ℤ cap asked
    then cap
    else asked

abbrev pub steps_of : OnlineRunLimits → OnlineOptions → ℤ
steps_of limits opt =
    let duration = duration_of limits opt in
    let steps =
      if is_zero opt.max_controller_steps && ltb_ℤ (pos 0) duration
      then clamp_int32 (pos 1) (ticks_of duration (interval_of opt))
      else opt.max_controller_steps in
    let cap = limits.server_max_controller_steps in
    if ltb_ℤ (pos 0) cap && ltb_ℤ cap steps then cap else steps

abbrev pub noop_intervals_of : OnlineRunLimits → OnlineOptions → ℤ
noop_intervals_of limits opt =
    if not (is_zero opt.max_noop_intervals)
    then opt.max_noop_intervals
    else if opt.allow_unbounded_online && is_zero (duration_of limits opt)
    then negsuc 0
    else clamp_int32 (pos 20) (ticks_of (pos 60000) (interval_of opt))

abbrev pub lacks_lease : OnlineRunLimits → OnlineOptions → Bool
lacks_lease limits opt =
    ltb_ℤ (milliseconds limits.heartbeat_required_after_duration) (duration_of limits opt)
    && not opt.allow_unbounded_online
    && leb_ℤ opt.lease_ttl_ms (pos 0)

-- The options with the defaults and caps, or none where a lease is required and missing.
unfoldable pub prepare_online_run_input : OnlineRunLimits → OnlineOptions → Option OnlineOptions
prepare_online_run_input limits opt =
    if not opt.online
    then some opt
    else if lacks_lease limits opt
    then none
    else some (record opt {
      control_interval_ms = interval_of opt;
      max_online_duration_ms = duration_of limits opt;
      max_controller_steps = steps_of limits opt;
      max_noop_intervals = noop_intervals_of limits opt;
    })
