-- ===== src/Policy/CircuitBreaker.antt =====
-- internal/policy/circuit_breaker.go and its states in internal/policy/types.go.
-- `RecordSuccess` and the others return the new policy; a time is a number of nanoseconds since
-- Go's zero time, and the locks are left out: each call is one step.
pub mod Machine
pub mod Threshold
pub mod Trip
use simulation_core.Base.{
  ℕ, suc, ◌+◌, Bool, true, false, String, Option, none, some, [], if◌then◌else◌,
}
use simulation_core.Base.Int.{ℤ, pos, leb_ℤ, sub_ℕ}
use simulation_core.Base.Dict.{Dict, lookup, insert}
use simulation_core.Base.Key.{endpoint_key}

pub data CircuitState : Type 0 where
  closed opened half_open : CircuitState

pub record Circuit : Type 0 where
  pub state : CircuitState
  pub failure_count : ℕ
  pub success_count : ℕ
  pub last_failure_time : ℕ
  pub last_state_change : ℕ

pub record CircuitBreaker : Type 0 where
  pub enabled : Bool
  pub failure_threshold : ℤ
  pub success_threshold : ℤ
  pub timeout : ℤ
  pub circuits : Dict Circuit

unfoldable pub new_circuit_breaker : Bool → ℤ → ℤ → ℤ → CircuitBreaker
new_circuit_breaker enabled failures successes timeout = record {
  enabled = enabled;
  failure_threshold = failures;
  success_threshold = successes;
  timeout = timeout;
  circuits = [];
}

-- The circuit that the first call for a key stores.
unfoldable pub fresh_circuit : ℕ → Circuit
fresh_circuit now = record {
  state = closed;
  failure_count = 0;
  success_count = 0;
  last_failure_time = 0;
  last_state_change = now;
}

unfoldable pub circuit_or_fresh : Option Circuit → ℕ → Circuit
unfolding fresh_circuit
circuit_or_fresh (some c) now = c
circuit_or_fresh none now = fresh_circuit now

-- `currentTime.Sub(circuit.lastStateChange) >= p.timeout`
unfoldable pub timed_out : ℤ → Circuit → ℕ → Bool
timed_out timeout c now = leb_ℤ timeout (sub_ℕ now c.last_state_change)

abbrev pub to_half_open : Circuit → ℕ → Circuit
to_half_open c now = record c { state = half_open; success_count = 0; last_state_change = now }

-- AllowRequest on the circuit that it locks, by its state.
unfoldable pub allow_on : CircuitState → ℤ → Circuit → ℕ → Circuit × Bool
unfolding timed_out
allow_on opened timeout c now =
    if timed_out timeout c now then (to_half_open c now, true) else (c, false)
allow_on _ timeout c now = (c, true)

unfoldable pub allow_request : CircuitBreaker → String → String → ℕ → CircuitBreaker × Bool
unfolding circuit_or_fresh allow_on
allow_request p service path now =
    let key = endpoint_key service path in
    let c = circuit_or_fresh (lookup key p.circuits) now in
    let r = allow_on c.state p.timeout c now in
    if p.enabled then (record p { circuits = insert key r.0 p.circuits }, r.1) else (p, true)

-- RecordSuccess on a circuit that exists.
unfoldable pub success_on : CircuitState → ℤ → Circuit → ℕ → Circuit
success_on half_open threshold c now =
    if leb_ℤ threshold (pos (suc c.success_count))
    then record c {
      state = closed;
      failure_count = 0;
      success_count = suc c.success_count;
      last_state_change = now;
    }
    else record c { success_count = suc c.success_count }
success_on closed threshold c now = record c { failure_count = 0 }
success_on opened threshold c now = c

unfoldable pub record_success : CircuitBreaker → String → String → ℕ → CircuitBreaker
unfolding success_on
record_success p service path now =
    let key = endpoint_key service path in
    if p.enabled
    then (elim (lookup key p.circuits) [
      | none ↦ p
      | some c ↦ record p {
        circuits = insert key (success_on c.state p.success_threshold c now) p.circuits;
      }
    ])
    else p

-- RecordFailure once the counter and the time of the failure are set.
unfoldable pub failure_on : CircuitState → ℤ → Circuit → ℕ → Circuit
failure_on half_open threshold c now = record c {
  state = opened;
  success_count = 0;
  last_state_change = now;
}
failure_on closed threshold c now =
    if leb_ℤ threshold (pos c.failure_count)
    then record c { state = opened; last_state_change = now }
    else c
failure_on opened threshold c now = c

abbrev pub count_failure : Circuit → ℕ → Circuit
count_failure c now = record c { failure_count = suc c.failure_count; last_failure_time = now }

unfoldable pub record_failure : CircuitBreaker → String → String → ℕ → CircuitBreaker
unfolding circuit_or_fresh failure_on
record_failure p service path now =
    let key = endpoint_key service path in
    let c = circuit_or_fresh (lookup key p.circuits) now in
    let failed = failure_on c.state p.failure_threshold (count_failure c now) now in
    if p.enabled then record p { circuits = insert key failed p.circuits } else p

-- CheckAndGetState on a circuit that exists.
unfoldable pub check_on : CircuitState → ℤ → Circuit → ℕ → Circuit
unfolding timed_out
check_on opened timeout c now = if timed_out timeout c now then to_half_open c now else c
check_on _ timeout c now = c

unfoldable pub check_and_get_state :
    CircuitBreaker → String → String → ℕ → CircuitBreaker × CircuitState
unfolding check_on
check_and_get_state p service path now =
    let key = endpoint_key service path in
    if p.enabled
    then (elim (lookup key p.circuits) [
      | none ↦ (p, closed)
      | some c ↦
          let d = check_on c.state p.timeout c now in
          (record p { circuits = insert key d p.circuits }, d.state)
    ])
    else (p, closed)
