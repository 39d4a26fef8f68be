-- ===== src/Policy/CircuitBreaker/Trip.antt =====
-- A run of failures on a key that has no circuit yet, and the refusals that follow it.
use simulation_core.Base.{ℕ, ◌≡◌, true, String, List, [], ◌∷◌}
use simulation_core.Base.Int.{ℤ}
use simulation_core.Base.Key.{endpoint_key}
use simulation_core.Policy.CircuitBreaker.{
  Circuit, CircuitBreaker, failure_on, count_failure, record_failure,
}

-- RecordFailure at each of the times, in order.
unfoldable pub record_failures : CircuitBreaker → String → String → List ℕ → CircuitBreaker
record_failures p service path [] = p
record_failures p service path (t ∷ ts) =
    record_failures (record_failure p service path t) service path ts

-- One failure on a circuit.
fail_once : ℤ → Circuit → ℕ → Circuit
fail_once threshold c t = failure_on c.state threshold (count_failure c t) t

fail_all : ℤ → List ℕ → Circuit → Circuit
fail_all threshold [] c = c
fail_all threshold (t ∷ ts) c = fail_all threshold ts (fail_once threshold c t)

module _ (p : CircuitBreaker) (service path : String) (on : p.enabled ≡ true) where
  abbrev key : String
  key = endpoint_key service path
