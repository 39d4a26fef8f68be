-- ===== src/Policy/CircuitBreaker/Machine.antt =====
-- The circuit breaker as a state machine: one circuit for each key, and a diagram of its states.
use simulation_core.Base.{
  ℕ, ◌≡◌, refl, subst, sym, ◌⊎◌, inl, inr, String, Option, none, some, arith, eq_iff, ◌=ₛ◌,
  Option-cases, Bool-cases,
}
use simulation_core.Base.Int.{ℤ}
use simulation_core.Base.Dict.{Dict, lookup, insert, lookup-insert}
use simulation_core.Base.Key.{endpoint_key}
use simulation_core.Policy.CircuitBreaker.{
  CircuitState, closed, opened, half_open, Circuit, CircuitBreaker, circuit_or_fresh, allow_on,
  success_on, failure_on, check_on, count_failure, allow_request, record_success, record_failure,
  check_and_get_state,
}

-- The four methods that touch a circuit, with their arguments.
pub data Call : Type 0 where
  allow success failure check : (service path : String) (now : ℕ) → Call

unfoldable pub step : CircuitBreaker → Call → CircuitBreaker
step p (allow service path now) = (allow_request p service path now).0
step p (success service path now) = record_success p service path now
step p (failure service path now) = record_failure p service path now
step p (check service path now) = (check_and_get_state p service path now).0

-- The state that a key is in; a key with no circuit yet counts as closed, as in CheckAndGetState.
abbrev pub state_of : Option Circuit → CircuitState
state_of none = closed
state_of (some c) = c.state

abbrev pub state_at : String → CircuitBreaker → CircuitState
state_at k p = state_of (lookup k p.circuits)

pub data Edge : CircuitState → CircuitState → Type 0 where
  trip : Edge closed opened
  probe : Edge opened half_open
  reclose : Edge half_open closed
  retrip : Edge half_open opened

abbrev pub Moves : CircuitState → CircuitState → Type 0
Moves s t = (s ≡ t) ⊎ Edge s t

-- Each method keeps the state of its circuit or moves it along an edge.
allow_on-Moves :
    (s : CircuitState) (timeout : ℤ) (c : Circuit) (now : ℕ)
    → c.state ≡ s
    → Moves s (allow_on s timeout c now).0.state
unfolding allow_on
allow_on-Moves opened timeout c now e = grind (arith, probe)
allow_on-Moves closed timeout c now e = inl (sym e)
allow_on-Moves half_open timeout c now e = inl (sym e)

success_on-Moves :
    (s : CircuitState) (threshold : ℤ) (c : Circuit) (now : ℕ)
    → c.state ≡ s
    → Moves s (success_on s threshold c now).state
unfolding success_on
success_on-Moves half_open threshold c now e = grind (arith, reclose)
success_on-Moves closed threshold c now e = inl (sym e)
success_on-Moves opened threshold c now e = inl (sym e)

failure_on-Moves :
    (s : CircuitState) (threshold : ℤ) (c : Circuit) (now : ℕ)
    → c.state ≡ s
    → Moves s (failure_on s threshold c now).state
unfolding failure_on
failure_on-Moves half_open threshold c now e = inr retrip
failure_on-Moves closed threshold c now e = grind (arith, trip)
failure_on-Moves opened threshold c now e = inl (sym e)

check_on-Moves :
    (s : CircuitState) (timeout : ℤ) (c : Circuit) (now : ℕ)
    → c.state ≡ s
    → Moves s (check_on s timeout c now).state
unfolding check_on
check_on-Moves opened timeout c now e = grind (arith, probe)
check_on-Moves closed timeout c now e = inl (sym e)
check_on-Moves half_open timeout c now e = inl (sym e)

-- A write to one key moves that key, and leaves the others.
insert-Moves :
    (k key : String) (d : Circuit) (m : Dict Circuit)
    → Moves (state_of (lookup key m)) d.state
    → Moves (state_of (lookup k m)) (state_of (lookup k (insert key d m)))
insert-Moves k key d m h = elim (Bool-cases (key =ₛ k)) [
  | inl same ↦
      rw (lookup-insert key k d m, same)
        (subst (λ j. Moves (state_of (lookup j m)) d.state) ((eq_iff key k).0 same) h)
  | inr other ↦ rw (lookup-insert key k d m, other) (inl refl)
]

state_of-circuit_or_fresh :
    (o : Option Circuit) (now : ℕ) → (circuit_or_fresh o now).state ≡ state_of o
unfolding circuit_or_fresh
state_of-circuit_or_fresh none now = refl
state_of-circuit_or_fresh (some c) now = refl

allow_request-Moves :
    (k : String) (p : CircuitBreaker) (service path : String) (now : ℕ)
    → Moves (state_at k p) (state_at k (allow_request p service path now).0)
unfolding allow_request
allow_request-Moves k p service path now = elim (Bool-cases p.enabled) [
  | inr off ↦ rw off (inl refl)
  | inl on ↦
      let key = endpoint_key service path in
      let c = circuit_or_fresh (lookup key p.circuits) now in
      rw on (
        insert-Moves k key _ p.circuits (
          subst (λ s. Moves s (allow_on c.state p.timeout c now).0.state)
            (state_of-circuit_or_fresh (lookup key p.circuits) now)
            (allow_on-Moves c.state p.timeout c now refl)))
]

record_success-Moves :
    (k : String) (p : CircuitBreaker) (service path : String) (now : ℕ)
    → Moves (state_at k p) (state_at k (record_success p service path now))
unfolding record_success
record_success-Moves k p service path now = elim (Bool-cases p.enabled) [
  | inr off ↦ rw off (inl refl)
  | inl on ↦
      let key = endpoint_key service path in
      elim (Option-cases (lookup key p.circuits)) [
        | inl absent ↦ rw (on, absent, record_success) (inl refl)
        | inr (c, found) ↦
            rw (on, found, record_success)
              (insert-Moves k key _ p.circuits
                (rw found (success_on-Moves c.state p.success_threshold c now refl)))
      ]
]

record_failure-Moves :
    (k : String) (p : CircuitBreaker) (service path : String) (now : ℕ)
    → Moves (state_at k p) (state_at k (record_failure p service path now))
unfolding record_failure
record_failure-Moves k p service path now = elim (Bool-cases p.enabled) [
  | inr off ↦ rw off (inl refl)
  | inl on ↦
      let key = endpoint_key service path in
      let c = circuit_or_fresh (lookup key p.circuits) now in
      rw on (
        insert-Moves k key _ p.circuits (
          subst
            (λ s. Moves s (failure_on c.state p.failure_threshold (count_failure c now) now).state)
            (state_of-circuit_or_fresh (lookup key p.circuits) now)
            (failure_on-Moves c.state p.failure_threshold (count_failure c now) now refl)))
]

check-Moves :
    (k : String) (p : CircuitBreaker) (service path : String) (now : ℕ)
    → Moves (state_at k p) (state_at k (check_and_get_state p service path now).0)
unfolding check_and_get_state
check-Moves k p service path now = elim (Bool-cases p.enabled) [
  | inr off ↦ rw off (inl refl)
  | inl on ↦
      let key = endpoint_key service path in
      elim (Option-cases (lookup key p.circuits)) [
        | inl absent ↦ rw (on, absent, check_and_get_state) (inl refl)
        | inr (c, found) ↦
            rw (on, found, check_and_get_state)
              (insert-Moves k key _ p.circuits
                (rw found (check_on-Moves c.state p.timeout c now refl)))
      ]
]

-- For every key, a call of any of the four methods leaves the state of the key's circuit or moves it
-- along one edge of the diagram: closed to open, open to half-open, half-open to closed or to open.
pub step-Moves :
    (p : CircuitBreaker) (call : Call) (k : String)
    → Moves (state_at k p) (state_at k (step p call))
unfolding step
step-Moves p (allow service path now) k = allow_request-Moves k p service path now
step-Moves p (success service path now) k = record_success-Moves k p service path now
step-Moves p (failure service path now) k = record_failure-Moves k p service path now
step-Moves p (check service path now) k = check-Moves k p service path now
