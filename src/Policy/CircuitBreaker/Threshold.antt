-- ===== src/Policy/CircuitBreaker/Threshold.antt =====
-- When a circuit opens, and how long an open one refuses.
use simulation_core.Base.{
  ℕ, ◌≡◌, refl, subst, inl, inr, Bool, String, some, arith, ◌=ₛ◌, Option-cases, Bool-cases, if_elim,
}
use simulation_core.Base.Int.{ℤ, pos, ◌<ℤ◌, ◌≤ℤ◌}
use simulation_core.Base.Dict.{lookup, insert, lookup-insert}
use simulation_core.Base.Key.{endpoint_key}
use simulation_core.Policy.CircuitBreaker.{
  CircuitState, closed, opened, half_open, Circuit, CircuitBreaker, circuit_or_fresh, fresh_circuit,
  allow_on, success_on, failure_on, check_on, count_failure, allow_request, record_success,
  record_failure, check_and_get_state,
}
use simulation_core.Policy.CircuitBreaker.Machine.{Call, allow, success, failure, check, step}

-- The counters stay below the thresholds in the states that count towards them.
abbrev pub WithinState : ℤ → ℤ → CircuitState → Circuit → Type 0
WithinState failures successes closed c = pos c.failure_count <ℤ failures
WithinState failures successes half_open c = pos c.success_count <ℤ successes
WithinState failures successes opened c = Unit {0}

abbrev pub Within : ℤ → ℤ → Circuit → Type 0
Within failures successes c = WithinState failures successes c.state c

pub record IsValid (p : CircuitBreaker) : Type 0 where
  pub failures_pos : pos 1 ≤ℤ p.failure_threshold
  pub successes_pos : pos 1 ≤ℤ p.success_threshold
  pub within :
      (k : String) (c : Circuit)
      → lookup k p.circuits ≡ some c
      → Within p.failure_threshold p.success_threshold c

module _ (f s : ℤ) (fp : pos 1 ≤ℤ f) (sp : pos 1 ≤ℤ s) where
  fresh-Within : (now : ℕ) → Within f s (fresh_circuit now)
  unfolding fresh_circuit
  fresh-Within now = omega arith

  allow_on-Within :
      (st : CircuitState) (timeout : ℤ) (c : Circuit) (now : ℕ)
      → st ≡ c.state
      → Within f s c
      → Within f s (allow_on st timeout c now).0
  unfolding allow_on
  allow_on-Within opened timeout c now e w = ground arith
  allow_on-Within closed timeout c now e w = w
  allow_on-Within half_open timeout c now e w = w

  check_on-Within :
      (st : CircuitState) (timeout : ℤ) (c : Circuit) (now : ℕ)
      → st ≡ c.state
      → Within f s c
      → Within f s (check_on st timeout c now)
  unfolding check_on
  check_on-Within opened timeout c now e w = ground arith
  check_on-Within closed timeout c now e w = w
  check_on-Within half_open timeout c now e w = w

  success_on-Within :
      (st : CircuitState) (c : Circuit) (now : ℕ)
      → st ≡ c.state
      → Within f s c
      → Within f s (success_on st s c now)
  unfolding success_on
  success_on-Within half_open c now e w = ground arith
  success_on-Within closed c now e w = ground arith
  success_on-Within opened c now e w = w

  failure_on-Within :
      (st : CircuitState) (c : Circuit) (now : ℕ)
      → st ≡ c.state
      → Within f s (failure_on st f (count_failure c now) now)
  unfolding failure_on
  failure_on-Within half_open c now e = tt
  failure_on-Within closed c now e = ground arith
  failure_on-Within opened c now e = ground arith

-- One key is written, and what is written respects the thresholds.
insert-IsValid :
    (p : CircuitBreaker) (key : String) (d : Circuit)
    → IsValid p
    → Within p.failure_threshold p.success_threshold d
    → IsValid (record p { circuits = insert key d p.circuits })
insert-IsValid p key d v w = record {
  failures_pos = v.failures_pos;
  successes_pos = v.successes_pos;
  within = λ k c e. elim (Bool-cases (key =ₛ k)) [
    | inl same ↦
        let written : d ≡ c = ground (arith, lookup-insert key k d p.circuits) in
        subst (Within p.failure_threshold p.success_threshold) written w
    | inr other ↦ v.within k c (rw (lookup-insert key k d p.circuits, other) at e)
  ];
}

circuit_or_fresh-Within :
    (p : CircuitBreaker) (key : String) (now : ℕ)
    → IsValid p
    → Within p.failure_threshold p.success_threshold (circuit_or_fresh (lookup key p.circuits) now)
unfolding circuit_or_fresh
circuit_or_fresh-Within p key now v = elim (Option-cases (lookup key p.circuits)) [
  | inl absent ↦
      rw (absent, circuit_or_fresh)
        (fresh-Within p.failure_threshold p.success_threshold v.failures_pos v.successes_pos now)
  | inr (c, found) ↦ rw (found, circuit_or_fresh) (v.within key c found)
]

module _ (p : CircuitBreaker) (service path : String) (now : ℕ) (v : IsValid p) where
  abbrev f : ℤ
  f = p.failure_threshold

  abbrev s : ℤ
  s = p.success_threshold

  abbrev key : String
  key = endpoint_key service path

  allow_request-IsValid : IsValid (allow_request p service path now).0
  unfolding allow_request
  allow_request-IsValid =
      let c = circuit_or_fresh (lookup key p.circuits) now in
      if_elim (λ (r : CircuitBreaker × Bool). IsValid r.0) p.enabled
        (λ _. insert-IsValid p key _ v (
          allow_on-Within f s v.failures_pos v.successes_pos c.state p.timeout c now refl
            (circuit_or_fresh-Within p key now v)))
        (λ _. v)

  record_failure-IsValid : IsValid (record_failure p service path now)
  unfolding record_failure
  record_failure-IsValid =
      let c = circuit_or_fresh (lookup key p.circuits) now in
      if_elim IsValid p.enabled
        (λ _.
          insert-IsValid p key _ v
            (failure_on-Within f s v.failures_pos v.successes_pos c.state c now refl))
        (λ _. v)

  record_success-IsValid : IsValid (record_success p service path now)
  unfolding record_success
  record_success-IsValid =
      if_elim IsValid p.enabled
        (λ _. elim (Option-cases (lookup key p.circuits)) [
          | inl absent ↦ rw absent v
          | inr (c, found) ↦ rw found (
              insert-IsValid p key _ v (
                success_on-Within f s v.failures_pos v.successes_pos c.state c now refl
                  (v.within key c found)))
        ])
        (λ _. v)

  check-IsValid : IsValid (check_and_get_state p service path now).0
  unfolding check_and_get_state
  check-IsValid =
      if_elim (λ (r : CircuitBreaker × CircuitState). IsValid r.0) p.enabled
        (λ _. elim (Option-cases (lookup key p.circuits)) [
          | inl absent ↦ rw absent v
          | inr (c, found) ↦ rw found (
              insert-IsValid p key _ v (
                check_on-Within f s v.failures_pos v.successes_pos c.state p.timeout c now refl
                  (v.within key c found)))
        ])
        (λ _. v)

-- With thresholds of at least one, every call keeps the failures of each closed circuit below the
-- failure threshold, and the successes of each half-open one below the success threshold.
pub step-IsValid : (p : CircuitBreaker) (call : Call) → IsValid p → IsValid (step p call)
unfolding step
step-IsValid p (allow service path now) v = allow_request-IsValid p service path now v
step-IsValid p (success service path now) v = record_success-IsValid p service path now v
step-IsValid p (failure service path now) v = record_failure-IsValid p service path now v
step-IsValid p (check service path now) v = check-IsValid p service path now v
