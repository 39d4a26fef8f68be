-- ===== src/Policy/Retry/Backoff.antt =====
-- The delays of the retry policy: their bounds, and the exact doubling below the cap.
use native.Mathlib.Nat.{pow-le-pow_right}
use simulation_core.Base.{
  ℕ, suc, ◌*◌, ◌^◌, ◌≤◌, ◌<◌, ◌≡◌, ◌≢◌, refl, true, false, String, arith, eq_iff, min, ◌=ₛ◌,
  if_elim, ◌||◌, not,
}
use simulation_core.Base.Int.{ℤ, pos, negsuc, pos_part, ◌≤ℤ◌, ◌*ℤ◌, ◌-ℤ◌, ltb_ℤ, leb_ℤ, wrap_64}
use simulation_core.Policy.Retry.{
  RetryPolicy, cap_backoff, exponential_ms, linear_ms, duration_ms, get_backoff_duration,
  max_backoff_ms, millisecond,
}

abbrev InRange : ℤ → Type 0
InRange d = (pos 0 ≤ℤ d) × (d ≤ℤ max_backoff_ms)

cap_backoff-InRange : (d : ℤ) → InRange (cap_backoff d)
unfolding cap_backoff
cap_backoff-InRange d = ground arith

exponential_ms-InRange : (base attempt : ℤ) → InRange (exponential_ms base attempt)
unfolding exponential_ms
exponential_ms-InRange base attempt =
    if_elim InRange (ltb_ℤ (pos 20) (attempt -ℤ pos 1)) (λ _. omega arith)
      (λ _. cap_backoff-InRange (wrap_64 (base *ℤ pos (2 ^ pos_part (attempt -ℤ pos 1)))))

linear_ms-InRange : (base attempt : ℤ) → InRange (linear_ms base attempt)
unfolding linear_ms
linear_ms-InRange base attempt = cap_backoff-InRange (wrap_64 (base *ℤ attempt))

duration_ms-InRange :
    (backoff : String) (base attempt : ℤ)
    → backoff ≢ "constant"
    → InRange (duration_ms backoff base attempt)
unfolding duration_ms
duration_ms-InRange backoff base attempt h =
    if_elim InRange (backoff =ₛ "exponential") (λ _. exponential_ms-InRange base attempt)
      λ _.
        if_elim InRange (backoff =ₛ "linear") (λ _. linear_ms-InRange base attempt)
          λ _.
            if_elim InRange (backoff =ₛ "constant") (λ c. absurd (h ((eq_iff _ _).0 c)))
              λ _. exponential_ms-InRange base attempt

times_millisecond : (n : ℕ) → pos n *ℤ millisecond ≡ pos (n * 1000000)
times_millisecond n = ground arith

wrap_64_small : (n : ℕ) → n < 2 ^ 63 → wrap_64 (pos n) ≡ pos n
unfolding wrap_64
wrap_64_small n h = ground arith

-- A number of milliseconds within the cap does not wrap as nanoseconds.
wrap_64-millisecond : (n : ℕ) → n ≤ 60000 → wrap_64 (pos n *ℤ millisecond) ≡ pos (n * 1000000)
wrap_64-millisecond n h = rw (times_millisecond n) (wrap_64_small (n * 1000000) (omega arith))

InRange-pos : (d : ℤ) → InRange d → (n : ℕ) × (d ≡ pos n) × (n ≤ 60000)
InRange-pos (pos n) h = (n, refl, omega arith)
InRange-pos (negsuc n) h = absurd (omega arith)

-- For every backoff but "constant", every attempt and every base, also where the product overflows
-- 64 bits, the delay lies between zero and sixty seconds.
pub get_backoff_duration_bounds :
    (p : RetryPolicy) (attempt : ℤ)
    → p.backoff ≢ "constant"
    → (pos 0 ≤ℤ get_backoff_duration p attempt)
      × (get_backoff_duration p attempt ≤ℤ pos 60000000000)
unfolding get_backoff_duration
get_backoff_duration_bounds p attempt h =
    if_elim (λ d. (pos 0 ≤ℤ d) × (d ≤ℤ pos 60000000000)) (not p.enabled || leb_ℤ attempt (pos 0))
      (λ _. omega arith)
      (λ _.
        let d = InRange-pos _ (duration_ms-InRange p.backoff p.base_ms attempt h) in
        rw (d.1, wrap_64-millisecond d.0 d.2) (omega (arith, d.2)))

capped_min : (n : ℕ) → cap_backoff (pos n) ≡ pos (min n 60000)
unfolding cap_backoff
capped_min n = ground arith

minus_one : (k : ℕ) → pos (suc k) -ℤ pos 1 ≡ pos k
minus_one k = ground arith

times_pow : (b k : ℕ) → pos b *ℤ pos (2 ^ k) ≡ pos (b * 2 ^ k)
times_pow b k = ground arith

-- Below the guard on the exponent the product fits in 64 bits; past it the cap is met.
doubling_fits : (b k : ℕ) → b < 2 ^ 40 → k ≤ 20 → b * 2 ^ k < 2 ^ 63
doubling_fits b k h e = let bound : 2 ^ k ≤ 2 ^ 20 = pow-le-pow_right (omega arith) e in grind arith

doubling_caps : (b k : ℕ) → 1 ≤ b → 20 < k → 60000 ≤ b * 2 ^ k
doubling_caps b k h e =
    let bound : 2 ^ 20 ≤ 2 ^ k = pow-le-pow_right (omega arith) {i = 20} (omega arith) in
    grind arith

exponential_ms-min :
    (b k : ℕ)
    → 1 ≤ b
    → b < 2 ^ 40
    → exponential_ms (pos b) (pos (suc k)) ≡ pos (min (b * 2 ^ k) 60000)
unfolding exponential_ms
exponential_ms-min b k h u = rw (minus_one k) (
    if_elim (λ d. d ≡ pos (min (b * 2 ^ k) 60000)) (ltb_ℤ (pos 20) (pos k))
      (λ big. let caps = doubling_caps b k h (ground arith) in ground arith)
      (λ small.
        let fits = doubling_fits b k u (ground arith) in
        rw (times_pow b k, wrap_64_small (b * 2 ^ k) fits) (capped_min (b * 2 ^ k))))

-- With the exponential backoff and a base of at least one and less than 2^40 milliseconds, the delay
-- before attempt `k + 1` of an enabled policy is the base doubled `k` times, capped at sixty seconds.
pub get_backoff_duration-exponential :
    (p : RetryPolicy) (b k : ℕ)
    → p.enabled ≡ true
    → p.backoff ≡ "exponential"
    → p.base_ms ≡ pos b
    → 1 ≤ b
    → b < 2 ^ 40
    → get_backoff_duration p (pos (suc k)) ≡ pos (min (b * 2 ^ k) 60000 * 1000000)
unfolding get_backoff_duration duration_ms
get_backoff_duration-exponential p b k on kind base h u =
    let later : leb_ℤ (pos (suc k)) (pos 0) ≡ false = ground arith in
    rw (on, kind, base, later, exponential_ms-min b k h u)
      (wrap_64-millisecond (min (b * 2 ^ k) 60000) (omega arith))
