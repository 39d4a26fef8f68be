-- ===== src/Policy/RateLimiting/Conformance.antt =====
-- How many requests a limiter lets through over a span of time.
use native.Mathlib.Nat.{le_trans}
use text.Mathlib.TextPositions.{eq_refl}
use simulation_core.Base.{
  ℕ, zero, suc, ◌+◌, ◌-◌, ◌*◌, ◌^◌, ◌≤◌, ◌≡◌, ◌⊎◌, refl, Bool, true, false, inl, inr, String, none,
  some, arith, List, [], ◌∷◌,
}
use simulation_core.Base.Int.{ℤ, pos, negsuc, pos_part, ◌≤ℤ◌, sub_ℕ, ltb_ℤ}
use simulation_core.Base.Dict.{lookup, lookup-insert}
use simulation_core.Base.Key.{endpoint_key}
use simulation_core.Policy.RateLimiting.{
  TokenBucket, RateLimiter, bucket_or_full, take_token, refill, allow_request,
}
use simulation_core.Policy.RateLimiting.Bounds.{IsBucket, refill-IsBucket, take_token-IsBucket}

-- The product of a span and a rate in float64 exceeds the true one by at most a factor of
-- `1 + 2^-50`: the seconds, the rate and the product are each rounded by at most `2^-53` of their value, the
-- seconds twice, and `int` rounds towards zero. To stay with whole numbers, tokens are counted in small
-- fractions, of which `token` make one token.
abbrev pub scale : ℕ
scale = 2 ^ 50

abbrev pub token : ℕ
token = 1000000000 * 2 ^ 50

-- What `n` tokens per second come to in `e` nanoseconds at most, in those fractions.
abbrev pub earnings : ℕ → ℕ → ℕ
earnings e n = e * n * suc scale

pub record IsRounded (tokens_for : ℤ → ℤ → ℤ) : Type 0 where
  pub bounded : (e n : ℕ) → pos_part (tokens_for (pos e) (pos n)) * token ≤ earnings e n

earnings-add : (d e n : ℕ) → earnings d n + earnings e n ≡ earnings (d + e) n
earnings-add d e n = grind arith

-- Times that do not fall, from `start` up to `stop`.
abbrev pub Ascending : ℕ → List ℕ → ℕ → Type 0
Ascending start [] stop = start ≤ stop
Ascending start (t ∷ ts) stop = (start ≤ t) × Ascending t ts stop

Ascending-le :
    (s t : ℕ) (ts : List ℕ) (stop : ℕ) → s ≤ t → Ascending t ts stop → Ascending s ts stop
Ascending-le s t [] stop h a = omega arith
Ascending-le s t (u ∷ ts) stop h a = (omega arith, a.1)

Ascending-stop : (s : ℕ) (ts : List ℕ) (stop : ℕ) → Ascending s ts stop → s ≤ stop
Ascending-stop s [] stop a = a
Ascending-stop s (t ∷ ts) stop a = omega (arith, Ascending-stop t ts stop a.1)

count_true : Bool → ℕ → ℕ
count_true true n = suc n
count_true false n = n

take_token-keeps : (b : TokenBucket) → (take_token b).0.last_refill ≡ b.last_refill
unfolding take_token
take_token-keeps b = ground arith

-- A request let through costs a token.
count_true-take_token :
    (b : TokenBucket) (n u : ℕ)
    → pos 0 ≤ℤ b.tokens
    → n * token ≤ pos_part (take_token b).0.tokens * token + u
    → count_true (take_token b).1 n * token ≤ pos_part b.tokens * token + u
unfolding take_token count_true
count_true-take_token b n u h k = ground arith

-- More tokens, paid for by the span that has passed.
afford :
    (after before added past rest whole : ℕ)
    → after ≤ before + added
    → added * token ≤ past
    → past + rest ≡ whole
    → after * token + rest ≤ before * token + whole
afford after before added past rest whole h k e = omega arith

module _ (tokens_for : ℤ → ℤ → ℤ) where
  -- AllowRequest at each of the times; the number let through.
  pub admitted : RateLimiter → String → String → List ℕ → ℕ
  admitted p service path [] = 0
  admitted p service path (t ∷ ts) =
      let r = allow_request tokens_for p service path t in
      count_true r.1 (admitted r.0 service path ts)

  -- The same on the one bucket.
  admitted_by : TokenBucket → List ℕ → ℕ
  admitted_by b [] = 0
  admitted_by b (t ∷ ts) =
      let r = take_token (refill tokens_for b t) in count_true r.1 (admitted_by r.0 ts)

  module _ (p : RateLimiter) (service path : String) (t : ℕ) (on : p.enabled ≡ true) where
    abbrev served : TokenBucket × Bool
    served = take_token (
        refill tokens_for
          (bucket_or_full (lookup (endpoint_key service path) p.buckets) p.rate_limit_per_second t)
          t)

    decision-allow_request : (allow_request tokens_for p service path t).1 ≡ served.1
    unfolding allow_request
    decision-allow_request = rw on

    lookup-allow_request :
        lookup (endpoint_key service path) (allow_request tokens_for p service path t).0.buckets
        ≡ some served.0
    unfolding allow_request
    lookup-allow_request = simp (on, lookup-insert, eq_refl)

    kept-allow_request : (allow_request tokens_for p service path t).0.enabled ≡ true
    unfolding allow_request
    kept-allow_request = ground arith

  -- Requests to a stored bucket are those of the one bucket.
  admitted-found :
      (ts : List ℕ) (p : RateLimiter) (service path : String) (b : TokenBucket)
      → p.enabled ≡ true
      → lookup (endpoint_key service path) p.buckets ≡ some b
      → admitted p service path ts ≡ admitted_by b ts
  unfolding admitted admitted_by bucket_or_full
  admitted-found [] p service path b on found = refl
  admitted-found (t ∷ ts) p service path b on found =
      let q = allow_request tokens_for p service path t in
      let r = take_token (refill tokens_for b t) in
      let stored : lookup (endpoint_key service path) q.0.buckets ≡ some r.0 =
        rw (found, bucket_or_full) at (lookup-allow_request p service path t on) in
      let same : q.1 ≡ r.1 =
        rw (found, bucket_or_full) at (decision-allow_request p service path t on) in
      rw (
        same,
        admitted-found ts q.0 service path r.0 (kept-allow_request p service path t on) stored,
      )

  admitted-first :
      (t : ℕ) (ts : List ℕ) (p : RateLimiter) (service path : String)
      → p.enabled ≡ true
      → lookup (endpoint_key service path) p.buckets ≡ none
      → admitted p service path (t ∷ ts)
        ≡ admitted_by (bucket_or_full none p.rate_limit_per_second t) (t ∷ ts)
  unfolding admitted admitted_by
  admitted-first t ts p service path on absent =
      let q = allow_request tokens_for p service path t in
      let r = take_token (refill tokens_for (bucket_or_full none p.rate_limit_per_second t) t) in
      let stored : lookup (endpoint_key service path) q.0.buckets ≡ some r.0 =
        rw absent at (lookup-allow_request p service path t on) in
      let same : q.1 ≡ r.1 = rw absent at (decision-allow_request p service path t on) in
      rw (
        same,
        admitted-found ts q.0 service path r.0 (kept-allow_request p service path t on) stored,
      )

  -- A refill either changes nothing or adds at most what it computes and moves the clock.
  refill_cases :
      (b : TokenBucket) (n t : ℕ) (added : ℤ)
      → IsBucket (pos n) b
      → tokens_for (sub_ℕ t b.last_refill) b.refill_rate ≡ added
      → (refill tokens_for b t ≡ b)
        ⊎ (((refill tokens_for b t).last_refill ≡ t)
            × (pos_part (refill tokens_for b t).tokens ≤ pos_part b.tokens + pos_part added))
  unfolding refill
  refill_cases b n t (pos zero) v e = inl (rw e)
  refill_cases b n t (pos (suc m)) v e = inr (rw e (ground arith), rw e (ground arith))
  refill_cases b n t (negsuc m) v e =
      let none_added : ltb_ℤ (pos 0) (negsuc m) ≡ false = ground arith in inl (rw (e, none_added))

  module _ (law : IsRounded tokens_for) (n : ℕ) where
    -- What a bucket can still spend until `stop`.
    budget : TokenBucket → ℕ → ℕ
    budget b stop = pos_part b.tokens * token + earnings (stop - b.last_refill) n

    earned :
        (b : TokenBucket) (t : ℕ)
        → IsBucket (pos n) b
        → b.last_refill ≤ t
        → pos_part (tokens_for (sub_ℕ t b.last_refill) b.refill_rate) * token
          ≤ earnings (t - b.last_refill) n
    earned b t v h =
        let span : sub_ℕ t b.last_refill ≡ pos (t - b.last_refill) = ground arith in
        rw (span, v.rated) (law.bounded (t - b.last_refill) n)

    refill-budget :
        (b : TokenBucket) (t stop : ℕ)
        → IsBucket (pos n) b
        → b.last_refill ≤ t
        → t ≤ stop
        → (budget (refill tokens_for b t) stop ≤ budget b stop)
          × ((refill tokens_for b t).last_refill ≤ t)
    unfolding budget
    refill-budget b t stop v h k =
        let added = tokens_for (sub_ℕ t b.last_refill) b.refill_rate in
        let spans : (t - b.last_refill) + (stop - t) ≡ stop - b.last_refill = omega arith in
        let whole = rw spans at (earnings-add (t - b.last_refill) (stop - t) n) in
        elim (refill_cases b n t added v refl) [
          | inl same ↦ rw same (omega arith, h)
          | inr (moved, more) ↦ rw moved (
            afford (pos_part (refill tokens_for b t).tokens) (pos_part b.tokens) (pos_part added)
                (earnings (t - b.last_refill) n) (earnings (stop - t) n)
                (earnings (stop - b.last_refill) n) more (earned b t v h) whole,
            omega arith,
          )
        ]

    -- A bucket lets through no more than its budget.
    admitted_by-le-budget :
        (ts : List ℕ) (b : TokenBucket) (stop : ℕ)
        → IsBucket (pos n) b
        → Ascending b.last_refill ts stop
        → admitted_by b ts * token ≤ budget b stop
    unfolding admitted_by budget
    admitted_by-le-budget [] b stop v a = omega arith
    admitted_by-le-budget (t ∷ ts) b stop v a =
        let c = refill tokens_for b t in
        let w = refill-IsBucket tokens_for (pos n) b t v (omega arith) in
        let r = take_token c in
        let filled = refill-budget b t stop v a.0 (Ascending-stop t ts stop a.1) in
        let later = Ascending-le r.0.last_refill t ts stop (rw (take_token-keeps c) filled.1) a.1 in
        let rest = admitted_by-le-budget ts r.0 stop (take_token-IsBucket (pos n) c w) later in
        le_trans
          (count_true-take_token c _ (earnings (stop - c.last_refill) n) w.nonneg
            (rw (take_token-keeps c) at rest))
          filled.0

    full_start :
        (t : ℕ)
        → IsBucket (pos n) (bucket_or_full none (pos n) t)
          × ((bucket_or_full none (pos n) t).last_refill ≡ t)
          × (pos_part (bucket_or_full none (pos n) t).tokens ≡ n)
    unfolding bucket_or_full
    full_start t = (
      record { sized = refl; rated = refl; nonneg = omega arith; capped = omega arith },
      refl,
      refl,
    )

    -- On an enabled limiter of `n` requests per second, whose refill adds at most `1 + 2^-50` times the
    -- exact number of tokens, take a key that has no bucket yet and requests for it at times that do not
    -- fall, from `t` up to `stop`. The number let through is at most `n` and `1 + 2^-50` times what `n`
    -- per second come to from `t` to `stop`.
    pub admitted-le-budget :
        (p : RateLimiter) (service path : String) (t : ℕ) (ts : List ℕ) (stop : ℕ)
        → p.enabled ≡ true
        → p.rate_limit_per_second ≡ pos n
        → lookup (endpoint_key service path) p.buckets ≡ none
        → Ascending t ts stop
        → admitted p service path (t ∷ ts) * token ≤ n * token + earnings (stop - t) n
    unfolding budget bucket_or_full
    admitted-le-budget p service path t ts stop on rate absent a =
        let full = bucket_or_full none (pos n) t in
        let start = full_start t in
        let bound =
          admitted_by-le-budget (t ∷ ts) full stop start.0 (rw start.1 (omega arith, a)) in
        rw (admitted-first t ts p service path on absent, rate) (rw (start.1, start.2) at bound)
