-- ===== src/Policy/RateLimiting/Bounds.antt =====
-- The bounds of every bucket, and the agreement of the two methods.
use simulation_core.Base.{
  ℕ, ◌⊎◌, not, ◌||◌, false, ◌≡◌, refl, subst, ◌∙◌, Bool, true, inl, inr, String, none, some, arith,
  ◌=ₛ◌, Bool-cases, Option-cases, if_elim,
}
use simulation_core.Base.Int.{ℤ, pos, negsuc, ◌≤ℤ◌, ltb_ℤ, sub_ℕ}
use simulation_core.Base.Dict.{lookup, insert, lookup-insert}
use simulation_core.Base.Key.{endpoint_key}
use simulation_core.Policy.RateLimiting.{
  TokenBucket, RateLimiter, bucket_or_full, take_token, refill, allow_request, get_remaining_quota,
}

-- A bucket of a limiter with the rate `rate` holds between none and `rate` tokens.
pub record IsBucket (rate : ℤ) (b : TokenBucket) : Type 0 where
  pub sized : b.capacity ≡ rate
  pub rated : b.refill_rate ≡ rate
  pub nonneg : pos 0 ≤ℤ b.tokens
  pub capped : b.tokens ≤ℤ rate

pub record IsValid (p : RateLimiter) : Type 0 where
  pub rate_nonneg : pos 0 ≤ℤ p.rate_limit_per_second
  pub bucket :
      (k : String) (b : TokenBucket)
      → lookup k p.buckets ≡ some b
      → IsBucket p.rate_limit_per_second b

pub bucket_or_full-IsBucket :
    (p : RateLimiter) (k : String) (now : ℕ)
    → IsValid p
    → IsBucket p.rate_limit_per_second
        (bucket_or_full (lookup k p.buckets) p.rate_limit_per_second now)
unfolding bucket_or_full
bucket_or_full-IsBucket p k now v = elim (Option-cases (lookup k p.buckets)) [
  | inl absent ↦
      let n = v.rate_nonneg in
      rw (absent, bucket_or_full)
        (record { sized = refl; rated = refl; nonneg = n; capped = omega arith })
  | inr (b, found) ↦ rw (found, bucket_or_full) (v.bucket k b found)
]

pub take_token-IsBucket :
    (rate : ℤ) (b : TokenBucket) → IsBucket rate b → IsBucket rate (take_token b).0
unfolding take_token
take_token-IsBucket rate b v = ground arith

insert-IsValid :
    (p : RateLimiter) (key : String) (c : TokenBucket)
    → IsValid p
    → IsBucket p.rate_limit_per_second c
    → IsValid (record p { buckets = insert key c p.buckets })
insert-IsValid p key c v w = record {
  rate_nonneg = v.rate_nonneg;
  bucket = λ k b e. elim (Bool-cases (key =ₛ k)) [
    | inl same ↦
        let written : c ≡ b = ground (arith, lookup-insert key k c p.buckets) in
        subst (IsBucket p.rate_limit_per_second) written w
    | inr other ↦ v.bucket k b (rw (lookup-insert key k c p.buckets, other) at e)
  ];
}

take_token_iff : (b : TokenBucket) → (take_token b).1 ≡ ltb_ℤ (pos 0) b.tokens
unfolding take_token
take_token_iff b = ground arith

sub_self : (n : ℕ) → sub_ℕ n n ≡ pos 0
sub_self n = ground arith

module _ (tokens_for : ℤ → ℤ → ℤ) where
  full_tokens :
      (rate : ℤ) (now : ℕ)
      → ltb_ℤ (pos 0) (bucket_or_full none rate now).tokens ≡ ltb_ℤ (pos 0) rate
  unfolding bucket_or_full
  full_tokens rate now = refl

  -- A full bucket that is as old as the request is left as it is.
  refill-full :
      (rate : ℤ) (now : ℕ)
      → tokens_for (pos 0) rate ≡ pos 0
      → refill tokens_for (bucket_or_full none rate now) now ≡ bucket_or_full none rate now
  unfolding refill bucket_or_full
  refill-full rate now idle = rw (sub_self now, idle)

  pub refill-IsBucket :
      (rate : ℤ) (b : TokenBucket) (now : ℕ)
      → IsBucket rate b
      → pos 0 ≤ℤ rate
      → IsBucket rate (refill tokens_for b now)
  unfolding refill
  refill-IsBucket rate b now v h = ground arith

  -- With a rate that is not negative, a request leaves every bucket with between none and the rate's
  -- number of tokens, whatever the clock and the refill arithmetic do.
  pub allow_request-IsValid :
      (p : RateLimiter) (service path : String) (now : ℕ)
      → IsValid p
      → IsValid (allow_request tokens_for p service path now).0
  unfolding allow_request
  allow_request-IsValid p service path now v =
      if_elim (λ (r : RateLimiter × Bool). IsValid r.0) p.enabled
        (λ _. insert-IsValid p (endpoint_key service path) _ v (
          take_token-IsBucket p.rate_limit_per_second _ (
            refill-IsBucket p.rate_limit_per_second _ now
              (bucket_or_full-IsBucket p (endpoint_key service path) now v) v.rate_nonneg)))
        (λ _. v)

  -- With a rate that is not negative, GetRemainingQuota leaves every bucket with between none and the
  -- rate's number of tokens. It reports a number between none and the rate where the limiter is enabled,
  -- and -1 where it is not.
  pub get_remaining_quota-IsValid :
      (p : RateLimiter) (service path : String) (now : ℕ)
      → IsValid p
      → let r = get_remaining_quota tokens_for p service path now in
        IsValid r.0
        × (((p.enabled ≡ true) × (pos 0 ≤ℤ r.1) × (r.1 ≤ℤ p.rate_limit_per_second))
            ⊎ ((p.enabled ≡ false) × (r.1 ≡ negsuc 0)))
  unfolding get_remaining_quota
  get_remaining_quota-IsValid p service path now v =
      let key = endpoint_key service path in
      let rate = p.rate_limit_per_second in
      if_elim
        (λ (r : RateLimiter × ℤ).
          IsValid r.0
          × (((p.enabled ≡ true) × (pos 0 ≤ℤ r.1) × (r.1 ≤ℤ rate))
              ⊎ ((p.enabled ≡ false) × (r.1 ≡ negsuc 0))))
        p.enabled
        (λ on. elim (Option-cases (lookup key p.buckets)) [
          | inl absent ↦ rw absent (v, inl (on, v.rate_nonneg, omega arith))
          | inr (b, found) ↦
              let w = refill-IsBucket rate b now (v.bucket key b found) v.rate_nonneg in
              rw found
                (insert-IsValid p key (refill tokens_for b now) v w, inl (on, w.nonneg, w.capped))
        ])
        (λ off. (v, inr (off, refl)))

  -- Where the refill adds nothing when no time has passed, a request is let through exactly when the
  -- limiter is disabled or GetRemainingQuota at the same time would report a positive number.
  pub allow_request-get_remaining_quota :
      (p : RateLimiter) (service path : String) (now : ℕ)
      → ((rate : ℤ) → tokens_for (pos 0) rate ≡ pos 0)
      → (allow_request tokens_for p service path now).1
        ≡ (not p.enabled || ltb_ℤ (pos 0) (get_remaining_quota tokens_for p service path now).1)
  unfolding allow_request get_remaining_quota
  allow_request-get_remaining_quota p service path now idle =
      let key = endpoint_key service path in
      let rate = p.rate_limit_per_second in
      let full = bucket_or_full none rate now in
      elim (Bool-cases p.enabled) [
        | inl on ↦ elim (Option-cases (lookup key p.buckets)) [
          | inl absent ↦
              rw (on, absent, get_remaining_quota)
                (rw (refill-full rate now (idle rate)) (take_token_iff full ∙ full_tokens rate now))
          | inr (b, found) ↦
              rw (on, found, get_remaining_quota, bucket_or_full)
                (take_token_iff (refill tokens_for b now))
        ]
        | inr off ↦ rw off refl
      ]
