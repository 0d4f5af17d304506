-- ===== src/RateLimit/Redis/Laws.antt =====
-- The limiter's answers, on every branch.
use Prim.Native.String.{String}
use web3_proxy.Prelude.{
  ℕ, ◌+◌, ◌≤◌, ◌<◌, max, ◌≡◌, refl, ◌⊎◌, inl, inr, Option, none, some, arith, ltb, ◌==◌, Bool-cases,
}
use web3_proxy.Prelude.Results.{Result, ok, err}
use web3_proxy.RateLimit.Redis.{
  RedisEnv, RedisRateLimitResult, allowed, retry_at, retry_never, RedisError, unwrap_or,
  RedisRateLimiter, Reading, next_period, throttle_key, judge, throttle_label,
}

module _ (env : RedisEnv) (l : RedisRateLimiter env) (r : Reading env) where
  -- What an answer means: the count that Redis gave, against the limit.
  abbrev pub Explains : ℕ → Option ℕ → Result RedisError RedisRateLimitResult → Type 0
  Explains max new_count (ok (allowed n)) = (new_count ≡ some n) × (n ≤ max)
  Explains max new_count (ok (retry_at t n)) =
      (new_count ≡ some n) × (max < n) × (t ≡ next_period env l r)
  Explains max new_count (ok retry_never) = ⊥
  Explains max new_count (err e) = new_count ≡ none

  judge-Explains : (max : ℕ) (n : Option ℕ) → Explains max n (judge env l r max n)
  judge-Explains max none = refl
  judge-Explains max (some n) = elim (Bool-cases (ltb max n)) [
    | inl over ↦ rw over (refl, ground arith, refl)
    | inr under ↦ rw under (refl, ground arith)
  ]

  -- With the limit 0 the answer is `RetryNever`, and Redis is not asked. Otherwise Redis counts the
  -- request, an error means that it failed, and an answer allows the request exactly when the new
  -- count is within the limit, and else says to retry in the next period.
  pub throttle_label_lem :
      (label : String) (max_per_period : Option ℕ) (count : ℕ) (server : env.Server)
      → let max = unwrap_or max_per_period l.max_requests_per_period in
        let asked =
          env.incr_expire server
            (throttle_key env l r.now label)
            count
            (1 + env.as_usize l.period) in
        let answer = throttle_label env l r label max_per_period count server in
        ((max ≡ 0) × (answer ≡ (ok retry_never, server)))
        ⊎ ((0 < max) × (answer.1 ≡ asked.1) × Explains max asked.0 answer.0)
  unfolding throttle_label
  throttle_label_lem label max_per_period count server =
      let max : ℕ = unwrap_or max_per_period l.max_requests_per_period in
      elim (Bool-cases (max == 0)) [
        | inl e ↦ inl (ground arith, rw e refl)
        | inr e ↦ inr (ground arith, rw e refl, rw e (judge-Explains max _))
      ]
