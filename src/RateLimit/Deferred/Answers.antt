-- ===== src/RateLimit/Deferred/Answers.antt =====
-- The answers of the deferred limiter: it never panics, and why it lets a request through.
use Prim.Native.String.{String}
use web3_proxy.Prelude.{
  ℕ, ◌≤◌, ◌<◌, max, ◌≡◌, refl, ◌⊎◌, inl, inr, Option, some, arith, ltb, ◌==◌, Bool-cases,
  Option-cases,
}
use web3_proxy.Prelude.Results.{Result, ok, err}
use web3_proxy.Cache.{CacheOps}
use web3_proxy.RateLimit.Redis.{
  RedisEnv, RedisRateLimitResult, RedisError, cannot_increment, unwrap_or, RedisRateLimiter,
  Reading, next_period, throttle_label,
}
use web3_proxy.RateLimit.Redis
use web3_proxy.RateLimit.Redis.Laws.{Explains, throttle_label_lem}
use web3_proxy.RateLimit.Deferred.{
  DeferredRateLimitResult, allowed, retry_at, retry_never, Double, headroom, push_back, add_u64,
  DeferredRateLimiter, Job, Limiter, store_count, after_query, run_job, throttle_miss, throttle_hit,
  add_entry, max_of, redis_key_of, throttle,
}

module _ (env : RedisEnv) (double : Double) (cells : CacheOps ℕ) (show_key : ℕ → String)
    (l : DeferredRateLimiter env double cells show_key) (r : Reading env) where
  abbrev query :
      String → ℕ → ℕ → Limiter env double cells show_key → Result RedisError RedisRateLimitResult
  query redis_key max count s = (throttle_label env l.rrl r redis_key (some max) count s.server).0

  -- Redis failed, or counted the request and found it within the limit.
  abbrev pub RedisAllows : String → ℕ → ℕ → Limiter env double cells show_key → Type 0
  RedisAllows redis_key max count s =
      ((e : RedisError) × (query redis_key max count s ≡ err e))
      ⊎ ((n : ℕ) × (query redis_key max count s ≡ ok (Redis.allowed n)) × (n ≤ max))

  -- The local counter leaves room, and Redis will be told later.
  abbrev pub RoomIsLeft :
      String
      → ℕ
      → ℕ
      → ℕ
      → Limiter env double cells show_key
      → Limiter env double cells show_key
      → Type 0
  RoomIsLeft redis_key key max count s s' =
      (cell : ℕ) × (cells.find s.local_cache key ≡ some cell)
      × (add_u64 (s.counters cell) count ≤ max)
      × (add_u64 (s.counters cell) count ≤ headroom double max)
      × (s'.server ≡ s.server)
      × (s'.queue
          ≡ push_back s.queue (record {
            cell = cell;
            redis_key = redis_key;
            max_requests_per_period = max;
            count = count;
          }))

  -- The query's answer is explained by the limit, so it is not `RetryNever`.
  query-allows :
      (redis_key : String) (max count : ℕ) (s : Limiter env double cells show_key)
      → 0 < max
      → RedisAllows redis_key max count s
        ⊎ ((t n : ℕ) × (query redis_key max count s ≡ ok (Redis.retry_at t n)))
  query-allows redis_key max count s pos =
      go (query redis_key max count s) _ refl
        (explained (throttle_label_lem env l.rrl r redis_key (some max) count s.server))
    where
      explained : {A B C D : Type 0} → ((max ≡ 0) × A) ⊎ (B × C × D) → D
      explained (inl (z, _)) = absurd (omega arith)
      explained (inr (_, _, d)) = d

      go :
          (q : Result RedisError RedisRateLimitResult) (n : Option ℕ)
          → query redis_key max count s ≡ q
          → Explains env l.rrl r max n q
          → RedisAllows redis_key max count s
            ⊎ ((t n : ℕ) × (query redis_key max count s ≡ ok (Redis.retry_at t n)))
      go (ok (Redis.allowed n)) _ e h = inl (inr (n, e, h.1))
      go (ok (Redis.retry_at t n)) _ e h = inr (t, n, e)
      go (ok Redis.retry_never) _ e h = absurd h
      go (err x) _ e h = inl (inl (x, e))

  -- An answer that lets the request through, with the reason, or one that says when to retry.
  abbrev pub Answers : Type 0 → Limiter env double cells show_key × DeferredRateLimitResult → Type 0
  Answers Reason (s', answer) = ((answer ≡ allowed) × Reason) ⊎ ((t : ℕ) × (answer ≡ retry_at t))

  weaken :
      {A B : Type 0} (a : Limiter env double cells show_key × DeferredRateLimitResult)
      → Answers A a
      → Answers (A ⊎ B) a
  weaken a (inl (e, x)) = inl (e, inl x)
  weaken a (inr w) = inr w

  miss-Answers :
      (redis_key : String) (key max count : ℕ) (s : Limiter env double cells show_key)
      → 0 < max
      → (a : Limiter env double cells show_key × DeferredRateLimitResult) × (throttle_miss env
            double cells show_key l r redis_key key max count s
          ≡ some a)
        × Answers (RedisAllows redis_key max count s) a
  unfolding throttle_miss
  miss-Answers redis_key key max count s pos = elim (query-allows redis_key max count s pos) [
    | inl (inl (e, q)) ↦ rw (q, add_entry) (_, refl, inl (refl, inl (e, refl)))
    | inl (inr (n, q, le)) ↦ rw (q, add_entry) (_, refl, inl (refl, inr (n, refl, le)))
    | inr (t, n, q) ↦ rw (q, add_entry) (_, refl, inr (t, refl))
  ]

  run_job-Answers :
      (s : Limiter env double cells show_key) (j : Job env double cells show_key)
      → 0 < j.max_requests_per_period
      → Answers
          (RedisAllows j.redis_key j.max_requests_per_period j.count s)
          (run_job env double cells show_key l r s j)
  unfolding run_job after_query
  run_job-Answers s j pos =
      elim (query-allows j.redis_key j.max_requests_per_period j.count s pos) [
        | inl (inl (e, q)) ↦ rw (q, after_query) (inl (refl, inl (e, refl)))
        | inl (inr (n, q, le)) ↦ rw (q, after_query) (inl (refl, inr (n, refl, le)))
        | inr (t, n, q) ↦ rw (q, after_query) (inr (t, refl))
      ]

  hit-Answers :
      (redis_key : String) (key cell max count : ℕ) (s : Limiter env double cells show_key)
      → 0 < max
      → cells.find s.local_cache key ≡ some cell
      → let a = throttle_hit env double cells show_key l r redis_key cell max count s in
        Answers (RedisAllows redis_key max count s ⊎ RoomIsLeft redis_key key max count s a.0) a
  unfolding throttle_hit
  hit-Answers redis_key key cell max count s pos hit =
      let expected : ℕ = add_u64 (s.counters cell) count in
      elim (Bool-cases (ltb max expected)) [
        | inl over ↦ rw over (inr (_, refl))
        | inr under ↦ elim (Bool-cases (ltb (headroom double max) expected)) [
          | inl close ↦
              rw (under, close)
                (weaken
                  (run_job env double cells show_key l r
                    (store_count env double cells show_key s cell expected)
                    (record {
                      cell = cell;
                      redis_key = redis_key;
                      max_requests_per_period = max;
                      count = count;
                    }))
                  (run_job-Answers (store_count env double cells show_key s cell expected)
                    (record {
                      cell = cell;
                      redis_key = redis_key;
                      max_requests_per_period = max;
                      count = count;
                    })
                    pos))
          | inr far ↦
              rw (under, far) (inl (refl, inr (cell, hit, ground arith, ground arith, refl, refl)))
        ]
      ]

  -- With the limit 0 the answer is `RetryNever`, and nothing changes. With any other limit the call
  -- does not panic, and either says when to retry or lets the request through; then Redis failed, or
  -- counted the request within the limit, or the local counter leaves room and Redis is told in the
  -- background.
  pub throttle_lem :
      (key : ℕ) (max_requests_per_period : Option ℕ) (count : ℕ)
      (s : Limiter env double cells show_key)
      → let max = max_of env double cells show_key l max_requests_per_period in
        let redis_key = redis_key_of env double cells show_key l key in
        let answer = throttle env double cells show_key l r key max_requests_per_period count s in
        ((max ≡ 0) × (answer ≡ some (s, retry_never)))
        ⊎ ((0 < max)
            × (a : Limiter env double cells show_key × DeferredRateLimitResult) × (answer ≡ some a)
            × Answers
                (RedisAllows redis_key max count s ⊎ RoomIsLeft redis_key key max count s a.0)
                a)
  unfolding throttle
  throttle_lem key m count s =
      let max : ℕ = max_of env double cells show_key l m in
      let redis_key = redis_key_of env double cells show_key l key in
      elim (Bool-cases (max == 0)) [
        | inl e ↦ inl (ground arith, rw e refl)
        | inr e ↦
            let p : 0 < max = ground arith in
            elim (Option-cases (cells.find s.local_cache key)) [
              | inl gone ↦
                  rw (e, gone)
                    (let (a, eq, w) = miss-Answers redis_key key max count s p in
                      inr (p, a, eq, weaken a w))
              | inr (cell, hit) ↦
                  let a = throttle_hit env double cells show_key l r redis_key cell max count s in
                  rw e (inr (p, a, rw hit refl, hit-Answers redis_key key cell max count s p hit))
            ]
      ]
