-- ===== src/RateLimit/Deferred.antt =====
-- `DeferredRateLimiter` of deferred-rate-limiter/src/lib.rs: a local cache of counters in front of a
-- `RedisRateLimiter`. The counters (`Arc<AtomicU64>`) are cells of a heap, and the cache holds their
-- addresses: an update of a counter goes on after its entry was evicted. A key is a number, shown
-- by `show_key`. The future that `tokio::spawn` takes is a `Job` in a queue; `run_queued` runs one.
-- `none` is a panic.
pub mod Answers
use Prim.Native.String.{String, ◌++◌}
use web3_proxy.Prelude.{
  ℕ, zero, suc, ◌+◌, ◌-◌, ◌*◌, ◌/◌, ◌%◌, ◌^◌, ◌≤◌, ◌<◌, min, max, ◌≡◌, refl, sym, ap, ◌∙◌, ◌≢◌, ◌↔◌,
  ◌⊎◌, inl, inr, Bool, true, false, not, ◌&&◌, ◌||◌, Option, none, some, List, [], ◌∷◌, map, arith,
  ltb, leb, ◌==◌, if◌then◌else◌, ltb→lt, lt→ltb, leb→le, ==_iff, ==_refl, Bool-cases, Option-cases,
  length, length-append, filter_by, any, All, All-append, contains,
}
use web3_proxy.Prelude.Results.{Result, ok, err, ◌>>=◌, context}
use web3_proxy.Prelude.Words.{
  u64_max, saturating_add, saturating_sub, checked_sub, option_max, option_min, some_gt,
}
use web3_proxy.Cache.{CacheOps}
use web3_proxy.RateLimit.Redis.{
  RedisEnv, RedisRateLimitResult, RedisError, cannot_increment, unwrap_or, RedisRateLimiter,
  Reading, next_period, throttle_label,
}
use web3_proxy.RateLimit.Redis

pub data DeferredRateLimitResult : Type 0 where
  allowed : DeferredRateLimitResult
  retry_at : ℕ → DeferredRateLimitResult
  retry_never : DeferredRateLimitResult

-- `f64`, for the limit from which on Redis is waited for.
pub record Double : Type 1 where
  pub F64 : Type 0
  pub of_u64 : ℕ → F64
  pub mul : F64 → F64 → F64
  pub sub : F64 → F64 → F64
  pub minimum : F64 → F64 → F64
  pub as_u64 : F64 → ℕ
  pub ninety_nine_percent : F64
  pub one : F64

unfoldable pub headroom : Double → ℕ → ℕ
headroom d max =
    d.as_u64 (d.minimum (d.mul (d.of_u64 max) d.ninety_nine_percent) (d.sub (d.of_u64 max) d.one))

unfoldable pub push_back {ℓ} : {A : Type ℓ} → List A → A → List A
push_back [] x = x ∷ []
push_back (y ∷ ys) x = y ∷ push_back ys x

abbrev pub add_u64 : ℕ → ℕ → ℕ
add_u64 a b = (a + b) % 18446744073709551616

module _ (env : RedisEnv) (double : Double) (cells : CacheOps ℕ) (show_key : ℕ → String) where
  pub record DeferredRateLimiter : Type 0 where
    pub prefix : String
    pub rrl : RedisRateLimiter env
    pub default_max_requests_per_period : Option ℕ

  pub record Job : Type 0 where
    pub cell : ℕ
    pub redis_key : String
    pub max_requests_per_period : ℕ
    pub count : ℕ

  pub record Limiter : Type 0 where
    pub local_cache : cells.Store
    pub counters : ℕ → ℕ
    pub next_cell : ℕ
    pub server : env.Server
    pub queue : List Job

  -- A store to a counter.
  unfoldable pub store_count : Limiter → ℕ → ℕ → Limiter
  store_count s cell n = record s { counters = λ c. if c == cell then n else s.counters c }

  -- What the query does to the counter, and the answer that it gives.
  unfoldable pub after_query :
      Limiter → ℕ → Result RedisError RedisRateLimitResult → Limiter × DeferredRateLimitResult
  unfolding store_count
  after_query s cell (ok (Redis.allowed n)) = (store_count s cell n, allowed)
  after_query s cell (ok (Redis.retry_at t n)) = (store_count s cell n, retry_at t)
  after_query s cell (ok Redis.retry_never) = (s, retry_never)
  after_query s cell (err e) = (s, allowed)

  -- `rate_limit_f`.
  unfoldable pub run_job :
      DeferredRateLimiter → Reading env → Limiter → Job → Limiter × DeferredRateLimitResult
  run_job l r s j =
      let (answer, server') =
        throttle_label env l.rrl r j.redis_key (some j.max_requests_per_period) j.count s.server in
      after_query (record s { server = server' }) j.cell answer

  -- The background runs the queued job with the given number, if there is one.
  take_job : ℕ → List Job → Option (Job × List Job)
  take_job i [] = none
  take_job zero (j ∷ js) = some (j, js)
  take_job (suc i) (j ∷ js) = elim (take_job i js) [
    | none ↦ none
    | some (k, rest) ↦ some (k, j ∷ rest)
  ]

  unfoldable pub run_queued : DeferredRateLimiter → Reading env → ℕ → Limiter → Limiter
  unfolding take_job
  run_queued l r i s = elim (take_job i s.queue) [
    | none ↦ s
    | some (j, rest) ↦ (run_job l r (record s { queue = rest }) j).0
  ]

  -- A new entry: the count that Redis gave, or 0 if it failed. `RetryNever` panics.
  unfoldable pub first_count :
      Result RedisError RedisRateLimitResult → Option (ℕ × DeferredRateLimitResult)
  first_count (ok (Redis.allowed n)) = some (n, allowed)
  first_count (ok (Redis.retry_at t n)) = some (n, retry_at t)
  first_count (ok Redis.retry_never) = none
  first_count (err e) = some (0, allowed)

  add_entry :
      Limiter
      → ℕ
      → Option (ℕ × DeferredRateLimitResult)
      → Option (Limiter × DeferredRateLimitResult)
  unfolding store_count
  add_entry s key none = none
  add_entry s key (some (n, answer)) = some (
    record (store_count s s.next_cell n) {
      local_cache = (cells.get_with s.local_cache key s.next_cell).1;
      next_cell = s.next_cell + 1;
    },
    answer,
  )

  -- The key has no counter here yet.
  unfoldable pub throttle_miss :
      DeferredRateLimiter
      → Reading env
      → (redis_key : String) → (key max count : ℕ) → Limiter
      → Option (Limiter × DeferredRateLimitResult)
  unfolding add_entry first_count
  throttle_miss l r redis_key key max count s =
      let (answer, server') = throttle_label env l.rrl r redis_key (some max) count s.server in
      add_entry (record s { server = server' }) key (first_count answer)

  -- The key has a counter: it is raised first, and never lowered by an answer from here.
  unfoldable pub throttle_hit :
      DeferredRateLimiter
      → Reading env
      → (redis_key : String) → (cell max count : ℕ) → Limiter
      → Limiter × DeferredRateLimitResult
  unfolding store_count
  throttle_hit l r redis_key cell max count s =
      let expected = add_u64 (s.counters cell) count in
      let s' = store_count s cell expected in
      let j : Job = record {
        cell = cell;
        redis_key = redis_key;
        max_requests_per_period = max;
        count = count;
      } in
      if ltb max expected
      then (s', retry_at (next_period env l.rrl r))
      else if ltb (headroom double max) expected
      then run_job l r s' j
      else (record s' { queue = push_back s'.queue j }, allowed)

  unfoldable pub max_of : DeferredRateLimiter → Option ℕ → ℕ
  max_of l max_requests_per_period =
      unwrap_or max_requests_per_period
        (unwrap_or l.default_max_requests_per_period l.rrl.max_requests_per_period)

  unfoldable pub redis_key_of : DeferredRateLimiter → ℕ → String
  redis_key_of l key = l.prefix ++ ":" ++ show_key key

  unfoldable pub throttle :
      DeferredRateLimiter
      → Reading env
      → (key : ℕ) → (max_requests_per_period : Option ℕ) → (count : ℕ) → Limiter
      → Option (Limiter × DeferredRateLimitResult)
  throttle l r key max_requests_per_period count s =
      if max_of l max_requests_per_period == 0
      then some (s, retry_never)
      else elim (cells.find s.local_cache key) [
        | none ↦
            throttle_miss l r (redis_key_of l key) key (max_of l max_requests_per_period) count s
        | some cell ↦
            some (
              throttle_hit l r (redis_key_of l key) cell (max_of l max_requests_per_period) count s)
      ]
