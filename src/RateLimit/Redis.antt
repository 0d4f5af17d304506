-- ===== src/RateLimit/Redis.antt =====
-- `RedisRateLimiter` of redis-rate-limiter/src/lib.rs. The floating-point numbers, the formatting of
-- one, and Redis itself are the parameter `RedisEnv`. Clocks are read by the caller: `now` is
-- `now_as_secs()`, and `instant` is `Instant::now()` in nanoseconds.
pub mod Laws
use Prim.Native.String.{String, ◌++◌}
use web3_proxy.Prelude.{
  ℕ, zero, suc, ◌+◌, ◌-◌, ◌*◌, ◌/◌, ◌%◌, ◌^◌, ◌≤◌, ◌<◌, min, max, ◌≡◌, refl, sym, ap, ◌∙◌, ◌≢◌, ◌↔◌,
  ◌⊎◌, inl, inr, Bool, true, false, not, ◌&&◌, ◌||◌, Option, none, some, List, [], ◌∷◌, map, arith,
  ltb, leb, ◌==◌, if◌then◌else◌, ltb→lt, lt→ltb, leb→le, ==_iff, ==_refl, Bool-cases, Option-cases,
  length, length-append, filter_by, any, All, All-append, contains,
}
use web3_proxy.Prelude.Results.{Result, ok, err, ◌>>=◌, context}
use web3_proxy.Prelude.Words.{
  u64_max, saturating_add, saturating_sub, checked_sub, option_max, option_min, some_gt,
}

pub record RedisEnv : Type 1 where
  -- `f32`.
  pub F32 : Type 0
  pub div : F32 → F32 → F32
  pub rem : F32 → F32 → F32
  pub sub : F32 → F32 → F32
  pub as_usize : F32 → ℕ
  pub show : F32 → String
  -- `Duration::from_secs_f32`, in nanoseconds.
  pub from_secs : F32 → ℕ
  -- The server, and the pipe of INCRBY and EXPIRE with the new count or an error.
  pub Server : Type 0
  pub incr_expire : Server → (key : String) → (count seconds : ℕ) → Option ℕ × Server

pub data RedisRateLimitResult : Type 0 where
  allowed : ℕ → RedisRateLimitResult
  retry_at : (instant count : ℕ) → RedisRateLimitResult
  retry_never : RedisRateLimitResult

pub data RedisError : Type 0 where
  cannot_increment : RedisError

abbrev pub unwrap_or : Option ℕ → ℕ → ℕ
unwrap_or none d = d
unwrap_or (some a) d = a

module _ (env : RedisEnv) where
  open env use {F32, Server}

  pub record RedisRateLimiter : Type 0 where
    pub key_prefix : String
    pub max_requests_per_period : ℕ
    pub period : F32

  pub record Reading : Type 0 where
    pub now : F32
    pub instant : ℕ

  unfoldable pub new : (app label : String) → ℕ → F32 → RedisRateLimiter
  new app label max_requests_per_period period = record {
    key_prefix = app ++ ":rrl:" ++ label;
    max_requests_per_period = max_requests_per_period;
    period = period;
  }

  unfoldable pub period_id : RedisRateLimiter → F32 → F32
  period_id l now = env.rem (env.div now l.period) l.period

  unfoldable pub next_period : RedisRateLimiter → Reading → ℕ
  next_period l r = r.instant + env.from_secs (env.sub l.period (env.rem r.now l.period))

  unfoldable pub throttle_key : RedisRateLimiter → F32 → String → String
  unfolding period_id
  throttle_key l now label = l.key_prefix ++ ":" ++ label ++ ":" ++ env.show (period_id l now)

  -- The answer to a new count.
  abbrev pub judge :
      RedisRateLimiter → Reading → ℕ → Option ℕ → Result RedisError RedisRateLimitResult
  judge l r max_per_period none = err cannot_increment
  judge l r max_per_period (some new_count) =
      if ltb max_per_period new_count
      then ok (retry_at (next_period l r) new_count)
      else ok (allowed new_count)

  unfoldable pub throttle_label :
      RedisRateLimiter
      → Reading
      → (label : String) → (max_per_period : Option ℕ) → (count : ℕ) → Server
      → Result RedisError RedisRateLimitResult × Server
  unfolding throttle_key
  throttle_label l r label max_per_period count server =
      let max = unwrap_or max_per_period l.max_requests_per_period in
      let (new_count, server') =
        env.incr_expire server (throttle_key l r.now label) count (1 + env.as_usize l.period) in
      if max == 0 then (ok retry_never, server) else (judge l r max new_count, server')

  unfoldable pub throttle :
      RedisRateLimiter → Reading → Server → Result RedisError RedisRateLimitResult × Server
  throttle l r server = throttle_label l r "" none 1 server
