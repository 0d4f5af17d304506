-- ===== src/Examples/Limits.antt =====
-- The limiters on a small Redis, which has one counter, and on numbers without fractions.
use Prim.Native.String.{String}
use web3_proxy.Prelude.{ℕ, ◌+◌, ◌-◌, ◌*◌, ◌/◌, ◌%◌, ◌<◌, ◌≡◌, ◌⊎◌, min, none, some, [], ◌∷◌}
use web3_proxy.Prelude.Results.{ok}
use web3_proxy.RateLimit.Redis.{
  RedisEnv, Reading, RedisRateLimiter, unwrap_or, next_period, throttle_label, throttle_key,
}
use web3_proxy.RateLimit.Redis
use web3_proxy.RateLimit.Redis.Laws.{Explains, throttle_label_lem}
use web3_proxy.RateLimit.Deferred.{
  Double, DeferredRateLimiter, Limiter, DeferredRateLimitResult, retry_never, max_of, redis_key_of,
  throttle,
}
use web3_proxy.RateLimit.Deferred.Answers.{RedisAllows, RoomIsLeft, Answers, throttle_lem}
use web3_proxy.Examples.{numbers}

abbrev pub env : RedisEnv
env = record {
  F32 = ℕ;
  div = λ a b. a / b;
  rem = λ a b. a % b;
  sub = λ a b. a - b;
  as_usize = λ a. a;
  show = λ a. "now";
  from_secs = λ a. a;
  Server = ℕ;
  incr_expire = λ s k n t. (some (s + n), s + n);
}

abbrev pub reading : Reading env
reading = record { now = 14; instant = 1000 }

abbrev limiter : RedisRateLimiter env
limiter = record { key_prefix = "login"; max_requests_per_period = 3; period = 10 }

throttle_label_lem_example :
    let max = unwrap_or none limiter.max_requests_per_period in
    let asked =
      env.incr_expire 2
        (throttle_key env limiter reading.now "ip")
        1
        (1 + env.as_usize limiter.period) in
    let answer = throttle_label env limiter reading "ip" none 1 2 in
    ((max ≡ 0) × (answer ≡ (ok Redis.retry_never, 2)))
    ⊎ ((0 < max) × (answer.1 ≡ asked.1) × Explains env limiter reading max asked.0 answer.0)
throttle_label_lem_example = throttle_label_lem env limiter reading "ip" none 1 2

-- Numbers in hundredths.
abbrev hundredths : Double
hundredths = record {
  F64 = ℕ;
  of_u64 = λ n. n * 100;
  mul = λ a b. a * b / 100;
  sub = λ a b. a - b;
  minimum = min;
  as_u64 = λ a. a / 100;
  ninety_nine_percent = 99;
  one = 100;
}

abbrev show_key : ℕ → String
show_key n = "key"

abbrev deferred : DeferredRateLimiter env hundredths numbers show_key
deferred = record { prefix = "ip"; rrl = limiter; default_max_requests_per_period = none }

-- The key 7 has made one request.
abbrev seen : Limiter env hundredths numbers show_key
seen = record {
  local_cache = (7, 0) ∷ [];
  counters = λ c. 1;
  next_cell = 1;
  server = 1;
  queue = [];
}

throttle_lem_example :
    let max = max_of env hundredths numbers show_key deferred none in
    let redis_key = redis_key_of env hundredths numbers show_key deferred 7 in
    let answer = throttle env hundredths numbers show_key deferred reading 7 none 1 seen in
    ((max ≡ 0) × (answer ≡ some (seen, retry_never)))
    ⊎ ((0 < max)
        × (a : Limiter env hundredths numbers show_key × DeferredRateLimitResult) × (answer
            ≡ some a)
        × Answers env hundredths numbers show_key deferred reading
            (RedisAllows env hundredths numbers show_key deferred reading redis_key max 1 seen
              ⊎ RoomIsLeft env hundredths numbers show_key deferred reading redis_key 7 max 1 seen
                  a.0)
            a)
throttle_lem_example = throttle_lem env hundredths numbers show_key deferred reading 7 none 1 seen
