-- ===== src/Rpc/Handle.antt =====
-- Handles on a server: `try_request_handle` and `wait_for_request_handle` of
-- web3_proxy/src/rpcs/one.rs, over the Redis limiter.
pub mod Laws
pub mod Waits
use web3_proxy.Prelude.{
  ℕ, zero, suc, ◌+◌, ◌-◌, ◌*◌, ◌/◌, ◌%◌, ◌^◌, ◌≤◌, ◌<◌, min, max, ◌≡◌, refl, sym, ap, ◌∙◌, ◌≢◌, ◌↔◌,
  ◌⊎◌, inl, inr, Bool, true, false, not, ◌&&◌, ◌||◌, Option, none, some, List, [], ◌∷◌, ◌++◌, map,
  arith, ltb, leb, ◌==◌, if◌then◌else◌, ltb→lt, lt→ltb, leb→le, ==_iff, ==_refl, Bool-cases,
  Option-cases, length, length-append, filter_by, any, All, All-append, contains,
}
use web3_proxy.Prelude.Results.{Result, ok, err, ◌>>=◌, context}
use web3_proxy.Prelude.Words.{
  u64_max, saturating_add, saturating_sub, checked_sub, option_max, option_min, some_gt,
}
use web3_proxy.RateLimit.Redis.{RedisEnv, RedisError, RedisRateLimiter, Reading}
use web3_proxy.RateLimit.Redis

pub data OpenRequestResult : Type 0 where
  handle : OpenRequestResult
  retry_at : ℕ → OpenRequestResult
  not_ready : OpenRequestResult

module _ (env : RedisEnv) where
  -- `provider` says whether one is connected; `hard_limit_until` is the value of the watch channel.
  pub record HandleState : Type 0 where
    pub provider : Bool
    pub hard_limit_until : Option ℕ
    pub hard_limit : Option (RedisRateLimiter env)

  -- The channel is written only if there is one.
  abbrev pub until : Option ℕ → ℕ → Option ℕ
  until none t = none
  until (some old) t = some t

  abbrev pub is_limited : ℕ → Option ℕ → Bool
  is_limited now none = false
  is_limited now (some ready) = ltb now ready

  abbrev pub ready_time : Option ℕ → ℕ
  ready_time none = 0
  ready_time (some ready) = ready

  unfoldable pub after_throttle :
      HandleState
      → Result RedisError Redis.RedisRateLimitResult
      → HandleState × Result RedisError OpenRequestResult
  after_throttle s (err e) = (s, err e)
  after_throttle s (ok (Redis.allowed n)) = (s, ok handle)
  after_throttle s (ok (Redis.retry_at t n)) =
      (record s { hard_limit_until = until s.hard_limit_until t }, ok (retry_at t))
  after_throttle s (ok Redis.retry_never) = (s, ok not_ready)

  check_hard_limit :
      Reading env
      → HandleState
      → env.Server
      → Option (RedisRateLimiter env)
      → HandleState × env.Server × Result RedisError OpenRequestResult
  check_hard_limit r s server none = (s, server, ok handle)
  check_hard_limit r s server (some limiter) =
      let (answer, server') = Redis.throttle env limiter r server in
      let (s', result) = after_throttle s answer in (s', server', result)

  unfoldable pub try_request_handle :
      Reading env
      → (unlocked_provider : Bool) → HandleState
      → env.Server
      → HandleState × env.Server × Result RedisError OpenRequestResult
  unfolding check_hard_limit
  try_request_handle r unlocked_provider s server =
      if not (unlocked_provider || s.provider)
      then (s, server, ok not_ready)
      else if is_limited r.instant s.hard_limit_until
      then (s, server, ok (retry_at (ready_time s.hard_limit_until)))
      else check_hard_limit r s server s.hard_limit

  pub data WaitError : Type 0 where
    timeout_waiting unable_to_retry : WaitError
    throttling : RedisError → WaitError

  abbrev pub past : Option ℕ → ℕ → Bool
  past none t = false
  past (some max_wait) t = ltb max_wait t

  pub data WaitStep : Type 0 where
    opened : WaitStep
    gives_up : WaitError → WaitStep
    waits : WaitStep

  -- One round of the loop; `max_wait` is the last instant that is waited for.
  unfoldable pub wait_step :
      (max_wait : Option ℕ) → (now : ℕ) → Result RedisError OpenRequestResult → WaitStep
  wait_step max_wait now (ok handle) = opened
  wait_step max_wait now (ok (retry_at t)) =
      if past max_wait t then gives_up timeout_waiting else waits
  wait_step max_wait now (ok not_ready) =
      if past max_wait now then gives_up unable_to_retry else waits
  wait_step max_wait now (err e) = gives_up (throttling e)

  -- The rounds of the loop, each with its readings of the clock and of the provider; `waits` at the
  -- end says that the loop is still waiting.
  unfoldable pub wait_for_request_handle :
      (max_wait : Option ℕ)
      → (unlocked_provider : Bool) → HandleState
      → env.Server
      → List (Reading env × Bool)
      → HandleState × env.Server × WaitStep
  wait_for_request_handle max_wait unlocked_provider s server [] = (s, server, waits)
  wait_for_request_handle max_wait unlocked_provider s server ((r, connected) ∷ rounds) =
      let (s', server', result) =
        try_request_handle r unlocked_provider (record s { provider = connected }) server in
      elim (wait_step max_wait r.instant result) [
        | waits ↦ wait_for_request_handle max_wait unlocked_provider s' server' rounds
        | opened ↦ (s', server', opened)
        | gives_up e ↦ (s', server', gives_up e)
      ]
