-- ===== src/Rpc/Handle/Laws.antt =====
-- When a handle is given, and that a limit once met is kept without asking Redis again.
use web3_proxy.Prelude.{
  ℕ, ◌<◌, ◌≡◌, sym, ap, ◌∙◌, inl, inr, Bool, true, not, ◌||◌, Option, none, some, arith, Bool-cases,
}
use web3_proxy.Prelude.Results.{Result, ok, err}
use web3_proxy.RateLimit.Redis.{RedisEnv, RedisError, RedisRateLimiter, Reading}
use web3_proxy.RateLimit.Redis
use web3_proxy.Rpc.Handle.{
  retry_at, HandleState, is_limited, after_throttle, check_hard_limit, try_request_handle,
}

module _ (env : RedisEnv) where
  after_throttle-retry :
      (s : HandleState env) (a : Result RedisError Redis.RedisRateLimitResult) {t old : ℕ}
      → s.hard_limit_until ≡ some old
      → (after_throttle env s a).1 ≡ ok (retry_at t)
      → ((after_throttle env s a).0.provider ≡ s.provider)
        × ((after_throttle env s a).0.hard_limit_until ≡ some t)
  unfolding after_throttle
  after_throttle-retry s (err e) w h = ground arith
  after_throttle-retry s (ok (Redis.allowed n)) w h = ground arith
  after_throttle-retry s (ok (Redis.retry_at t n)) w h = ground arith
  after_throttle-retry s (ok Redis.retry_never) w h = ground arith

  check_hard_limit-retry :
      (r : Reading env) (s : HandleState env) (server : env.Server)
      (l : Option (RedisRateLimiter env)) {s' : HandleState env} {server' : env.Server} {t old : ℕ}
      → s.hard_limit_until ≡ some old
      → check_hard_limit env r s server l ≡ (s', server', ok (retry_at t))
      → (s'.provider ≡ s.provider) × (s'.hard_limit_until ≡ some t)
  unfolding check_hard_limit after_throttle
  check_hard_limit-retry r s server none w h = ground arith
  check_hard_limit-retry r s server (some l) w h =
      let (p, q) = after_throttle-retry s (Redis.throttle env l r server).0 w (ap (λ x. x.2) h) in
      (sym (ap (λ x. x.0.provider) h) ∙ p, sym (ap (λ x. x.0.hard_limit_until) h) ∙ q)

  limits_again :
      (r : Reading env) (u : Bool) (s : HandleState env) (server : env.Server)
      {s' : HandleState env} {server' : env.Server} {t old : ℕ}
      → s.hard_limit_until ≡ some old
      → try_request_handle env r u s server ≡ (s', server', ok (retry_at t))
      → (s'.provider ≡ s.provider) × (s'.hard_limit_until ≡ some t)
  unfolding try_request_handle
  limits_again r u s server {s'} {server'} {t} w h = elim (Bool-cases (not (u || s.provider))) [
    | inl e ↦ absurd (ground arith)
    | inr e ↦ (elim (Bool-cases (is_limited env r.instant s.hard_limit_until)) [
      | inl e' ↦ (ground arith)
      | inr e' ↦
          check_hard_limit-retry r s server s.hard_limit {s' = s'} {server' = server'} w
            (ground arith)
    ])
  ]

  -- On a server with a provider and a channel for its limit: while the time of a `RetryAt` has not
  -- come, a further call gives the same answer, changes nothing, and does not count against the limit in Redis.
  pub try_request_handle-again :
      (r r' : Reading env) (u u' : Bool) (s : HandleState env) (server server'' : env.Server)
      {s' : HandleState env} {server' : env.Server} {t old : ℕ}
      → s.hard_limit_until ≡ some old
      → try_request_handle env r u s server ≡ (s', server', ok (retry_at t))
      → (u' || s.provider) ≡ true
      → r'.instant < t
      → try_request_handle env r' u' s' server'' ≡ (s', server'', ok (retry_at t))
  unfolding try_request_handle after_throttle
  try_request_handle-again r r' u u' s server server'' w h c lt =
      let (p, q) = limits_again r u s server w h in ground arith
