-- ===== src/Authorization/Callers.antt =====
-- Callers without a key and the sign-in: the rest of web3_proxy/src/frontend/authorization.rs. The answers of the
-- limiter for sign-ins and of the semaphores are passed in; the limiter for addresses is a function
-- of its state, as that for users is. The list of recent users in Redis is left out.
use mathlib.Core.Option.{map as option_map}
use web3_proxy.Prelude.{
  ℕ, ◌^◌, Bool, true, false, Option, none, some, List, [], ◌∷◌, ◌==◌, if◌then◌else◌,
}
use web3_proxy.Prelude.Results.{Result, ok, err}
use web3_proxy.Prelude.Outcomes.{Outcome, done, failed, panics}
use web3_proxy.Entities.{LogLevel}
use web3_proxy.RateLimit.Redis.{RedisError, RedisRateLimitResult}
use web3_proxy.RateLimit.Redis
use web3_proxy.RateLimit.Deferred.{DeferredRateLimitResult, allowed, retry_at, retry_never}
use web3_proxy.Authorization.{
  AuthorizationChecks, Authorization, internal, frontend, AuthorizationError, Caller,
  RateLimitResult, allowed_with, rate_limited, unknown_key, ProxyMode, best, RpcSecretKey, ulid,
  uuid, try_new, rate_limit_by_rpc_key,
}

-- `Ulid` and `Uuid` from a key: both are its 128 bits.
unfoldable pub to_ulid : RpcSecretKey → ℕ
to_ulid (ulid x) = x
to_ulid (uuid x) = x

-- `FromStr`: the two parsers, one after the other.
unfoldable pub key_from_str : (as_ulid as_uuid : Option ℕ) → Option RpcSecretKey
key_from_str (some x) as_uuid = some (ulid x)
key_from_str none (some x) = some (uuid x)
key_from_str none none = none

abbrev pub default_checks : AuthorizationChecks
default_checks = record {
  user_id = 0;
  rpc_secret_key = none;
  rpc_secret_key_id = none;
  max_requests_per_period = none;
  max_concurrent_requests = none;
  allowed_origins = none;
  allowed_referers = none;
  allowed_user_agents = none;
  allowed_ips = none;
  log_level = LogLevel.none;
  log_revert_chance = 0;
  private_txs = false;
  proxy_mode = best;
}

-- `HashMap::get` on the configured origins.
unfoldable pub origin_limit : List (ℕ × ℕ) → ℕ → Option ℕ
origin_limit [] origin = none
origin_limit ((o, limit) ∷ origins) origin =
    let rest = origin_limit origins origin in if o == origin then some limit else rest

abbrev pub limit_of_origin : List (ℕ × ℕ) → Option ℕ → Option ℕ
limit_of_origin origins none = none
limit_of_origin origins (some origin) = origin_limit origins origin

module _ (contains_ip : ℕ → ℕ → Bool) where
  -- `localhost` and `app_user_agent` are the address and the user agent of the proxy itself.
  unfoldable pub internal_authorization :
      (localhost : ℕ) → (app_user_agent : Option ℕ) → Result AuthorizationError Authorization
  internal_authorization localhost app_user_agent =
      try_new contains_ip (record default_checks { log_revert_chance = 2 ^ 1074 })
        (record { ip = localhost; origin = none; referer = none; user_agent = app_user_agent })
        internal

  unfoldable pub external :
      (allowed_origin_requests_per_period : List (ℕ × ℕ))
      → Caller
      → ProxyMode
      → Result AuthorizationError Authorization
  external origins caller proxy_mode =
      try_new contains_ip
        (record default_checks {
          max_requests_per_period = limit_of_origin origins caller.origin;
          proxy_mode = proxy_mode;
        })
        caller frontend

  abbrev pub caller_from : (ip : ℕ) → (origin : Option ℕ) → Caller
  caller_from ip origin = record { ip = ip; origin = origin; referer = none; user_agent = none }

  -- The answer of the limiter for sign-ins; an error lets the address through.
  unfoldable pub login_result :
      Authorization → Result RedisError RedisRateLimitResult → RateLimitResult
  login_result a (ok (Redis.allowed n)) = allowed_with a none
  login_result a (ok (Redis.retry_at t n)) = rate_limited a (some t)
  login_result a (ok Redis.retry_never) = rate_limited a none
  login_result a (err e) = allowed_with a none

  -- `none` for the limiter's answer: there is no limiter.
  unfoldable pub rate_limit_login :
      List (ℕ × ℕ)
      → (ip : ℕ) → ProxyMode
      → (limiter : Option (Result RedisError RedisRateLimitResult))
      → Result AuthorizationError RateLimitResult
  rate_limit_login origins ip proxy_mode limiter =
      elim (external origins (caller_from ip none) proxy_mode) [
        | err e ↦ err e
        | ok a ↦ elim limiter [
          | none ↦ ok (allowed_with a none)
          | some answer ↦ ok (login_result a answer)
        ]
      ]

  pub data FrontendError : Type 0 where
    over_limit : Authorization → Option ℕ → FrontendError
    no_such_key : FrontendError
    internal_error : AuthorizationError → FrontendError

  -- A permit, an unknown key: both are `unimplemented!`.
  unfoldable pub login_authorized : RateLimitResult → Outcome FrontendError Authorization
  login_authorized (allowed_with a none) = done a
  login_authorized (allowed_with a (some permit)) = panics
  login_authorized (rate_limited a retry) = failed (over_limit a retry)
  login_authorized unknown_key = panics

  unfoldable pub login_is_authorized :
      List (ℕ × ℕ)
      → (ip : ℕ) → (limiter : Option (Result RedisError RedisRateLimitResult))
      → Outcome FrontendError Authorization
  login_is_authorized origins ip limiter = elim (rate_limit_login origins ip best limiter) [
    | err e ↦ failed (internal_error e)
    | ok r ↦ login_authorized r
  ]

  module _ (S : Type 0)
      (throttle : S
        → (key : ℕ) → (max : Option ℕ) → (count : ℕ) → Option (S × DeferredRateLimitResult)) where
    -- `ip_semaphore`, for what the acquired permit is.
    unfoldable pub with_permit :
        Authorization
        → (semaphore : Result AuthorizationError (Option ℕ))
        → Result AuthorizationError RateLimitResult
    with_permit a (err e) = err e
    with_permit a (ok permit) = ok (allowed_with a permit)

    unfoldable pub ip_result :
        Authorization
        → (semaphore : Result AuthorizationError (Option ℕ)) → DeferredRateLimitResult
        → Result AuthorizationError RateLimitResult
    ip_result a semaphore allowed = with_permit a semaphore
    ip_result a semaphore (retry_at t) = ok (rate_limited a (some t))
    ip_result a semaphore retry_never = ok (rate_limited a none)

    unfoldable pub ip_limit :
        (has_limiter : Bool)
        → S
        → Authorization
        → (semaphore : Result AuthorizationError (Option ℕ))
        → Option (S × Result AuthorizationError RateLimitResult)
    ip_limit false s a semaphore = some (s, with_permit a semaphore)
    ip_limit true s a semaphore = elim (throttle s a.caller.ip a.checks.max_requests_per_period 1) [
      | none ↦ none
      | some (s', answer) ↦ some (s', ip_result a semaphore answer)
    ]

    -- `none` is a panic of the limiter.
    unfoldable pub rate_limit_by_ip :
        (has_limiter : Bool)
        → S
        → List (ℕ × ℕ)
        → (ip : ℕ) → (origin : Option ℕ) → ProxyMode
        → (semaphore : Result AuthorizationError (Option ℕ))
        → Option (S × Result AuthorizationError RateLimitResult)
    unfolding ip_limit
    rate_limit_by_ip has_limiter s origins ip origin proxy_mode semaphore =
        elim (external origins (caller_from ip origin) proxy_mode) [
          | err e ↦ some (s, err e)
          | ok a ↦ ip_limit has_limiter s a semaphore
        ]

    -- A key that is not known is `unimplemented!` for an address.
    unfoldable pub ip_authorized :
        Result AuthorizationError RateLimitResult → Outcome FrontendError (Authorization × Option ℕ)
    ip_authorized (err e) = failed (internal_error e)
    ip_authorized (ok (allowed_with a permit)) = done (a, permit)
    ip_authorized (ok (rate_limited a retry)) = failed (over_limit a retry)
    ip_authorized (ok unknown_key) = panics

    unfoldable pub key_authorized :
        Result AuthorizationError RateLimitResult → Outcome FrontendError (Authorization × Option ℕ)
    key_authorized (err e) = failed (internal_error e)
    key_authorized (ok (allowed_with a permit)) = done (a, permit)
    key_authorized (ok (rate_limited a retry)) = failed (over_limit a retry)
    key_authorized (ok unknown_key) = failed no_such_key

    unfoldable pub ip_is_authorized :
        (has_limiter : Bool)
        → S
        → List (ℕ × ℕ)
        → (ip : ℕ) → (origin : Option ℕ) → ProxyMode
        → (semaphore : Result AuthorizationError (Option ℕ))
        → Option (S × Outcome FrontendError (Authorization × Option ℕ))
    ip_is_authorized has_limiter s origins ip origin proxy_mode semaphore =
        option_map (λ (s', r). (s', ip_authorized r))
          (rate_limit_by_ip has_limiter s origins ip origin proxy_mode semaphore)

    unfoldable pub key_is_authorized :
        (has_limiter : Bool)
        → S
        → Caller
        → (found : Result AuthorizationError AuthorizationChecks)
        → (semaphore : Result AuthorizationError (Option ℕ))
        → Option (S × Outcome FrontendError (Authorization × Option ℕ))
    key_is_authorized has_limiter s caller found semaphore =
        option_map (λ (s', r). (s', key_authorized r))
          (rate_limit_by_rpc_key contains_ip S throttle has_limiter s caller found semaphore)

    -- By the key, if there is one, and else by the address; `s_ip` and `s_key` are the two limiters.
    unfoldable pub check_again :
        (has_ip_limiter has_key_limiter : Bool)
        → (s_ip s_key : S) → List (ℕ × ℕ)
        → (found : RpcSecretKey → Result AuthorizationError AuthorizationChecks)
        → (semaphore : Result AuthorizationError (Option ℕ)) → Authorization
        → Option (S × Outcome FrontendError (Authorization × Option ℕ))
    check_again has_ip_limiter has_key_limiter s_ip s_key origins found semaphore a =
        elim a.checks.rpc_secret_key [
          | some key ↦ key_is_authorized has_key_limiter s_key a.caller (found key) semaphore
          | none ↦
              ip_is_authorized has_ip_limiter s_ip origins a.caller.ip a.caller.origin
                a.checks.proxy_mode semaphore
        ]
