-- ===== src/Authorization/Addresses.antt =====
-- Who is let through without a key.
use web3_proxy.Prelude.{
  ℕ, ◌≡◌, ◌≢◌, refl, sym, ◌⊎◌, inl, inr, Bool, true, false, Option, none, some, List, arith,
}
use web3_proxy.Prelude.Results.{Result, ok, err}
use web3_proxy.Prelude.Outcomes.{Outcome, done, failed, panics}
use web3_proxy.RateLimit.Redis.{RedisError, RedisRateLimitResult}
use web3_proxy.RateLimit.Redis
use web3_proxy.RateLimit.Deferred.{DeferredRateLimitResult, allowed, retry_at, retry_never}
use web3_proxy.Authorization.{
  Authorization, AuthorizationError, Caller, ProxyMode, best, frontend, try_new, check_ip,
  check_header,
}
use web3_proxy.Authorization.Callers.{
  default_checks, limit_of_origin, external, caller_from, login_result, rate_limit_login,
  FrontendError, over_limit, internal_error, login_authorized, login_is_authorized, with_permit,
  ip_result, ip_limit, rate_limit_by_ip, ip_authorized, ip_is_authorized,
}

module _ (contains_ip : ℕ → ℕ → Bool) where
  -- What an address is authorized with: no checks but the limit of its origin.
  abbrev pub plain : List (ℕ × ℕ) → Caller → ProxyMode → Authorization
  plain origins caller proxy_mode = record {
    checks = record default_checks {
      max_requests_per_period = limit_of_origin origins caller.origin;
      proxy_mode = proxy_mode;
    };
    caller = caller;
    authorization_type = frontend;
  }

  external-plain :
      (origins : List (ℕ × ℕ)) (caller : Caller) (proxy_mode : ProxyMode)
      → external contains_ip origins caller proxy_mode ≡ ok (plain origins caller proxy_mode)
  unfolding external try_new check_ip check_header
  external-plain origins caller proxy_mode = refl

  -- What the answer for a sign-in says of the limiter's.
  abbrev pub SignsIn :
      List (ℕ × ℕ)
      → ℕ
      → Option (Result RedisError RedisRateLimitResult)
      → Outcome (FrontendError contains_ip) Authorization
      → Type 0
  SignsIn origins ip limiter (done a) =
      (a ≡ plain origins (caller_from contains_ip ip none) best)
      × ((limiter ≡ none)
          ⊎ ((n : ℕ) × (limiter ≡ some (ok (Redis.allowed n))))
          ⊎ ((e : RedisError) × (limiter ≡ some (err e))))
  SignsIn origins ip limiter (failed e) =
      (((t : ℕ) × (n : ℕ) × (limiter ≡ some (ok (Redis.retry_at t n)))
          × (e ≡ over_limit (plain origins (caller_from contains_ip ip none) best) (some t)))
        ⊎ ((limiter ≡ some (ok Redis.retry_never))
            × (e ≡ over_limit (plain origins (caller_from contains_ip ip none) best) none)))
  SignsIn origins ip limiter panics = ⊥

  -- A sign-in never panics. It is let through if there is no limiter, if the limiter allows it, or if
  -- the limiter fails; otherwise the error tells when to retry, if ever.
  pub login_is_authorized-SignsIn :
      (origins : List (ℕ × ℕ)) (ip : ℕ) (limiter : Option (Result RedisError RedisRateLimitResult))
      → SignsIn origins ip limiter (login_is_authorized contains_ip origins ip limiter)
  unfolding login_is_authorized rate_limit_login external try_new check_ip check_header login_result
      login_authorized
  login_is_authorized-SignsIn origins ip none = (refl, inl refl)
  login_is_authorized-SignsIn origins ip (some (ok (Redis.allowed n))) = (refl, inr (inl (n, refl)))
  login_is_authorized-SignsIn origins ip (some (ok (Redis.retry_at t n))) = inl (t, n, refl, refl)
  login_is_authorized-SignsIn origins ip (some (ok Redis.retry_never)) = inr (refl, refl)
  login_is_authorized-SignsIn origins ip (some (err e)) = (refl, inr (inr (e, refl)))

  module _ (S : Type 0)
      (throttle : S
        → (key : ℕ) → (max : Option ℕ) → (count : ℕ) → Option (S × DeferredRateLimitResult)) where
    -- What an answer for an address says of the limiter's and of the semaphore's.
    abbrev pub Admits :
        Bool
        → S
        → Authorization
        → Result AuthorizationError (Option ℕ)
        → S × Outcome (FrontendError contains_ip) (Authorization × Option ℕ)
        → Type 0
    Admits has_limiter s a semaphore (s', done (b, permit)) =
        (b ≡ a)
        × (semaphore ≡ ok permit)
        × (((has_limiter ≡ false) × (s' ≡ s))
            ⊎ (throttle s a.caller.ip a.checks.max_requests_per_period 1 ≡ some (s', allowed)))
    Admits has_limiter s a semaphore (s', failed e) =
        ((x : AuthorizationError) × (semaphore ≡ err x) × (e ≡ internal_error x))
        ⊎ ((t : Option ℕ) × (e ≡ over_limit a t)
            × ((answer : DeferredRateLimitResult) × (throttle s a.caller.ip
                    a.checks.max_requests_per_period 1
                  ≡ some (s', answer))
                × (answer ≢ allowed)))
    Admits has_limiter s a semaphore (s', panics) = ⊥

    -- An address is let through only with the permit of its semaphore, and if there is no limiter or
    -- the limiter counted the request and allowed it, within the limit of the origin if it has one. It is
    -- refused only by an error of the semaphore or by the limiter. The code for a key that is not
    -- known is never reached.
    pub ip_is_authorized-Admits :
        (has_limiter : Bool) (s : S) (origins : List (ℕ × ℕ)) (ip : ℕ) (origin : Option ℕ)
        (proxy_mode : ProxyMode) (semaphore : Result AuthorizationError (Option ℕ))
        {answer : S × Outcome (FrontendError contains_ip) (Authorization × Option ℕ)}
        → ip_is_authorized contains_ip S throttle has_limiter s origins ip origin proxy_mode
            semaphore
          ≡ some answer
        → Admits has_limiter s
            (plain origins (caller_from contains_ip ip origin) proxy_mode)
            semaphore
            answer
    unfolding ip_is_authorized rate_limit_by_ip ip_limit external try_new check_ip check_header
        with_permit ip_result ip_authorized
    ip_is_authorized-Admits false s origins ip origin proxy_mode (ok permit) {answer} h =
        let same : (s, done (plain origins (caller_from contains_ip ip origin) proxy_mode, permit))
            ≡ answer =
          ground (arith, h) in
        rw (sym same) (refl, refl, inl (refl, refl))
    ip_is_authorized-Admits false s origins ip origin proxy_mode (err x) {answer} h =
        let same : (s, failed (internal_error x)) ≡ answer = ground (arith, h) in
        rw (sym same) (inl (x, refl, refl))
    ip_is_authorized-Admits true s origins ip origin proxy_mode semaphore {answer} h =
        go semaphore refl (throttle s ip (limit_of_origin origins origin) 1) refl
      where
        a : Authorization
        a = plain origins (caller_from contains_ip ip origin) proxy_mode

        go :
            (permit : Result AuthorizationError (Option ℕ))
            → semaphore ≡ permit
            → (t : Option (S × DeferredRateLimitResult))
            → throttle s ip (limit_of_origin origins origin) 1 ≡ t
            → Admits true s a semaphore answer
        go permit e none q = absurd (ground (arith, h, q))
        go (ok permit) e (some (s', allowed)) q =
            let same : (s', done (a, permit)) ≡ answer = ground (arith, h, q, e) in
            rw (sym same) (refl, e, inr q)
        go (err x) e (some (s', allowed)) q =
            let same : (s', failed (internal_error x)) ≡ answer = ground (arith, h, q, e) in
            rw (sym same) (inl (x, e, refl))
        go permit e (some (s', retry_at t)) q =
            let same : (s', failed (over_limit a (some t))) ≡ answer = ground (arith, h, q) in
            rw (sym same) (inr (some t, refl, (retry_at t, q, λ w. cc)))
        go permit e (some (s', retry_never)) q =
            let same : (s', failed (over_limit a none)) ≡ answer = ground (arith, h, q) in
            rw (sym same) (inr (none, refl, (retry_never, q, λ w. cc)))
