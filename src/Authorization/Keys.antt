-- ===== src/Authorization/Keys.antt =====
-- Who is let through with a key.
use web3_proxy.Prelude.{
  ℕ, ◌≡◌, ap, ◌≢◌, ◌⊎◌, inl, inr, refl, Bool, true, false, Option, none, some, arith, Option-cases,
}
use web3_proxy.Prelude.Results.{Result, ok, err}
use web3_proxy.RateLimit.Deferred.{DeferredRateLimitResult, allowed, retry_at, retry_never}
use web3_proxy.Authorization.{
  AuthorizationChecks, Caller, Authorization, AuthorizationError, frontend, try_new, allowed_with,
  limit_result, after_limit, limit_user, with_authorization, with_semaphore, with_checks,
  rate_limit_by_rpc_key,
}

module _ (contains_ip : ℕ → ℕ → Bool) (S : Type 0)
    (throttle : S
      → (key : ℕ) → (max : Option ℕ) → (count : ℕ) → Option (S × DeferredRateLimitResult)) where
  -- No limit, no limiter, or a limiter that counted the request and allowed it.
  abbrev pub Paid : Bool → S → AuthorizationChecks → S → Type 0
  Paid has_limiter s checks s' =
      (checks.max_requests_per_period ≡ none)
      ⊎ (has_limiter ≡ false)
      ⊎ (throttle s checks.user_id checks.max_requests_per_period 1 ≡ some (s', allowed))

  after_limit-allowed :
      (s' : S) (a b : Authorization) (semaphore permit : Option ℕ)
      (r : Option (S × DeferredRateLimitResult))
      → after_limit contains_ip S throttle a semaphore r ≡ some (s', ok (allowed_with b permit))
      → (a ≡ b) × (semaphore ≡ permit) × (r ≡ some (s', allowed))
  unfolding after_limit limit_result
  after_limit-allowed s' a b semaphore permit none h = cc
  after_limit-allowed s' a b semaphore permit (some (t, allowed)) h = (cc, cc, ground arith)
  after_limit-allowed s' a b semaphore permit (some (t, retry_at n)) h = cc
  after_limit-allowed s' a b semaphore permit (some (t, retry_never)) h = cc

  limit_user-Paid :
      (has_limiter : Bool) (s s' : S) (a b : Authorization) (semaphore permit max : Option ℕ)
      → a.checks.max_requests_per_period ≡ max
      → limit_user contains_ip S throttle has_limiter s a semaphore max
        ≡ some (s', ok (allowed_with b permit))
      → (a ≡ b) × (semaphore ≡ permit) × Paid has_limiter s a.checks s'
  unfolding limit_user
  limit_user-Paid has_limiter s s' a b semaphore permit none e h = (cc, cc, inl e)
  limit_user-Paid false s s' a b semaphore permit (some max) e h = (cc, cc, inr (inl refl))
  limit_user-Paid true s s' a b semaphore permit (some max) e h =
      let (p, q, r) = after_limit-allowed s' a b semaphore permit _ h in (p, q, inr (inr (rw e r)))

  with_authorization-Paid :
      (has_limiter : Bool) (s s' : S) (semaphore permit : Option ℕ)
      (r : Result AuthorizationError Authorization) (b : Authorization)
      → with_authorization contains_ip S throttle has_limiter s semaphore r
        ≡ some (s', ok (allowed_with b permit))
      → (r ≡ ok b) × (semaphore ≡ permit) × Paid has_limiter s b.checks s'
  unfolding with_authorization
  with_authorization-Paid has_limiter s s' semaphore permit (err e) b h = cc
  with_authorization-Paid has_limiter s s' semaphore permit (ok a) b h =
      let (p, q, r) =
        limit_user-Paid has_limiter s s' a b semaphore permit a.checks.max_requests_per_period refl
          h in
      (ap ok p, q, rw p at r)

  -- A request with a key is let through only if the key was found and has an id, the semaphore gave the
  -- permit, the caller is one that the key's checks allow, and the user has no limit, there is no
  -- limiter, or the limiter counted the request and allowed it.
  pub rate_limit_by_rpc_key-Paid :
      (has_limiter : Bool) (s : S) (caller : Caller)
      (found : Result AuthorizationError AuthorizationChecks)
      (semaphore : Result AuthorizationError (Option ℕ)) {s' : S} {a : Authorization}
      {permit : Option ℕ}
      → rate_limit_by_rpc_key contains_ip S throttle has_limiter s caller found semaphore
        ≡ some (s', ok (allowed_with a permit))
      → (checks : AuthorizationChecks) × (found ≡ ok checks)
        × (checks.rpc_secret_key_id ≢ none)
        × (semaphore ≡ ok permit)
        × (try_new contains_ip checks caller frontend ≡ ok a)
        × Paid has_limiter s a.checks s'
  unfolding rate_limit_by_rpc_key with_checks with_semaphore
  rate_limit_by_rpc_key-Paid has_limiter s caller (err e) semaphore h = cc
  rate_limit_by_rpc_key-Paid has_limiter s caller (ok checks) semaphore {s'} {a} {permit} h =
      elim (Option-cases checks.rpc_secret_key_id) [
        | inl gone ↦ absurd (ground arith)
        | inr (id, e) ↦
            let (p, q, r) = go semaphore (ground arith) in (checks, refl, ground arith, p, q, r)
      ]
    where
      go :
          (sem : Result AuthorizationError (Option ℕ))
          → with_semaphore contains_ip S throttle has_limiter s checks caller sem
            ≡ some (s', ok (allowed_with a permit))
          → (sem ≡ ok permit)
            × (try_new contains_ip checks caller frontend ≡ ok a)
            × Paid has_limiter s a.checks s'
      go (err x) k = cc
      go (ok permit') k =
          let (p, q, r) = with_authorization-Paid has_limiter s s' permit' permit _ a k in
          (ap ok q, p, r)
