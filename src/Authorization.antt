-- ===== src/Authorization.antt =====
-- `Authorization` and the limits on users of web3_proxy/src/frontend/authorization.rs.
-- Origins, referers, user agents, addresses and networks are only compared here, and are numbers.
-- `contains_ip` says whether a network holds an address. The database's answer for a key and the
-- permits of the semaphores are passed in. The deferred limiter never returns an error, so that arm is
-- not there. A chance is counted in units of 2 ^ -1074, of which every `f64` is a whole number.
pub mod Checks
pub mod Keys
pub mod Callers
pub mod Addresses
use web3_proxy.Prelude.{
  ℕ, ◌≡◌, Bool, true, false, Option, none, some, List, [], ◌∷◌, any, contains, if◌then◌else◌,
}
use web3_proxy.Prelude.Results.{Result, ok, err, ◌>>=◌}
use web3_proxy.Rpc.{Web3Rpc}
use web3_proxy.Entities.{LogLevel}
use web3_proxy.RateLimit.Deferred.{DeferredRateLimitResult, allowed, retry_at, retry_never}

-- Both hold 128 bits.
pub data RpcSecretKey : Type 0 where
  ulid uuid : ℕ → RpcSecretKey

pub data ProxyMode : Type 0 where
  best : ProxyMode
  fastest : ℕ → ProxyMode
  versus debug : ProxyMode

-- `None` in a list of what is allowed allows everything.
pub record AuthorizationChecks : Type 0 where
  pub user_id : ℕ
  pub rpc_secret_key : Option RpcSecretKey
  pub rpc_secret_key_id : Option ℕ
  pub max_requests_per_period : Option ℕ
  pub max_concurrent_requests : Option ℕ
  pub allowed_origins : Option (List ℕ)
  pub allowed_referers : Option (List ℕ)
  pub allowed_user_agents : Option (List ℕ)
  pub allowed_ips : Option (List ℕ)
  pub log_level : LogLevel
  pub log_revert_chance : ℕ
  pub private_txs : Bool
  pub proxy_mode : ProxyMode

pub data AuthorizationType : Type 0 where
  internal frontend : AuthorizationType

-- Who asks, and with which headers.
pub record Caller : Type 0 where
  pub ip : ℕ
  pub origin : Option ℕ
  pub referer : Option ℕ
  pub user_agent : Option ℕ

pub record Authorization : Type 0 where
  pub checks : AuthorizationChecks
  pub caller : Caller
  pub authorization_type : AuthorizationType

-- The clock's readings at the start are kept by the caller.
pub record RequestMetadata : Type 0 where
  pub period_seconds : ℕ
  pub request_bytes : ℕ
  pub archive_request : Bool
  pub backend_requests : List Web3Rpc
  pub no_servers : ℕ
  pub error_response : Bool
  pub response_bytes : ℕ
  pub response_millis : ℕ
  pub response_from_backup_rpc : Bool

unfoldable pub new_metadata : (period_seconds request_bytes : ℕ) → RequestMetadata
new_metadata period_seconds request_bytes = record {
  period_seconds = period_seconds;
  request_bytes = request_bytes;
  archive_request = false;
  backend_requests = [];
  no_servers = 0;
  error_response = false;
  response_bytes = 0;
  response_millis = 0;
  response_from_backup_rpc = false;
}

pub data AuthorizationError : Type 0 where
  ip_not_allowed : AuthorizationError
  origin_required origin_not_allowed : AuthorizationError
  referer_required referer_not_allowed : AuthorizationError
  user_agent_required user_agent_not_allowed : AuthorizationError
  checks_failed semaphore_failed : AuthorizationError

-- The match on a header and what is allowed of it.
unfoldable pub check_header :
    (missing refused : AuthorizationError)
    → Option ℕ
    → Option (List ℕ)
    → Result AuthorizationError (Unit {0})
check_header missing refused header none = ok tt
check_header missing refused none (some xs) = err missing
check_header missing refused (some x) (some xs) = if contains xs x then ok tt else err refused

module _ (contains_ip : ℕ → ℕ → Bool) where
  unfoldable pub check_ip : ℕ → Option (List ℕ) → Result AuthorizationError (Unit {0})
  check_ip ip none = ok tt
  check_ip ip (some nets) =
      if any (λ net. contains_ip net ip) nets then ok tt else err ip_not_allowed

  unfoldable pub try_new :
      AuthorizationChecks → Caller → AuthorizationType → Result AuthorizationError Authorization
  try_new checks caller type = check_ip caller.ip checks.allowed_ips >>= λ a.
      check_header origin_required origin_not_allowed caller.origin checks.allowed_origins >>= λ b.
      check_header referer_required referer_not_allowed caller.referer checks.allowed_referers
      >>= λ c.
          check_header user_agent_required user_agent_not_allowed caller.user_agent
            checks.allowed_user_agents
          >>= λ d. ok (record { checks = checks; caller = caller; authorization_type = type })

pub data RateLimitResult : Type 0 where
  allowed_with : Authorization → (semaphore : Option ℕ) → RateLimitResult
  rate_limited : Authorization → (retry : Option ℕ) → RateLimitResult
  unknown_key : RateLimitResult

-- The match on the answer of the limiter for registered users.
unfoldable pub limit_result : Authorization → Option ℕ → DeferredRateLimitResult → RateLimitResult
limit_result a semaphore allowed = allowed_with a semaphore
limit_result a semaphore (retry_at t) = rate_limited a (some t)
limit_result a semaphore retry_never = rate_limited a none

-- With the limiter as a function of its state, the user, the limit and the count; `none` is its panic.
module _ (contains_ip : ℕ → ℕ → Bool) (S : Type 0)
    (throttle : S
      → (key : ℕ) → (max : Option ℕ) → (count : ℕ) → Option (S × DeferredRateLimitResult)) where
  after_limit :
      Authorization
      → Option ℕ
      → Option (S × DeferredRateLimitResult)
      → Option (S × Result AuthorizationError RateLimitResult)
  after_limit a semaphore none = none
  after_limit a semaphore (some (s, answer)) = some (s, ok (limit_result a semaphore answer))

  -- A user without a limit, and a proxy without a limiter, are let through.
  limit_user :
      (has_limiter : Bool)
      → S
      → Authorization
      → Option ℕ
      → Option ℕ
      → Option (S × Result AuthorizationError RateLimitResult)
  unfolding after_limit
  limit_user has_limiter s a semaphore none = some (s, ok (allowed_with a semaphore))
  limit_user false s a semaphore (some max) = some (s, ok (allowed_with a semaphore))
  limit_user true s a semaphore (some max) =
      after_limit a semaphore (throttle s a.checks.user_id (some max) 1)

  with_authorization :
      (has_limiter : Bool)
      → S
      → Option ℕ
      → Result AuthorizationError Authorization
      → Option (S × Result AuthorizationError RateLimitResult)
  unfolding limit_user
  with_authorization has_limiter s semaphore (err e) = some (s, err e)
  with_authorization has_limiter s semaphore (ok a) =
      limit_user has_limiter s a semaphore a.checks.max_requests_per_period

  with_semaphore :
      (has_limiter : Bool)
      → S
      → AuthorizationChecks
      → Caller
      → Result AuthorizationError (Option ℕ)
      → Option (S × Result AuthorizationError RateLimitResult)
  unfolding with_authorization
  with_semaphore has_limiter s checks caller (err e) = some (s, err e)
  with_semaphore has_limiter s checks caller (ok semaphore) =
      with_authorization has_limiter s semaphore (try_new contains_ip checks caller frontend)

  with_checks :
      (has_limiter : Bool)
      → S
      → Caller
      → (semaphore : Result AuthorizationError (Option ℕ)) → AuthorizationChecks
      → Option ℕ
      → Option (S × Result AuthorizationError RateLimitResult)
  unfolding with_semaphore
  with_checks has_limiter s caller semaphore checks none = some (s, ok unknown_key)
  with_checks has_limiter s caller semaphore checks (some id) =
      with_semaphore has_limiter s checks caller semaphore

  unfoldable pub rate_limit_by_rpc_key :
      (has_limiter : Bool)
      → S
      → Caller
      → (found : Result AuthorizationError AuthorizationChecks)
      → (semaphore : Result AuthorizationError (Option ℕ))
      → Option (S × Result AuthorizationError RateLimitResult)
  unfolding with_checks
  rate_limit_by_rpc_key has_limiter s caller (err e) semaphore = some (s, err e)
  rate_limit_by_rpc_key has_limiter s caller (ok checks) semaphore =
      with_checks has_limiter s caller semaphore checks checks.rpc_secret_key_id
