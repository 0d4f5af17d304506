-- ===== src/Examples/Users.antt =====
-- Callers and keys on the examples: the limiter counts up to 2.
use web3_proxy.Prelude.{
  ℕ, ◌+◌, ◌≡◌, ◌≢◌, ◌↔◌, refl, Bool, true, false, Option, none, some, [], ◌∷◌, ◌==◌, leb, contains,
  any, if◌then◌else◌,
}
use web3_proxy.Prelude.Results.{Result, ok}
use web3_proxy.RateLimit.Deferred.{DeferredRateLimitResult, allowed, retry_never}
use web3_proxy.Entities.{LogLevel}
use web3_proxy.Authorization.{
  AuthorizationChecks, ulid, best, Caller, Authorization, AuthorizationError, frontend,
  check_header, check_ip, try_new, allowed_with, limit_result, rate_limit_by_rpc_key,
}
use web3_proxy.Authorization.Checks.{IsAllowed, try_new_iff}
use web3_proxy.Authorization.Keys.{Paid, rate_limit_by_rpc_key-Paid}
use web3_proxy.Prelude.{List}
use web3_proxy.Prelude.Outcomes.{done}
use web3_proxy.Authorization.Callers.{
  external, caller_from, ip_is_authorized, rate_limit_by_ip, ip_limit, with_permit, ip_result,
  ip_authorized, origin_limit,
}
use web3_proxy.Authorization.Addresses.{plain, Admits, ip_is_authorized-Admits}

abbrev pub checks : AuthorizationChecks
checks = record {
  user_id = 6;
  rpc_secret_key = some (ulid 77);
  rpc_secret_key_id = some 1;
  max_requests_per_period = some 2;
  max_concurrent_requests = none;
  allowed_origins = some (40 ∷ 41 ∷ []);
  allowed_referers = none;
  allowed_user_agents = none;
  allowed_ips = some (127 ∷ []);
  log_level = LogLevel.detailed;
  log_revert_chance = 0;
  private_txs = false;
  proxy_mode = best;
}

abbrev pub caller : Caller
caller = record { ip = 127; origin = some 41; referer = none; user_agent = some 9 }

-- Each network holds one address.
abbrev pub contains_ip : ℕ → ℕ → Bool
contains_ip net ip = net == ip

abbrev pub authorization : Authorization
authorization = record { checks = checks; caller = caller; authorization_type = frontend }

try_new_iff_example : (try_new contains_ip checks caller frontend ≡ ok authorization) ↔ (
    IsAllowed contains_ip checks caller
    × (authorization ≡ record { checks = checks; caller = caller; authorization_type = frontend }))
try_new_iff_example = try_new_iff contains_ip checks caller frontend authorization

abbrev throttle : ℕ → ℕ → Option ℕ → ℕ → Option (ℕ × DeferredRateLimitResult)
throttle s key max count = some (s + count, if leb (s + count) 2 then allowed else retry_never)

abbrev found : Result AuthorizationError AuthorizationChecks
found = ok checks

abbrev permit : Result AuthorizationError (Option ℕ)
permit = ok (some 5)

let_through :
    rate_limit_by_rpc_key contains_ip ℕ throttle true 1 caller found permit
    ≡ some (2, ok (allowed_with authorization (some 5)))
unfolding rate_limit_by_rpc_key try_new check_ip check_header limit_result contains any
let_through = refl

rate_limit_by_rpc_key-Paid_example :
    (c : AuthorizationChecks) × (found ≡ ok c)
    × (c.rpc_secret_key_id ≢ none)
    × (permit ≡ ok (some 5))
    × (try_new contains_ip c caller frontend ≡ ok authorization)
    × Paid contains_ip ℕ throttle true 1 authorization.checks 2
rate_limit_by_rpc_key-Paid_example =
    rate_limit_by_rpc_key-Paid contains_ip ℕ throttle true 1 caller found permit let_through

-- The origin 41 may make one request; the limiter counts up to 2.
abbrev origins : List (ℕ × ℕ)
origins = (41, 1) ∷ []

abbrev visitor : Authorization
visitor = plain contains_ip origins (caller_from contains_ip 127 (some 41)) best

visitor_let_through :
    ip_is_authorized contains_ip ℕ throttle true 1 origins 127 (some 41) best permit
    ≡ some (2, done (visitor, some 5))
unfolding ip_is_authorized rate_limit_by_ip ip_limit external try_new check_ip check_header
    with_permit ip_result ip_authorized origin_limit
visitor_let_through = refl

ip_is_authorized-Admits_example :
    Admits contains_ip ℕ throttle true 1 visitor permit (2, done (visitor, some 5))
ip_is_authorized-Admits_example =
    ip_is_authorized-Admits contains_ip ℕ throttle true 1 origins 127 (some 41) best permit
      visitor_let_through
