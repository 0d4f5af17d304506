-- ===== src/Stats.antt =====
-- The statistics of web3_proxy/src/app_stats.rs: what is kept of one response, and the key under
-- which it is added up.
pub mod Aggregate
pub mod Emitter
pub mod Keys
pub mod Groups
pub mod Totals
pub mod Periods
use Prim.Native.String.{String}
use text.Mathlib.Text.{◌==◌ as str_eq}
use web3_proxy.Prelude.{
  ℕ, Bool, true, false, ◌&&◌, Option, none, some, List, ◌==◌, bool_eq, option_eq, length,
}
use web3_proxy.Rpc.{Web3Rpc}
use web3_proxy.Entities.{LogLevel}
use web3_proxy.Authorization.{Authorization, RequestMetadata}

pub record ProxyResponseStat : Type 0 where
  pub authorization : Authorization
  pub method : String
  pub archive_request : Bool
  pub error_response : Bool
  pub request_bytes : ℕ
  pub backend_requests : ℕ
  pub response_bytes : ℕ
  pub response_millis : ℕ

-- `elapsed_millis` is the reading of the clock.
unfoldable pub new :
    (elapsed_millis : ℕ)
    → (method : String) → Authorization
    → RequestMetadata
    → (response_bytes : ℕ) → ProxyResponseStat
new elapsed_millis method authorization metadata response_bytes = record {
  authorization = authorization;
  method = method;
  archive_request = metadata.archive_request;
  error_response = metadata.error_response;
  request_bytes = metadata.request_bytes;
  backend_requests = length metadata.backend_requests;
  response_bytes = response_bytes;
  response_millis = elapsed_millis;
}

pub record ProxyResponseAggregateKey : Type 0 where
  pub archive_request : Bool
  pub error_response : Bool
  pub rpc_key_id : Option ℕ
  pub method : Option String
  pub origin : Option ℕ

-- The id of the key, or else the origin.
unfoldable pub who : Option ℕ → Option ℕ → Option ℕ × Option ℕ
who (some rpc_key_id) origin = (some rpc_key_id, none)
who none (some origin) = (none, some origin)
who none none = (none, none)

unfoldable pub logged : LogLevel → (rpc_key_id : Option ℕ) → String → Option ℕ × Option String
logged LogLevel.none rpc_key_id method = (none, some method)
logged LogLevel.aggregated rpc_key_id method = (rpc_key_id, none)
logged LogLevel.detailed rpc_key_id method = (rpc_key_id, some method)

unfoldable pub key : ProxyResponseStat → ProxyResponseAggregateKey
key s =
    let checks = s.authorization.checks in
    let (found_id, origin) = who checks.rpc_secret_key_id s.authorization.caller.origin in
    let (rpc_key_id, method) = logged checks.log_level found_id s.method in
    record {
      archive_request = s.archive_request;
      error_response = s.error_response;
      rpc_key_id = rpc_key_id;
      method = method;
      origin = origin;
    }

-- The derived `PartialEq`.
unfoldable pub key_eq : ProxyResponseAggregateKey → ProxyResponseAggregateKey → Bool
key_eq a b =
    bool_eq a.archive_request b.archive_request
    && bool_eq a.error_response b.error_response
    && option_eq (λ x y. x == y) a.rpc_key_id b.rpc_key_id
    && option_eq (λ x y. str_eq x y) a.method b.method
    && option_eq (λ x y. x == y) a.origin b.origin
