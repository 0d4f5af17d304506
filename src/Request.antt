-- ===== src/Request.antt =====
-- A request to one server: web3_proxy/src/rpcs/request.rs. The answer of the node is passed in. Logging is left out.
-- A chance is counted as in `AuthorizationChecks`.
pub mod Counters
pub mod Reverts
use Prim.Native.String.{String}
use text.Mathlib.Text.{◌==◌ as str_eq, starts_with, find?}
use web3_proxy.Prelude.{
  ℕ, ◌+◌, ◌-◌, ◌%◌, ◌^◌, Bool, true, false, not, ◌||◌, Option, none, some, List, [], ◌∷◌, ltb, ◌==◌,
  if◌then◌else◌,
}
use web3_proxy.Prelude.Results.{Result, ok, err}
use web3_proxy.Prelude.Words.{wrapping_add, wrapping_sub}
use web3_proxy.JsonRpc.{
  ClientError, json_rpc_error, other_client_error, ProviderError, http_client_error,
  ws_client_error, unknown_client_error, other_error,
}
use web3_proxy.Entities.{Method}
use web3_proxy.Authorization.{Authorization}

pub data RequestRevertHandler : Type 0 where
  trace_level debug_level error_level warn_level save : RequestRevertHandler

-- `log::Level`.
pub data Level : Type 0 where
  error warn info debug trace : Level

-- `none` is the `unimplemented!`.
unfoldable pub from_level : Level → Option RequestRevertHandler
from_level trace = some trace_level
from_level debug = some debug_level
from_level error = some error_level
from_level warn = some warn_level
from_level info = none

-- `Web3Provider`, by the clients that it has.
pub data Provider : Type 0 where
  http ws both : Provider

pub data ResponseType : Type 0 where
  revert rate_limit fine : ResponseType

unfoldable pub str_contains : String → String → Bool
str_contains s t = elim (find? s t) [ none ↦ false | some i ↦ true ]

unfoldable pub type_of_message : Option String → ResponseType
type_of_message none = fine
type_of_message (some msg) =
    if starts_with msg "execution reverted"
    then revert
    else if str_contains msg "limit" || str_contains msg "request"
    then rate_limit
    else fine

abbrev pub message_in : ClientError → Option String
message_in (json_rpc_error e) = some e.message
message_in other_client_error = none

-- The clients that are tried depend on the provider.
unfoldable pub message_of : Provider → ProviderError → Option String
message_of http (http_client_error e) = message_in e
message_of http (ws_client_error e) = none
message_of ws (http_client_error e) = none
message_of ws (ws_client_error e) = message_in e
message_of both (http_client_error e) = message_in e
message_of both (ws_client_error e) = message_in e
message_of p unknown_client_error = none
message_of p other_error = none

unfoldable pub response_type : Provider → ProviderError → ResponseType
response_type p e = type_of_message (message_of p e)

-- `1.0`.
abbrev pub certain : ℕ
certain = 2 ^ 1074

-- `draw` is the random number between 0 and 1.
unfoldable pub chance_handler : (log_revert_chance draw : ℕ) → RequestRevertHandler
chance_handler log_revert_chance draw =
    if log_revert_chance == 0
    then trace_level
    else if log_revert_chance == certain
    then save
    else if ltb draw log_revert_chance
    then trace_level
    else save

unfoldable pub is_saved_method : String → Bool
is_saved_method method = str_eq method "eth_call" || str_eq method "eth_estimateGas"

unfoldable pub revert_handler_of :
    RequestRevertHandler
    → (method : String) → (has_db : Bool) → (log_revert_chance draw : ℕ) → RequestRevertHandler
revert_handler_of save method has_db log_revert_chance draw =
    if not (is_saved_method method)
    then trace_level
    else if has_db
    then chance_handler log_revert_chance draw
    else trace_level
revert_handler_of trace_level method has_db log_revert_chance draw = trace_level
revert_handler_of debug_level method has_db log_revert_chance draw = debug_level
revert_handler_of error_level method has_db log_revert_chance draw = error_level
revert_handler_of warn_level method has_db log_revert_chance draw = warn_level

-- `Method::try_from_value`.
unfoldable pub method_of : String → Option Method
method_of s =
    if str_eq s "eth_call"
    then some Method.eth_call
    else if str_eq s "eth_estimateGas"
    then some Method.eth_estimate_gas
    else if str_eq s "eth_sendRawTransaction"
    then some Method.eth_send_raw_transaction
    else none

-- An address is a number.
pub record EthCallFirstParams : Type 0 where
  pub to : ℕ
  pub data_of_call : Option String

pub record RevertLog : Type 0 where
  pub rpc_key_id : ℕ
  pub method : Method
  pub to : ℕ
  pub call_data : Option String
  pub timestamp : ℕ

pub data SaveError : Type 0 where
  no_database_connection : SaveError

-- The row that goes to the database, if one does.
unfoldable pub save_revert :
    Authorization
    → (has_db : Bool) → (timestamp : ℕ) → Method
    → EthCallFirstParams
    → Result SaveError (Option RevertLog)
save_revert a has_db timestamp method params = elim a.checks.rpc_secret_key_id [
  | none ↦ ok none
  | some rpc_key_id ↦
      if has_db
      then ok (
          some (record {
            rpc_key_id = rpc_key_id;
            method = method;
            to = params.to;
            call_data = params.data_of_call;
            timestamp = timestamp;
          }))
      else err no_database_connection
]

-- The provider that is there at once, or else the first one that the readings show, one every 100
-- milliseconds; `none` while it is still waited for.
unfoldable pub wait_for_provider : Option Provider → List (Option Provider) → Option Provider
wait_for_provider (some p) readings = some p
wait_for_provider none [] = none
wait_for_provider none (r ∷ readings) = wait_for_provider r readings

-- The fields of `Web3Rpc` that a request changes.
pub record RpcCounters : Type 0 where
  pub total_requests : ℕ
  pub active_requests : ℕ
  pub hard_limit_until : Option ℕ

-- A rate limit is kept for a second, in nanoseconds, where there is a channel for it.
unfoldable pub limit_until : (now : ℕ) → ResponseType → Option ℕ → Option ℕ
limit_until now rate_limit (some until) = some (now + 1_000_000_000)
limit_until now rate_limit none = none
limit_until now revert until = until
limit_until now fine until = until

-- How it ends: without a provider so far, dropped by the caller during the request, with the answer, or
-- by a panic. What is spawned to be saved comes with the answer.
pub data Requested (R : Type 0) : Type 0 where
  waiting dropped panicked : Requested R
  answered : Result ProviderError R → Option (Method × EthCallFirstParams) → Requested R

-- What the caller, the clock and the random numbers bring.
pub record Asked (P : Type 0) : Type 0 where
  pub authorization : Authorization
  pub has_db : Bool
  pub method : String
  pub params : P
  pub revert_handler : RequestRevertHandler
  pub now : ℕ
  pub draw : ℕ

-- Parsing by serde is the parameter `parse_params`.
module _ {P R : Type 0} (parse_params : P → Option EthCallFirstParams) where
  -- The arm for `Save`, with its two calls of `unwrap`.
  unfoldable pub spawn_save : (method : String) → P → ProviderError → Requested R
  spawn_save method params e = elim (method_of method) [
    | none ↦ panicked
    | some m ↦ elim (parse_params params) [
      | none ↦ panicked
      | some p ↦ answered (err e) (some (m, p))
    ]
  ]

  unfoldable pub handle_error :
      RequestRevertHandler → (method : String) → P → ProviderError → Requested R
  handle_error save method params e = spawn_save method params e
  handle_error trace_level method params e = answered (err e) none
  handle_error debug_level method params e = answered (err e) none
  handle_error error_level method params e = answered (err e) none
  handle_error warn_level method params e = answered (err e) none

  -- From the answer on; `none` if the caller drops the request before there is one.
  unfoldable pub after_request :
      Asked P → Provider → RpcCounters → Option (Result ProviderError R) → RpcCounters × Requested R
  after_request asked p c none = (c, dropped)
  after_request asked p c (some (ok r)) =
      (record c { active_requests = wrapping_sub c.active_requests 1 }, answered (ok r) none)
  after_request asked p c (some (err e)) =
      let handler =
        revert_handler_of asked.revert_handler asked.method asked.has_db
          asked.authorization.checks.log_revert_chance asked.draw in
      (
        record c {
          active_requests = wrapping_sub c.active_requests 1;
          hard_limit_until = limit_until asked.now (response_type p e) c.hard_limit_until;
        },
        handle_error handler asked.method asked.params e,
      )

  unfoldable pub request :
      Asked P
      → (unlocked_provider : Option Provider) → (readings : List (Option Provider))
      → (Provider → Option (Result ProviderError R))
      → RpcCounters
      → RpcCounters × Requested R
  request asked unlocked_provider readings answer c =
      elim (wait_for_provider unlocked_provider readings) [
        | none ↦ (c, waiting)
        | some p ↦
            after_request asked p
              (record c {
                total_requests = wrapping_add c.total_requests 1;
                active_requests = wrapping_add c.active_requests 1;
              })
              (answer p)
      ]
