-- ===== src/App.antt =====
-- `proxy_cached_request` and `proxy_web3_rpc_requests` of web3_proxy/src/app/mod.rs: what is done with a request, by
-- its method. What it calls is the record `AppEnv`: the servers, the caches, the statistics, and the
-- texts and hashes of values. Logs for kafka and the list of recent transactions are left out.
pub mod Methods
pub mod Gas
pub mod Replies
pub mod Responses
pub mod Yields
pub mod Ids
pub mod Caching
use Prim.Native.String.{String, ◌++◌}
use text.Mathlib.Text.{◌==◌ as str_eq, starts_with}
use web3_proxy.Prelude.{
  ℕ, ◌+◌, ◌*◌, ◌/◌, ◌%◌, ◌^◌, ◌<◌, max, Bool, true, false, not, ◌&&◌, ◌||◌, Option, none, some,
  List, [], ◌∷◌, ltb, ◌==◌, if◌then◌else◌,
}
use web3_proxy.Prelude.Results.{Result, ok, err}
use web3_proxy.Prelude.Outcomes.{Outcome, done, failed, panics}
use web3_proxy.Prelude.Words.{saturating_sub}
use web3_proxy.Json.{Value, Values, null, bool, num, str, array, object, nil, cons}
use web3_proxy.Block.{Web3ProxyBlock, number}
use web3_proxy.BlockNumber.{BlockNeeded, cache_success_forever, cache_never, cache, cache_range}
use web3_proxy.JsonRpc.{
  JsonRpcRequest, JsonRpcErrorData, JsonRpcForwardedResponse, Code, minus, plus, from_string,
  from_response,
}
use web3_proxy.Rpc.{Web3Rpc}
use web3_proxy.Authorization.{
  Authorization, RequestMetadata, new_metadata, ProxyMode, best, fastest, versus, debug,
}
use web3_proxy.App.Methods.{
  Arm, unsupported, not_implemented, accounts, block_number, chain_id, coinbase, estimate_gas,
  hashrate, mining, send_raw_transaction, syncing, subscribe, unsubscribe, listening, peer_count,
  client_version, sha3, test, backend, arm_of,
}
use web3_proxy.App.Gas.{increased_gas}

pub data AppError : Type 0 where
  no_servers_synced access_denied bad_request not_a_u256 : AppError
  no_first_param : AppError
  -- From the servers, the blocks or the channel for statistics.
  other_error : ℕ → AppError

pub record ResponseCacheKey : Type 0 where
  pub from_block : Option Web3ProxyBlock
  pub to_block : Option Web3ProxyBlock
  pub method : String
  pub params : Option Value
  pub cache_errors : Bool

-- What a raw transaction is read as.
pub data Decoded : Type 0 where
  not_bytes not_a_transaction : Decoded
  hash_of_transaction : String → Decoded

pub record AppConfig : Type 0 where
  pub chain_id : ℕ
  pub archive_depth : ℕ
  pub gas_increase_min : Option ℕ
  pub gas_increase_percent : Option ℕ
  -- There are private servers.
  pub has_private_rpcs : Bool

pub record AppEnv : Type 1 where
  -- The servers, caches and channels.
  pub S : Type 0
  pub head_block_num : S → Option ℕ
  pub num_synced_rpcs : S → ℕ
  pub try_proxy_connection :
      JsonRpcRequest
      → (min_block_needed max_block_needed : Option ℕ) → S
      → RequestMetadata
      → S × RequestMetadata × Outcome AppError JsonRpcForwardedResponse
  pub try_send_all_synced_connections :
      (to_private : Bool)
      → JsonRpcRequest
      → (min_block_needed : ℕ) → (max_count : Option ℕ) → S
      → RequestMetadata
      → S × RequestMetadata × Outcome AppError JsonRpcForwardedResponse
  pub block_needed :
      (method : String)
      → Option Value
      → (head_block_num : ℕ) → S
      → S × Outcome AppError (Option Value × BlockNeeded)
  pub block_hash : (num : ℕ) → S → S × Outcome AppError (ℕ × ℕ)
  pub block : (hash : ℕ) → S → S × Outcome AppError Web3ProxyBlock
  pub cached : S → ResponseCacheKey → Option JsonRpcForwardedResponse
  pub insert : S → ResponseCacheKey → JsonRpcForwardedResponse → S
  pub send_stat :
      (method : String)
      → JsonRpcForwardedResponse
      → S
      → RequestMetadata
      → S × Outcome AppError (Unit {0})
  pub request_bytes : JsonRpcRequest → ℕ
  pub to_raw_value : Value → String
  pub json_num : ℕ → Value
  pub json_address_zero : Value
  pub app_user_agent : String
  pub parse_u256 : String → Option ℕ
  pub keccak256 : String → Option Value
  pub decode : String → Decoded

-- A step that works on the state and on the request's metadata.
abbrev pub Step : Type 0 → Type 0 → Type 0
Step S A = S → RequestMetadata → S × RequestMetadata × Outcome AppError A

module _ {S : Type 0} where
  abbrev pub pure : {A : Type 0} → A → Step S A
  pure a s m = (s, m, done a)

  abbrev pub fail : {A : Type 0} → AppError → Step S A
  fail e s m = (s, m, failed e)

  abbrev pub crash : {A : Type 0} → Step S A
  crash s m = (s, m, panics)

  abbrev pub continue :
      {A B : Type 0}
      → (A → Step S B)
      → S × RequestMetadata × Outcome AppError A
      → S × RequestMetadata × Outcome AppError B
  continue f (s, m, done a) = f a s m
  continue f (s, m, failed e) = (s, m, failed e)
  continue f (s, m, panics) = (s, m, panics)

  infixl 5 ◌>>=◌
  unfoldable pub ◌>>=◌ : {A B : Type 0} → Step S A → (A → Step S B) → Step S B
  (step >>= f) s m = continue f (step s m)

  -- A step that leaves the metadata alone.
  abbrev pub lift : {A : Type 0} → (S → S × Outcome AppError A) → Step S A
  lift f s m = let (s', r) = f s in (s', m, r)

  abbrev pub or_fail : {A : Type 0} → Option A → AppError → Step S A
  or_fail none e = fail e
  or_fail (some a) e = pure a

  abbrev pub with_rpcs : JsonRpcForwardedResponse → Step S (JsonRpcForwardedResponse × List Web3Rpc)
  with_rpcs response s m = (s, m, done (response, m.backend_requests))

abbrev pub Reply : Type 0
Reply = JsonRpcForwardedResponse × List Web3Rpc

abbrev or_else : Option ℕ → Option ℕ → Option ℕ
or_else none b = b
or_else (some a) b = some a

module _ (env : AppEnv) where
  open env use {S}

  -- The head that was given, or else the servers'.
  unfoldable pub head_num : Option ℕ → Step S ℕ
  head_num given s m = or_fail (or_else given (env.head_block_num s)) no_servers_synced s m

  -- The end of the function, for a partial response.
  unfoldable pub finish : JsonRpcRequest → Value → Step S Reply
  finish r v =
      let response = from_response (env.to_raw_value v) r.id in
      (λ s m. lift (λ t. env.send_stat r.method response t m) s m) >>= λ sent. with_rpcs response
