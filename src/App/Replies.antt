-- ===== src/App/Replies.antt =====
-- The longer arms of `proxy_cached_request` of web3_proxy/src/app/mod.rs.
use Prim.Native.String.{String}
use text.Mathlib.Text.{◌==◌ as str_eq}
use web3_proxy.Prelude.{
  ℕ, ◌*◌, ◌%◌, ◌^◌, Bool, true, false, ◌&&◌, ◌||◌, Option, none, some, List, [], ltb, ◌==◌,
  if◌then◌else◌,
}
use web3_proxy.Prelude.Words.{saturating_sub}
use web3_proxy.Json.{Value, null, bool, num, str, array, object, nil, cons}
use web3_proxy.Block.{Web3ProxyBlock}
use web3_proxy.BlockNumber.{BlockNeeded, cache_success_forever, cache_never, cache, cache_range}
use web3_proxy.JsonRpc.{
  JsonRpcRequest, JsonRpcErrorData, JsonRpcForwardedResponse, Code, minus, plus, from_string,
}
use web3_proxy.Prelude.Outcomes.{done}
use web3_proxy.Rpc.{Web3Rpc}
use web3_proxy.Authorization.{Authorization, ProxyMode, best, fastest, versus, debug}
use web3_proxy.App.{
  bad_request, not_a_u256, no_first_param, ResponseCacheKey, not_bytes, not_a_transaction,
  hash_of_transaction, AppConfig, AppEnv, Step, pure, crash, ◌>>=◌, lift, or_fail, Reply, with_rpcs,
  head_num, finish,
}
use web3_proxy.App.Gas.{increased_gas}

-- A response without servers.
abbrev pub at_once : JsonRpcForwardedResponse → JsonRpcForwardedResponse × List Web3Rpc
at_once response = (response, [])

-- `default_num` for raw transactions; `usize` wraps around.
unfoldable pub default_num : ProxyMode → Option ℕ
default_num best = some 4
default_num debug = some 4
default_num (fastest x) = if x == 0 then none else some (x * 4 % 2 ^ 64)
default_num versus = none

-- The two messages for a transaction that is known.
unfoldable pub is_known : JsonRpcErrorData → Bool
is_known e =
    is_32000 e.code
    && (str_eq e.message "ALREADY_EXISTS: already known"
        || str_eq e.message "INTERNAL_ERROR: existing tx with same hash")
  where
    is_32000 : Code → Bool
    is_32000 (minus n) = n == 32000
    is_32000 (plus n) = false

-- `params.as_array()?.get(0)?.as_str()?`.
unfoldable pub first_str : Option Value → Option String
first_str (some (array (cons (str s) rest))) = some s
first_str (some (array (cons null rest))) = none
first_str (some (array (cons (bool b) rest))) = none
first_str (some (array (cons (num n) rest))) = none
first_str (some (array (cons (array vs) rest))) = none
first_str (some (array (cons (object ms) rest))) = none
first_str (some (array nil)) = none
first_str (some null) = none
first_str (some (bool b)) = none
first_str (some (num n)) = none
first_str (some (str s)) = none
first_str (some (object ms)) = none
first_str none = none

module _ (env : AppEnv) (config : AppConfig) where
  -- The estimate of a server, increased.
  unfoldable pub increase_estimate :
      JsonRpcRequest → JsonRpcForwardedResponse → (result : Option String) → Step env.S Reply
  increase_estimate r response none = with_rpcs response
  increase_estimate r response (some raw) =
      or_fail (env.parse_u256 raw) not_a_u256 >>= λ gas_estimate.
      elim (increased_gas config.gas_increase_percent config.gas_increase_min gas_estimate) [
        | none ↦ crash
        | some gas ↦ finish env r (env.json_num gas)
      ]

  unfoldable pub estimate_gas_reply : JsonRpcRequest → Step env.S Reply
  estimate_gas_reply r = env.try_proxy_connection r none none >>= λ response.
      increase_estimate r response response.result

  -- A known transaction counts as sent; its hash is the result.
  unfoldable pub known_transaction :
      JsonRpcRequest → JsonRpcForwardedResponse → Step env.S JsonRpcForwardedResponse
  known_transaction r response = or_fail (first_str r.params) no_first_param >>= λ raw.
      elim (env.decode raw) [
        | not_bytes ↦ crash
        | not_a_transaction ↦ pure response
        | hash_of_transaction hash ↦ pure (record response { error = none; result = some hash })
      ]

  unfoldable pub sent_response :
      JsonRpcRequest
      → JsonRpcForwardedResponse
      → (error : Option JsonRpcErrorData) → Step env.S JsonRpcForwardedResponse
  sent_response r response none = pure response
  sent_response r response (some e) =
      if is_known e then known_transaction r response else pure response

  -- To all the private servers, or to some of the others.
  unfoldable pub send_raw_reply :
      Authorization → JsonRpcRequest → (head_block_num : Option ℕ) → Step env.S Reply
  send_raw_reply authorization r head_block_num =
      let to_private = config.has_private_rpcs && authorization.checks.private_txs in
      let num = if to_private then none else default_num authorization.checks.proxy_mode in
      head_num env head_block_num >>= λ head.
      env.try_send_all_synced_connections to_private r (saturating_sub head 2) num >>= λ response.
      sent_response r response response.error >>= λ response'. with_rpcs response'

  unfoldable pub invalid_request : Code → JsonRpcRequest → Step env.S Reply
  invalid_request code r = pure (at_once (from_string "Invalid request" (some code) (some r.id)))

  unfoldable pub sha3_reply : JsonRpcRequest → Option Value → Step env.S Reply
  sha3_reply r (some (array (cons (str s) nil))) =
      or_fail (env.keccak256 s) bad_request >>= λ hash. finish env r hash
  sha3_reply r (some (array (cons (str s) (cons v vs)))) = invalid_request (minus 32600) r
  sha3_reply r (some (array (cons null vs))) = invalid_request (minus 32600) r
  sha3_reply r (some (array (cons (bool b) vs))) = invalid_request (minus 32600) r
  sha3_reply r (some (array (cons (num n) vs))) = invalid_request (minus 32600) r
  sha3_reply r (some (array (cons (array a) vs))) = invalid_request (minus 32600) r
  sha3_reply r (some (array (cons (object o) vs))) = invalid_request (minus 32600) r
  sha3_reply r (some (array nil)) = invalid_request (minus 32600) r
  sha3_reply r (some null) = pure (at_once (from_string "invalid request" none (some r.id)))
  sha3_reply r (some (bool b)) = pure (at_once (from_string "invalid request" none (some r.id)))
  sha3_reply r (some (num n)) = pure (at_once (from_string "invalid request" none (some r.id)))
  sha3_reply r (some (str s)) = pure (at_once (from_string "invalid request" none (some r.id)))
  sha3_reply r (some (object o)) = pure (at_once (from_string "invalid request" none (some r.id)))
  sha3_reply r none = pure (at_once (from_string "invalid request" none (some r.id)))

  -- The last block of a range.
  unfoldable pub to_block_of : (num : ℕ) → Step env.S Web3ProxyBlock
  to_block_of n = lift (env.block_hash n) >>= λ found. lift (env.block found.0)

  -- The mark for requests to an archive.
  unfoldable pub mark_archive : (block_depth : ℕ) → Step env.S (Unit {0})
  mark_archive block_depth s m = (
    s,
    (if ltb block_depth config.archive_depth then record m { archive_request = true } else m),
    done tt,
  )

  unfoldable pub from_block_of : (num : ℕ) → Step env.S Web3ProxyBlock
  from_block_of n = lift (env.block_hash n) >>= λ found.
      mark_archive found.1 >>= λ marked. lift (env.block found.0)

  unfoldable pub cache_key : JsonRpcRequest → BlockNeeded → Step env.S (Option ResponseCacheKey)
  cache_key r cache_success_forever = pure (
      some (record {
        from_block = none;
        to_block = none;
        method = r.method;
        params = r.params;
        cache_errors = false;
      }))
  cache_key r cache_never = pure none
  cache_key r (cache block_num cache_errors) = from_block_of block_num >>= λ from. pure (
      some (record {
        from_block = some from;
        to_block = none;
        method = r.method;
        params = r.params;
        cache_errors = cache_errors;
      }))
  cache_key r (cache_range from_block_num to_block_num cache_errors) =
      from_block_of from_block_num >>= λ from. to_block_of to_block_num >>= λ to. pure (
        some (record {
          from_block = some from;
          to_block = some to;
          method = r.method;
          params = r.params;
          cache_errors = cache_errors;
        }))
