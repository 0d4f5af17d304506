-- ===== src/App/Responses.antt =====
-- `proxy_cached_request` and `proxy_web3_rpc_requests` of web3_proxy/src/app/mod.rs, from their arms. Whole batches are
-- taken one request after another, though the code polls them together.
use Prim.Native.String.{String, ◌++◌}
use text.Mathlib.Text.{starts_with}
use web3_proxy.Prelude.{ℕ, true, false, Option, none, some, List, [], ◌∷◌, if◌then◌else◌, any, ◌==◌}
use web3_proxy.Prelude.{◌++◌ as append}
use web3_proxy.Prelude.Outcomes.{Outcome, done, failed, panics}
use web3_proxy.Json.{bool, str, array, nil}
use web3_proxy.Block.{Web3ProxyBlock, number}
use web3_proxy.JsonRpc.{JsonRpcRequest, JsonRpcForwardedResponse, minus, from_string}
use web3_proxy.Rpc.{Web3Rpc}
use web3_proxy.Authorization.{Authorization, new_metadata}
use web3_proxy.App.{
  AppError, access_denied, no_servers_synced, ResponseCacheKey, AppConfig, AppEnv, Step, pure, fail,
  ◌>>=◌, lift, Reply, with_rpcs, head_num, finish,
}
use web3_proxy.App.Methods.{
  Arm, unsupported, not_implemented, accounts, block_number, chain_id, coinbase, estimate_gas,
  hashrate, mining, send_raw_transaction, syncing, subscribe, unsubscribe, listening, peer_count,
  client_version, sha3, test, backend, arm_of,
}
use web3_proxy.App.Replies.{at_once, estimate_gas_reply, send_raw_reply, sha3_reply, cache_key}

module _ (env : AppEnv) (config : AppConfig) where
  abbrev pub number_of : Option Web3ProxyBlock → Option ℕ
  number_of none = none
  number_of (some b) = some (number b)

  -- A response is kept without its id.
  unfoldable pub keep :
      ResponseCacheKey → JsonRpcForwardedResponse → Step env.S JsonRpcForwardedResponse
  keep k response s m =
      let anonymous = record response { id = "null" } in
      (env.insert s k anonymous, m, done anonymous)

  unfoldable pub from_cache :
      JsonRpcRequest
      → ResponseCacheKey
      → (found : Option JsonRpcForwardedResponse) → Step env.S JsonRpcForwardedResponse
  from_cache r k (some response) = pure response
  from_cache r k none =
      env.try_proxy_connection r (number_of k.from_block) (number_of k.to_block) >>= λ response.
      keep k response

  -- Through the cache, if there is a key for it.
  unfoldable pub forward :
      JsonRpcRequest → Option ResponseCacheKey → Step env.S JsonRpcForwardedResponse
  forward r none = env.try_proxy_connection r none none
  forward r (some k) = λ s m. from_cache r k (env.cached s k) s m

  unfoldable pub send_stat : JsonRpcRequest → JsonRpcForwardedResponse → Step env.S (Unit {0})
  send_stat r response s m = lift (λ t. env.send_stat r.method response t m) s m

  unfoldable pub backend_reply : JsonRpcRequest → (head_block_num : Option ℕ) → Step env.S Reply
  backend_reply r head_block_num =
      if starts_with r.method "admin_"
      then fail access_denied
      else (head_num env head_block_num >>= λ head.
          lift (env.block_needed r.method r.params head) >>= λ needed.
          cache_key env config (record r { params = needed.0 }) needed.1 >>= λ k.
          forward (record r { params = needed.0 }) k >>= λ response.
          send_stat r (record response { id = r.id }) >>= λ sent.
          with_rpcs (record response { id = r.id }))

  unfoldable pub not_over_http : (method : String) → JsonRpcRequest → Step env.S Reply
  not_over_http method r = pure (
      at_once (
        from_string
          ("notifications not supported. " ++ method ++ " is only available over a websocket")
          (some (minus 32601)) (some r.id)))

  unfoldable pub reply : Authorization → JsonRpcRequest → Option ℕ → Arm → Step env.S Reply
  unfolding not_over_http
  reply a r head unsupported =
      pure (at_once (from_string ("method unsupported: " ++ r.method) none (some r.id)))
  reply a r head not_implemented =
      pure (at_once (from_string ("not yet implemented: " ++ r.method) none (some r.id)))
  reply a r head accounts = finish env r (array nil)
  reply a r head block_number = head_num env head >>= λ n. finish env r (env.json_num n)
  reply a r head chain_id = finish env r (env.json_num config.chain_id)
  reply a r head coinbase = finish env r env.json_address_zero
  reply a r head estimate_gas = estimate_gas_reply env config r
  reply a r head hashrate = finish env r (env.json_num 0)
  reply a r head mining = finish env r (bool false)
  reply a r head send_raw_transaction = send_raw_reply env config a r head
  reply a r head syncing = finish env r (bool false)
  reply a r head subscribe = not_over_http "eth_subscribe" r
  reply a r head unsubscribe = not_over_http "eth_unsubscribe" r
  reply a r head listening = finish env r (bool true)
  reply a r head peer_count = λ s m. finish env r (env.json_num (env.num_synced_rpcs s)) s m
  reply a r head client_version = finish env r (str env.app_user_agent)
  reply a r head sha3 = sha3_reply env config r r.params
  reply a r head test = pure (
      at_once (
        from_string "The method test does not exist/is not available." (some (minus 32601))
          (some r.id)))
  reply a r head backend = backend_reply r head

  -- The state after, and the reply; the metadata is the request's own.
  unfoldable pub proxy_cached_request :
      Authorization
      → JsonRpcRequest
      → (head_block_num : Option ℕ) → env.S
      → env.S × Outcome AppError Reply
  proxy_cached_request a r head_block_num s =
      let (s', m, outcome) =
        reply a r head_block_num (arm_of r.method) s (new_metadata 60 (env.request_bytes r)) in
      (s', outcome)

  -- The servers that are not listed yet, by name.
  unfoldable pub add_rpcs : List Web3Rpc → List Web3Rpc → List Web3Rpc
  add_rpcs seen [] = seen
  add_rpcs seen (x ∷ xs) =
      add_rpcs (if any (λ y. y.name == x.name) seen then seen else append seen (x ∷ [])) xs

  unfoldable pub collect :
      List (Outcome AppError Reply)
      → List Web3Rpc
      → Outcome AppError (List JsonRpcForwardedResponse × List Web3Rpc)
  collect [] rpcs = done ([], rpcs)
  collect (done (response, tried) ∷ replies) rpcs = elim (collect replies (add_rpcs rpcs tried)) [
    | done (responses, all_rpcs) ↦ done (response ∷ responses, all_rpcs)
    | failed e ↦ failed e
    | panics ↦ panics
  ]
  collect (failed e ∷ replies) rpcs = failed e
  collect (panics ∷ replies) rpcs = panics

  unfoldable pub reply_all :
      Authorization
      → List JsonRpcRequest
      → (head_block_num : ℕ) → env.S
      → env.S × List (Outcome AppError Reply)
  reply_all a [] head s = (s, [])
  reply_all a (r ∷ rs) head s =
      let (s1, outcome) = proxy_cached_request a r (some head) s in
      let (s2, outcomes) = reply_all a rs head s1 in (s2, outcome ∷ outcomes)

  unfoldable pub proxy_web3_rpc_requests :
      Authorization
      → List JsonRpcRequest
      → env.S
      → env.S × Outcome AppError (List JsonRpcForwardedResponse × List Web3Rpc)
  proxy_web3_rpc_requests a requests s = elim (env.head_block_num s) [
    | none ↦ (s, failed no_servers_synced)
    | some head ↦ let (s', outcomes) = reply_all a requests head s in (s', collect outcomes [])
  ]
