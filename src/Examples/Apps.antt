-- ===== src/Examples/Apps.antt =====
-- Servers that answer everything with the same result, and a cache with one place.
use Prim.Native.String.{String}
use web3_proxy.Prelude.{
  ℕ, ◌+◌, ◌^◌, ◌<◌, ◌≡◌, refl, false, Option, none, some, List, [], ◌∷◌, arith,
}
use web3_proxy.Prelude.Outcomes.{done}
use web3_proxy.Json.{num}
use web3_proxy.BlockNumber.{cache_success_forever}
use web3_proxy.JsonRpc.{JsonRpcRequest, JsonRpcForwardedResponse}
use web3_proxy.Authorization.{RequestMetadata, new_metadata}
use web3_proxy.App.{ResponseCacheKey, hash_of_transaction, AppConfig, AppEnv, ◌>>=◌}
use web3_proxy.App.Gas.{increased_gas, IsIncrease, increased_gas-IsIncrease}
use web3_proxy.App.Responses.{keep, from_cache, forward}
use web3_proxy.App.Caching.{FindsInserted, forward-again}
use web3_proxy.Examples.{b10}

abbrev answer_to : JsonRpcRequest → JsonRpcForwardedResponse
answer_to r = record { jsonrpc = "2.0"; id = r.id; result = some "0x1"; error = none }

abbrev env : AppEnv
env = record {
  S = Option JsonRpcForwardedResponse;
  head_block_num = λ s. some 10;
  num_synced_rpcs = λ s. 2;
  try_proxy_connection = λ r lo hi s m. (s, m, done (answer_to r));
  try_send_all_synced_connections = λ to_private r lo max_count s m. (s, m, done (answer_to r));
  block_needed = λ method params head s. (s, done (params, cache_success_forever));
  block_hash = λ n s. (s, done (n + 100, 0));
  block = λ hash s. (s, done b10);
  cached = λ s k. s;
  insert = λ s k response. some response;
  send_stat = λ method response s m. (s, done tt);
  request_bytes = λ r. 70;
  to_raw_value = λ v. "0x2";
  json_num = λ n. num "1";
  json_address_zero = num "0";
  app_user_agent = "proxy";
  parse_u256 = λ raw. some 21000;
  keccak256 = λ bytes. none;
  decode = hash_of_transaction;
}

abbrev config : AppConfig
config = record {
  chain_id = 1;
  archive_depth = 256;
  gas_increase_min = some 1000;
  gas_increase_percent = some 10;
  has_private_rpcs = false;
}

increased_gas-IsIncrease_example :
    (increase : ℕ) × (increased_gas (some 10) (some 1000) 21000 ≡ some (21000 + increase))
    × IsIncrease 10 1000 21000 increase
    × (21000 + increase < 2 ^ 256)
increased_gas-IsIncrease_example =
    increased_gas-IsIncrease 10 1000 21000 (omega arith) (omega arith) (omega arith)

abbrev asking : String → String → JsonRpcRequest
asking id method = record { jsonrpc = "2.0"; id = id; method = method; params = none }

abbrev batch : List JsonRpcRequest
batch = asking "7" "eth_chainId" ∷ asking "8" "eth_gasPrice" ∷ []

env-FindsInserted : FindsInserted env
env-FindsInserted = record { finds = λ s k response. refl }

abbrev forever : ResponseCacheKey
forever = record {
  from_block = none;
  to_block = none;
  method = "eth_gasPrice";
  params = none;
  cache_errors = false;
}

abbrev metadata : RequestMetadata
metadata = new_metadata 60 70

abbrev kept : JsonRpcForwardedResponse
kept = record { jsonrpc = "2.0"; id = "null"; result = some "0x1"; error = none }

first_forward :
    forward env config (asking "8" "eth_gasPrice") (some forever) none metadata
    ≡ (some kept, metadata, done kept)
unfolding forward from_cache keep ◌>>=◌
first_forward = refl

forward-again_example :
    forward env config (asking "9" "eth_gasPrice") (some forever) (some kept) metadata
    ≡ (some kept, metadata, done kept)
forward-again_example =
    forward-again env config env-FindsInserted (asking "8" "eth_gasPrice")
      (asking "9" "eth_gasPrice") forever none (some kept) metadata metadata metadata kept
      first_forward
