-- ===== src/App/Methods.antt =====
-- Which arm of `proxy_cached_request` (web3_proxy/src/app/mod.rs) a method goes to.
use Prim.Native.String.{String}
use text.Mathlib.Text.{◌==◌ as str_eq}
use web3_proxy.Prelude.{Bool, false, ◌||◌, List, [], ◌∷◌, if◌then◌else◌}

pub data Arm : Type 0 where
  unsupported not_implemented : Arm
  accounts block_number chain_id coinbase estimate_gas hashrate mining : Arm
  send_raw_transaction syncing subscribe unsubscribe : Arm
  listening peer_count client_version sha3 test : Arm
  backend : Arm

abbrev unsupported_methods : List String
unsupported_methods =
    "db_getHex" ∷ "db_getString" ∷ "db_putHex" ∷ "db_putString" ∷ "debug_accountRange"
    ∷ "debug_backtraceAt" ∷ "debug_blockProfile" ∷ "debug_chaindbCompact" ∷ "debug_chaindbProperty"
    ∷ "debug_cpuProfile" ∷ "debug_freeOSMemory" ∷ "debug_freezeClient" ∷ "debug_gcStats"
    ∷ "debug_goTrace" ∷ "debug_memStats" ∷ "debug_mutexProfile" ∷ "debug_setBlockProfileRate"
    ∷ "debug_setGCPercent" ∷ "debug_setHead" ∷ "debug_setMutexProfileFraction"
    ∷ "debug_standardTraceBlockToFile" ∷ "debug_standardTraceBadBlockToFile"
    ∷ "debug_startCPUProfile" ∷ "debug_startGoTrace" ∷ "debug_stopCPUProfile" ∷ "debug_stopGoTrace"
    ∷ "debug_writeBlockProfile" ∷ "debug_writeMemProfile" ∷ "debug_writeMutexProfile"
    ∷ "eth_compileLLL" ∷ "eth_compileSerpent" ∷ "eth_compileSolidity" ∷ "eth_getCompilers"
    ∷ "eth_sendTransaction" ∷ "eth_sign" ∷ "eth_signTransaction" ∷ "eth_submitHashrate"
    ∷ "eth_submitWork" ∷ "erigon_cacheCheck" ∷ "les_addBalance" ∷ "les_setClientParams"
    ∷ "les_setDefaultParams" ∷ "miner_setExtra" ∷ "miner_setGasPrice" ∷ "miner_start" ∷ "miner_stop"
    ∷ "miner_setEtherbase" ∷ "miner_setGasLimit" ∷ "personal_importRawKey" ∷ "personal_listAccounts"
    ∷ "personal_lockAccount" ∷ "personal_newAccount" ∷ "personal_unlockAccount"
    ∷ "personal_sendTransaction" ∷ "personal_sign" ∷ "personal_ecRecover" ∷ "shh_addToGroup"
    ∷ "shh_getFilterChanges" ∷ "shh_getMessages" ∷ "shh_hasIdentity" ∷ "shh_newFilter"
    ∷ "shh_newGroup" ∷ "shh_newIdentity" ∷ "shh_post" ∷ "shh_uninstallFilter" ∷ "shh_version" ∷ []

abbrev not_implemented_methods : List String
not_implemented_methods =
    "eth_getFilterChanges" ∷ "eth_getFilterLogs" ∷ "eth_newBlockFilter" ∷ "eth_newFilter"
    ∷ "eth_newPendingTransactionFilter" ∷ "eth_pollSubscriptions" ∷ "eth_uninstallFilter" ∷ []

abbrev arms : List (String × Arm)
arms =
    ("eth_accounts", accounts)
    ∷ ("eth_blockNumber", block_number)
    ∷ ("eth_chainId", chain_id)
    ∷ ("eth_coinbase", coinbase)
    ∷ ("eth_estimateGas", estimate_gas)
    ∷ ("eth_hashrate", hashrate)
    ∷ ("eth_mining", mining)
    ∷ ("eth_sendRawTransaction", send_raw_transaction)
    ∷ ("eth_syncing", syncing)
    ∷ ("eth_subscribe", subscribe)
    ∷ ("eth_unsubscribe", unsubscribe)
    ∷ ("net_listening", listening)
    ∷ ("net_peerCount", peer_count)
    ∷ ("web3_clientVersion", client_version)
    ∷ ("web3_sha3", sha3)
    ∷ ("test", test)
    ∷ []

is_among : List String → String → Bool
is_among [] method = false
is_among (m ∷ ms) method = str_eq m method || is_among ms method

look_up : List (String × Arm) → String → Arm
look_up [] method = backend
look_up ((m, arm) ∷ rest) method =
    let later = look_up rest method in if str_eq m method then arm else later

-- Anything else goes to the servers.
unfoldable pub arm_of : String → Arm
unfolding is_among look_up
arm_of method =
    if is_among unsupported_methods method
    then unsupported
    else (if is_among not_implemented_methods method then not_implemented else look_up arms method)
