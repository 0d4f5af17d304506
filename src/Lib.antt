-- ===== src/Lib.antt =====
-- web3_proxy: a proxy in front of many servers of one chain. It follows the head block of every
-- server, elects the head that it publishes, picks a server for each request, and limits the rate of
-- requests of its users and to its servers.
--
-- The parts, their state and how they meet:
--
--   Block         Web3ProxyBlock of web3_proxy/src/rpcs/blockchain.rs: a block, its hash, number and age.
--   Blocks        The two caches of Web3Rpcs in the same file, `blocks_by_hash` and `blocks_by_number`, with
--                 `try_cache_block`, `block` and `cannonical_block`.
--   Cache         The interface through which these use the library moka.
--   Consensus     web3_proxy/src/rpcs/consensus.rs. Group is `ConnectionsGroup`: which server is on which block.
--                 Head is its `consensus_head_connections`, the vote. Finder is `ConsensusFinder`, with a group
--                 for every tier, `update_rpc` and `best_consensus_connections`.
--   Blockchain    `process_block_from_rpc` and `process_incoming_blocks` of web3_proxy/src/rpcs/blockchain.rs:
--                 they pass a server's new head to the finder, and publish what it finds.
--   Rpc           `Web3Rpc` of web3_proxy/src/rpcs/one.rs. Head has `has_block_data`, `check_block_data_limit`
--                 and `send_head_block_result`, which feeds `process_incoming_blocks`. Handle has
--                 `try_request_handle` and `wait_for_request_handle`, over the Redis limiter.
--   BlockNumber   web3_proxy/src/block_number.rs: which block a request needs, and how its parameters are
--                 rewritten. Json is the part of serde_json that it takes apart.
--   Selection     `best_available_rpc` of web3_proxy/src/rpcs/many.rs: the servers that may be asked, by tier, and
--                 the one whose handle is opened.
--   RateLimit     Redis is redis-rate-limiter/src/lib.rs, and Deferred is deferred-rate-limiter/src/lib.rs, a local
--                 cache in front of it.
--   Authorization `Authorization::try_new` and `rate_limit_by_rpc_key` of web3_proxy/src/frontend/authorization.rs: which
--                 callers a key allows, and when its user is let through by a limiter such as Deferred. Callers has
--                 the callers without a key and the sign-in.
--   JsonRpc       web3_proxy/src/jsonrpc.rs: how a request is read, and what responses are made of.
--   Request       web3_proxy/src/rpcs/request.rs: one request to one server, with the counters and the limit of the
--                 server, and the reverts that are saved.
--   Sending       The rest of web3_proxy/src/rpcs/many.rs: the loop that asks one server after another, through
--                 Selection and Request. All has the servers for a request to several at once, and Parallel the
--                 choice among their answers.
--   Connection    `spawn`, `connect` and `disconnect` of web3_proxy/src/rpcs/one.rs, with `from_str` of
--                 web3_proxy/src/rpcs/provider.rs. Backoff is `retrying_connect`, and Polling the two loops of
--                 `subscribe_new_heads`, which feed `send_head_block_result`.
--   App           web3_proxy/src/app/mod.rs: what is done with a request by its method, through BlockNumber, the cache of
--                 responses and Sending, and with a batch.
--   Stats         web3_proxy/src/app_stats.rs: the keys, the aggregates and the loop that saves them.
--   Entities      Enumerations of entities/src/sea_orm_active_enums.rs.
--   Prelude       Shared names, tests, lists, results and 64-bit numbers.
--   Examples      A few servers and blocks on which the theorems are tried out.
--
-- A server has a name, and `hash_key`, which stands for all that `Hash for Web3Rpc` reads. Sets and maps whose
-- keys are servers go by `hash_key`, collisions of hashes aside, so that a server which replaces another under its
-- name is a new key; `PartialEq`, and the maps and sets of names, do not tell the two apart. The time stamp
-- of a block that a server sends may exceed 64 bits, on which `try_new` panics; elsewhere the age of a block is
-- read of one that fits.
--
-- State is passed in and out. Tasks that run at the same time meet through channels, so a history is a list
-- of the messages that one task takes, each with what that task reads from outside in the meantime: the
-- clock, the blocks that servers send, whether a receiver is there. Floating-point numbers, Redis, the
-- cache and the decoding of JSON values are parameters. A panic is `none`, or `panics` where an error is
-- possible too.
--
-- Loops are recursion on lists, but for the search down the parents, which the source bounds by
-- `max_lag_consensus_to_highest` rounds and which recurs on that number. Loops that may wait forever,
-- `cannonical_block` and `wait_for_request_handle`, recur on the list of what they see while they wait. The loop
-- over the servers in Sending recurs on fuel; one round more than there are servers is enough.
--
-- Numbers are natural numbers. Where the source wraps or saturates (`u32` and `u64` sums, `saturating_add`), so do
-- the definitions; the sums are those of a release build.
--
-- Not modelled: the HTTP and websocket frontends, the database and its migrations, metrics, logs, the
-- clients of the connections, the health check and the pending transactions of a server, and so far
-- `try_send_all_synced_connections`, the semaphores, and how a key is looked up.
pub mod Prelude
pub mod Entities
pub mod Block
pub mod Json
pub mod BlockNumber
pub mod Cache
pub mod Rpc
pub mod Blocks
pub mod Consensus
pub mod Blockchain
pub mod RateLimit
pub mod Authorization
pub mod Selection
pub mod Stats
pub mod JsonRpc
pub mod Request
pub mod Sending
pub mod Connection
pub mod App
pub mod Examples
