-- ===== src/Examples.antt =====
-- Two servers, a backup and a short chain of blocks, on which the theorems are tried out.
pub mod Users
mod Statistics
mod Connections
mod Apps
mod Parallel
mod Broadcasts
mod Calls
pub mod Choices
mod Chains
mod Elections
mod Servers
pub mod Limits
mod Requests
use web3_proxy.Prelude.{ℕ, ◌+◌, ◌==◌, if◌then◌else◌, true, false, Option, none, some, List, [], ◌∷◌}
use web3_proxy.Block.{Web3ProxyBlock}
use web3_proxy.Cache.{CacheOps, list_cache}
use web3_proxy.Consensus.Head.{ConsensusWeb3Rpcs}
use web3_proxy.Rpc.{Web3Rpc, Settings}

abbrev pub rpc_a : Web3Rpc
rpc_a = record { name = 1; hash_key = 1; soft_limit = 100; backup = false; tier = 0 }

abbrev pub rpc_b : Web3Rpc
rpc_b = record { name = 2; hash_key = 2; soft_limit = 100; backup = false; tier = 1 }

abbrev pub rpc_c : Web3Rpc
rpc_c = record { name = 3; hash_key = 3; soft_limit = 50; backup = true; tier = 0 }

abbrev pub by_name : ℕ → Option Web3Rpc
by_name n =
    if n == 1
    then some rpc_a
    else (if n == 2 then some rpc_b else (if n == 3 then some rpc_c else none))

abbrev pub settings : Settings
settings = record {
  by_name = by_name;
  min_head_rpcs = 2;
  min_sum_soft_limit = 150;
  max_block_lag = some 5;
  max_block_age = some 60;
}

abbrev pub block_at : ℕ → Web3ProxyBlock
block_at n = record {
  block = record { number = some n; hash = some (n + 100); parent_hash = n + 99; timestamp = 1000 };
  received_age = none;
}

abbrev pub b10 : Web3ProxyBlock
b10 = block_at 10

abbrev pub b11 : Web3ProxyBlock
b11 = block_at 11

-- The servers know the parent of `b11` and no other block.
abbrev pub fetch : ℕ → Option Web3ProxyBlock
fetch h = if h == 110 then some b10 else none

abbrev pub hashes : CacheOps Web3ProxyBlock
hashes = list_cache Web3ProxyBlock

abbrev pub numbers : CacheOps ℕ
numbers = list_cache ℕ

-- What both servers agree on when the first is on `b11` and the second on `b10`.
abbrev pub consensus : ConsensusWeb3Rpcs
consensus = record {
  tier = 1;
  head_block = b10;
  rpcs = rpc_b ∷ rpc_a ∷ [];
  backups_voted = none;
  backups_needed = false;
}
