-- ===== src/Examples/Chains.antt =====
-- Blocks, the finder and the published head on the examples.
use web3_proxy.Prelude.{
  ℕ, ◌≡◌, ◌≢◌, refl, ◌&&◌, ◌==◌, leb, true, Option, some, List, [], ◌∷◌, arith, if◌then◌else◌,
  contains,
}
use web3_proxy.Block.{Web3ProxyBlock, IsSaved, number, hash, parent_hash, age}
use web3_proxy.Cache.{list_find, list_get_with, list_cache-CacheLaws}
use web3_proxy.Blocks.{Blocks, try_cache_block}
use web3_proxy.Blocks.Laws.{IsFiled}
use web3_proxy.Consensus.Group.{ConnectionsGroup, Tracking}
use web3_proxy.Consensus.Head.{ConsensusWeb3Rpcs}
use web3_proxy.Consensus.Finder.{
  ConsensusFinder, FinderState, new, update_rpc, best_consensus_connections, min_block_num,
  all_rpcs_group,
}
use web3_proxy.Consensus.Finder.Tiers.{head_in, has_tier, new-IsOrdered}
use web3_proxy.Consensus.Finder.Update.{tracked_head, head_in-update_rpc}
use web3_proxy.Consensus.Group
use web3_proxy.Consensus.Head
use web3_proxy.Consensus.Finder
use web3_proxy.Blockchain
use web3_proxy.Rpc.{Web3Rpc}
use web3_proxy.Blockchain.{Turn, Chain, start, process_block_from_rpc, process_incoming_blocks}
use web3_proxy.Blockchain.Published.{
  IsPublished, start-IsPublished, process_block_from_rpc-IsPublished, published_head,
}
use web3_proxy.Examples.{rpc_a, rpc_b, settings, b10, b11, fetch, consensus, hashes, numbers}

b10-IsSaved : IsSaved b10
unfolding hash number
b10-IsSaved = record { has_hash = refl; has_number = refl }

b11-IsSaved : IsSaved b11
unfolding hash number
b11-IsSaved = record { has_hash = refl; has_number = refl }

abbrev pub no_blocks : Blocks hashes numbers
no_blocks = record { by_hash = []; by_number = [] }

no_entry : (h : ℕ) (b : Web3ProxyBlock) → hashes.find no_blocks.by_hash h ≢ some b
unfolding list_find
no_entry h b e = ground arith

no_blocks-IsFiled : IsFiled hashes numbers no_blocks
no_blocks-IsFiled = record { files = λ h b e. absurd (no_entry h b e) }

abbrev no_tracking : Tracking numbers
no_tracking = record { first_seen = []; latencies = [] }

abbrev empty : FinderState hashes numbers numbers
empty = record { finder = new (some 60) (some 5); blocks = no_blocks; tracking = no_tracking }

abbrev clock : ℕ → ℕ × ℕ
clock i = (7, 8)

abbrev noon : ℕ
noon = 1_010_000_000_000

head_in-update_rpc_example :
    head_in 3 2 (update_rpc hashes numbers numbers noon clock empty (some b10) rpc_b).0.finder.tiers
    ≡ (if has_tier 3 empty.finder.tiers && leb rpc_b.tier 3 && rpc_b.name == 2
        then tracked_head hashes numbers numbers noon empty (some b10)
        else head_in 3 2 empty.finder.tiers)
head_in-update_rpc_example =
    head_in-update_rpc hashes numbers numbers noon clock empty (some b10) rpc_b 3 2
      (new-IsOrdered (some 60) (some 5))

abbrev turn : Turn
turn = record { now = noon; clock = clock; fetch = fetch; fetched = []; has_receiver = true }

abbrev chain : Chain hashes numbers numbers settings
chain = start hashes numbers numbers settings no_blocks no_tracking

process_block_from_rpc-IsPublished_example :
    IsPublished hashes numbers numbers settings
      (list_cache-CacheLaws Web3ProxyBlock)
      (process_block_from_rpc hashes numbers numbers settings turn chain (some b10) rpc_b).0
process_block_from_rpc-IsPublished_example =
    process_block_from_rpc-IsPublished hashes numbers numbers settings
      (list_cache-CacheLaws Web3ProxyBlock) turn refl chain (some b10) rpc_b
      (start-IsPublished hashes numbers numbers settings (list_cache-CacheLaws Web3ProxyBlock)
        no_blocks no_tracking no_blocks-IsFiled)

-- First one server sends its head, and then the other.
abbrev events : List (Turn × Option Web3ProxyBlock × Web3Rpc)
events = (turn, some b11, rpc_a) ∷ (turn, some b10, rpc_b) ∷ []

abbrev after_events : Chain hashes numbers numbers settings
after_events = process_incoming_blocks hashes numbers numbers settings chain events

events-consensus : after_events.watch_consensus_rpcs ≡ some consensus
unfolding process_incoming_blocks process_block_from_rpc update_rpc start new age try_cache_block
    hash list_get_with list_find Finder.insert Finder.walk Group.insert Group.block_of
    Blockchain.consensus_of best_consensus_connections all_rpcs_group Group.put
    Finder.first_consensus number parent_hash Blockchain.cache_all Blockchain.head_block_num
    Blockchain.head_change Blockchain.publish Blockchain.send_head Blockchain.synced min_block_num
    Finder.remove Group.highest_after Group.insert_key Group.new Group.raise Group.remove
    Group.remove_key Head.add_vote Head.backup_enough Head.conclude Head.consensus_head_connections
    Head.known_rpcs Head.max_lag_consensus_to_highest Head.primary_enough Head.same_set
    Head.search_head Head.visit Head.visit_all Head.vote_backups contains
events-consensus = refl

published_head_example :
    (h : Web3ProxyBlock) × (after_events.watch_consensus_head ≡ some h)
    × (hash h ≡ hash consensus.head_block)
published_head_example =
    published_head hashes numbers numbers settings (list_cache-CacheLaws Web3ProxyBlock) no_blocks
      no_tracking events no_blocks-IsFiled (refl, (refl, tt)) events-consensus
