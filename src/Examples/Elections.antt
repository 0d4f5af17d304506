-- ===== src/Examples/Elections.antt =====
-- Elections among the servers of the examples.
use web3_proxy.Prelude.{
  none, if◌then◌else◌, ◌==◌, if◌then◌else◌, ◌==◌, ℕ, ◌+◌, ◌<◌, ◌≤◌, ◌-◌, ◌≡◌, ◌≢◌, ◌⊎◌, refl, true,
  false, Option, some, List, [], ◌∷◌, All, arith,
}
use web3_proxy.Prelude.Results.{ok}
use web3_proxy.Prelude.Words.{u64_max}
use web3_proxy.Block.{Web3ProxyBlock, number, hash, parent_hash}
use web3_proxy.Consensus.Group.{
  ConnectionsGroup, RpcToBlock, block_of, insert_key, remove_key, put, remove,
}
use web3_proxy.Consensus.Group
use web3_proxy.Consensus.Group.Highest.{IsGroup, new-IsGroup, put-IsGroup, block_of-remove}
use web3_proxy.Consensus.Head.{
  search_head, max_lag_consensus_to_highest, visit_all, visit, add_vote, primary_enough,
  vote_backups, backup_enough, conclude, same_set, consensus_head_connections, num_conns,
  known_rpcs,
}
use web3_proxy.Consensus.Head.Quorum.{consensus_head_connections-quorum, total_soft_limit}
use web3_proxy.Consensus.Head.Chain.{
  ParentsAreLower, Descends, here, down, consensus_head_connections-number,
}
use web3_proxy.Consensus.Head.Voters.{OnChain, consensus_head_connections-OnChain}
use mathlib.Core.Option.{map as option_map}
use web3_proxy.Consensus.Finder.{
  ConsensusFinder, best_consensus_connections, min_block_num, all_rpcs_group, first_consensus,
}
use web3_proxy.Consensus.Finder.Best.{IsCoherent, AtMost, best_consensus_connections-number}
use web3_proxy.Examples.{rpc_a, rpc_b, settings, b10, b11, fetch, consensus}

-- One server is on `b11`, the other still on `b10`.
abbrev pub group : ConnectionsGroup
group = put (put Group.new rpc_a b11) rpc_b b10

group-IsGroup : IsGroup group
group-IsGroup =
    put-IsGroup (put Group.new rpc_a b11) rpc_b b10 (put-IsGroup Group.new rpc_a b11 new-IsGroup)

group-consensus : consensus_head_connections settings true fetch group (some 6) 1 ≡ ok consensus
unfolding consensus_head_connections put Group.new number insert_key search_head
    max_lag_consensus_to_highest visit_all visit hash add_vote primary_enough vote_backups
    backup_enough known_rpcs conclude parent_hash same_set
group-consensus = refl

consensus_head_connections-quorum_example :
    All (λ r. r.backup ≡ false) consensus.rpcs
    × ((consensus.backups_needed ≡ true)
        ⊎ ((settings.min_head_rpcs ≤ num_conns consensus)
            × (settings.min_sum_soft_limit ≤ total_soft_limit consensus.rpcs)))
consensus_head_connections-quorum_example =
    consensus_head_connections-quorum settings true fetch group (some 6) 1 group-consensus

consensus_head_connections-OnChain_example :
    (top : Web3ProxyBlock) × (group.highest_block ≡ some top)
    × Descends fetch top consensus.head_block
    × (names : List ℕ) × (consensus.rpcs ≡ known_rpcs settings.by_name names)
    × All (OnChain fetch group.rpc_to_block top consensus.head_block) names
consensus_head_connections-OnChain_example =
    consensus_head_connections-OnChain settings true fetch group (some 6) 1 group-consensus

-- From `b11` the chain leads to `b10` and ends there.
from_b10 : (b p : Web3ProxyBlock) → Descends fetch b10 b → fetch (parent_hash b) ≢ some p
unfolding parent_hash
from_b10 b p here e = ground arith
from_b10 b p (down q d) e = ground arith

-- What holds of `b11` holds of the group's highest block.
at_top :
    (P : Web3ProxyBlock → Type 0)
    → P b11
    → (b : Web3ProxyBlock) → group.highest_block ≡ some b
    → P b
unfolding put Group.new number
at_top P x b e = let q : b11 ≡ b = cc in rw q at x

pub below_b11 : ParentsAreLower fetch b11
unfolding parent_hash number
below_b11 b p here e = ground arith
below_b11 b p (down {p = q} r d) e =
    let w : q ≡ b10 = ground arith in absurd (from_b10 b p (rw w at d) e)

b11_is_small : number b11 < u64_max
unfolding number
b11_is_small = omega arith

consensus_head_connections-number_example : 6 ≤ number consensus.head_block + 0
consensus_head_connections-number_example =
    consensus_head_connections-number settings true fetch group 6 1
      (at_top (ParentsAreLower fetch) below_b11) (omega arith)
      (at_top (λ b. number b < u64_max) b11_is_small) group-consensus

-- A server that has the name of `rpc_a`, but came later, is another key.
block_of-remove_example :
    (block_of rpc_a.hash_key (remove group (record rpc_a { hash_key = 9 })).0.rpc_to_block
      ≡ (if 9 == rpc_a.hash_key then none else block_of rpc_a.hash_key group.rpc_to_block))
    × ((remove group (record rpc_a { hash_key = 9 })).1 ≡ block_of 9 group.rpc_to_block)
    × ((remove group (record rpc_a { hash_key = 9 })).0.highest_block ≡ group.highest_block)
block_of-remove_example =
    block_of-remove group (record rpc_a { hash_key = 9 }) rpc_a.hash_key group-IsGroup

-- The tiers 0 and 1: the first has too few servers.
abbrev finder : ConsensusFinder
finder = record {
  tiers = (1, group) ∷ (0, put Group.new rpc_a b11) ∷ [];
  max_block_age = some 60;
  max_block_lag = some 5;
}

finder-consensus : best_consensus_connections settings true fetch finder (some 9) ≡ ok consensus
unfolding best_consensus_connections all_rpcs_group first_consensus min_block_num
    consensus_head_connections put Group.new number insert_key search_head
    max_lag_consensus_to_highest visit_all visit hash add_vote primary_enough vote_backups
    backup_enough known_rpcs conclude parent_hash same_set
finder-consensus = refl

abbrev IsTop : Web3ProxyBlock → Type 0
IsTop b = (number b < u64_max) × ParentsAreLower fetch b

b11-IsTop : IsTop b11
b11-IsTop = (b11_is_small, below_b11)

some-IsTop :
    (h : Option Web3ProxyBlock) → h ≡ some b11 → (b : Web3ProxyBlock) → h ≡ some b → IsTop b
some-IsTop h e b e' = let q : b11 ≡ b = cc in rw q at b11-IsTop

finder-IsCoherent : All (λ e. IsCoherent fetch e.1) finder.tiers
unfolding put Group.new number
finder-IsCoherent = (some-IsTop group.highest_block refl, (some-IsTop (some b11) refl, tt))

best_consensus_connections-number_example :
    (g : ConnectionsGroup) × (highest : Web3ProxyBlock) × (all_rpcs_group finder ≡ some g)
    × (g.highest_block ≡ some highest)
    × AtMost (some 9) (number consensus.head_block + 0)
    × AtMost
        (option_map (λ lag. number highest - lag) finder.max_block_lag)
        (number consensus.head_block + 0)
best_consensus_connections-number_example =
    best_consensus_connections-number settings true fetch finder (some 9) (omega arith)
      finder-IsCoherent finder-consensus
