-- ===== src/Blockchain.antt =====
-- `process_incoming_blocks` and `process_block_from_rpc` of web3_proxy/src/rpcs/blockchain.rs: how a
-- new head of one server moves the head that the proxy publishes, with `synced` and
-- `head_block_num` of web3_proxy/src/rpcs/consensus.rs.
-- `watch_consensus_head_sender` is there: the source unwraps it. What the world answers during one
-- call is its `Turn`. `fetched` are the blocks that `Web3Rpcs::block` put into the cache meanwhile.
pub mod Published
use web3_proxy.Prelude.{
  ℕ, zero, suc, ◌+◌, ◌-◌, ◌*◌, ◌/◌, ◌%◌, ◌^◌, ◌≤◌, ◌<◌, min, max, ◌≡◌, refl, sym, ap, ◌∙◌, ◌≢◌, ◌↔◌,
  ◌⊎◌, inl, inr, Bool, true, false, not, ◌&&◌, ◌||◌, Option, none, some, List, [], ◌∷◌, ◌++◌, map,
  arith, ltb, leb, ◌==◌, if◌then◌else◌, ltb→lt, lt→ltb, leb→le, ==_iff, ==_refl, Bool-cases,
  Option-cases, length, length-append, filter_by, any, All, All-append, contains,
}
use web3_proxy.Prelude.Results.{Result, ok, err, ◌>>=◌, context}
use web3_proxy.Prelude.Words.{
  u64_max, saturating_add, saturating_sub, checked_sub, option_max, option_min, some_gt,
}
use web3_proxy.Block.{Web3ProxyBlock, hash, number}
use web3_proxy.Rpc.{Web3Rpc, Settings}
use web3_proxy.Cache.{CacheOps}
use web3_proxy.Blocks.{Blocks, try_cache_block}
use web3_proxy.Consensus.Head.{ConsensusWeb3Rpcs, ConsensusError}
use web3_proxy.Consensus.Group.{Tracking}
use web3_proxy.Consensus.Finder.{
  new, FinderState, ConsensusFinder, update_rpc, best_consensus_connections,
}

pub data ProcessError : Type 0 where
  no_consensus_head_block : ConsensusError → ProcessError
  failed_sending_head : ProcessError

-- What one call reads from outside: the clocks, the blocks of the servers, and whether anyone
-- listens to the head.
pub record Turn : Type 0 where
  pub now : ℕ
  pub clock : ℕ → ℕ × ℕ
  pub fetch : ℕ → Option Web3ProxyBlock
  pub fetched : List Web3ProxyBlock
  pub has_receiver : Bool

-- How the new head relates to the one of the last consensus.
pub data HeadChange : Type 0 where
  first unchanged uncled rolled_back advanced : HeadChange

unfoldable pub head_change : Option ConsensusWeb3Rpcs → ConsensusWeb3Rpcs → HeadChange
head_change none new = first
head_change (some old) new =
    if number new.head_block == number old.head_block
    then (if hash new.head_block == hash old.head_block then unchanged else uncled)
    else (if ltb (number new.head_block) (number old.head_block) then rolled_back else advanced)

-- `Web3Rpcs::synced` and `num_synced_rpcs`.
unfoldable pub num_synced_rpcs : Option ConsensusWeb3Rpcs → ℕ
num_synced_rpcs none = 0
num_synced_rpcs (some c) = length c.rpcs

unfoldable pub synced : Option ConsensusWeb3Rpcs → Bool
synced none = false
synced (some c) = elim c.rpcs [ [] ↦ false | rpc ∷ rpcs ↦ true ]

unfoldable pub head_block_num : Option Web3ProxyBlock → Option ℕ
head_block_num none = none
head_block_num (some b) = some (number b)

module _ (hashes : CacheOps Web3ProxyBlock) (numbers first_seens : CacheOps ℕ)
    (settings : Settings) where
  pub record Chain : Type 0 where
    pub state : FinderState hashes numbers first_seens
    pub watch_consensus_rpcs : Option ConsensusWeb3Rpcs
    pub watch_consensus_head : Option Web3ProxyBlock

  -- `process_incoming_blocks` starts with an empty finder.
  unfoldable pub start : Blocks hashes numbers → Tracking first_seens → Chain
  start blocks tracking = record {
    state = record {
      finder = new settings.max_block_age settings.max_block_lag;
      blocks = blocks;
      tracking = tracking;
    };
    watch_consensus_rpcs = none;
    watch_consensus_head = none;
  }

  unfoldable pub cache_all : Blocks hashes numbers → List Web3ProxyBlock → Blocks hashes numbers
  cache_all blocks [] = blocks
  cache_all blocks (b ∷ bs) = cache_all (try_cache_block hashes numbers blocks b false).0 bs

  -- Cache the head as part of the heaviest chain, and send it to whoever listens.
  unfoldable pub send_head : Turn → Chain → Web3ProxyBlock → Chain × Result ProcessError (Unit {0})
  send_head turn chain head =
      let (blocks', head') = try_cache_block hashes numbers chain.state.blocks head true in
      let cached = record chain { state = record chain.state { blocks = blocks' } } in
      if turn.has_receiver
      then (record cached { watch_consensus_head = some head' }, ok tt)
      else (cached, err failed_sending_head)

  unfoldable pub publish :
      Turn → Chain → HeadChange → ConsensusWeb3Rpcs → Chain × Result ProcessError (Unit {0})
  publish turn chain first c = send_head turn chain c.head_block
  publish turn chain unchanged c = (chain, ok tt)
  publish turn chain uncled c = send_head turn chain c.head_block
  publish turn chain rolled_back c = send_head turn chain c.head_block
  publish turn chain advanced c = send_head turn chain c.head_block

  settle :
      Turn
      → Chain
      → Result ConsensusError ConsensusWeb3Rpcs
      → Chain × Result ProcessError (Unit {0})
  settle turn chain (err e) =
      (record chain { watch_consensus_rpcs = none }, err (no_consensus_head_block e))
  settle turn chain (ok c) =
      publish turn (record chain { watch_consensus_rpcs = some c })
        (head_change chain.watch_consensus_rpcs c) c

  -- The consensus that is found after the update.
  unfoldable pub consensus_of : Turn → Chain → Result ConsensusError ConsensusWeb3Rpcs
  consensus_of turn chain =
      best_consensus_connections settings (synced chain.watch_consensus_rpcs) turn.fetch
        chain.state.finder (head_block_num chain.watch_consensus_head)

  abbrev pub updated :
      Turn → Chain → Option Web3ProxyBlock → Web3Rpc → FinderState hashes numbers first_seens × Bool
  updated turn chain new_block rpc =
      update_rpc hashes numbers first_seens turn.now turn.clock chain.state new_block rpc

  unfoldable pub process_block_from_rpc :
      Turn → Chain → Option Web3ProxyBlock → Web3Rpc → Chain × Result ProcessError (Unit {0})
  unfolding settle
  process_block_from_rpc turn chain new_block rpc =
      let (state', changed) = updated turn chain new_block rpc in
      let chain' = record chain { state = state' } in
      let warm = record chain' {
        state = record state' { blocks = cache_all state'.blocks turn.fetched };
      } in
      if changed then settle turn warm (consensus_of turn chain') else (chain', ok tt)

  -- The loop over the channel: an error is logged, and the next block is taken.
  unfoldable pub process_incoming_blocks :
      Chain → List (Turn × Option Web3ProxyBlock × Web3Rpc) → Chain
  process_incoming_blocks chain [] = chain
  process_incoming_blocks chain ((turn, new_block, rpc) ∷ events) =
      process_incoming_blocks (process_block_from_rpc turn chain new_block rpc).0 events
