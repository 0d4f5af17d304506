-- ===== src/Blockchain/Published.antt =====
-- The head that is published is the head of the consensus, over every history of blocks.
use web3_proxy.Prelude.{
  ℕ, ◌≡◌, refl, inl, inr, true, false, Option, none, some, List, [], ◌∷◌, arith, Bool-cases, All,
}
use web3_proxy.Prelude.Results.{Result, ok, err}
use web3_proxy.Block.{Web3ProxyBlock, hash}
use web3_proxy.Rpc.{Web3Rpc, Settings}
use web3_proxy.Cache.{CacheOps, CacheLaws}
use web3_proxy.Blocks.{Blocks, try_cache_block}
use web3_proxy.Blocks.Laws.{IsFiled, hash-try_cache_block, try_cache_block-IsFiled}
use web3_proxy.Consensus.Group.{Tracking}
use web3_proxy.Consensus.Head.{ConsensusWeb3Rpcs, ConsensusError}
use web3_proxy.Consensus.Finder.Tiers.{IsOrdered, new-IsOrdered}
use web3_proxy.Consensus.Finder.Update.{update_rpc-IsOrdered, update_rpc-IsFiled}
use web3_proxy.Blockchain.{
  Turn, HeadChange, unchanged, head_change, Chain, start, cache_all, send_head, publish, settle,
  updated, process_block_from_rpc, process_incoming_blocks,
}

module _ (hashes : CacheOps Web3ProxyBlock) (numbers first_seens : CacheOps ℕ) (settings : Settings)
    (laws : CacheLaws hashes) where
  -- The published head is the head of the consensus, if there is one.
  abbrev pub HeadIs : Option ConsensusWeb3Rpcs → Option Web3ProxyBlock → Type 0
  HeadIs none head = Unit
  HeadIs (some c) head = (h : Web3ProxyBlock) × (head ≡ some h) × (hash h ≡ hash c.head_block)

  pub record IsPublished (chain : Chain hashes numbers first_seens settings) : Type 0 where
    pub filed : IsFiled hashes numbers chain.state.blocks
    pub ordered : IsOrdered chain.state.finder.tiers
    pub published : HeadIs chain.watch_consensus_rpcs chain.watch_consensus_head

  pub start-IsPublished :
      (blocks : Blocks hashes numbers) (tracking : Tracking first_seens)
      → IsFiled hashes numbers blocks
      → IsPublished (start hashes numbers first_seens settings blocks tracking)
  unfolding start
  start-IsPublished blocks tracking filed = record {
    filed = filed;
    ordered = new-IsOrdered settings.max_block_age settings.max_block_lag;
    published = tt;
  }

  cache_all-IsFiled :
      (blocks : Blocks hashes numbers) (bs : List Web3ProxyBlock)
      → IsFiled hashes numbers blocks
      → IsFiled hashes numbers (cache_all hashes numbers first_seens settings blocks bs)
  unfolding cache_all
  cache_all-IsFiled blocks [] filed = filed
  cache_all-IsFiled blocks (b ∷ bs) filed =
      cache_all-IsFiled (try_cache_block hashes numbers blocks b false).0 bs
        (try_cache_block-IsFiled hashes numbers laws blocks b false filed)

  -- A head that does not change needs no sending.
  HeadIs-unchanged :
      (old : Option ConsensusWeb3Rpcs) (c : ConsensusWeb3Rpcs) (head : Option Web3ProxyBlock)
      → head_change old c ≡ unchanged
      → HeadIs old head
      → HeadIs (some c) head
  unfolding head_change
  HeadIs-unchanged none c head h p = cc
  HeadIs-unchanged (some o) c head h (b, e, same) = (b, e, ground arith)

  module _ (turn : Turn) (listening : turn.has_receiver ≡ true) where
    send_head-IsPublished :
        (chain : Chain hashes numbers first_seens settings) (c : ConsensusWeb3Rpcs)
        → chain.watch_consensus_rpcs ≡ some c
        → IsFiled hashes numbers chain.state.blocks
        → IsOrdered chain.state.finder.tiers
        → IsPublished (send_head hashes numbers first_seens settings turn chain c.head_block).0
    unfolding send_head
    send_head-IsPublished chain c e filed ordered =
        rw (listening, e)
          (record {
            filed =
                try_cache_block-IsFiled hashes numbers laws chain.state.blocks c.head_block true
                  filed;
            ordered = ordered;
            published = (
              (try_cache_block hashes numbers chain.state.blocks c.head_block true).1,
              refl,
              hash-try_cache_block hashes numbers laws chain.state.blocks c.head_block true filed,
            );
          })

    publish-IsPublished :
        (chain : Chain hashes numbers first_seens settings) (old : Option ConsensusWeb3Rpcs)
        (c : ConsensusWeb3Rpcs)
        → chain.watch_consensus_rpcs ≡ some c
        → HeadIs old chain.watch_consensus_head
        → IsFiled hashes numbers chain.state.blocks
        → IsOrdered chain.state.finder.tiers
        → IsPublished
            (publish hashes numbers first_seens settings turn chain (head_change old c) c).0
    unfolding publish
    publish-IsPublished chain old c e before filed ordered = go (head_change old c) refl
      where
        go :
            (change : HeadChange)
            → head_change old c ≡ change
            → IsPublished (publish hashes numbers first_seens settings turn chain change c).0
        go unchanged q = record {
          filed = filed;
          ordered = ordered;
          published = rw e (HeadIs-unchanged old c chain.watch_consensus_head q before);
        }
        go _ q = send_head-IsPublished chain c e filed ordered

    settle-IsPublished :
        (chain : Chain hashes numbers first_seens settings)
        (r : Result ConsensusError ConsensusWeb3Rpcs)
        → IsPublished chain
        → IsPublished (settle hashes numbers first_seens settings turn chain r).0
    unfolding settle
    settle-IsPublished chain (err x) i = record {
      filed = i.filed;
      ordered = i.ordered;
      published = tt;
    }
    settle-IsPublished chain (ok c) i =
        publish-IsPublished (record chain { watch_consensus_rpcs = some c })
          chain.watch_consensus_rpcs c refl i.published i.filed i.ordered

    -- While someone listens, whatever block a server sends, the finder stays ordered, the cache filed by
    -- hash, and the published head that of the consensus, if there is one.
    pub process_block_from_rpc-IsPublished :
        (chain : Chain hashes numbers first_seens settings) (new_block : Option Web3ProxyBlock)
        (rpc : Web3Rpc)
        → IsPublished chain
        → IsPublished
            (process_block_from_rpc hashes numbers first_seens settings turn chain new_block rpc).0
    unfolding process_block_from_rpc
    process_block_from_rpc-IsPublished chain new_block rpc i =
        elim (Bool-cases (updated hashes numbers first_seens settings turn chain new_block rpc).1) [
          | inl changed ↦ rw changed (
              settle-IsPublished _ _ (record {
                filed = cache_all-IsFiled _ turn.fetched filed';
                ordered = ordered';
                published = i.published;
              }))
          | inr same ↦
              rw same (record { filed = filed'; ordered = ordered'; published = i.published })
        ]
      where
        filed' :
            IsFiled hashes numbers
              (updated hashes numbers first_seens settings turn chain new_block rpc).0.blocks
        filed' =
            update_rpc-IsFiled hashes numbers first_seens laws turn.now turn.clock chain.state
              new_block rpc i.filed

        ordered' :
            IsOrdered
              (updated hashes numbers first_seens settings turn chain new_block rpc).0.finder.tiers
        ordered' =
            update_rpc-IsOrdered hashes numbers first_seens turn.now turn.clock chain.state
              new_block rpc i.ordered

  abbrev pub Listening : List (Turn × Option Web3ProxyBlock × Web3Rpc) → Type 0
  Listening = All (λ e. e.0.has_receiver ≡ true)

  -- From the start, over any sequence of blocks from any servers, as long as someone listens.
  pub process_incoming_blocks-IsPublished :
      (chain : Chain hashes numbers first_seens settings)
      (events : List (Turn × Option Web3ProxyBlock × Web3Rpc))
      → Listening events
      → IsPublished chain
      → IsPublished (process_incoming_blocks hashes numbers first_seens settings chain events)
  unfolding process_incoming_blocks
  process_incoming_blocks-IsPublished chain [] l i = i
  process_incoming_blocks-IsPublished chain ((turn, b, rpc) ∷ events) (h, l) i =
      process_incoming_blocks-IsPublished
        (process_block_from_rpc hashes numbers first_seens settings turn chain b rpc).0 events l
        (process_block_from_rpc-IsPublished turn h chain b rpc i)

-- From an empty finder, over any sequence of blocks from any servers and as long as someone listens:
-- if there is a consensus, a head is published, and it has the hash of the consensus's head.
pub published_head :
    (hashes : CacheOps Web3ProxyBlock) (numbers first_seens : CacheOps ℕ) (settings : Settings)
    → CacheLaws hashes
    → (blocks : Blocks hashes numbers) (tracking : Tracking first_seens)
      (events : List (Turn × Option Web3ProxyBlock × Web3Rpc)) {c : ConsensusWeb3Rpcs}
    → IsFiled hashes numbers blocks
    → All (λ e. e.0.has_receiver ≡ true) events
    → let chain =
        process_incoming_blocks hashes numbers first_seens settings
          (start hashes numbers first_seens settings blocks tracking)
          events in
      chain.watch_consensus_rpcs ≡ some c
      → (h : Web3ProxyBlock) × (chain.watch_consensus_head ≡ some h) × (hash h ≡ hash c.head_block)
published_head hashes numbers first_seens settings laws blocks tracking events filed listening e =
    rw e at
      (process_incoming_blocks-IsPublished hashes numbers first_seens settings laws
        (start hashes numbers first_seens settings blocks tracking) events listening
        (start-IsPublished hashes numbers first_seens settings laws blocks tracking
          filed)).published
