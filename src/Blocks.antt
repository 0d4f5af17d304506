-- ===== src/Blocks.antt =====
-- The block caches of `Web3Rpcs`, web3_proxy/src/rpcs/blockchain.rs: `try_cache_block`, `block` and
-- `cannonical_block`. `response` stands for what a server answers to the request that is sent when
-- a cache misses, `none` for an error or no block. A waiting call sees the heads that are published
-- while it waits as a list.
pub mod Laws
use web3_proxy.Prelude.{
  ℕ, zero, suc, ◌+◌, ◌-◌, ◌*◌, ◌/◌, ◌%◌, ◌^◌, ◌≤◌, ◌<◌, min, max, ◌≡◌, refl, sym, ap, ◌∙◌, ◌≢◌, ◌↔◌,
  ◌⊎◌, inl, inr, Bool, true, false, not, ◌&&◌, ◌||◌, Option, none, some, List, [], ◌∷◌, ◌++◌, map,
  arith, ltb, leb, ◌==◌, if◌then◌else◌, ltb→lt, lt→ltb, leb→le, ==_iff, ==_refl, Bool-cases,
  Option-cases, length, length-append, filter_by, any, All, All-append, contains,
}
use web3_proxy.Prelude.Results.{Result, ok, err, ◌>>=◌, context}
use web3_proxy.Prelude.Words.{
  u64_max, saturating_add, saturating_sub, checked_sub, option_max, option_min, some_gt,
}
use web3_proxy.Block.{ArcBlock, Web3ProxyBlock, BlockError, hash, number, try_from, is_none}
use web3_proxy.Cache.{CacheOps}

pub data FetchError : Type 0 where
  no_block need_new_head_subscriptions no_consensus_head_block head_channel_closed : FetchError

module _ (hashes : CacheOps Web3ProxyBlock) (numbers : CacheOps ℕ) where
  pub record Blocks : Type 0 where
    pub by_hash : hashes.Store
    pub by_number : numbers.Store

  unfoldable pub try_cache_block :
      Blocks → Web3ProxyBlock → (heaviest_chain : Bool) → Blocks × Web3ProxyBlock
  try_cache_block blocks block heaviest_chain =
      let numbered : numbers.Store =
        if heaviest_chain
        then numbers.insert blocks.by_number (number block) (hash block)
        else blocks.by_number in
      let (cached, store) = hashes.get_with blocks.by_hash (hash block) block in
      if hash block == 0
      then (blocks, block)
      else (record { by_hash = store; by_number = numbered }, cached)

  -- The answer to `eth_getBlockByHash`, from one server (`from_rpc`) or from the best one.
  unfoldable pub parse_response :
      (from_rpc : Bool) → Option ArcBlock → Result FetchError Web3ProxyBlock
  parse_response from_rpc none = err no_block
  parse_response from_rpc (some x) =
      if from_rpc && is_none x.number
      then err no_block
      else elim (try_from x) [ ok b ↦ ok b | err _ ↦ err no_block ]

  keep_fetched :
      Blocks → Result FetchError Web3ProxyBlock → Blocks × Result FetchError Web3ProxyBlock
  keep_fetched blocks (err e) = (blocks, err e)
  keep_fetched blocks (ok b) =
      let (blocks', b') = try_cache_block blocks b false in (blocks', ok b')

  unfoldable pub block :
      Blocks
      → ℕ
      → (from_rpc : Bool) → (response : Option ArcBlock) → Blocks × Result FetchError Web3ProxyBlock
  unfolding keep_fetched
  block blocks h from_rpc response = elim (hashes.find blocks.by_hash h) [
    | some b ↦ (blocks, ok b)
    | none ↦ keep_fetched blocks (parse_response from_rpc response)
  ]

  -- The loop that waits for a block of the future, over the heads that are published meanwhile; an
  -- empty list is a closed channel.
  unfoldable pub wait_for_number :
      (num head_block_num : ℕ) → List (Option Web3ProxyBlock) → Result FetchError ℕ
  wait_for_number num head_block_num [] =
      if leb num head_block_num then ok head_block_num else err head_channel_closed
  wait_for_number num head_block_num (none ∷ heads) =
      let rest = wait_for_number num head_block_num heads in
      if leb num head_block_num then ok head_block_num else rest
  wait_for_number num head_block_num (some head ∷ heads) =
      let rest = wait_for_number num (number head) heads in
      if leb num head_block_num then ok head_block_num else rest

  keep_canonical :
      Blocks
      → ℕ
      → Result FetchError Web3ProxyBlock
      → Blocks × Result FetchError (Web3ProxyBlock × ℕ)
  keep_canonical blocks depth (err e) = (blocks, err e)
  keep_canonical blocks depth (ok b) =
      let (blocks', b') = try_cache_block blocks b true in (blocks', ok (b', depth))

  with_depth :
      ℕ
      → Blocks × Result FetchError Web3ProxyBlock
      → Blocks × Result FetchError (Web3ProxyBlock × ℕ)
  with_depth depth (blocks, ok b) = (blocks, ok (b, depth))
  with_depth depth (blocks, err e) = (blocks, err e)

  -- `by_hash_response` and `by_number_response` answer the two requests that may be sent.
  look_up_number :
      Blocks
      → (num depth : ℕ) → (by_hash_response by_number_response : Option ArcBlock)
      → Blocks × Result FetchError (Web3ProxyBlock × ℕ)
  unfolding keep_canonical with_depth
  look_up_number blocks num depth by_hash_response by_number_response =
      elim (numbers.find blocks.by_number num) [
        | some h ↦ with_depth depth (block blocks h false by_hash_response)
        | none ↦ keep_canonical blocks depth (parse_response false by_number_response)
      ]

  -- `watch` is `watch_consensus_head_sender`, with the head that it holds.
  unfoldable pub cannonical_block :
      Blocks
      → (watch : Option (Option Web3ProxyBlock)) → ℕ
      → List (Option Web3ProxyBlock)
      → (by_hash_response by_number_response : Option ArcBlock)
      → Blocks × Result FetchError (Web3ProxyBlock × ℕ)
  unfolding look_up_number
  cannonical_block blocks none num heads r1 r2 = (blocks, err need_new_head_subscriptions)
  cannonical_block blocks (some none) num heads r1 r2 = (blocks, err no_consensus_head_block)
  cannonical_block blocks (some (some head)) num heads r1 r2 =
      elim (wait_for_number num (number head) heads) [
        | err e ↦ (blocks, err e)
        | ok head_block_num ↦ look_up_number blocks num (head_block_num - num) r1 r2
      ]
