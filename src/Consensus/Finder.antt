-- ===== src/Consensus/Finder.antt =====
-- `ConsensusFinder` of web3_proxy/src/rpcs/consensus.rs: the heads of all servers, in one group for
-- each tier. The `BTreeMap` is the list of its entries, the highest tier first, which is the order
-- of `iter_mut().rev()`. A finder starts with the tiers 0 to 9.
pub mod Tiers
pub mod Update
pub mod Best
use web3_proxy.Prelude.{
  ℕ, zero, suc, ◌+◌, ◌-◌, ◌*◌, ◌/◌, ◌%◌, ◌^◌, ◌≤◌, ◌<◌, min, max, ◌≡◌, refl, sym, ap, ◌∙◌, ◌≢◌, ◌↔◌,
  ◌⊎◌, inl, inr, Bool, true, false, not, ◌&&◌, ◌||◌, Option, none, some, List, [], ◌∷◌, ◌++◌, map,
  arith, ltb, leb, ◌==◌, if◌then◌else◌, ltb→lt, lt→ltb, leb→le, ==_iff, ==_refl, Bool-cases,
  Option-cases, length, length-append, filter_by, any, All, All-append, contains,
}
use web3_proxy.Prelude.Results.{Result, ok, err, ◌>>=◌, context}
use web3_proxy.Prelude.Words.{
  u64_max, saturating_add, saturating_sub, checked_sub, option_max, option_min, some_gt,
}
use mathlib.Core.List.{reverse}
use web3_proxy.Block.{Web3ProxyBlock, hash, number, age}
use web3_proxy.Rpc.{Web3Rpc, Settings}
use web3_proxy.Cache.{CacheOps}
use web3_proxy.Blocks.{Blocks, try_cache_block}
use web3_proxy.Consensus.Group as Group
use web3_proxy.Consensus.Group.{ConnectionsGroup, Tracking}
use web3_proxy.Consensus.Head.{
  ConsensusWeb3Rpcs, ConsensusError, consensus_head_connections, is_some, no_rpcs, no_highest_block,
  failed_on_all_tiers,
}

abbrev pub Tiers : Type 0
Tiers = List (ℕ × ConnectionsGroup)

-- `(0..10).map(...)`, from the highest down.
tiers_below : ℕ → Tiers
tiers_below zero = []
tiers_below (suc n) = (n, Group.new) ∷ tiers_below n

-- The first of two results that is there.
abbrev pub first_some : Option Web3ProxyBlock → Option Web3ProxyBlock → Option Web3ProxyBlock
first_some none b = b
first_some (some a) b = some a

-- The loop of `remove` and `insert`: from the highest tier down to that of the server.
module _ {S : Type 0}
    (op : S → ℕ → ConnectionsGroup → S × ConnectionsGroup × Option Web3ProxyBlock) where
  unfoldable pub walk : S → ℕ → Tiers → S × Tiers × Option Web3ProxyBlock
  walk s tier [] = (s, [], none)
  walk s tier ((i, g) ∷ rest) =
      let (s1, g1, x) = op s i g in
      let (s2, rest', y) = walk s1 tier rest in
      if ltb i tier then (s, (i, g) ∷ rest, none) else (s2, (i, g1) ∷ rest', first_some x y)

pub record ConsensusFinder : Type 0 where
  pub tiers : Tiers
  pub max_block_age : Option ℕ
  pub max_block_lag : Option ℕ

unfoldable pub new : (max_block_age max_block_lag : Option ℕ) → ConsensusFinder
unfolding tiers_below Group.new
new max_block_age max_block_lag = record {
  tiers = tiers_below 10;
  max_block_age = max_block_age;
  max_block_lag = max_block_lag;
}

unfoldable pub len : ConsensusFinder → ℕ
len f = length f.tiers

-- The last group, which holds all servers.
unfoldable pub all_rpcs_group : ConsensusFinder → Option ConnectionsGroup
all_rpcs_group f = elim f.tiers [ [] ↦ none | (i, g) ∷ rest ↦ some g ]

abbrev pub remove_at :
    Web3Rpc → Unit {0} → ℕ → ConnectionsGroup → Unit {0} × ConnectionsGroup × Option Web3ProxyBlock
remove_at rpc u i g = let (g', removed) = Group.remove g rpc in (u, g', removed)

unfoldable pub remove : ConsensusFinder → Web3Rpc → ConsensusFinder × Option Web3ProxyBlock
remove f rpc =
    let (u, tiers', removed) = walk (remove_at rpc) tt rpc.tier f.tiers in
    (record f { tiers = tiers' }, removed)

-- Whether the head of a server changed.
abbrev pub is_new_head : Web3ProxyBlock → Option Web3ProxyBlock → Bool
is_new_head block none = true
is_new_head block (some prev_block) = not (hash prev_block == hash block)

-- `rpc_head_block.age() > max_age`.
abbrev pub too_old : ℕ → Web3ProxyBlock → Option ℕ → Bool
too_old now block none = false
too_old now block (some max_age) = ltb max_age (age now block)

module _ (first_seens : CacheOps ℕ) where
  -- `clock i` are the two readings of the clock in the group of tier `i`.
  abbrev pub insert_at :
      (ℕ → ℕ × ℕ)
      → Web3Rpc
      → Web3ProxyBlock
      → Tracking first_seens
      → ℕ
      → ConnectionsGroup
      → Tracking first_seens × ConnectionsGroup × Option Web3ProxyBlock
  insert_at clock rpc block t i g = Group.insert first_seens t g (clock i).0 (clock i).1 rpc block

  unfoldable pub insert :
      (ℕ → ℕ × ℕ)
      → Tracking first_seens
      → ConsensusFinder
      → Web3Rpc
      → Web3ProxyBlock
      → Tracking first_seens × ConsensusFinder × Option Web3ProxyBlock
  insert clock t f rpc block =
      let (t', tiers', old) = walk (insert_at clock rpc block) t rpc.tier f.tiers in
      (t', record f { tiers = tiers' }, old)

module _ (hashes : CacheOps Web3ProxyBlock) (numbers first_seens : CacheOps ℕ) where
  -- All that `update_rpc` may change.
  pub record FinderState : Type 0 where
    pub finder : ConsensusFinder
    pub blocks : Blocks hashes numbers
    pub tracking : Tracking first_seens

  -- The true Boolean says that something changed. `now` is the time in nanoseconds after the epoch.
  unfoldable pub update_rpc :
      (now : ℕ) → (ℕ → ℕ × ℕ) → FinderState → Option Web3ProxyBlock → Web3Rpc → FinderState × Bool
  update_rpc now clock s none rpc =
      let (finder', removed) = remove s.finder rpc in
      (record s { finder = finder' }, is_some removed)
  update_rpc now clock s (some rpc_head_block) rpc =
      let (blocks', block) = try_cache_block hashes numbers s.blocks rpc_head_block false in
      let (aged, removed) = remove s.finder rpc in
      let (tracking', grown, prev_block) = insert first_seens clock s.tracking s.finder rpc block in
      if too_old now block s.finder.max_block_age
      then (record s { finder = aged; blocks = blocks' }, is_some removed)
      else (
        record { finder = grown; blocks = blocks'; tracking = tracking' },
        is_new_head block prev_block,
      )

-- The lowest number of a block that may become the head.
unfoldable pub min_block_num : Option ℕ → Web3ProxyBlock → Option ℕ → Option ℕ
min_block_num none highest head_block_num = head_block_num
min_block_num (some max_block_lag) highest head_block_num =
    option_max (some (saturating_sub (number highest) max_block_lag)) head_block_num

module _ (s : Settings) (synced : Bool) (fetch : ℕ → Option Web3ProxyBlock) where
  -- The loop over the tiers, the lowest first.
  unfoldable pub first_consensus : Option ℕ → Tiers → Result ConsensusError ConsensusWeb3Rpcs
  first_consensus min_block_num [] = err failed_on_all_tiers
  first_consensus min_block_num ((tier, g) ∷ tiers) =
      elim (consensus_head_connections s synced fetch g min_block_num tier) [
        | ok c ↦ ok c
        | err _ ↦ first_consensus min_block_num tiers
      ]

  -- `head_block_num` is the number of the head that is published now.
  unfoldable pub best_consensus_connections :
      ConsensusFinder → (head_block_num : Option ℕ) → Result ConsensusError ConsensusWeb3Rpcs
  best_consensus_connections f head_block_num = context (all_rpcs_group f) no_rpcs >>= λ g.
      context g.highest_block no_highest_block >>= λ highest.
      first_consensus (min_block_num f.max_block_lag highest head_block_num) (reverse f.tiers)
