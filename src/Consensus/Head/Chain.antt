-- ===== src/Consensus/Head/Chain.antt =====
-- Where the head of a consensus lies: on the chain of parents of the highest block, not below the
-- lowest number that is allowed, and with a server on it or above it for each vote.
use web3_proxy.Prelude.{
  ℕ, ◌+◌, ◌≤◌, ◌<◌, ◌≡◌, refl, ◌⊎◌, inl, inr, Bool, Option, none, some, arith, if◌then◌else◌,
}
use web3_proxy.Prelude.Results.{ok}
use web3_proxy.Prelude.Words.{u64_max}
use web3_proxy.Block.{Web3ProxyBlock, number, parent_hash}
use web3_proxy.Rpc.{Settings}
use web3_proxy.Consensus.Group.{RpcToBlock, ConnectionsGroup}
use web3_proxy.Consensus.Head.{
  ConsensusWeb3Rpcs, Votes, Found, max_lag_consensus_to_highest, conclude,
  consensus_head_connections,
}
use web3_proxy.Consensus.Head.Search.{
  Search, exhausted, elected, parent, orphan, consensus_head_connections-Search,
}

-- `Descends fetch a b`: from `a` the chain of parents leads down to `b`.
pub data Descends (fetch : ℕ → Option Web3ProxyBlock)
    : Web3ProxyBlock → Web3ProxyBlock → Type 0 where
  here : {a : Web3ProxyBlock} → Descends fetch a a
  down :
      {a p b : Web3ProxyBlock}
      → fetch (parent_hash a) ≡ some p
      → Descends fetch p b
      → Descends fetch a b

pub Descends-parent :
    {fetch : ℕ → Option Web3ProxyBlock} {a b p : Web3ProxyBlock}
    → Descends fetch a b
    → fetch (parent_hash b) ≡ some p
    → Descends fetch a p
Descends-parent here e = down e here
Descends-parent (down q d) e = down q (Descends-parent d e)

-- What the servers promise of the blocks below `top` that are fetched by their hash: a parent is one lower.
abbrev pub ParentsAreLower : (ℕ → Option Web3ProxyBlock) → Web3ProxyBlock → Type 0
ParentsAreLower fetch top =
    (b p : Web3ProxyBlock)
    → Descends fetch top b
    → fetch (parent_hash b) ≡ some p
    → number b ≡ number p + 1

module _ (s : Settings) (synced : Bool) (fetch : ℕ → Option Web3ProxyBlock) (m : RpcToBlock)
    (top : Web3ProxyBlock) (lower : ParentsAreLower fetch top) where
  -- A head that is elected is among the blocks that were looked at; otherwise the search may stop
  -- one block further down.
  Search-number :
      {rounds : ℕ} {block : Web3ProxyBlock} {v : Votes} {bv : Option Web3ProxyBlock} {f : Found}
      → Search s synced fetch m rounds block v bv f
      → Descends fetch top block
      → (number block ≤ number f.maybe_head_block + rounds)
        × ((f.primary_rpcs_voted ≡ none) ⊎ (number block + 1 ≤ number f.maybe_head_block + rounds))
  Search-number (exhausted e) d = rw e (omega arith, inl refl)
  Search-number (elected v' q enough e) d = rw e (omega arith, inr (omega arith))
  Search-number {block = block} (parent v' p q short e rest) d =
      let (low, strict) = Search-number rest (Descends-parent d e) in
      ground (arith, low, strict, lower block p d e)
  Search-number (orphan v' q short voted e) d = rw e (omega arith, inl refl)

-- With no block to look at there are no votes.
Search-zero :
    (s : Settings) (synced : Bool) (fetch : ℕ → Option Web3ProxyBlock) (m : RpcToBlock) {rounds : ℕ}
    {block : Web3ProxyBlock} {v : Votes} {bv : Option Web3ProxyBlock} {f : Found}
    → Search s synced fetch m rounds block v bv f
    → (1 ≤ rounds) ⊎ ((f.votes ≡ v) × (f.backup_rpcs_voted ≡ bv))
Search-zero s synced fetch m (exhausted e) = rw e (inr (refl, refl))
Search-zero s synced fetch m (elected v' q enough e) = inl (omega arith)
Search-zero s synced fetch m (parent v' p q short e rest) = inl (omega arith)
Search-zero s synced fetch m (orphan v' q short voted e) = inl (omega arith)

-- With positive `min_head_rpcs`, when each parent below the highest block is one lower, and that block
-- is not at the end of the 64-bit numbers: the head is at least `min_consensus_block_num`, or one less
-- if it needs backups.
pub consensus_head_connections-number :
    (s : Settings) (synced : Bool) (fetch : ℕ → Option Web3ProxyBlock) (g : ConnectionsGroup)
    (min_num tier : ℕ) {c : ConsensusWeb3Rpcs}
    → ((b : Web3ProxyBlock) → g.highest_block ≡ some b → ParentsAreLower fetch b)
    → 1 ≤ s.min_head_rpcs
    → ((b : Web3ProxyBlock) → g.highest_block ≡ some b → number b < u64_max)
    → consensus_head_connections s synced fetch g (some min_num) tier ≡ ok c
    → min_num ≤ number c.head_block + (if c.backups_needed then 1 else 0)
unfolding conclude max_lag_consensus_to_highest
consensus_head_connections-number s synced fetch g min_num tier {c} lower one small h =
    let (highest, f, top, search, concluded) =
      consensus_head_connections-Search s synced fetch g (some min_num) tier h in
    let (low, strict) =
      Search-number s synced fetch g.rpc_to_block highest (lower highest top) search here in
    let looked = Search-zero s synced fetch g.rpc_to_block search in
    ground (arith, low, strict, looked, concluded, small highest top)
