-- ===== src/Consensus/Finder/Update.antt =====
-- `update_rpc` as an update of the map from tiers and servers to heads.
use web3_proxy.Prelude.{
  ℕ, ◌≡◌, inl, inr, false, ◌&&◌, Option, none, some, leb, ◌==◌, if◌then◌else◌, Bool-cases,
}
use web3_proxy.Block.{Web3ProxyBlock}
use web3_proxy.Rpc.{Web3Rpc}
use web3_proxy.Cache.{CacheOps, CacheLaws}
use web3_proxy.Blocks.{try_cache_block}
use web3_proxy.Blocks.Laws.{IsFiled, try_cache_block-IsFiled}
use web3_proxy.Consensus.Finder.{FinderState, update_rpc, too_old}
use web3_proxy.Consensus.Finder.Tiers.{
  head_in, has_tier, IsOrdered, remove-IsOrdered, head_in-remove, insert-IsOrdered, head_in-insert,
}

module _ (hashes : CacheOps Web3ProxyBlock) (numbers first_seens : CacheOps ℕ) where
  -- The head under which a server is tracked from now on: none if it sent none or an old one.
  abbrev pub tracked_head :
      ℕ → FinderState hashes numbers first_seens → Option Web3ProxyBlock → Option Web3ProxyBlock
  tracked_head now s none = none
  tracked_head now s (some b) =
      let b' = (try_cache_block hashes numbers s.blocks b false).1 in
      if too_old now b' s.finder.max_block_age then none else some b'

  -- In a finder whose tiers are ordered, an update sets the head of the server in the group of its own tier and in those above it, and
  -- changes no other head; a block that is too old, or no block, takes the server out.
  pub head_in-update_rpc :
      (now : ℕ) (clock : ℕ → ℕ × ℕ) (s : FinderState hashes numbers first_seens)
      (head : Option Web3ProxyBlock) (rpc : Web3Rpc) (i key : ℕ)
      → IsOrdered s.finder.tiers
      → head_in i key (update_rpc hashes numbers first_seens now clock s head rpc).0.finder.tiers
        ≡ (if has_tier i s.finder.tiers && leb rpc.tier i && rpc.hash_key == key
            then tracked_head now s head
            else head_in i key s.finder.tiers)
  unfolding update_rpc
  head_in-update_rpc now clock s none rpc i key o = head_in-remove rpc s.finder i key o
  head_in-update_rpc now clock s (some b) rpc i key o =
      let b' = (try_cache_block hashes numbers s.blocks b false).1 in
      elim (Bool-cases (too_old now b' s.finder.max_block_age)) [
        | inl old ↦ rw old (head_in-remove rpc s.finder i key o)
        | inr fresh ↦ rw fresh (head_in-insert first_seens clock s.tracking s.finder rpc b' o i key)
      ]

  -- An update keeps the tiers in order and every group well formed.
  pub update_rpc-IsOrdered :
      (now : ℕ) (clock : ℕ → ℕ × ℕ) (s : FinderState hashes numbers first_seens)
      (head : Option Web3ProxyBlock) (rpc : Web3Rpc)
      → IsOrdered s.finder.tiers
      → IsOrdered (update_rpc hashes numbers first_seens now clock s head rpc).0.finder.tiers
  unfolding update_rpc
  update_rpc-IsOrdered now clock s none rpc o = remove-IsOrdered rpc s.finder o
  update_rpc-IsOrdered now clock s (some b) rpc o =
      let b' = (try_cache_block hashes numbers s.blocks b false).1 in
      elim (Bool-cases (too_old now b' s.finder.max_block_age)) [
        | inl old ↦ rw old (remove-IsOrdered rpc s.finder o)
        | inr fresh ↦ rw fresh (insert-IsOrdered first_seens clock s.tracking s.finder rpc b' o)
      ]

  pub update_rpc-IsFiled :
      (laws : CacheLaws hashes) (now : ℕ) (clock : ℕ → ℕ × ℕ)
      (s : FinderState hashes numbers first_seens) (head : Option Web3ProxyBlock) (rpc : Web3Rpc)
      → IsFiled hashes numbers s.blocks
      → IsFiled hashes numbers (update_rpc hashes numbers first_seens now clock s head rpc).0.blocks
  unfolding update_rpc
  update_rpc-IsFiled laws now clock s none rpc filed = filed
  update_rpc-IsFiled laws now clock s (some b) rpc filed =
      let b' = (try_cache_block hashes numbers s.blocks b false).1 in
      elim (Bool-cases (too_old now b' s.finder.max_block_age)) [
        | inl old ↦ rw old (try_cache_block-IsFiled hashes numbers laws s.blocks b false filed)
        | inr fresh ↦ rw fresh (try_cache_block-IsFiled hashes numbers laws s.blocks b false filed)
      ]
