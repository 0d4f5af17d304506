-- ===== src/Blocks/Laws.antt =====
-- The block cache is a cache: what is filed under a hash is a block with that hash.
use web3_proxy.Prelude.{ℕ, ◌≡◌, inl, inr, Bool, some, arith, Option-cases}
use web3_proxy.Block.{Web3ProxyBlock, hash}
use web3_proxy.Cache.{CacheOps, CacheLaws}
use web3_proxy.Blocks.{Blocks, try_cache_block}

module _ (hashes : CacheOps Web3ProxyBlock) (numbers : CacheOps ℕ) where
  -- A block that is found under a hash has that hash.
  pub record IsFiled (blocks : Blocks hashes numbers) : Type 0 where
    pub files : (h : ℕ) (b : Web3ProxyBlock) → hashes.find blocks.by_hash h ≡ some b → hash b ≡ h

module _ (hashes : CacheOps Web3ProxyBlock) (numbers : CacheOps ℕ) (laws : CacheLaws hashes) where
  -- If the cache files blocks by their hash, the block that comes back has the hash of the one that
  -- went in.
  pub hash-try_cache_block :
      (blocks : Blocks hashes numbers) (b : Web3ProxyBlock) (heaviest : Bool)
      → IsFiled hashes numbers blocks
      → hash (try_cache_block hashes numbers blocks b heaviest).1 ≡ hash b
  unfolding try_cache_block
  hash-try_cache_block blocks b heaviest filed =
      elim (Option-cases (hashes.find blocks.by_hash (hash b))) [
        | inl gone ↦ ground (arith, laws.get_with_miss blocks.by_hash (hash b) b gone)
        | inr (c, hit) ↦
            ground
              (arith, laws.get_with_hit blocks.by_hash (hash b) c b hit, filed.files (hash b) c hit)
      ]

  -- Caching a block keeps the cache filed by hash.
  pub try_cache_block-IsFiled :
      (blocks : Blocks hashes numbers) (b : Web3ProxyBlock) (heaviest : Bool)
      → IsFiled hashes numbers blocks
      → IsFiled hashes numbers (try_cache_block hashes numbers blocks b heaviest).0
  unfolding try_cache_block
  try_cache_block-IsFiled blocks b heaviest filed = record {
    files = λ h c found.
        ground (arith, filed.files h c, laws.get_with_holds blocks.by_hash (hash b) b h c);
  }
