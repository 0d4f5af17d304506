-- ===== src/Consensus/Finder/Tiers.antt =====
-- The groups of a finder as one map from tiers and servers to heads.
use web3_proxy.Prelude.{
  ℕ, zero, suc, ◌≤◌, ◌<◌, ◌≡◌, refl, inl, inr, Bool, true, false, ◌&&◌, ◌||◌, Option, none, some,
  [], ◌∷◌, arith, ltb, leb, ◌==◌, if◌then◌else◌, Bool-cases, All,
}
use web3_proxy.Block.{Web3ProxyBlock}
use web3_proxy.Rpc.{Web3Rpc}
use web3_proxy.Cache.{CacheOps}
use web3_proxy.Consensus.Group as Group
use web3_proxy.Consensus.Group.{ConnectionsGroup, Tracking, block_of, insert_key, put}
use web3_proxy.Consensus.Group.Highest.{
  IsGroup, block_of-insert_key, block_of-remove_key, put-IsGroup, remove-IsGroup, remove_lem,
  new-IsGroup,
}
use web3_proxy.Consensus.Finder.{
  Tiers, tiers_below, walk, ConsensusFinder, remove_at, remove, insert_at, insert, new,
}

-- The head of the server with the key `key` in the group of tier `i`.
unfoldable pub head_in : ℕ → ℕ → Tiers → Option Web3ProxyBlock
head_in i key [] = none
head_in i key ((j, g) ∷ rest) = if j == i then block_of key g.rpc_to_block else head_in i key rest

unfoldable pub has_tier : ℕ → Tiers → Bool
has_tier i [] = false
has_tier i ((j, g) ∷ rest) = j == i || has_tier i rest

-- The tiers fall along the list, and each group is well formed.
abbrev pub IsOrdered : Tiers → Type 0
IsOrdered [] = Unit
IsOrdered ((j, g) ∷ rest) = All (λ e. e.0 < j) rest × IsGroup g × IsOrdered rest

has_tier-lt : (i j : ℕ) (tiers : Tiers) → All (λ e. e.0 < j) tiers → has_tier i tiers ≡ true → i < j
unfolding has_tier
has_tier-lt i j [] a h = cc
has_tier-lt i j ((k, g) ∷ rest) a h = ground (arith, has_tier-lt i j rest a.1)

tiers_below-lt : (n : ℕ) (k : ℕ) → n ≤ k → All (λ e. e.0 < k) (tiers_below n)
unfolding tiers_below
tiers_below-lt zero k h = tt
tiers_below-lt (suc n) k h = (omega arith, tiers_below-lt n k (omega arith))

tiers_below-IsOrdered : (n : ℕ) → IsOrdered (tiers_below n)
unfolding tiers_below
tiers_below-IsOrdered zero = tt
tiers_below-IsOrdered (suc n) =
    (tiers_below-lt n n (omega arith), new-IsGroup, tiers_below-IsOrdered n)

pub new-IsOrdered : (a b : Option ℕ) → IsOrdered (new a b).tiers
unfolding new
new-IsOrdered a b = tiers_below-IsOrdered 10

-- A walk with an operation that keeps groups well formed keeps the finder well formed.
module _ {S : Type 0} (op : S → ℕ → ConnectionsGroup → S × ConnectionsGroup × Option Web3ProxyBlock)
    (keeps : (s : S) (i : ℕ) (g : ConnectionsGroup) → IsGroup g → IsGroup (op s i g).1) where
  walk-lt :
      (s : S) (tier k : ℕ) (tiers : Tiers)
      → All (λ e. e.0 < k) tiers
      → All (λ e. e.0 < k) (walk op s tier tiers).1
  unfolding walk
  walk-lt s tier k [] a = tt
  walk-lt s tier k ((j, g) ∷ rest) a = ground (arith, walk-lt (op s j g).0 tier k rest a.1)

  walk-IsOrdered :
      (s : S) (tier : ℕ) (tiers : Tiers) → IsOrdered tiers → IsOrdered (walk op s tier tiers).1
  unfolding walk
  walk-IsOrdered s tier [] o = tt
  walk-IsOrdered s tier ((j, g) ∷ rest) o = elim (Bool-cases (ltb j tier)) [
    | inl low ↦ rw low o
    | inr high ↦ rw high (
      walk-lt (op s j g).0 tier j rest o.0,
      keeps s j g o.1,
      walk-IsOrdered (op s j g).0 tier rest o.2,
    )
  ]

module _ (first_seens : CacheOps ℕ) (clock : ℕ → ℕ × ℕ) (rpc : Web3Rpc)
    (block : Web3ProxyBlock) where
  head_in-walk_insert :
      (t : Tracking first_seens) (tiers : Tiers) (i key : ℕ)
      → IsOrdered tiers
      → head_in i key (walk (insert_at first_seens clock rpc block) t rpc.tier tiers).1 ≡ (
          if has_tier i tiers && leb rpc.tier i && rpc.hash_key == key
          then some block
          else head_in i key tiers)
  unfolding head_in has_tier walk Group.insert put
  head_in-walk_insert t [] i key o = refl
  head_in-walk_insert t ((j, g) ∷ rest) i key o = ground (
    arith,
    has_tier-lt i j rest o.0,
    block_of-insert_key rpc block g.rpc_to_block key,
    head_in-walk_insert (insert_at first_seens clock rpc block t j g).0 rest i key o.2,
  )

module _ (rpc : Web3Rpc) where
  head_in-walk_remove :
      (tiers : Tiers) (i key : ℕ)
      → IsOrdered tiers
      → head_in i key (walk (remove_at rpc) tt rpc.tier tiers).1 ≡ (
          if has_tier i tiers && leb rpc.tier i && rpc.hash_key == key
          then none
          else head_in i key tiers)
  unfolding head_in has_tier walk
  head_in-walk_remove [] i key o = refl
  head_in-walk_remove ((j, g) ∷ rest) i key o = ground (
    arith,
    has_tier-lt i j rest o.0,
    remove_lem g rpc o.1,
    block_of-remove_key rpc.hash_key g.rpc_to_block key o.1.distinct,
    head_in-walk_remove rest i key o.2,
  )

  pub remove-IsOrdered :
      (f : ConsensusFinder) → IsOrdered f.tiers → IsOrdered (remove f rpc).0.tiers
  unfolding remove
  remove-IsOrdered f o =
      walk-IsOrdered (remove_at rpc) (λ u i g h. remove-IsGroup g rpc h) tt rpc.tier f.tiers o

  pub head_in-remove :
      (f : ConsensusFinder) (i key : ℕ)
      → IsOrdered f.tiers
      → head_in i key (remove f rpc).0.tiers ≡ (
          if has_tier i f.tiers && leb rpc.tier i && rpc.hash_key == key
          then none
          else head_in i key f.tiers)
  unfolding remove
  head_in-remove f i key o = head_in-walk_remove f.tiers i key o

module _ (first_seens : CacheOps ℕ) (clock : ℕ → ℕ × ℕ) (t : Tracking first_seens)
    (f : ConsensusFinder) (rpc : Web3Rpc) (block : Web3ProxyBlock) (o : IsOrdered f.tiers) where
  pub insert-IsOrdered : IsOrdered (insert first_seens clock t f rpc block).1.tiers
  unfolding insert Group.insert
  insert-IsOrdered =
      walk-IsOrdered (insert_at first_seens clock rpc block) (λ u i g h. put-IsGroup g rpc block h)
        t rpc.tier f.tiers o

  pub head_in-insert :
      (i key : ℕ)
      → head_in i key (insert first_seens clock t f rpc block).1.tiers ≡ (
          if has_tier i f.tiers && leb rpc.tier i && rpc.hash_key == key
          then some block
          else head_in i key f.tiers)
  unfolding insert
  head_in-insert i key = head_in-walk_insert first_seens clock rpc block t f.tiers i key o
