-- ===== src/Block/Laws.antt =====
-- The ways to make a block, against what the accessors need.
use web3_proxy.Prelude.{ℕ, ◌-◌, ◌/◌, ◌≡◌, ◌↔◌, true, arith}
use web3_proxy.Block.{Web3ProxyBlock, nanos_per_sec, age, hash, eq, IsSaved}

-- The age is the whole seconds since the block's time stamp, and 0 for a block from the future.
pub age_lem : (now : ℕ) (x : Web3ProxyBlock) → age now x ≡ now / nanos_per_sec - x.block.timestamp
unfolding age
age_lem now x = ground arith

-- On saved blocks, equality is that of the hashes.
pub eq_iff : (x y : Web3ProxyBlock) → IsSaved x → IsSaved y → (eq x y ≡ true) ↔ (hash x ≡ hash y)
unfolding eq
eq_iff x y sx sy = ground arith
