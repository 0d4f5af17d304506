-- ===== src/Consensus/Group.antt =====
-- `ConnectionsGroup` of web3_proxy/src/rpcs/consensus.rs.
-- `HashMap<Arc<Web3Rpc>, Web3ProxyBlock>` is an association list whose keys are compared by what
-- `Hash for Web3Rpc` reads, `hash_key`; its order stands for the map's arbitrary one. The cache `first_seen`
-- is shared by all groups and stands beside them, in `Tracking`, with a log of the latencies that
-- were recorded, each with its server's key (`Latency` keeps their moving average, by a library).
pub mod Highest
use web3_proxy.Prelude.{
  ℕ, zero, suc, ◌+◌, ◌-◌, ◌*◌, ◌/◌, ◌%◌, ◌^◌, ◌≤◌, ◌<◌, min, max, ◌≡◌, refl, sym, ap, ◌∙◌, ◌≢◌, ◌↔◌,
  ◌⊎◌, inl, inr, Bool, true, false, not, ◌&&◌, ◌||◌, Option, none, some, List, [], ◌∷◌, ◌++◌, map,
  arith, ltb, leb, ◌==◌, if◌then◌else◌, ltb→lt, lt→ltb, leb→le, ==_iff, ==_refl, Bool-cases,
  Option-cases, length, length-append, filter_by, any, All, All-append, contains,
}
use web3_proxy.Prelude.Results.{Result, ok, err, ◌>>=◌, context}
use web3_proxy.Prelude.Words.{
  u64_max, saturating_add, saturating_sub, checked_sub, option_max, option_min, some_gt,
}
use web3_proxy.Block.{Web3ProxyBlock, hash, number}
use web3_proxy.Rpc.{Web3Rpc}
use web3_proxy.Cache.{CacheOps}

abbrev pub RpcToBlock : Type 0
RpcToBlock = List (Web3Rpc × Web3ProxyBlock)

pub record ConnectionsGroup : Type 0 where
  pub rpc_to_block : RpcToBlock
  pub highest_block : Option Web3ProxyBlock

unfoldable pub new : ConnectionsGroup
new = record { rpc_to_block = []; highest_block = none }

-- `HashMap::get`, `remove` and `insert`, which keeps the old key of an entry that it replaces.
unfoldable pub block_of : ℕ → RpcToBlock → Option Web3ProxyBlock
block_of key [] = none
block_of key ((r, b) ∷ m) = if r.hash_key == key then some b else block_of key m

unfoldable pub remove_key : ℕ → RpcToBlock → RpcToBlock
remove_key key [] = []
remove_key key ((r, b) ∷ m) =
    let rest = remove_key key m in if r.hash_key == key then m else (r, b) ∷ rest

unfoldable pub insert_key : Web3Rpc → Web3ProxyBlock → RpcToBlock → RpcToBlock
insert_key rpc block [] = (rpc, block) ∷ []
insert_key rpc block ((r, b) ∷ m) =
    let rest = insert_key rpc block m in
    if r.hash_key == rpc.hash_key then (r, block) ∷ m else (r, b) ∷ rest

-- The loop over `rpc_to_block.values()` in `remove`.
unfoldable pub raise : Web3ProxyBlock → RpcToBlock → Web3ProxyBlock
raise current [] = current
raise current ((r, b) ∷ m) = raise (if ltb (number current) (number b) then b else current) m

unfoldable pub highest_after :
    Web3ProxyBlock → RpcToBlock → Option Web3ProxyBlock → Option Web3ProxyBlock
highest_after removed m none = none
highest_after removed m (some current) =
    some (if hash removed == hash current then raise current m else current)

unfoldable pub remove : ConnectionsGroup → Web3Rpc → ConnectionsGroup × Option Web3ProxyBlock
remove g rpc = elim (block_of rpc.hash_key g.rpc_to_block) [
  | none ↦ (g, none)
  | some removed ↦
      let m = remove_key rpc.hash_key g.rpc_to_block in
      (
        record { rpc_to_block = m; highest_block = highest_after removed m g.highest_block },
        some removed,
      )
]

abbrev pub number_of : Option Web3ProxyBlock → Option ℕ
number_of none = none
number_of (some b) = some (number b)

unfoldable pub put : ConnectionsGroup → Web3Rpc → Web3ProxyBlock → ConnectionsGroup
put g rpc block = record {
  rpc_to_block = insert_key rpc block g.rpc_to_block;
  highest_block =
      if some_gt (number block) (number_of g.highest_block) then some block else g.highest_block;
}

module _ (first_seens : CacheOps ℕ) where
  pub record Tracking : Type 0 where
    pub first_seen : first_seens.Store
    pub latencies : List (ℕ × ℕ)

  -- `started` and `checked` are the readings of the clock by the cache's `Instant::now()` and by
  -- `elapsed()`, which is 0 for an instant in the future.
  unfoldable pub insert :
      Tracking
      → ConnectionsGroup
      → (started checked : ℕ) → Web3Rpc
      → Web3ProxyBlock
      → Tracking × ConnectionsGroup × Option Web3ProxyBlock
  insert t g started checked rpc block =
      let (first, store) = first_seens.get_with t.first_seen (hash block) started in
      (
        record {
          first_seen = store;
          latencies = t.latencies ++ (rpc.hash_key, checked - first) ∷ [];
        },
        put g rpc block,
        block_of rpc.hash_key g.rpc_to_block,
      )
