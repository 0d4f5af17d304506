-- ===== src/Consensus/Head.antt =====
-- `consensus_head_connections` of web3_proxy/src/rpcs/consensus.rs: the vote on a head block within
-- one group of servers, from the highest block down its chain of parents.
-- A `HashSet` of names is a list without repetition. `u32` sums wrap, as in a release build.
-- `fetch` is what `Web3Rpcs::block` gives for a hash, `none` for an error; `synced` is
-- `Web3Rpcs::synced()`.
pub mod Visit
pub mod Search
pub mod Quorum
pub mod Chain
pub mod Voters
use web3_proxy.Prelude.{
  ℕ, zero, suc, ◌+◌, ◌-◌, ◌*◌, ◌/◌, ◌%◌, ◌^◌, ◌≤◌, ◌<◌, min, max, ◌≡◌, refl, sym, ap, ◌∙◌, ◌≢◌, ◌↔◌,
  ◌⊎◌, inl, inr, Bool, true, false, not, ◌&&◌, ◌||◌, Option, none, some, List, [], ◌∷◌, ◌++◌, map,
  arith, ltb, leb, ◌==◌, if◌then◌else◌, ltb→lt, lt→ltb, leb→le, ==_iff, ==_refl, Bool-cases,
  Option-cases, length, length-append, filter_by, any, All, All-append, contains,
}
use web3_proxy.Prelude.Results.{Result, ok, err, ◌>>=◌, context}
use web3_proxy.Prelude.Words.{
  u64_max, saturating_add, saturating_sub, checked_sub, option_max, option_min, some_gt,
}
use web3_proxy.Block.{Web3ProxyBlock, hash, number, parent_hash}
use web3_proxy.Rpc.{Web3Rpc, Settings}
use web3_proxy.Consensus.Group.{RpcToBlock, ConnectionsGroup}

pub record ConsensusWeb3Rpcs : Type 0 where
  pub tier : ℕ
  pub head_block : Web3ProxyBlock
  pub rpcs : List Web3Rpc
  pub backups_voted : Option Web3ProxyBlock
  pub backups_needed : Bool

unfoldable pub num_conns : ConsensusWeb3Rpcs → ℕ
num_conns c = length c.rpcs

abbrev pub add_u32 : ℕ → ℕ → ℕ
add_u32 a b = (a + b) % 4294967296

sum_from : ℕ → List Web3Rpc → ℕ
sum_from sum [] = sum
sum_from sum (rpc ∷ rpcs) = sum_from (add_u32 sum rpc.soft_limit) rpcs

unfoldable pub sum_soft_limit : ConsensusWeb3Rpcs → ℕ
unfolding sum_from
sum_soft_limit c = sum_from 0 c.rpcs

pub data ConsensusError : Type 0 where
  no_blocks_known not_enough_rpcs_connected not_synced ran_out_of_parents : ConsensusError
  not_enough_resources no_rpcs no_highest_block failed_on_all_tiers : ConsensusError

-- The sets and running totals of the loop.
pub record Votes : Type 0 where
  pub primary : List ℕ
  pub backup : List ℕ
  pub primary_sum : ℕ
  pub backup_sum : ℕ

abbrev pub no_votes : Votes
no_votes = record { primary = []; backup = []; primary_sum = 0; backup_sum = 0 }

-- `!=` of two `HashSet`s.
subset : List ℕ → List ℕ → Bool
unfolding contains
subset [] ys = true
subset (x ∷ xs) ys = contains ys x && subset xs ys

unfoldable pub same_set : List ℕ → List ℕ → Bool
unfolding subset
same_set xs ys = (length xs == length ys) && subset xs ys

abbrev pub is_some : Option Web3ProxyBlock → Bool
is_some none = false
is_some (some _) = true

-- A server on the block that is looked at.
unfoldable pub add_vote : (backups_voted : Bool) → Web3Rpc → Votes → Votes
add_vote backups_voted rpc v =
    let v' : Votes = if backups_voted then v else record v {
      backup = rpc.name ∷ v.backup;
      backup_sum = add_u32 v.backup_sum rpc.soft_limit;
    } in
    if rpc.backup then v' else record v' {
      primary = rpc.name ∷ v'.primary;
      primary_sum = add_u32 v'.primary_sum rpc.soft_limit;
    }

module _ (s : Settings) where
  unfoldable pub primary_enough : Votes → Bool
  primary_enough v =
      leb s.min_sum_soft_limit v.primary_sum && leb s.min_head_rpcs (length v.primary)

  unfoldable pub backup_enough : Votes → Bool
  backup_enough v =
      not (same_set v.backup v.primary)
      && (leb s.min_sum_soft_limit v.backup_sum && leb s.min_head_rpcs (length v.backup))

  unfoldable pub vote_backups :
      Web3ProxyBlock → Votes → Option Web3ProxyBlock → Option Web3ProxyBlock
  vote_backups block v (some b) = some b
  vote_backups block v none = if backup_enough v then some block else none

-- Where the loop over the parents ends.
pub record Found : Type 0 where
  pub maybe_head_block : Web3ProxyBlock
  pub votes : Votes
  pub primary_rpcs_voted : Option Web3ProxyBlock
  pub backup_rpcs_voted : Option Web3ProxyBlock

module _ (s : Settings) (synced : Bool) where
  -- One round of the loop over `rpc_to_block`.
  unfoldable pub visit :
      Web3ProxyBlock
      → (backups_voted : Bool) → Web3Rpc × Web3ProxyBlock
      → Votes
      → Result ConsensusError Votes
  unfolding contains
  visit maybe_head backups_voted (rpc, rpc_head) v =
      if not (hash rpc_head == hash maybe_head)
      then ok v
      else if contains v.backup rpc.name
      then ok v
      else if contains v.primary rpc.name
      then ok v
      else elim (s.by_name rpc.name) [
        | some known ↦ ok (add_vote backups_voted (record known { name = rpc.name }) v)
        | none ↦ if synced then ok v else err not_synced
      ]

  unfoldable pub visit_all :
      Web3ProxyBlock → (backups_voted : Bool) → RpcToBlock → Votes → Result ConsensusError Votes
  visit_all maybe_head backups_voted [] v = ok v
  visit_all maybe_head backups_voted (e ∷ m) v =
      visit maybe_head backups_voted e v >>= visit_all maybe_head backups_voted m

  module _ (fetch : ℕ → Option Web3ProxyBlock) (m : RpcToBlock) where
    -- The loop over the parents: `rounds` is the number of blocks left to look at.
    unfoldable pub search_head :
        (rounds : ℕ) → Web3ProxyBlock → Votes → Option Web3ProxyBlock → Result ConsensusError Found
    search_head zero block v backup_voted = ok (record {
      maybe_head_block = block;
      votes = v;
      primary_rpcs_voted = none;
      backup_rpcs_voted = backup_voted;
    })
    search_head (suc rounds) block v backup_voted =
        visit_all block (is_some backup_voted) m v >>= λ v'. elim (primary_enough s v') [
          | true ↦ ok (record {
            maybe_head_block = block;
            votes = v';
            primary_rpcs_voted = some block;
            backup_rpcs_voted = backup_voted;
          })
          | false ↦
              let backup_voted' = vote_backups s block v' backup_voted in
              elim (fetch (parent_hash block)) [
                | some parent ↦ search_head rounds parent v' backup_voted'
                | none ↦
                    if is_some backup_voted'
                    then ok (record {
                      maybe_head_block = block;
                      votes = v';
                      primary_rpcs_voted = none;
                      backup_rpcs_voted = backup_voted';
                    })
                    else err ran_out_of_parents
              ]
        ]

-- `filter_map` over the names of the set.
unfoldable pub known_rpcs : (ℕ → Option Web3Rpc) → List ℕ → List Web3Rpc
known_rpcs by_name [] = []
known_rpcs by_name (n ∷ ns) =
    let rest = known_rpcs by_name ns in elim (by_name n) [ some rpc ↦ rpc ∷ rest | none ↦ rest ]

-- The distance from the highest block down to the lowest that may become the head.
unfoldable pub max_lag_consensus_to_highest : Web3ProxyBlock → Option ℕ → ℕ
max_lag_consensus_to_highest block none = 10
max_lag_consensus_to_highest block (some min_consensus_block_num) =
    saturating_sub (saturating_add (number block) 1) min_consensus_block_num

unfoldable pub conclude : Settings → (tier : ℕ) → Found → Result ConsensusError ConsensusWeb3Rpcs
conclude s tier f =
    if (ltb (length f.votes.primary) s.min_head_rpcs
        || ltb f.votes.primary_sum s.min_sum_soft_limit)
      && not (is_some f.backup_rpcs_voted)
    then err not_enough_resources
    else ok (record {
      tier = tier;
      head_block = f.maybe_head_block;
      rpcs = known_rpcs s.by_name f.votes.primary;
      backups_voted = f.backup_rpcs_voted;
      backups_needed = not (is_some f.primary_rpcs_voted);
    })

module _ (s : Settings) (synced : Bool) (fetch : ℕ → Option Web3ProxyBlock) where
  unfoldable pub consensus_head_connections :
      ConnectionsGroup
      → (min_consensus_block_num : Option ℕ) → (tier : ℕ) → Result ConsensusError ConsensusWeb3Rpcs
  consensus_head_connections g min_consensus_block_num tier =
      context g.highest_block no_blocks_known >>= λ highest.
      if ltb (length g.rpc_to_block) s.min_head_rpcs
      then err not_enough_rpcs_connected
      else (search_head s synced fetch g.rpc_to_block
            (max_lag_consensus_to_highest highest min_consensus_block_num) highest no_votes none
          >>= conclude s tier)
