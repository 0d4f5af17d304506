-- ===== src/Consensus/Head/Search.antt =====
-- The search for a head as a relation: one rule for each way a round can end.
use web3_proxy.Prelude.{
  ℕ, zero, suc, ◌≡◌, refl, inl, inr, Bool, true, false, Option, none, some, arith, Bool-cases,
  Option-cases,
}
use web3_proxy.Prelude.Results.{Result, ok, err, ◌>>=◌, context}
use web3_proxy.Prelude.Results.{>>=-eq-ok, context-eq-ok}
use web3_proxy.Block.{Web3ProxyBlock, parent_hash}
use web3_proxy.Rpc.{Settings}
use web3_proxy.Consensus.Group.{RpcToBlock, ConnectionsGroup}
use web3_proxy.Consensus.Head.{
  ConsensusError, Votes, is_some, visit_all, primary_enough, Found, vote_backups, search_head,
  no_votes, conclude, max_lag_consensus_to_highest, consensus_head_connections, ConsensusWeb3Rpcs,
  no_blocks_known,
}

module _ (s : Settings) (synced : Bool) (fetch : ℕ → Option Web3ProxyBlock) (m : RpcToBlock) where
  pub data Search : ℕ → Web3ProxyBlock → Votes → Option Web3ProxyBlock → Found → Type 0 where
    exhausted :
        {block : Web3ProxyBlock} {v : Votes} {bv : Option Web3ProxyBlock} {f : Found}
        → f ≡ record {
          maybe_head_block = block;
          votes = v;
          primary_rpcs_voted = none;
          backup_rpcs_voted = bv;
        }
        → Search zero block v bv f
    elected :
        {rounds : ℕ} {block : Web3ProxyBlock} {v : Votes} {bv : Option Web3ProxyBlock} {f : Found}
        (v' : Votes)
        → visit_all s synced block (is_some bv) m v ≡ ok v'
        → primary_enough s v' ≡ true
        → f ≡ record {
          maybe_head_block = block;
          votes = v';
          primary_rpcs_voted = some block;
          backup_rpcs_voted = bv;
        }
        → Search (suc rounds) block v bv f
    parent :
        {rounds : ℕ} {block : Web3ProxyBlock} {v : Votes} {bv : Option Web3ProxyBlock} {f : Found}
        (v' : Votes) (p : Web3ProxyBlock)
        → visit_all s synced block (is_some bv) m v ≡ ok v'
        → primary_enough s v' ≡ false
        → fetch (parent_hash block) ≡ some p
        → Search rounds p v' (vote_backups s block v' bv) f
        → Search (suc rounds) block v bv f
    orphan :
        {rounds : ℕ} {block : Web3ProxyBlock} {v : Votes} {bv : Option Web3ProxyBlock} {f : Found}
        (v' : Votes)
        → visit_all s synced block (is_some bv) m v ≡ ok v'
        → primary_enough s v' ≡ false
        → is_some (vote_backups s block v' bv) ≡ true
        → f ≡ record {
          maybe_head_block = block;
          votes = v';
          primary_rpcs_voted = none;
          backup_rpcs_voted = vote_backups s block v' bv;
        }
        → Search (suc rounds) block v bv f

  pub search_head-Search :
      (rounds : ℕ) (block : Web3ProxyBlock) (v : Votes) (bv : Option Web3ProxyBlock) (f : Found)
      → search_head s synced fetch m rounds block v bv ≡ ok f
      → Search rounds block v bv f
  unfolding search_head
  search_head-Search zero block v bv f h = exhausted (ground arith)
  search_head-Search (suc rounds) block v bv f h =
      go (visit_all s synced block (is_some bv) m v) refl
        (λ p v' bv' e. search_head-Search rounds p v' bv' f e)
    where
      go :
          (r : Result ConsensusError Votes)
          → visit_all s synced block (is_some bv) m v ≡ r
          → ((p : Web3ProxyBlock) (v' : Votes) (bv' : Option Web3ProxyBlock)
              → search_head s synced fetch m rounds p v' bv' ≡ ok f
              → Search rounds p v' bv' f)
          → Search (suc rounds) block v bv f
      go (err e) q rec = absurd (ground arith)
      go (ok v') q rec = elim (Bool-cases (primary_enough s v')) [
        | inl enough ↦ elected v' q enough (ground arith)
        | inr short ↦ elim (Option-cases (fetch (parent_hash block))) [
          | inr (p, e) ↦
              parent v' p q short e (rec p v' (vote_backups s block v' bv) (ground arith))
          | inl gone ↦ elim (Bool-cases (is_some (vote_backups s block v' bv))) [
            | inl voted ↦ orphan v' q short voted (ground arith)
            | inr unvoted ↦ absurd (ground arith)
          ]
        ]
      ]

-- A consensus is the conclusion of such a search, from the highest block and no votes.
pub consensus_head_connections-Search :
    (s : Settings) (synced : Bool) (fetch : ℕ → Option Web3ProxyBlock) (g : ConnectionsGroup)
    (min_num : Option ℕ) (tier : ℕ) {c : ConsensusWeb3Rpcs}
    → consensus_head_connections s synced fetch g min_num tier ≡ ok c
    → (highest : Web3ProxyBlock) × (f : Found) × (g.highest_block ≡ some highest)
      × Search s synced fetch g.rpc_to_block
          (max_lag_consensus_to_highest highest min_num)
          highest
          no_votes
          none
          f
      × (conclude s tier f ≡ ok c)
unfolding consensus_head_connections
consensus_head_connections-Search s synced fetch g min_num tier {c} h =
    let (highest, top, h1) = >>=-eq-ok (context g.highest_block no_blocks_known) _ h in
    let searched : (search_head s synced fetch g.rpc_to_block
            (max_lag_consensus_to_highest highest min_num) highest no_votes none
          >>= conclude s tier)
        ≡ ok c =
      ground arith in
    let (f, found, concluded) =
      >>=-eq-ok
        (search_head s synced fetch g.rpc_to_block (max_lag_consensus_to_highest highest min_num)
          highest no_votes none)
        (conclude s tier) searched in
    (
      highest,
      f,
      context-eq-ok g.highest_block no_blocks_known top,
      search_head-Search s synced fetch g.rpc_to_block
          (max_lag_consensus_to_highest highest min_num) highest no_votes none f found,
      concluded,
    )
