-- ===== src/Consensus/Head/Quorum.antt =====
-- A head that is found without backups has the quorum that is configured.
use web3_proxy.Prelude.{
  ℕ, ◌+◌, ◌≤◌, ◌≡◌, refl, ◌⊎◌, inl, inr, Bool, true, false, Option, none, some, List, [], ◌∷◌,
  arith, Bool-cases, length, All,
}
use web3_proxy.Prelude.Results.{ok}
use web3_proxy.Prelude.Results.{>>=-eq-ok}
use web3_proxy.Block.{Web3ProxyBlock}
use web3_proxy.Rpc.{Web3Rpc, Settings}
use web3_proxy.Consensus.Group.{RpcToBlock, ConnectionsGroup}
use web3_proxy.Consensus.Head.Search.{
  Search, exhausted, elected, parent, orphan, consensus_head_connections-Search,
}
use web3_proxy.Consensus.Head.Visit.{visit-cases}
use web3_proxy.Consensus.Head.{
  ConsensusWeb3Rpcs, num_conns, Votes, no_votes, is_some, add_vote, visit, visit_all,
  primary_enough, Found, known_rpcs, conclude, consensus_head_connections,
}

-- The sum of the soft limits, which does not wrap.
abbrev pub total_soft_limit : List Web3Rpc → ℕ
total_soft_limit [] = 0
total_soft_limit (rpc ∷ rpcs) = rpc.soft_limit + total_soft_limit rpcs

module _ (s : Settings) where
  abbrev IsPrimary : ℕ → Type 0
  IsPrimary n = (r : Web3Rpc) × (s.by_name n ≡ some r) × (r.backup ≡ false)

  -- The names are those of configured servers that are no backups, and the running total does not
  -- exceed their soft limits.
  record CountsPrimary (v : Votes) : Type 0 where
    known : All IsPrimary v.primary
    summed : v.primary_sum ≤ total_soft_limit (known_rpcs s.by_name v.primary)

  no_votes-CountsPrimary : CountsPrimary no_votes
  unfolding known_rpcs
  no_votes-CountsPrimary = record { known = tt; summed = omega arith }

  add_vote-CountsPrimary :
      (bv : Bool) (n : ℕ) (r : Web3Rpc) (v : Votes)
      → s.by_name n ≡ some r
      → CountsPrimary v
      → CountsPrimary (add_vote bv (record r { name = n }) v)
  unfolding add_vote known_rpcs
  add_vote-CountsPrimary true n r v e i = elim (Bool-cases r.backup) [
    | inl b ↦ rw b i
    | inr b ↦ rw b (record { known = ((r, e, b), i.known); summed = rw e (omega arith) })
  ]
  add_vote-CountsPrimary false n r v e i = elim (Bool-cases r.backup) [
    | inl b ↦ rw b (record { known = i.known; summed = i.summed })
    | inr b ↦ rw b (record { known = ((r, e, b), i.known); summed = rw e (omega arith) })
  ]

  module _ (synced : Bool) where
    visit-CountsPrimary :
        (block : Web3ProxyBlock) (bv : Bool) (e : Web3Rpc × Web3ProxyBlock) (v v' : Votes)
        → visit s synced block bv e v ≡ ok v'
        → CountsPrimary v
        → CountsPrimary v'
    visit-CountsPrimary block bv e v v' h i = elim (visit-cases s synced block bv e v v' h) [
      | inl same ↦ rw same i
      | inr (r, found, _, _, _, voted) ↦ rw voted (add_vote-CountsPrimary bv e.0.name r v found i)
    ]

    visit_all-CountsPrimary :
        (block : Web3ProxyBlock) (bv : Bool) (m : RpcToBlock) (v v' : Votes)
        → visit_all s synced block bv m v ≡ ok v'
        → CountsPrimary v
        → CountsPrimary v'
    unfolding visit_all
    visit_all-CountsPrimary block bv [] v v' h i = let e : v ≡ v' = cc in rw e at i
    visit_all-CountsPrimary block bv (e ∷ m) v v' h i =
        let (u, first, rest) =
          >>=-eq-ok (visit s synced block bv e v) (visit_all s synced block bv m) h in
        visit_all-CountsPrimary block bv m u v' rest (visit-CountsPrimary block bv e v u first i)

    -- The state in which the search ends.
    record EndsWell (f : Found) : Type 0 where
      counts : CountsPrimary f.votes
      voted : (f.primary_rpcs_voted ≡ none) ⊎ (primary_enough s f.votes ≡ true)

    module _ (fetch : ℕ → Option Web3ProxyBlock) (m : RpcToBlock) where
      Search-EndsWell :
          {rounds : ℕ} {block : Web3ProxyBlock} {v : Votes} {bv : Option Web3ProxyBlock} {f : Found}
          → Search s synced fetch m rounds block v bv f
          → CountsPrimary v
          → EndsWell f
      Search-EndsWell (exhausted e) i = rw e (record { counts = i; voted = inl refl })
      Search-EndsWell {block = block} {v = v} {bv = bv} (elected v' q enough e) i = rw e (record {
        counts = visit_all-CountsPrimary block (is_some bv) m v v' q i;
        voted = inr enough;
      })
      Search-EndsWell {block = block} {v = v} {bv = bv} (parent v' p q short e rest) i =
          Search-EndsWell rest (visit_all-CountsPrimary block (is_some bv) m v v' q i)
      Search-EndsWell {block = block} {v = v} {bv = bv} (orphan v' q short voted e) i =
          rw e (record {
            counts = visit_all-CountsPrimary block (is_some bv) m v v' q i;
            voted = inl refl;
          })

  -- Every name in the set gives a server, and none of them is a backup.
  known_rpcs-primary :
      (ns : List ℕ)
      → All IsPrimary ns
      → (length (known_rpcs s.by_name ns) ≡ length ns)
        × All (λ r. r.backup ≡ false) (known_rpcs s.by_name ns)
  unfolding known_rpcs
  known_rpcs-primary [] a = (refl, tt)
  known_rpcs-primary (n ∷ ns) ((r, e, b), a) =
      let (len, all) = known_rpcs-primary ns a in rw (e, known_rpcs) (omega arith, (b, all))

-- A consensus never lists a backup server. It needs backups, or else its servers are as many, and
-- their soft limits add up to as much, as is configured.
pub consensus_head_connections-quorum :
    (s : Settings) (synced : Bool) (fetch : ℕ → Option Web3ProxyBlock) (g : ConnectionsGroup)
    (min_num : Option ℕ) (tier : ℕ) {c : ConsensusWeb3Rpcs}
    → consensus_head_connections s synced fetch g min_num tier ≡ ok c
    → All (λ r. r.backup ≡ false) c.rpcs
      × ((c.backups_needed ≡ true)
          ⊎ ((s.min_head_rpcs ≤ num_conns c) × (s.min_sum_soft_limit ≤ total_soft_limit c.rpcs)))
unfolding conclude primary_enough num_conns
consensus_head_connections-quorum s synced fetch g min_num tier {c} h =
    let (highest, f, _, search, concluded) =
      consensus_head_connections-Search s synced fetch g min_num tier h in
    let well = Search-EndsWell s synced fetch g.rpc_to_block search (no_votes-CountsPrimary s) in
    let (len, none_backup) = known_rpcs-primary s f.votes.primary well.counts.known in
    let e : c.rpcs ≡ known_rpcs s.by_name f.votes.primary = ground arith in
    (
      rw e none_backup,
      elim (Bool-cases c.backups_needed) [
        | inl needed ↦ inl needed
        | inr enough ↦
            inr (ground (arith, well.voted, len), ground (arith, well.voted, well.counts.summed))
      ],
    )
