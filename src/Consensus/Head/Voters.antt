-- ===== src/Consensus/Head/Voters.antt =====
-- The servers of a consensus are on its head block, or on a later block of the same chain.
use web3_proxy.Prelude.{ℕ, ◌≡◌, refl, ◌⊎◌, inl, inr, Bool, Option, some, List, [], ◌∷◌, arith, All}
use web3_proxy.Prelude.Results.{ok}
use mathlib.Core.List.{Memᴰ}
use web3_proxy.Prelude.Results.{>>=-eq-ok}
use web3_proxy.Block.{Web3ProxyBlock, hash, parent_hash}
use web3_proxy.Rpc.{Web3Rpc, Settings}
use web3_proxy.Consensus.Group.{RpcToBlock, ConnectionsGroup}
use web3_proxy.Consensus.Head.{
  ConsensusWeb3Rpcs, Votes, is_some, add_vote, visit, visit_all, Found, known_rpcs, conclude,
  consensus_head_connections,
}
use web3_proxy.Consensus.Head.Visit.{visit-cases}
use web3_proxy.Consensus.Head.Chain.{Descends, here, Descends-parent}
use web3_proxy.Consensus.Head.Search.{
  Search, exhausted, elected, parent, orphan, consensus_head_connections-Search,
}

module _ (fetch : ℕ → Option Web3ProxyBlock) (m : RpcToBlock) where
  -- The server called `n` is in the group, on a block between `top` and `bottom`.
  pub record OnChain (top bottom : Web3ProxyBlock) (n : ℕ) : Type 0 where
    pub rpc : Web3Rpc
    pub rpc_head : Web3ProxyBlock
    pub at : Web3ProxyBlock
    pub known : Memᴰ (rpc, rpc_head) m
    pub named : rpc.name ≡ n
    pub same : hash rpc_head ≡ hash at
    pub above : Descends fetch top at
    pub below : Descends fetch at bottom

  OnChain-parent :
      (top b p : Web3ProxyBlock) (ns : List ℕ)
      → fetch (parent_hash b) ≡ some p
      → All (OnChain top b) ns
      → All (OnChain top p) ns
  OnChain-parent top b p [] e a = tt
  OnChain-parent top b p (n ∷ ns) e (o, a) = (
    record {
      rpc = o.rpc;
      rpc_head = o.rpc_head;
      at = o.at;
      known = o.known;
      named = o.named;
      same = o.same;
      above = o.above;
      below = Descends-parent o.below e;
    },
    OnChain-parent top b p ns e a,
  )

  module _ (s : Settings) (synced : Bool) (top : Web3ProxyBlock) where
    add_vote-primary :
        (bv : Bool) (rpc : Web3Rpc) (v : Votes)
        → ((add_vote bv rpc v).primary ≡ v.primary)
          ⊎ ((add_vote bv rpc v).primary ≡ rpc.name ∷ v.primary)
    unfolding add_vote
    add_vote-primary bv rpc v = ground arith

    visit_all-OnChain :
        (block : Web3ProxyBlock) (bv : Bool) (rest : RpcToBlock) (v v' : Votes)
        → Descends fetch top block
        → ((e : Web3Rpc × Web3ProxyBlock) → Memᴰ e rest → Memᴰ e m)
        → visit_all s synced block bv rest v ≡ ok v'
        → All (OnChain top block) v.primary
        → All (OnChain top block) v'.primary
    unfolding visit_all
    visit_all-OnChain block bv [] v v' d inc h a = let e : v ≡ v' = cc in rw e at a
    visit_all-OnChain block bv (e ∷ rest) v v' d inc h a =
        let (u, first, others) =
          >>=-eq-ok (visit s synced block bv e v) (visit_all s synced block bv rest) h in
        visit_all-OnChain block bv rest u v' d (λ x i. inc x (Memᴰ.tail i)) others
          (elim (visit-cases s synced block bv e v u first) [
            | inl same ↦ rw same a
            | inr (r, found, on, _, _, voted) ↦
                elim (add_vote-primary bv (record r { name = e.0.name }) v) [
                  | inl kept ↦ rw (voted, kept) a
                  | inr more ↦
                      rw (voted, more)
                        (
                          record {
                            rpc = e.0;
                            rpc_head = e.1;
                            at = block;
                            known = inc e (Memᴰ.head refl);
                            named = refl;
                            same = on;
                            above = d;
                            below = here;
                          },
                          a,
                        )
                ]
          ])

    Search-OnChain :
        {rounds : ℕ} {block : Web3ProxyBlock} {v : Votes} {bv : Option Web3ProxyBlock} {f : Found}
        → Search s synced fetch m rounds block v bv f
        → Descends fetch top block
        → All (OnChain top block) v.primary
        → Descends fetch top f.maybe_head_block
          × All (OnChain top f.maybe_head_block) f.votes.primary
    Search-OnChain (exhausted e) d a = rw e (d, a)
    Search-OnChain {block = block} {v = v} {bv = bv} (elected v' q enough e) d a =
        rw e (d, visit_all-OnChain block (is_some bv) m v v' d (λ x i. i) q a)
    Search-OnChain {block = block} {v = v} {bv = bv} (parent v' p q short e rest) d a =
        Search-OnChain rest (Descends-parent d e) (
          OnChain-parent top block p v'.primary e
            (visit_all-OnChain block (is_some bv) m v v' d (λ x i. i) q a))
    Search-OnChain {block = block} {v = v} {bv = bv} (orphan v' q short voted e) d a =
        rw e (d, visit_all-OnChain block (is_some bv) m v v' d (λ x i. i) q a)

-- The head of a consensus is on the chain of the group's highest block, and each of its servers
-- carries the name of a server of the group whose own head is on that chain, at or above it.
pub consensus_head_connections-OnChain :
    (s : Settings) (synced : Bool) (fetch : ℕ → Option Web3ProxyBlock) (g : ConnectionsGroup)
    (min_num : Option ℕ) (tier : ℕ) {c : ConsensusWeb3Rpcs}
    → consensus_head_connections s synced fetch g min_num tier ≡ ok c
    → (top : Web3ProxyBlock) × (g.highest_block ≡ some top)
      × Descends fetch top c.head_block
      × (names : List ℕ) × (c.rpcs ≡ known_rpcs s.by_name names)
      × All (OnChain fetch g.rpc_to_block top c.head_block) names
unfolding conclude
consensus_head_connections-OnChain s synced fetch g min_num tier {c} h =
    let (top, f, e, search, concluded) =
      consensus_head_connections-Search s synced fetch g min_num tier h in
    let (d, a) = Search-OnChain fetch g.rpc_to_block s synced top search here tt in
    let head : c.head_block ≡ f.maybe_head_block = ground arith in
    (top, e, rw head d, f.votes.primary, ground arith, rw head a)
