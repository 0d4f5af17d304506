-- ===== src/Consensus/Finder/Best.antt =====
-- The search over the tiers: the first tier with a consensus wins, and the head does not go back.
use mathlib.Core.Option.{map as option_map}
use web3_proxy.Prelude.{
  ℕ, ◌+◌, ◌-◌, ◌≤◌, ◌<◌, max, ◌≡◌, refl, ap, Bool, Option, none, some, List, [], ◌∷◌, ◌++◌, arith,
  if◌then◌else◌, All, All-append,
}
use web3_proxy.Prelude.Results.{Result, ok, err, context}
use web3_proxy.Prelude.Words.{u64_max}
use mathlib.Core.List.{reverse, reverse-cons}
use web3_proxy.Prelude.Results.{>>=-eq-ok, context-eq-ok}
use web3_proxy.Block.{Web3ProxyBlock, number}
use web3_proxy.Rpc.{Settings}
use web3_proxy.Consensus.Group.{ConnectionsGroup}
use web3_proxy.Consensus.Head.{
  ConsensusWeb3Rpcs, ConsensusError, consensus_head_connections, no_rpcs, no_highest_block,
}
use web3_proxy.Consensus.Head.Chain.{ParentsAreLower, consensus_head_connections-number}
use web3_proxy.Consensus.Finder.{
  Tiers, ConsensusFinder, first_consensus, min_block_num, best_consensus_connections,
  all_rpcs_group,
}

module _ (s : Settings) (synced : Bool) (fetch : ℕ → Option Web3ProxyBlock) where
  -- The tier that is chosen, with the tiers that were passed over.
  pub record Chosen (min_num : Option ℕ) (tiers : Tiers) (c : ConsensusWeb3Rpcs) : Type 0 where
    pub passed : Tiers
    pub tier : ℕ
    pub group : ConnectionsGroup
    pub others : Tiers
    pub split : tiers ≡ passed ++ (tier, group) ∷ others
    pub failed_before :
        All
          (λ e.
            (x : ConsensusError) × (consensus_head_connections s synced fetch e.1 min_num e.0
              ≡ err x))
          passed
    pub chosen : consensus_head_connections s synced fetch group min_num tier ≡ ok c

  first_consensus-Chosen :
      (min_num : Option ℕ) (tiers : Tiers) {c : ConsensusWeb3Rpcs}
      → first_consensus s synced fetch min_num tiers ≡ ok c
      → Chosen min_num tiers c
  unfolding first_consensus
  first_consensus-Chosen min_num [] h = cc
  first_consensus-Chosen min_num ((tier, g) ∷ rest) {c} h =
      go (consensus_head_connections s synced fetch g min_num tier) refl
        (λ e. first_consensus-Chosen min_num rest e)
    where
      go :
          (r : Result ConsensusError ConsensusWeb3Rpcs)
          → consensus_head_connections s synced fetch g min_num tier ≡ r
          → (first_consensus s synced fetch min_num rest ≡ ok c → Chosen min_num rest c)
          → Chosen min_num ((tier, g) ∷ rest) c
      go (ok d) e rec = record {
        passed = [];
        tier = tier;
        group = g;
        others = rest;
        split = refl;
        failed_before = tt;
        chosen = ground arith;
      }
      go (err x) e rec =
          let later = rec (ground arith) in
          record {
            passed = (tier, g) ∷ later.passed;
            tier = later.tier;
            group = later.group;
            others = later.others;
            split = ap (◌∷◌ (tier, g)) later.split;
            failed_before = ((x, e), later.failed_before);
            chosen = later.chosen;
          }

  -- The consensus is that of the lowest tier that has one.
  pub best_consensus_connections-Chosen :
      (f : ConsensusFinder) (head_num : Option ℕ) {c : ConsensusWeb3Rpcs}
      → best_consensus_connections s synced fetch f head_num ≡ ok c
      → (g : ConnectionsGroup) × (highest : Web3ProxyBlock) × (all_rpcs_group f ≡ some g)
        × (g.highest_block ≡ some highest)
        × Chosen (min_block_num f.max_block_lag highest head_num) (reverse f.tiers) c
  unfolding best_consensus_connections
  best_consensus_connections-Chosen f head_num {c} h =
      let (g, all, h1) = >>=-eq-ok (context (all_rpcs_group f) no_rpcs) _ h in
      let (highest, top, h2) = >>=-eq-ok (context g.highest_block no_highest_block) _ h1 in
      (
        g,
        highest,
        context-eq-ok (all_rpcs_group f) no_rpcs all,
        context-eq-ok g.highest_block no_highest_block top,
        first_consensus-Chosen (min_block_num f.max_block_lag highest head_num) (reverse f.tiers)
            h2,
      )

-- From the highest block of each group down, each parent is one lower than its child, and no group
-- is at the end of the 64-bit numbers.
abbrev pub IsCoherent : (ℕ → Option Web3ProxyBlock) → ConnectionsGroup → Type 0
IsCoherent fetch g =
    (b : Web3ProxyBlock) → g.highest_block ≡ some b → (number b < u64_max) × ParentsAreLower fetch b

All-reverse {ℓ κ} : {A : Type ℓ} (P : A → Type κ) (xs : List A) → All P xs → All P (reverse xs)
All-reverse P [] a = tt
All-reverse P (x ∷ xs) (p, a) =
    rw (reverse-cons x xs) (All-append P (reverse xs) (x ∷ []) (All-reverse P xs a) (p, tt))

All-middle {ℓ κ} :
    {A : Type ℓ} (P : A → Type κ) (xs : List A) (y : A) (ys : List A) → All P (xs ++ y ∷ ys) → P y
All-middle P [] y ys a = a.0
All-middle P (x ∷ xs) y ys a = All-middle P xs y ys a.1

module _ (highest : Web3ProxyBlock) where
  min_block_num-head :
      (lag : Option ℕ) (head : ℕ)
      → (m : ℕ) × (min_block_num lag highest (some head) ≡ some m) × (head ≤ m)
  unfolding min_block_num
  min_block_num-head none head = (head, refl, omega arith)
  min_block_num-head (some lag) head = (max (number highest - lag) head, refl, omega arith)

  min_block_num-lag :
      (lag : ℕ) (head : Option ℕ)
      → (m : ℕ) × (min_block_num (some lag) highest head ≡ some m) × (number highest ≤ m + lag)
  unfolding min_block_num
  min_block_num-lag lag none = (number highest - lag, refl, omega arith)
  min_block_num-lag lag (some head) = (max (number highest - lag) head, refl, omega arith)

best-min_block_num :
    (s : Settings) (synced : Bool) (fetch : ℕ → Option Web3ProxyBlock) (f : ConsensusFinder)
    (head_num : Option ℕ) {c : ConsensusWeb3Rpcs}
    → 1 ≤ s.min_head_rpcs
    → All (λ e. IsCoherent fetch e.1) f.tiers
    → best_consensus_connections s synced fetch f head_num ≡ ok c
    → (g : ConnectionsGroup) × (highest : Web3ProxyBlock) × (all_rpcs_group f ≡ some g)
      × (g.highest_block ≡ some highest)
      × ((n : ℕ)
          → min_block_num f.max_block_lag highest head_num ≡ some n
          → n ≤ number c.head_block + (if c.backups_needed then 1 else 0))
best-min_block_num s synced fetch f head_num {c} one coherent h =
    let (g, highest, all, top, w) = best_consensus_connections-Chosen s synced fetch f head_num h in
    (
      g,
      highest,
      all,
      top,
      λ n e.
          consensus_head_connections-number s synced fetch w.group n w.tier
            (λ b e'. (of_chosen w b e').1) one (λ b e'. (of_chosen w b e').0) (rw e at w.chosen),
    )
  where
    of_chosen :
        {m : Option ℕ} (w : Chosen s synced fetch m (reverse f.tiers) c) → IsCoherent fetch w.group
    of_chosen w =
        All-middle (λ e. IsCoherent fetch e.1) w.passed (w.tier, w.group) w.others
          (rw w.split at (All-reverse (λ e. IsCoherent fetch e.1) f.tiers coherent))

-- `n`, if there is one, is at most `m`.
abbrev pub AtMost : Option ℕ → ℕ → Type 0
AtMost none m = Unit
AtMost (some n) m = n ≤ m

module _ (highest : Web3ProxyBlock) (top : ℕ) where
  not_below :
      (lag o : Option ℕ) → ((n : ℕ) → min_block_num lag highest o ≡ some n → n ≤ top) → AtMost o top
  not_below lag none above = tt
  not_below lag (some n) above =
      let (m, eq, le) = min_block_num-head highest lag n in omega (arith, le, above m eq)

  not_behind :
      (lag o : Option ℕ)
      → ((n : ℕ) → min_block_num lag highest o ≡ some n → n ≤ top)
      → AtMost (option_map (λ d. number highest - d) lag) top
  not_behind none o above = tt
  not_behind (some lag) o above =
      let (m, eq, le) = min_block_num-lag highest lag o in omega (arith, le, above m eq)

-- With positive `min_head_rpcs`, when every group is coherent
-- (below its highest block each parent is one lower, and that block is not at the end of the 64-bit
-- numbers): the head that is found is not below the one that is published, and
-- the highest known block is no further above it than the lag allows; with backups needed, it may be
-- one lower.
pub best_consensus_connections-number :
    (s : Settings) (synced : Bool) (fetch : ℕ → Option Web3ProxyBlock) (f : ConsensusFinder)
    (head_num : Option ℕ) {c : ConsensusWeb3Rpcs}
    → 1 ≤ s.min_head_rpcs
    → All (λ e. IsCoherent fetch e.1) f.tiers
    → best_consensus_connections s synced fetch f head_num ≡ ok c
    → let slack : ℕ = if c.backups_needed then 1 else 0 in
      (g : ConnectionsGroup) × (highest : Web3ProxyBlock) × (all_rpcs_group f ≡ some g)
      × (g.highest_block ≡ some highest)
      × AtMost head_num (number c.head_block + slack)
      × AtMost
          (option_map (λ lag. number highest - lag) f.max_block_lag)
          (number c.head_block + slack)
best_consensus_connections-number s synced fetch f head_num {c} one coherent h =
    let (g, highest, all, top, above) =
      best-min_block_num s synced fetch f head_num one coherent h in
    (
      g,
      highest,
      all,
      top,
      not_below highest _ f.max_block_lag head_num above,
      not_behind highest _ f.max_block_lag head_num above,
    )
