-- ===== src/Consensus/Head/Visit.antt =====
-- What one server does to the votes.
use web3_proxy.Prelude.{
  ◌≡◌, ◌⊎◌, inl, inr, Bool, false, some, arith, ◌==◌, Bool-cases, Option-cases, contains,
}
use web3_proxy.Prelude.Results.{ok}
use web3_proxy.Block.{Web3ProxyBlock, hash}
use web3_proxy.Rpc.{Web3Rpc, Settings}
use web3_proxy.Consensus.Head.{Votes, add_vote, visit}

module _ (s : Settings) (synced : Bool) where
  -- A server that is visited changes nothing, or it is on the block, is known, has not voted, and
  -- votes now.
  pub visit-cases :
      (block : Web3ProxyBlock) (bv : Bool) (e : Web3Rpc × Web3ProxyBlock) (v v' : Votes)
      → visit s synced block bv e v ≡ ok v'
      → (v' ≡ v)
        ⊎ ((r : Web3Rpc) × (s.by_name e.0.name ≡ some r)
            × (hash e.1 ≡ hash block)
            × (contains v.backup e.0.name ≡ false)
            × (contains v.primary e.0.name ≡ false)
            × (v' ≡ add_vote bv (record r { name = e.0.name }) v))
  unfolding visit
  visit-cases block bv e v v' h = elim (Bool-cases (hash e.1 == hash block)) [
    | inr n ↦ inl (ground arith)
    | inl y ↦ elim (Bool-cases (contains v.backup e.0.name)) [
      | inl b ↦ inl (ground arith)
      | inr b ↦ elim (Bool-cases (contains v.primary e.0.name)) [
        | inl p ↦ inl (ground arith)
        | inr p ↦ elim (Option-cases (s.by_name e.0.name)) [
          | inl gone ↦ inl (ground arith)
          | inr (r, found) ↦ inr (r, found, ground arith, b, p, ground arith)
        ]
      ]
    ]
  ]
