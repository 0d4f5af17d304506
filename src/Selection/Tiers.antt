-- ===== src/Selection/Tiers.antt =====
-- Which servers stand in the tiers that are tried.
use Prim.Native.Nat.{Ordering}
use mathlib.Core.List.{Memᴰ}
use web3_proxy.Prelude.{
  ℕ, ◌≡◌, refl, inl, inr, true, false, Option, none, some, List, [], ◌∷◌, arith, All, Bool-cases,
}
use web3_proxy.Prelude.Results.{Result, ok, err}
use web3_proxy.Block.{Web3ProxyBlock, number}
use web3_proxy.Rpc.{Web3Rpc}
use web3_proxy.Consensus.Head.{ConsensusWeb3Rpcs}
use web3_proxy.Selection.{
  Pool, Key, Usable, SelectError, key_lt, push_rpc, add_usable, is_skipped, has_needed, is_syncing,
  serves, add_old, old_rpcs, synced_rpcs, usable_rpcs, needed_blocks_comparison,
}

module _ (Good : Web3Rpc → Type 0) where
  abbrev pub AreGood : Usable → Type 0
  AreGood m = All (λ e. All Good e.1) m

  push_rpc-All : (xs : List Web3Rpc) (x : Web3Rpc) → All Good xs → Good x → All Good (push_rpc xs x)
  unfolding push_rpc
  push_rpc-All [] x a g = (g, tt)
  push_rpc-All (y ∷ ys) x a g = (a.0, push_rpc-All ys x a.1 g)

  add_usable-AreGood :
      (k : Key) (x : Web3Rpc) (m : Usable) → AreGood m → Good x → AreGood (add_usable k x m)
  unfolding add_usable
  add_usable-AreGood k x [] a g = ((g, tt), tt)
  add_usable-AreGood k x ((j, xs) ∷ m) a g = elim (Bool-cases (key_lt k j)) [
    | inl before ↦ rw before ((g, tt), a)
    | inr not_before ↦ elim (Bool-cases (key_lt j k)) [
      | inl after ↦ rw (not_before, after) (a.0, add_usable-AreGood k x m a.1 g)
      | inr same ↦ rw (not_before, same) (push_rpc-All xs x a.0 g, a.1)
    ]
  ]

module _ (now : ℕ) (pool : Pool) (skip : List Web3Rpc) (lo hi : Option ℕ) where
  -- A server that may serve an old block: it was not tried, it has the blocks, and it is not syncing.
  pub record IsOld (c : ConsensusWeb3Rpcs) (x : Web3Rpc) : Type 0 where
    pub known : Memᴰ x pool.rpcs
    pub fresh : is_skipped skip x ≡ false
    pub has_max : has_needed (pool.head_of x) hi ≡ true
    pub has_min : has_needed (pool.head_of x) lo ≡ true
    pub head : Web3ProxyBlock
    pub at : (pool.head_of x).head_block ≡ some head
    pub synced : is_syncing now pool skip lo hi c.head_block head ≡ false

  -- A server of the consensus that was not tried.
  pub record IsSynced (c : ConsensusWeb3Rpcs) (x : Web3Rpc) : Type 0 where
    pub known : Memᴰ x c.rpcs
    pub fresh : is_skipped skip x ≡ false

  -- Which servers may be asked: for a block below the head, and for the head.
  pub data MayServe (c : ConsensusWeb3Rpcs) (x : Web3Rpc) : Type 0 where
    old :
        needed_blocks_comparison lo hi (number c.head_block) ≡ ok Ordering.lt
        → IsOld c x
        → MayServe c x
    at_head :
        needed_blocks_comparison lo hi (number c.head_block) ≡ ok Ordering.eq
        → IsSynced c x
        → MayServe c x

  add_old-AreGood :
      (c : ConsensusWeb3Rpcs) (x : Web3Rpc) (h : Option Web3ProxyBlock) (m : Usable)
      → Memᴰ x pool.rpcs
      → serves now pool skip lo hi x ≡ true
      → (pool.head_of x).head_block ≡ h
      → AreGood (IsOld c) m
      → AreGood (IsOld c) (add_old now pool skip lo hi c.head_block x h m)
  unfolding add_old serves
  add_old-AreGood c x none m i e q a = a
  add_old-AreGood c x (some head) m i e q a =
      elim (Bool-cases (is_syncing now pool skip lo hi c.head_block head)) [
        | inl syncing ↦ rw syncing a
        | inr ready ↦ rw ready (
            add_usable-AreGood (IsOld c) _ x m a (record {
              known = i;
              fresh = ground arith;
              has_max = ground arith;
              has_min = ground arith;
              head = head;
              at = q;
              synced = ready;
            }))
      ]

  old_rpcs-AreGood :
      (c : ConsensusWeb3Rpcs) (xs : List Web3Rpc) (m : Usable)
      → ((x : Web3Rpc) → Memᴰ x xs → Memᴰ x pool.rpcs)
      → AreGood (IsOld c) m
      → AreGood (IsOld c) (old_rpcs now pool skip lo hi c.head_block xs m)
  unfolding old_rpcs
  old_rpcs-AreGood c [] m inc a = a
  old_rpcs-AreGood c (x ∷ xs) m inc a = elim (Bool-cases (serves now pool skip lo hi x)) [
    | inl e ↦ rw e (
        old_rpcs-AreGood c xs _ (λ y i. inc y (Memᴰ.tail i))
          (add_old-AreGood c x (pool.head_of x).head_block m (inc x (Memᴰ.head refl)) e refl a))
    | inr e ↦ rw e (old_rpcs-AreGood c xs m (λ y i. inc y (Memᴰ.tail i)) a)
  ]

  synced_rpcs-AreGood :
      (c : ConsensusWeb3Rpcs) (xs : List Web3Rpc) (m : Usable)
      → ((x : Web3Rpc) → Memᴰ x xs → Memᴰ x c.rpcs)
      → AreGood (IsSynced c) m
      → AreGood (IsSynced c) (synced_rpcs now pool skip lo hi xs m)
  unfolding synced_rpcs
  synced_rpcs-AreGood c [] m inc a = a
  synced_rpcs-AreGood c (x ∷ xs) m inc a = elim (Bool-cases (is_skipped skip x)) [
    | inl e ↦ rw e (synced_rpcs-AreGood c xs m (λ y i. inc y (Memᴰ.tail i)) a)
    | inr e ↦ rw e (
        synced_rpcs-AreGood c xs _ (λ y i. inc y (Memᴰ.tail i))
          (add_usable-AreGood (IsSynced c) _ x m a
            (record { known = inc x (Memᴰ.head refl); fresh = e })))
  ]

All-map {ℓ κ μ} :
    {A : Type ℓ} {P : A → Type κ} {Q : A → Type μ} (f : (x : A) → P x → Q x) (xs : List A)
    → All P xs
    → All Q xs
All-map f [] a = tt
All-map f (x ∷ xs) a = (f x a.0, All-map f xs a.1)

-- Only servers that may be asked stand in the tiers.
pub usable_rpcs-AreGood :
    (now : ℕ) (pool : Pool) (skip : List Web3Rpc) (lo hi : Option ℕ) (c : ConsensusWeb3Rpcs)
    {m : Usable}
    → usable_rpcs now pool skip lo hi c ≡ ok (some m)
    → AreGood (MayServe now pool skip lo hi c) m
unfolding usable_rpcs
usable_rpcs-AreGood now pool skip lo hi c {m} h =
    go (needed_blocks_comparison lo hi (number c.head_block)) refl
  where
    go :
        (r : Result SelectError Ordering)
        → needed_blocks_comparison lo hi (number c.head_block) ≡ r
        → AreGood (MayServe now pool skip lo hi c) m
    go (err e) q = absurd (ground arith)
    go (ok Ordering.gt) q = absurd (ground arith)
    go (ok Ordering.lt) q =
        let e : old_rpcs now pool skip lo hi c.head_block pool.rpcs [] ≡ m = ground arith in
        rw e at (
          All-map (λ e. All-map (λ x o. old q o) e.1) _
            (old_rpcs-AreGood now pool skip lo hi c pool.rpcs [] (λ x i. i) tt))
    go (ok Ordering.eq) q =
        let e : synced_rpcs now pool skip lo hi c.rpcs [] ≡ m = ground arith in
        rw e at (
          All-map (λ e. All-map (λ x o. at_head q o) e.1) _
            (synced_rpcs-AreGood now pool skip lo hi c c.rpcs [] (λ x i. i) tt))
