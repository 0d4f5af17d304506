-- ===== src/Consensus/Group/Highest.antt =====
-- The heads of a group as a finite map from servers, and its highest block.
use web3_proxy.Prelude.{
  ℕ, ◌≤◌, ◌≡◌, refl, inl, inr, Option, none, some, [], ◌∷◌, arith, ltb, ◌==◌, if◌then◌else◌,
  Bool-cases, Option-cases, All,
}
use web3_proxy.Prelude.Words.{some_gt}
use web3_proxy.Block.{Web3ProxyBlock, number}
use web3_proxy.Rpc.{Web3Rpc}
use web3_proxy.Consensus.Group.{
  RpcToBlock, ConnectionsGroup, block_of, remove_key, insert_key, raise, highest_after, remove,
  number_of, put, new,
}

-- No key stands twice, as in a `HashMap`.
abbrev pub IsDistinct : RpcToBlock → Type 0
IsDistinct [] = Unit
IsDistinct ((r, b) ∷ m) = (block_of r.hash_key m ≡ none) × IsDistinct m

pub block_of-insert_key :
    (r : Web3Rpc) (b : Web3ProxyBlock) (m : RpcToBlock) (key : ℕ)
    → block_of key (insert_key r b m) ≡ (if r.hash_key == key then some b else block_of key m)
unfolding block_of insert_key
block_of-insert_key r b [] key = refl
block_of-insert_key r b ((s, c) ∷ m) key = ground (arith, block_of-insert_key r b m key)

pub block_of-remove_key :
    (n : ℕ) (m : RpcToBlock) (key : ℕ)
    → IsDistinct m
    → block_of key (remove_key n m) ≡ (if n == key then none else block_of key m)
unfolding block_of remove_key
block_of-remove_key n [] key d = ground arith
block_of-remove_key n ((s, c) ∷ m) key d = ground (arith, block_of-remove_key n m key d.1)

pub insert_key-IsDistinct :
    (r : Web3Rpc) (b : Web3ProxyBlock) (m : RpcToBlock)
    → IsDistinct m
    → IsDistinct (insert_key r b m)
unfolding block_of insert_key
insert_key-IsDistinct r b [] d = (refl, tt)
insert_key-IsDistinct r b ((s, c) ∷ m) d =
    ground (arith, insert_key-IsDistinct r b m d.1, block_of-insert_key r b m s.hash_key)

pub remove_key-IsDistinct : (n : ℕ) (m : RpcToBlock) → IsDistinct m → IsDistinct (remove_key n m)
unfolding block_of remove_key
remove_key-IsDistinct n [] d = tt
remove_key-IsDistinct n ((s, c) ∷ m) d =
    ground (arith, remove_key-IsDistinct n m d.1, block_of-remove_key n m s.hash_key d.1)

-- Every head lies at or below the bound; with no bound there are no heads.
abbrev pub IsBelow : Option ℕ → RpcToBlock → Type 0
IsBelow none m = m ≡ []
IsBelow (some h) m = All (λ e. number e.1 ≤ h) m

-- What holds of a group between two calls.
pub record IsGroup (g : ConnectionsGroup) : Type 0 where
  pub distinct : IsDistinct g.rpc_to_block
  pub bounded : IsBelow (number_of g.highest_block) g.rpc_to_block

pub new-IsGroup : IsGroup new
unfolding new
new-IsGroup = record { distinct = tt; bounded = refl }

IsBelow-mono :
    (h k : ℕ) (m : RpcToBlock) → h ≤ k → All (λ e. number e.1 ≤ h) m → All (λ e. number e.1 ≤ k) m
IsBelow-mono h k [] le b = tt
IsBelow-mono h k (e ∷ m) le b = (omega arith, IsBelow-mono h k m le b.1)

insert_key-below :
    (h : ℕ) (r : Web3Rpc) (b : Web3ProxyBlock) (m : RpcToBlock)
    → number b ≤ h
    → All (λ e. number e.1 ≤ h) m
    → All (λ e. number e.1 ≤ h) (insert_key r b m)
unfolding insert_key
insert_key-below h r b [] le a = (le, tt)
insert_key-below h r b ((s, c) ∷ m) le a = ground (arith, insert_key-below h r b m le a.1)

remove_key-below :
    (h n : ℕ) (m : RpcToBlock)
    → All (λ e. number e.1 ≤ h) m
    → All (λ e. number e.1 ≤ h) (remove_key n m)
unfolding remove_key
remove_key-below h n [] a = tt
remove_key-below h n ((s, c) ∷ m) a = ground (arith, remove_key-below h n m a.1)

put-IsBelow :
    (h : Option Web3ProxyBlock) (r : Web3Rpc) (b : Web3ProxyBlock) (m : RpcToBlock)
    → IsBelow (number_of h) m
    → IsBelow
        (number_of (if some_gt (number b) (number_of h) then some b else h))
        (insert_key r b m)
unfolding insert_key
put-IsBelow none r b m a = rw a (omega arith, tt)
put-IsBelow (some c) r b m a = elim (Bool-cases (ltb (number c) (number b))) [
  | inl lt ↦ rw lt (
      insert_key-below (number b) r b m (omega arith)
        (IsBelow-mono (number c) (number b) m (ground arith) a))
  | inr ge ↦ rw ge (insert_key-below (number c) r b m (ground arith) a)
]

-- A server's new head keeps the group well formed.
pub put-IsGroup :
    (g : ConnectionsGroup) (r : Web3Rpc) (b : Web3ProxyBlock) → IsGroup g → IsGroup (put g r b)
unfolding put
put-IsGroup g r b i = record {
  distinct = insert_key-IsDistinct r b g.rpc_to_block i.distinct;
  bounded = put-IsBelow g.highest_block r b g.rpc_to_block i.bounded;
}

raise-below :
    (c : Web3ProxyBlock) (m : RpcToBlock) → All (λ e. number e.1 ≤ number c) m → raise c m ≡ c
unfolding raise
raise-below c [] a = refl
raise-below c (e ∷ m) a = ground (arith, raise-below c m a.1)

remove_key-IsBelow :
    (h : Option ℕ) (n : ℕ) (m : RpcToBlock) → IsBelow h m → IsBelow h (remove_key n m)
unfolding remove_key
remove_key-IsBelow none n m e = rw e refl
remove_key-IsBelow (some h) n m a = remove_key-below h n m a

highest_after-same :
    (removed : Web3ProxyBlock) (m : RpcToBlock) (h : Option Web3ProxyBlock)
    → IsBelow (number_of h) m
    → highest_after removed m h ≡ h
unfolding highest_after
highest_after-same removed m none a = refl
highest_after-same removed m (some c) a = ground (arith, raise-below c m a)

remove_key-none : (n : ℕ) (m : RpcToBlock) → block_of n m ≡ none → remove_key n m ≡ m
unfolding remove_key block_of
remove_key-none n [] h = refl
remove_key-none n ((s, c) ∷ m) h = ground (arith, remove_key-none n m)

-- Removing a server, in closed form.
pub remove_lem :
    (g : ConnectionsGroup) (rpc : Web3Rpc)
    → IsGroup g
    → remove g rpc ≡ (
      record {
        rpc_to_block = remove_key rpc.hash_key g.rpc_to_block;
        highest_block = g.highest_block;
      },
      block_of rpc.hash_key g.rpc_to_block,
    )
unfolding remove
remove_lem g rpc i = elim (Option-cases (block_of rpc.hash_key g.rpc_to_block)) [
  | inl e ↦ rw (e, remove) (ground (arith, remove_key-none rpc.hash_key g.rpc_to_block e))
  | inr (c, e) ↦
      rw (e, remove)
        (ground (
          arith,
          highest_after-same c (remove_key rpc.hash_key g.rpc_to_block) g.highest_block (
              remove_key-IsBelow (number_of g.highest_block) rpc.hash_key g.rpc_to_block i.bounded),
        ))
]

-- In a well-formed group, removing a server takes its entry out of the map, leaves every other, as that of a
-- server which has replaced it under its name, and returns its head. It never changes the highest block, not
-- even when the server was the only one on it.
pub block_of-remove :
    (g : ConnectionsGroup) (rpc : Web3Rpc) (key : ℕ)
    → IsGroup g
    → (block_of key (remove g rpc).0.rpc_to_block
        ≡ (if rpc.hash_key == key then none else block_of key g.rpc_to_block))
      × ((remove g rpc).1 ≡ block_of rpc.hash_key g.rpc_to_block)
      × ((remove g rpc).0.highest_block ≡ g.highest_block)
block_of-remove g rpc key i =
    rw (remove_lem g rpc i)
      (block_of-remove_key rpc.hash_key g.rpc_to_block key i.distinct, refl, refl)

-- Removing a server keeps the group well formed.
pub remove-IsGroup : (g : ConnectionsGroup) (rpc : Web3Rpc) → IsGroup g → IsGroup (remove g rpc).0
remove-IsGroup g rpc i = rw (remove_lem g rpc i) (record {
  distinct = remove_key-IsDistinct rpc.hash_key g.rpc_to_block i.distinct;
  bounded = remove_key-IsBelow (number_of g.highest_block) rpc.hash_key g.rpc_to_block i.bounded;
})
