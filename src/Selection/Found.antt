-- ===== src/Selection/Found.antt =====
-- When servers give handles, a request that some server may serve gets one.
use mathlib.Core.List.{Memᴰ}
use web3_proxy.Prelude.{
  ℕ, ◌≡◌, ◌⊎◌, min, refl, inl, inr, Option, none, some, List, [], ◌∷◌, arith, if◌then◌else◌, All,
  Bool-cases, Option-cases,
}
use web3_proxy.Prelude.Results.{ok}
use web3_proxy.Block.{Web3ProxyBlock, number}
use web3_proxy.Rpc.{Web3Rpc}
use web3_proxy.Rpc.Handle.{handle}
use web3_proxy.Consensus.Head.{ConsensusWeb3Rpcs}
use web3_proxy.Selection.{
  Pool, Key, Handles, Picks, opened, Usable, key_lt, push_rpc, add_usable, is_skipped, is_syncing,
  serves, add_old, old_rpcs, synced_rpcs, usable_rpcs, faster_of, in_order, try_pairs, try_tiers,
  best_available_rpc,
}
use web3_proxy.Selection.Tiers.{MayServe, IsOld, IsSynced, old, at_head}

-- A list or a map with an entry.
pub data HasEntry {ℓ} {A : Type ℓ} : List A → Type ℓ where
  entry : (x : A) (xs : List A) → HasEntry (x ∷ xs)

-- There is a tier, and no tier is empty.
pub record IsFull (m : Usable) : Type 0 where
  pub has_tier : HasEntry m
  pub no_empty : All (λ e. HasEntry e.1) m

abbrev NoEmpty : Usable → Type 0
NoEmpty m = All (λ e. HasEntry e.1) m

push_rpc-HasEntry : (xs : List Web3Rpc) (x : Web3Rpc) → HasEntry (push_rpc xs x)
unfolding push_rpc
push_rpc-HasEntry [] x = entry x []
push_rpc-HasEntry (y ∷ ys) x = entry y (push_rpc ys x)

add_usable-NoEmpty : (k : Key) (x : Web3Rpc) (m : Usable) → NoEmpty m → NoEmpty (add_usable k x m)
unfolding add_usable
add_usable-NoEmpty k x [] a = (entry x [], tt)
add_usable-NoEmpty k x ((j, xs) ∷ m) a = elim (Bool-cases (key_lt k j)) [
  | inl before ↦ rw before (entry x [], a)
  | inr not_before ↦ elim (Bool-cases (key_lt j k)) [
    | inl after ↦ rw (not_before, after) (a.0, add_usable-NoEmpty k x m a.1)
    | inr same ↦ rw (not_before, same) (push_rpc-HasEntry xs x, a.1)
  ]
]

add_usable-HasEntry : (k : Key) (x : Web3Rpc) (m : Usable) → HasEntry (add_usable k x m)
unfolding add_usable
add_usable-HasEntry k x [] = entry _ _
add_usable-HasEntry k x ((j, xs) ∷ m) = elim (Bool-cases (key_lt k j)) [
  | inl before ↦ rw before (entry _ _)
  | inr not_before ↦ elim (Bool-cases (key_lt j k)) [
    | inl after ↦ rw (not_before, after) (entry _ _)
    | inr same ↦ rw (not_before, same) (entry _ _)
  ]
]

add_usable-IsFull : (k : Key) (x : Web3Rpc) (m : Usable) → NoEmpty m → IsFull (add_usable k x m)
add_usable-IsFull k x m a = record {
  has_tier = add_usable-HasEntry k x m;
  no_empty = add_usable-NoEmpty k x m a;
}

unfoldable runs : (Web3Rpc → Usable → Usable) → List Web3Rpc → Usable → Usable
runs step [] m = m
runs step (x ∷ xs) m = runs step xs (step x m)

-- The two loops as one: a step that adds a server or does nothing.
module _ (step : Web3Rpc → Usable → Usable) (adds : Web3Rpc → Type 0)
    (keeps : (x : Web3Rpc) (m : Usable) → NoEmpty m → NoEmpty (step x m))
    (grows : (x : Web3Rpc) (m : Usable) → HasEntry m → HasEntry (step x m))
    (added : (x : Web3Rpc) (m : Usable) → adds x → HasEntry (step x m)) where
  runs-NoEmpty : (xs : List Web3Rpc) (m : Usable) → NoEmpty m → NoEmpty (runs step xs m)
  unfolding runs
  runs-NoEmpty [] m a = a
  runs-NoEmpty (x ∷ xs) m a = runs-NoEmpty xs (step x m) (keeps x m a)

  runs-HasEntry : (xs : List Web3Rpc) (m : Usable) → HasEntry m → HasEntry (runs step xs m)
  unfolding runs
  runs-HasEntry [] m a = a
  runs-HasEntry (x ∷ xs) m a = runs-HasEntry xs (step x m) (grows x m a)

  runs-found :
      (xs : List Web3Rpc) (m : Usable) (x : Web3Rpc)
      → Memᴰ x xs
      → adds x
      → HasEntry (runs step xs m)
  unfolding runs
  runs-found [] m x i g = elim i [ ]
  runs-found (y ∷ ys) m x (Memᴰ.head e) g = runs-HasEntry ys (step y m) (added y m (rw e at g))
  runs-found (y ∷ ys) m x (Memᴰ.tail i) g = runs-found ys (step y m) x i g

  runs-IsFull : (xs : List Web3Rpc) (x : Web3Rpc) → Memᴰ x xs → adds x → IsFull (runs step xs [])
  runs-IsFull xs x i g = record {
    has_tier = runs-found xs [] x i g;
    no_empty = runs-NoEmpty xs [] tt;
  }

module _ (now : ℕ) (pool : Pool) (skip : List Web3Rpc) (lo hi : Option ℕ) where
  abbrev old_step : Web3ProxyBlock → Web3Rpc → Usable → Usable
  old_step head x m =
      if serves now pool skip lo hi x
      then add_old now pool skip lo hi head x (pool.head_of x).head_block m
      else m

  abbrev synced_step : Web3Rpc → Usable → Usable
  synced_step x m = if is_skipped skip x then m else add_usable (0, none) x m

  old_rpcs-run :
      (head : Web3ProxyBlock) (xs : List Web3Rpc) (m : Usable)
      → old_rpcs now pool skip lo hi head xs m ≡ runs (old_step head) xs m
  unfolding old_rpcs runs
  old_rpcs-run head [] m = refl
  old_rpcs-run head (x ∷ xs) m = old_rpcs-run head xs (old_step head x m)

  synced_rpcs-run :
      (xs : List Web3Rpc) (m : Usable)
      → synced_rpcs now pool skip lo hi xs m ≡ runs synced_step xs m
  unfolding synced_rpcs runs
  synced_rpcs-run [] m = refl
  synced_rpcs-run (x ∷ xs) m = synced_rpcs-run xs (synced_step x m)

  old_step-cases :
      (head : Web3ProxyBlock) (x : Web3Rpc) (m : Usable)
      → (old_step head x m ≡ m) ⊎ ((k : Key) × (old_step head x m ≡ add_usable k x m))
  unfolding add_old
  old_step-cases head x m = elim (Bool-cases (serves now pool skip lo hi x)) [
    | inr e ↦ inl (rw e refl)
    | inl e ↦ elim (Option-cases (pool.head_of x).head_block) [
      | inl gone ↦ inl (ground arith)
      | inr (h, q) ↦ elim (Bool-cases (is_syncing now pool skip lo hi head h)) [
        | inl w ↦ inl (ground arith)
        | inr w ↦ inr ((x.tier, some (min (number h) (number head))), ground arith)
      ]
    ]
  ]

  old_step-added :
      (c : ConsensusWeb3Rpcs) (x : Web3Rpc) (m : Usable)
      → IsOld now pool skip lo hi c x
      → HasEntry (old_step c.head_block x m)
  unfolding add_old serves
  old_step-added c x m o =
      let e : old_step c.head_block x m
          ≡ add_usable (x.tier, some (min (number o.head) (number c.head_block))) x m =
        ground (arith, o.fresh, o.has_max, o.has_min, o.at, o.synced) in
      rw e (add_usable-HasEntry _ x m)

  old_rpcs-IsFull :
      (c : ConsensusWeb3Rpcs) (x : Web3Rpc)
      → IsOld now pool skip lo hi c x
      → IsFull (old_rpcs now pool skip lo hi c.head_block pool.rpcs [])
  old_rpcs-IsFull c x o = rw (old_rpcs-run c.head_block pool.rpcs []) (
      runs-IsFull (old_step c.head_block) (IsOld now pool skip lo hi c)
        (λ y m a. elim (old_step-cases c.head_block y m) [
          | inl e ↦ rw e a
          | inr (k, e) ↦ rw e (add_usable-NoEmpty k y m a)
        ])
        (λ y m a. elim (old_step-cases c.head_block y m) [
          | inl e ↦ rw e a
          | inr (k, e) ↦ rw e (add_usable-HasEntry k y m)
        ])
        (old_step-added c) pool.rpcs x o.known o)

  synced_rpcs-IsFull :
      (c : ConsensusWeb3Rpcs) (x : Web3Rpc)
      → IsSynced now pool skip lo hi c x
      → IsFull (synced_rpcs now pool skip lo hi c.rpcs [])
  synced_rpcs-IsFull c x o = rw (synced_rpcs-run c.rpcs []) (
      runs-IsFull synced_step (IsSynced now pool skip lo hi c)
        (λ y m a. elim (Bool-cases (is_skipped skip y)) [
          | inl e ↦ rw e a
          | inr e ↦ rw e (add_usable-NoEmpty (0, none) y m a)
        ])
        (λ y m a. elim (Bool-cases (is_skipped skip y)) [
          | inl e ↦ rw e a
          | inr e ↦ rw e (add_usable-HasEntry (0, none) y m)
        ])
        (λ y m g. rw g.fresh (add_usable-HasEntry (0, none) y m)) c.rpcs x o.known o)

  usable_rpcs-IsFull :
      (c : ConsensusWeb3Rpcs) (x : Web3Rpc)
      → MayServe now pool skip lo hi c x
      → (m : Usable) × (usable_rpcs now pool skip lo hi c ≡ ok (some m)) × IsFull m
  unfolding usable_rpcs
  usable_rpcs-IsFull c x (old e o) = (_, rw (e, usable_rpcs) refl, old_rpcs-IsFull c x o)
  usable_rpcs-IsFull c x (at_head e o) = (_, rw (e, usable_rpcs) refl, synced_rpcs-IsFull c x o)

-- What the code relies on: of a list that is not empty, neither the shuffle nor the windows are.
pub record PicksAll (picks : Picks) : Type 0 where
  pub shuffle_all : (xs : List Web3Rpc) → HasEntry xs → HasEntry (picks.shuffle xs)
  pub windows_all : (xs : List Web3Rpc) → HasEntry xs → HasEntry (picks.circular_tuple_windows xs)

-- If shuffling and windows leave a list that is not empty so: a server that may serve the request makes sure that some server is opened, as long as every server
-- gives a handle when it is asked.
pub best_available_rpc-found :
    (picks : Picks) (handles : Handles) (now : ℕ) (pool : Pool) (skip : List Web3Rpc)
    (lo hi : Option ℕ) (s : handles.State) (c : ConsensusWeb3Rpcs) (x : Web3Rpc)
    → PicksAll picks
    → ((t : handles.State) (y : Web3Rpc) → (handles.try_request_handle t y).0 ≡ ok handle)
    → pool.consensus ≡ some c
    → MayServe now pool skip lo hi c x
    → (rpc : Web3Rpc) × ((best_available_rpc picks handles now pool skip lo hi s).1
        ≡ ok (opened rpc))
unfolding best_available_rpc try_pairs try_tiers
best_available_rpc-found picks handles now pool skip lo hi s c x all gives e may =
    let (m, q, full) = usable_rpcs-IsFull now pool skip lo hi c x may in
    let (rpc, found) = first_tier m full.has_tier full.no_empty in
    (rpc, ground (arith, e, q, found))
  where
    ordered : (xs : List Web3Rpc) → HasEntry xs → HasEntry (in_order picks handles xs)
    ordered [] h = all.shuffle_all [] h
    ordered (y ∷ []) h = h
    ordered (y ∷ z ∷ ys) h = all.shuffle_all (y ∷ z ∷ ys) h

    first_pair :
        (ps : List (Web3Rpc × Web3Rpc))
        → HasEntry ps
        → (rpc : Web3Rpc) × ((try_pairs picks handles s none ps).2 ≡ some rpc)
    first_pair ps (entry p rest) =
        (faster_of picks handles p, rw (gives s (faster_of picks handles p), try_pairs) refl)

    first_tier :
        (m : Usable)
        → HasEntry m
        → All (λ e. HasEntry e.1) m
        → (rpc : Web3Rpc) × ((try_tiers picks handles s none m).1 ≡ opened rpc)
    first_tier m (entry (k, xs) rest) a =
        let (rpc, found) =
          first_pair (picks.circular_tuple_windows (in_order picks handles xs))
            (all.windows_all _ (ordered xs a.0)) in
        (rpc, rw (found, try_tiers) refl)
