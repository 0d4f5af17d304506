-- ===== src/Selection/Best.antt =====
-- What `best_available_rpc` answers: which server it opens, and which answers it never gives.
use mathlib.Core.List.{Memᴰ}
use web3_proxy.Prelude.{
  ℕ, ◌≡◌, ◌≢◌, refl, ap, ◌∙◌, inl, inr, Option, none, some, List, [], ◌∷◌, arith, All, Bool-cases,
  Option-cases,
}
use web3_proxy.Prelude.Results.{Result, ok, err}
use web3_proxy.Prelude.Words.{option_min}
use web3_proxy.Rpc.{Web3Rpc}
use web3_proxy.Rpc.Handle.{OpenRequestResult, handle, retry_at, not_ready}
use web3_proxy.RateLimit.Redis.{RedisError}
use web3_proxy.Consensus.Head.{ConsensusWeb3Rpcs}
use web3_proxy.Selection.{
  Pool, Handles, Picks, opened, retry_later, SelectError, Usable, usable_rpcs, faster_of, in_order,
  try_pairs, try_tiers, finish, best_available_rpc,
}
use web3_proxy.Selection.Tiers.{MayServe, AreGood, usable_rpcs-AreGood}

-- What the code relies on: a shuffled list, and the windows over a list, hold nothing new.
pub record PicksLaws (picks : Picks) : Type 0 where
  pub shuffled : (xs : List Web3Rpc) (x : Web3Rpc) → Memᴰ x (picks.shuffle xs) → Memᴰ x xs
  pub windowed :
      (xs : List Web3Rpc) (a b : Web3Rpc)
      → Memᴰ (a, b) (picks.circular_tuple_windows xs)
      → Memᴰ a xs × Memᴰ b xs

All-Mem {ℓ κ} : {A : Type ℓ} (P : A → Type κ) {x : A} (xs : List A) → All P xs → Memᴰ x xs → P x
All-Mem P [] a i = elim i [ ]
All-Mem P (y ∷ ys) a (Memᴰ.head e) = rw e a.0
All-Mem P (y ∷ ys) a (Memᴰ.tail i) = All-Mem P ys a.1 i

Mem-All {ℓ κ} : {A : Type ℓ} {P : A → Type κ} (xs : List A) → ((x : A) → Memᴰ x xs → P x) → All P xs
Mem-All [] f = tt
Mem-All (x ∷ xs) f = (f x (Memᴰ.head refl), Mem-All xs (λ y i. f y (Memᴰ.tail i)))

module _ (picks : Picks) (handles : Handles) where
  -- The last call gave the handle.
  abbrev pub WasOpened : handles.State → Web3Rpc → Type 0
  WasOpened s' rpc = (s : handles.State) × (handles.try_request_handle s rpc ≡ (ok handle, s'))

  module _ (Good : Web3Rpc → Type 0) where
    abbrev GoodPair : Web3Rpc × Web3Rpc → Type 0
    GoodPair p = Good p.0 × Good p.1

    faster_of-Good : (p : Web3Rpc × Web3Rpc) → GoodPair p → Good (faster_of picks handles p)
    faster_of-Good (a, b) g = elim (Bool-cases (picks.is_slower a b)) [
      | inl e ↦ rw e g.1
      | inr e ↦ rw e g.0
    ]

    windows-Good :
        PicksLaws picks
        → (xs : List Web3Rpc) → All Good xs
        → All GoodPair (picks.circular_tuple_windows (in_order picks handles xs))
    windows-Good laws xs a = Mem-All _ (λ p i.
        let (u, v) = laws.windowed (in_order picks handles xs) p.0 p.1 i in
        (good xs a p.0 u, good xs a p.1 v))
      where
        good :
            (ys : List Web3Rpc)
            → All Good ys
            → (x : Web3Rpc) → Memᴰ x (in_order picks handles ys)
            → Good x
        good [] b x i = All-Mem Good [] b (laws.shuffled [] x i)
        good (y ∷ []) b x i = All-Mem Good (y ∷ []) b i
        good (y ∷ z ∷ ys) b x i = All-Mem Good (y ∷ z ∷ ys) b (laws.shuffled (y ∷ z ∷ ys) x i)

    try_pairs-opened :
        (ps : List (Web3Rpc × Web3Rpc)) (s s' : handles.State) (earliest earliest' : Option ℕ)
        (rpc : Web3Rpc)
        → All GoodPair ps
        → try_pairs picks handles s earliest ps ≡ (s', earliest', some rpc)
        → Good rpc × WasOpened s' rpc
    unfolding try_pairs
    try_pairs-opened [] s s' earliest earliest' rpc a h = absurd (ground arith)
    try_pairs-opened (p ∷ ps) s s' earliest earliest' rpc a h =
        go (handles.try_request_handle s (faster_of picks handles p)).0
          (handles.try_request_handle s (faster_of picks handles p)).1 refl
          (λ t e. try_pairs-opened ps t s' e earliest' rpc a.1)
      where
        go :
            (answer : Result RedisError OpenRequestResult) (t : handles.State)
            → handles.try_request_handle s (faster_of picks handles p) ≡ (answer, t)
            → ((u : handles.State) (e : Option ℕ)
                → try_pairs picks handles u e ps ≡ (s', earliest', some rpc)
                → Good rpc × WasOpened s' rpc)
            → Good rpc × WasOpened s' rpc
        go (ok handle) t e rec =
            let same : faster_of picks handles p ≡ rpc = ground arith in
            (
              rw same at (faster_of-Good p a.0),
              (s, rw same at e ∙ ap (λ u. (ok handle, u)) (ground arith)),
            )
        go (ok (retry_at n)) t e rec = rec t (option_min earliest (some n)) (ground arith)
        go (ok not_ready) t e rec = rec t earliest (ground arith)
        go (err x) t e rec = rec t earliest (ground arith)

    try_tiers-opened :
        PicksLaws picks
        → (m : Usable) (s s' : handles.State) (earliest : Option ℕ) (rpc : Web3Rpc) → AreGood Good m
        → try_tiers picks handles s earliest m ≡ (s', opened rpc)
        → Good rpc × WasOpened s' rpc
    unfolding try_tiers finish
    try_tiers-opened laws [] s s' none rpc a h = absurd (ground arith)
    try_tiers-opened laws [] s s' (some t) rpc a h = absurd (ground arith)
    try_tiers-opened laws ((k, xs) ∷ m) s s' earliest rpc a h =
        go (tried.0) (tried.1) (tried.2) refl (λ u e. try_tiers-opened laws m u s' e rpc a.1)
      where
        tried : handles.State × Option ℕ × Option Web3Rpc
        tried =
            try_pairs picks handles s earliest
              (picks.circular_tuple_windows (in_order picks handles xs))

        go :
            (t : handles.State) (e : Option ℕ) (found : Option Web3Rpc)
            → tried ≡ (t, e, found)
            → ((u : handles.State) (e' : Option ℕ)
                → try_tiers picks handles u e' m ≡ (s', opened rpc)
                → Good rpc × WasOpened s' rpc)
            → Good rpc × WasOpened s' rpc
        go t e none q rec = rec t e (ground arith)
        go t e (some x) q rec =
            let same : x ≡ rpc = ground arith in
            let end : t ≡ s' = ground arith in
            try_pairs-opened _ s s' earliest e rpc (windows-Good laws xs a.0) (ground arith)

  -- No time is kept from the pairs of a tier if none came in.
  try_pairs-none :
      (ps : List (Web3Rpc × Web3Rpc)) (s : handles.State)
      → (try_pairs picks handles s none ps).1 ≡ none
  unfolding try_pairs
  try_pairs-none [] s = refl
  try_pairs-none (p ∷ ps) s =
      ground (arith, try_pairs-none ps (handles.try_request_handle s (faster_of picks handles p)).1)

  try_tiers-no_retry :
      (m : Usable) (s : handles.State) (t : ℕ)
      → (try_tiers picks handles s none m).1 ≢ retry_later t
  unfolding try_tiers finish
  try_tiers-no_retry [] s t h = cc
  try_tiers-no_retry ((k, xs) ∷ m) s t h =
      let e = try_pairs-none (picks.circular_tuple_windows (in_order picks handles xs)) s in
      ground (
        arith,
        try_tiers-no_retry m
            (try_pairs picks handles s none
              (picks.circular_tuple_windows (in_order picks handles xs))).0
            t,
      )

-- If shuffling a list and taking windows over it add nothing new: a handle that is returned was given
-- just now, by a server that may be asked, one that was not tried before and either has the old blocks
-- that are needed and is not syncing, or is one of the consensus when the head is needed.
pub best_available_rpc-opened :
    (picks : Picks) (handles : Handles) (now : ℕ) (pool : Pool) (skip : List Web3Rpc)
    (lo hi : Option ℕ) (s : handles.State) {s' : handles.State} {rpc : Web3Rpc}
    → PicksLaws picks
    → best_available_rpc picks handles now pool skip lo hi s ≡ (s', ok (opened rpc))
    → (c : ConsensusWeb3Rpcs) × (pool.consensus ≡ some c)
      × MayServe now pool skip lo hi c rpc
      × WasOpened picks handles s' rpc
unfolding best_available_rpc
best_available_rpc-opened picks handles now pool skip lo hi s {s'} {rpc} laws h =
    elim (Option-cases pool.consensus) [
      | inl gone ↦ absurd (ground arith)
      | inr (c, e) ↦ go c e (usable_rpcs now pool skip lo hi c) refl
    ]
  where
    go :
        (c : ConsensusWeb3Rpcs)
        → pool.consensus ≡ some c
        → (r : Result SelectError (Option Usable)) → usable_rpcs now pool skip lo hi c ≡ r
        → (c : ConsensusWeb3Rpcs) × (pool.consensus ≡ some c)
          × MayServe now pool skip lo hi c rpc
          × WasOpened picks handles s' rpc
    go c e (err x) q = absurd (ground arith)
    go c e (ok none) q = absurd (ground arith)
    go c e (ok (some m)) q =
        let (may, opened_now) =
          try_tiers-opened picks handles (MayServe now pool skip lo hi c) laws m s s' none rpc
            (usable_rpcs-AreGood now pool skip lo hi c q) (ground arith) in
        (c, e, may, opened_now)

-- The answer is never `RetryAt`, even when every server says when to retry.
pub best_available_rpc-no_retry :
    (picks : Picks) (handles : Handles) (now : ℕ) (pool : Pool) (skip : List Web3Rpc)
    (lo hi : Option ℕ) (s : handles.State) (t : ℕ)
    → (best_available_rpc picks handles now pool skip lo hi s).1 ≢ ok (retry_later t)
unfolding best_available_rpc
best_available_rpc-no_retry picks handles now pool skip lo hi s t h =
    elim (Option-cases pool.consensus) [
      | inl gone ↦ ground arith
      | inr (c, e) ↦ go c e (usable_rpcs now pool skip lo hi c) refl
    ]
  where
    go :
        (c : ConsensusWeb3Rpcs)
        → pool.consensus ≡ some c
        → (r : Result SelectError (Option Usable)) → usable_rpcs now pool skip lo hi c ≡ r
        → ⊥
    go c e (err x) q = ground arith
    go c e (ok none) q = ground arith
    go c e (ok (some m)) q = ground (arith, try_tiers-no_retry picks handles m s t)
