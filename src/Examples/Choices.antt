-- ===== src/Examples/Choices.antt =====
-- The choice of a server on the examples, with windows over a list that goes round.
use mathlib.Core.List.{Memᴰ}
use web3_proxy.Prelude.{
  ℕ, ◌+◌, ◌≡◌, ◌≢◌, ◌⊎◌, inl, inr, refl, ap, none, some, List, [], ◌∷◌, ltb, any,
}
use web3_proxy.Prelude.Results.{ok}
use web3_proxy.Rpc.{Web3Rpc}
use web3_proxy.Rpc.Handle.{handle, retry_at}
use web3_proxy.Consensus.Head.{ConsensusWeb3Rpcs}
use web3_proxy.Selection.{
  Pool, Handles, Picks, opened, retry_later, is_skipped, synced_rpcs, usable_rpcs, add_usable,
  needed_blocks_comparison, try_pairs, try_tiers, best_available_rpc,
}
use web3_proxy.Selection.Tiers.{MayServe, at_head}
use web3_proxy.Selection.Best.{
  PicksLaws, WasOpened, best_available_rpc-opened, best_available_rpc-no_retry,
}
use web3_proxy.Selection.Found.{HasEntry, entry, PicksAll, best_available_rpc-found}
use web3_proxy.Examples.{rpc_a, rpc_b, consensus, b11}

unfoldable pairs_from : Web3Rpc → List Web3Rpc → List (Web3Rpc × Web3Rpc)
pairs_from first [] = []
pairs_from first (x ∷ []) = (x, first) ∷ []
pairs_from first (x ∷ y ∷ ys) = (x, y) ∷ pairs_from first (y ∷ ys)

unfoldable pub windows : List Web3Rpc → List (Web3Rpc × Web3Rpc)
unfolding pairs_from
windows [] = []
windows (x ∷ xs) = pairs_from x (x ∷ xs)

abbrev pub picks : Picks
picks = record {
  shuffle = λ xs. xs;
  circular_tuple_windows = windows;
  is_slower = λ x y. ltb y.name x.name;
}

Mem-pairs_from :
    (first : Web3Rpc) (xs : List Web3Rpc) (a b : Web3Rpc)
    → Memᴰ (a, b) (pairs_from first xs)
    → Memᴰ a xs × ((b ≡ first) ⊎ Memᴰ b xs)
unfolding pairs_from
Mem-pairs_from first [] a b i = elim i [ ]
Mem-pairs_from first (x ∷ []) a b (Memᴰ.head e) =
    (Memᴰ.head (ap (λ p. p.0) e), inl (ap (λ p. p.1) e))
Mem-pairs_from first (x ∷ []) a b (Memᴰ.tail i) = elim i [ ]
Mem-pairs_from first (x ∷ y ∷ ys) a b (Memᴰ.head e) =
    (Memᴰ.head (ap (λ p. p.0) e), inr (Memᴰ.tail (Memᴰ.head (ap (λ p. p.1) e))))
Mem-pairs_from first (x ∷ y ∷ ys) a b (Memᴰ.tail i) =
    let (u, v) = Mem-pairs_from first (y ∷ ys) a b i in
    (Memᴰ.tail u, elim v [ inl e ↦ inl e | inr w ↦ inr (Memᴰ.tail w) ])

Mem-windows : (xs : List Web3Rpc) (a b : Web3Rpc) → Memᴰ (a, b) (windows xs) → Memᴰ a xs × Memᴰ b xs
unfolding windows
Mem-windows [] a b i = elim i [ ]
Mem-windows (x ∷ xs) a b i =
    let (u, v) = Mem-pairs_from x (x ∷ xs) a b i in (u, elim v [ inl e ↦ Memᴰ.head e | inr w ↦ w ])

pub picks-PicksLaws : PicksLaws picks
picks-PicksLaws = record { shuffled = λ xs x i. i; windowed = Mem-windows }

HasEntry-windows : (xs : List Web3Rpc) → HasEntry xs → HasEntry (windows xs)
unfolding windows pairs_from
HasEntry-windows [] h = elim h [ ]
HasEntry-windows (x ∷ []) h = entry _ _
HasEntry-windows (x ∷ y ∷ ys) h = entry _ _

picks-PicksAll : PicksAll picks
picks-PicksAll = record { shuffle_all = λ xs h. h; windows_all = HasEntry-windows }

-- Every server gives a handle; the state counts the calls.
abbrev pub generous : Handles
generous = record { State = ℕ; try_request_handle = λ s x. (ok handle, s + 1) }

abbrev busy : Handles
busy = record { State = ℕ; try_request_handle = λ s x. (ok (retry_at 9), s + 1) }

abbrev pub pool : Pool
pool = record {
  rpcs = rpc_a ∷ rpc_b ∷ [];
  consensus = some consensus;
  head_of = λ x. record { head_block = some b11; block_data_limit = 64 };
  max_block_age = none;
  max_block_lag = some 5;
}

a_opened : best_available_rpc picks generous 5 pool [] none none 0 ≡ (1, ok (opened rpc_a))
unfolding best_available_rpc usable_rpcs needed_blocks_comparison synced_rpcs is_skipped add_usable
    try_tiers try_pairs windows any
a_opened = refl

best_available_rpc-opened_example :
    (c : ConsensusWeb3Rpcs) × (pool.consensus ≡ some c)
    × MayServe 5 pool [] none none c rpc_a
    × WasOpened picks generous 1 rpc_a
best_available_rpc-opened_example =
    best_available_rpc-opened picks generous 5 pool [] none none 0 picks-PicksLaws a_opened

best_available_rpc-no_retry_example :
    (best_available_rpc picks busy 5 pool [] none none 0).1 ≢ ok (retry_later 9)
best_available_rpc-no_retry_example = best_available_rpc-no_retry picks busy 5 pool [] none none 0 9

rpc_b-MayServe : MayServe 5 pool [] none none consensus rpc_b
unfolding needed_blocks_comparison is_skipped any
rpc_b-MayServe = at_head refl (record { known = Memᴰ.head refl; fresh = refl })

best_available_rpc-found_example :
    (rpc : Web3Rpc) × ((best_available_rpc picks generous 5 pool [] none none 0).1
      ≡ ok (opened rpc))
best_available_rpc-found_example =
    best_available_rpc-found picks generous 5 pool [] none none 0 consensus rpc_b picks-PicksAll
      (λ t y. refl) refl rpc_b-MayServe
