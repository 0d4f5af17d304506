-- ===== src/Selection.antt =====
-- The choice of a server for a request: `best_available_rpc` of web3_proxy/src/rpcs/many.rs.
-- Servers are compared by name, as `PartialEq for Web3Rpc` does. `Handles` stands for the servers'
-- `try_request_handle`, and `Picks` for what is not the proxy's own: the random order of a tier,
-- `circular_tuple_windows` of itertools, and the comparison of the measured latencies. The counter of
-- requests without a server, which only a statistic reads, is left out.
pub mod Best
pub mod Found
pub mod Tiers
use Prim.Native.Nat.{compare, Ordering}
use mathlib.Core.Option.{map as option_map}
use web3_proxy.Prelude.{
  ℕ, ◌-◌, min, ◌&&◌, not, Bool, true, false, Option, none, some, List, [], ◌∷◌, ltb, ◌==◌,
  if◌then◌else◌, any,
}
use web3_proxy.Prelude.Results.{Result, ok, err}
use web3_proxy.Prelude.Words.{saturating_sub, option_min}
use web3_proxy.Block.{Web3ProxyBlock, number, age}
use web3_proxy.Rpc.{Web3Rpc}
use web3_proxy.Rpc.Head.{HeadState, has_block_data}
use web3_proxy.Rpc.Handle.{OpenRequestResult, handle, retry_at, not_ready}
use web3_proxy.RateLimit.Redis.{RedisError}
use web3_proxy.Consensus.Head.{ConsensusWeb3Rpcs}

-- What `Web3Rpcs` shows at the time of the call.
pub record Pool : Type 0 where
  pub rpcs : List Web3Rpc
  pub consensus : Option ConsensusWeb3Rpcs
  pub head_of : Web3Rpc → HeadState
  pub max_block_age : Option ℕ
  pub max_block_lag : Option ℕ

pub record Handles : Type 1 where
  pub State : Type 0
  pub try_request_handle : State → Web3Rpc → Result RedisError OpenRequestResult × State

pub record Picks : Type 0 where
  pub shuffle : List Web3Rpc → List Web3Rpc
  pub circular_tuple_windows : List Web3Rpc → List (Web3Rpc × Web3Rpc)
  -- The first has the greater latency.
  pub is_slower : Web3Rpc → Web3Rpc → Bool

-- `OpenRequestResult`, with the server whose handle it holds.
pub data Selected : Type 0 where
  opened : Web3Rpc → Selected
  retry_later : ℕ → Selected
  none_ready : Selected

pub data SelectError : Type 0 where
  invalid_block_bounds : SelectError

unfoldable pub needed_blocks_comparison :
    (min_block_needed max_block_needed : Option ℕ)
    → (head_block_num : ℕ) → Result SelectError Ordering
needed_blocks_comparison none none head = ok Ordering.eq
needed_blocks_comparison none (some hi) head = ok (compare hi head)
needed_blocks_comparison (some lo) none head = ok (compare lo head)
needed_blocks_comparison (some lo) (some hi) head =
    if ltb hi lo then err invalid_block_bounds else ok (compare lo head)

unfoldable pub is_skipped : List Web3Rpc → Web3Rpc → Bool
is_skipped skip x = any (λ y. y.name == x.name) skip

-- A bound that is not given is met.
abbrev pub has_needed : HeadState → Option ℕ → Bool
has_needed s none = true
has_needed s (some n) = has_block_data s n

abbrev pub is_below : ℕ → Option ℕ → Bool
is_below n none = false
is_below n (some m) = ltb n m

abbrev pub is_above : ℕ → Option ℕ → Bool
is_above n none = false
is_above n (some m) = ltb m n

-- The `BTreeMap` from tiers and head numbers, in the order of its keys.
abbrev pub Key : Type 0
Key = ℕ × Option ℕ

abbrev number_lt : Option ℕ → Option ℕ → Bool
number_lt none none = false
number_lt none (some n) = true
number_lt (some m) none = false
number_lt (some m) (some n) = ltb m n

abbrev key_lt : Key → Key → Bool
key_lt (i, a) (j, b) = if i == j then number_lt a b else ltb i j

abbrev pub Usable : Type 0
Usable = List (Key × List Web3Rpc)

push_rpc : List Web3Rpc → Web3Rpc → List Web3Rpc
push_rpc [] x = x ∷ []
push_rpc (y ∷ ys) x = y ∷ push_rpc ys x

-- `m.entry(key).or_insert_with(Vec::new).push(x)`.
unfoldable pub add_usable : Key → Web3Rpc → Usable → Usable
unfolding push_rpc
add_usable k x [] = (k, x ∷ []) ∷ []
add_usable k x ((j, xs) ∷ m) =
    let rest = add_usable k x m in
    if key_lt k j
    then (k, x ∷ []) ∷ (j, xs) ∷ m
    else (if key_lt j k then (j, xs) ∷ rest else (j, push_rpc xs x) ∷ m)

module _ (now : ℕ) (pool : Pool) (skip : List Web3Rpc)
    (min_block_needed max_block_needed : Option ℕ) where
  -- The filter on `by_name` when an old block is needed.
  unfoldable pub serves : Web3Rpc → Bool
  serves x =
      not (is_skipped skip x)
      && has_needed (pool.head_of x) max_block_needed
      && has_needed (pool.head_of x) min_block_needed

  -- A server with that head is still syncing; `head` is the consensus's.
  unfoldable pub is_syncing : (head x_head : Web3ProxyBlock) → Bool
  is_syncing head x_head =
      let min_sync_num = option_map (λ lag. saturating_sub (number head) lag) pool.max_block_lag in
      let min_block_age = option_map (λ a. saturating_sub (age now head) a) pool.max_block_age in
      if is_below (min (number x_head) (number head)) min_sync_num
      then true
      else is_above (age now x_head) min_block_age

  -- The body of the loop, with the head of the server.
  unfoldable pub add_old :
      (head : Web3ProxyBlock) → Web3Rpc → Option Web3ProxyBlock → Usable → Usable
  add_old head x none m = m
  add_old head x (some x_head) m =
      if is_syncing head x_head
      then m
      else add_usable (x.tier, some (min (number x_head) (number head))) x m

  unfoldable pub old_rpcs : (head : Web3ProxyBlock) → List Web3Rpc → Usable → Usable
  old_rpcs head [] m = m
  old_rpcs head (x ∷ xs) m =
      old_rpcs head xs (if serves x then add_old head x (pool.head_of x).head_block m else m)

  unfoldable pub synced_rpcs : List Web3Rpc → Usable → Usable
  synced_rpcs [] m = m
  synced_rpcs (x ∷ xs) m =
      synced_rpcs xs (if is_skipped skip x then m else add_usable (0, none) x m)

  -- `none` is the early `NotReady`.
  unfoldable pub usable_rpcs : ConsensusWeb3Rpcs → Result SelectError (Option Usable)
  usable_rpcs c =
      elim (needed_blocks_comparison min_block_needed max_block_needed (number c.head_block)) [
        | err e ↦ err e
        | ok Ordering.lt ↦ ok (some (old_rpcs c.head_block pool.rpcs []))
        | ok Ordering.eq ↦ ok (some (synced_rpcs c.rpcs []))
        | ok Ordering.gt ↦ ok none
      ]

module _ (picks : Picks) (handles : Handles) where
  -- `min_by_key` of the pair: the first, unless it is slower.
  abbrev pub faster_of : Web3Rpc × Web3Rpc → Web3Rpc
  faster_of (a, b) = if picks.is_slower a b then b else a

  abbrev pub in_order : List Web3Rpc → List Web3Rpc
  in_order [] = picks.shuffle []
  in_order (x ∷ []) = x ∷ []
  in_order (x ∷ y ∷ xs) = picks.shuffle (x ∷ y ∷ xs)

  -- The loop over the pairs of a tier: the server whose handle was opened, or the earliest time.
  unfoldable pub try_pairs :
      handles.State
      → Option ℕ
      → List (Web3Rpc × Web3Rpc)
      → handles.State × Option ℕ × Option Web3Rpc
  try_pairs s earliest [] = (s, earliest, none)
  try_pairs s earliest (p ∷ ps) =
      let rpc = faster_of p in
      let (answer, s') = handles.try_request_handle s rpc in
      elim answer [
        | ok handle ↦ (s', earliest, some rpc)
        | ok (retry_at t) ↦ try_pairs s' (option_min earliest (some t)) ps
        | ok not_ready ↦ try_pairs s' earliest ps
        | err e ↦ try_pairs s' earliest ps
      ]

  finish : Option ℕ → Selected
  finish none = none_ready
  finish (some t) = retry_later t

  unfoldable pub try_tiers : handles.State → Option ℕ → Usable → handles.State × Selected
  unfolding finish
  try_tiers s earliest [] = (s, finish earliest)
  try_tiers s earliest ((k, xs) ∷ m) =
      let (s', earliest', found) =
        try_pairs s earliest (picks.circular_tuple_windows (in_order xs)) in
      elim found [ some rpc ↦ (s', opened rpc) | none ↦ try_tiers s' earliest' m ]

  -- The head of a consensus is read only if there is one.
  unfoldable pub best_available_rpc :
      (now : ℕ)
      → Pool
      → (skip : List Web3Rpc) → (min_block_needed max_block_needed : Option ℕ) → handles.State
      → handles.State × Result SelectError Selected
  best_available_rpc now pool skip lo hi s = elim pool.consensus [
    | none ↦ (s, ok none_ready)
    | some c ↦ elim (usable_rpcs now pool skip lo hi c) [
      | err e ↦ (s, err e)
      | ok none ↦ (s, ok none_ready)
      | ok (some m) ↦ let (s', answer) = try_tiers s none m in (s', ok answer)
    ]
  ]
