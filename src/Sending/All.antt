-- ===== src/Sending/All.antt =====
-- The servers for a request to several at once: `all_connections` and `rpc_sync_status_sort_key` of
-- web3_proxy/src/rpcs/many.rs. `peak_ewma` stands for the floating-point number of that name, by a
-- number of the same order. The set of servers that were tried is a list, whose members are told apart by `hash_key`.
pub mod Laws
use web3_proxy.Prelude.{
  ℕ, zero, suc, ◌-◌, Bool, true, false, not, ◌&&◌, ◌||◌, Option, none, some, List, [], ◌∷◌, ◌++◌,
  ltb, ◌==◌, if◌then◌else◌, length, any,
}
use web3_proxy.Prelude.Results.{Result, ok, err}
use web3_proxy.Prelude.Words.{u64_max, option_min}
use web3_proxy.Block.{number}
use web3_proxy.Rpc.{Web3Rpc}
use web3_proxy.Rpc.Head.{HeadState}
use web3_proxy.Rpc.Handle.{OpenRequestResult, handle, retry_at, not_ready}
use web3_proxy.RateLimit.Redis.{RedisError}
use web3_proxy.Consensus.Head.{ConsensusWeb3Rpcs}
use web3_proxy.Selection.{Pool, Handles, has_needed}

pub record SortKey : Type 0 where
  pub reversed_head_block : ℕ
  pub tier : ℕ
  pub backup : Bool
  pub peak_ewma : ℕ

abbrev head_number : HeadState → ℕ
head_number s = elim s.head_block [ none ↦ 0 | some b ↦ number b ]

unfoldable pub rpc_sync_status_sort_key :
    (head_of : Web3Rpc → HeadState) → (peak_ewma : Web3Rpc → ℕ) → Web3Rpc → SortKey
rpc_sync_status_sort_key head_of peak_ewma x = record {
  reversed_head_block = u64_max - head_number (head_of x);
  tier = x.tier;
  backup = x.backup;
  peak_ewma = peak_ewma x;
}

-- The order of the tuples; `false` is below `true`.
unfoldable pub key_lt : SortKey → SortKey → Bool
key_lt a b =
    if not (a.reversed_head_block == b.reversed_head_block)
    then ltb a.reversed_head_block b.reversed_head_block
    else if not (a.tier == b.tier)
    then ltb a.tier b.tier
    else if a.backup && b.backup || not a.backup && not b.backup
    then ltb a.peak_ewma b.peak_ewma
    else b.backup

-- A stable sort.
unfoldable pub insert_sorted : (Web3Rpc → SortKey) → Web3Rpc → List Web3Rpc → List Web3Rpc
insert_sorted key x [] = x ∷ []
insert_sorted key x (y ∷ ys) =
    let rest = insert_sorted key x ys in if key_lt (key y) (key x) then y ∷ rest else x ∷ y ∷ ys

unfoldable pub sort_by_cached_key : (Web3Rpc → SortKey) → List Web3Rpc → List Web3Rpc
sort_by_cached_key key [] = []
sort_by_cached_key key (x ∷ xs) = insert_sorted key x (sort_by_cached_key key xs)

abbrev pub consensus_rpcs : Option ConsensusWeb3Rpcs → List Web3Rpc
consensus_rpcs none = []
consensus_rpcs (some c) = c.rpcs

abbrev pub selected_or : Option ℕ → List Web3Rpc → Result (Option ℕ) (List Web3Rpc)
selected_or earliest_retry_at [] = err earliest_retry_at
selected_or earliest_retry_at (rpc ∷ rpcs) = ok (rpc ∷ rpcs)

-- `contains` of the set of servers.
unfoldable pub is_tried : List Web3Rpc → Web3Rpc → Bool
is_tried tried x = any (λ y. y.hash_key == x.hash_key) tried

abbrev pub count_or : Option ℕ → ℕ → ℕ
count_or none n = n
count_or (some max_count) n = max_count

module _ (handles : Handles) where
  -- The variables of the loop.
  pub record Progress : Type 0 where
    pub state : handles.State
    pub max_count : ℕ
    pub tried : List Web3Rpc
    pub earliest_retry_at : Option ℕ
    pub selected_rpcs : List Web3Rpc

  unfoldable pub after_handle : Web3Rpc → Progress → Result RedisError OpenRequestResult → Progress
  after_handle rpc p (ok (retry_at t)) = record p {
    earliest_retry_at = option_min p.earliest_retry_at (some t);
  }
  after_handle rpc p (ok handle) = record p {
    max_count = p.max_count - 1;
    selected_rpcs = p.selected_rpcs ++ rpc ∷ [];
  }
  after_handle rpc p (ok not_ready) = p
  after_handle rpc p (err e) = p

  module _ (pool : Pool) (min_block_needed max_block_needed : Option ℕ) (allow_backups : Bool) where
    -- The server passes the tests before it is asked.
    unfoldable pub is_usable : Web3Rpc → Bool
    is_usable rpc =
        (allow_backups || not rpc.backup)
        && has_needed (pool.head_of rpc) min_block_needed
        && has_needed (pool.head_of rpc) max_block_needed

    -- The body of the loop, for a server that was not tried.
    unfoldable pub try_rpc : Web3Rpc → Progress → Progress
    try_rpc rpc p =
        let p' = record p { tried = rpc ∷ p.tried } in
        if is_usable rpc
        then (let (answer, s) = handles.try_request_handle p'.state rpc in
            after_handle rpc (record p' { state = s }) answer)
        else p'

    unfoldable pub select_rpcs : List Web3Rpc → Progress → Progress
    select_rpcs [] p = p
    select_rpcs (rpc ∷ rpcs) p =
        if p.max_count == 0
        then p
        else select_rpcs rpcs (if is_tried p.tried rpc then p else try_rpc rpc p)

    unfoldable pub all_connections :
        (peak_ewma : Web3Rpc → ℕ)
        → (max_count : Option ℕ) → handles.State
        → handles.State × Result (Option ℕ) (List Web3Rpc)
    all_connections peak_ewma max_count s =
        let key = rpc_sync_status_sort_key pool.head_of peak_ewma in
        let synced_rpcs = sort_by_cached_key key (consensus_rpcs pool.consensus) in
        let all_rpcs = sort_by_cached_key key pool.rpcs in
        let p = select_rpcs (synced_rpcs ++ all_rpcs) (record {
          state = s;
          max_count = count_or max_count (length pool.rpcs);
          tried = [];
          earliest_retry_at = none;
          selected_rpcs = [];
        }) in
        (p.state, selected_or p.earliest_retry_at p.selected_rpcs)
