-- ===== src/Rpc/Head.antt =====
-- Which blocks a server can serve, and what it tells of its head: `has_block_data`,
-- `check_block_data_limit` and `send_head_block_result` of web3_proxy/src/rpcs/one.rs.
-- The authorization that is made for the check of the limit is an internal one, which is never refused.
-- That the channel of heads is closed, which is an error, is left out.
pub mod Laws
use web3_proxy.Prelude.{
  ℕ, zero, suc, ◌+◌, ◌-◌, ◌*◌, ◌/◌, ◌%◌, ◌^◌, ◌≤◌, ◌<◌, min, max, ◌≡◌, refl, sym, ap, ◌∙◌, ◌≢◌, ◌↔◌,
  ◌⊎◌, inl, inr, Bool, true, false, not, ◌&&◌, ◌||◌, Option, none, some, List, [], ◌∷◌, ◌++◌, map,
  arith, ltb, leb, ◌==◌, if◌then◌else◌, ltb→lt, lt→ltb, leb→le, ==_iff, ==_refl, Bool-cases,
  Option-cases, length, length-append, filter_by, any, All, All-append, contains,
}
use web3_proxy.Prelude.Results.{Result, ok, err, ◌>>=◌, context}
use web3_proxy.Prelude.Words.{
  u64_max, saturating_add, saturating_sub, checked_sub, option_max, option_min, some_gt,
}
use web3_proxy.Block.{ArcBlock, Web3ProxyBlock, hash, number, try_new}
use web3_proxy.Cache.{CacheOps}

-- `head_block` and `block_data_limit`, which the tasks of a server share.
pub record HeadState : Type 0 where
  pub head_block : Option Web3ProxyBlock
  pub block_data_limit : ℕ

unfoldable pub has_block_data : HeadState → ℕ → Bool
has_block_data s needed_block_num = elim s.head_block [
  | none ↦ false
  | some head ↦
      if ltb (number head) needed_block_num
      then false
      else leb (saturating_sub (number head) s.block_data_limit) needed_block_num
]

abbrev pub block_data_limits : List ℕ
block_data_limits = 0 ∷ 32 ∷ 64 ∷ 128 ∷ 256 ∷ 512 ∷ 1024 ∷ 90_000 ∷ u64_max ∷ []

pub data ProbeError : Type 0 where
  no_head_block_num : ProbeError

-- The loop of `check_block_data_limit`. A probe is an error if no handle or no block number comes,
-- and otherwise says whether the node has the state that many blocks back.
unfoldable pub find_limit :
    (ℕ → Result ProbeError Bool) → Option ℕ → List ℕ → Result ProbeError (Option ℕ)
find_limit probe limit [] = ok limit
find_limit probe limit (l ∷ limits) = probe l >>= λ has_state. elim has_state [
  | true ↦ find_limit probe (some l) limits
  | false ↦ ok limit
]

store_limit : HeadState → Option ℕ → HeadState
store_limit s none = s
store_limit s (some limit) = record s { block_data_limit = limit }

unfoldable pub check_block_data_limit :
    (automatic_block_limit : Bool)
    → (ℕ → Result ProbeError Bool)
    → HeadState
    → HeadState × Result ProbeError (Option ℕ)
unfolding store_limit
check_block_data_limit automatic_block_limit probe s =
    if automatic_block_limit
    then (elim (find_limit probe none block_data_limits) [
      | ok limit ↦ (store_limit s limit, ok limit)
      | err e ↦ (s, err e)
    ])
    else (s, ok none)

module _ (hashes : CacheOps Web3ProxyBlock) where
  pub record Sent : Type 0 where
    pub state : HeadState
    pub block_map : hashes.Store
    -- What goes into the channel, if anything does.
    pub message : Option (Option Web3ProxyBlock)

  unfoldable pub clear_head : HeadState → hashes.Store → Sent
  clear_head s m = record {
    state = record s { head_block = none };
    block_map = m;
    message = some none;
  }

  -- The block limit is checked again while it is 0. `none` is a panic: of `try_new`, or on a
  -- pending block.
  keep_head :
      (automatic_block_limit : Bool)
      → (ℕ → Result ProbeError Bool)
      → HeadState
      → hashes.Store
      → Option (Option Web3ProxyBlock)
      → Option Sent
  keep_head automatic_block_limit probe s m none = none
  keep_head automatic_block_limit probe s m (some none) = none
  keep_head automatic_block_limit probe s m (some (some new_head_block)) =
      let (block, m') = hashes.get_with m (hash new_head_block) new_head_block in
      let s' = record s { head_block = some block } in
      some (record {
        state =
            (if s.block_data_limit == 0
              then (check_block_data_limit automatic_block_limit probe s').0
              else s');
        block_map = m';
        message = some (some block);
      })

  -- `Ok(None)`, `Ok(Some(block))` or `Err`, which is `none` here.
  unfoldable pub send_head_block_result :
      (now : ℕ)
      → (automatic_block_limit : Bool) → (ℕ → Result ProbeError Bool)
      → HeadState
      → hashes.Store
      → Option (Option ArcBlock)
      → Option Sent
  unfolding clear_head keep_head
  send_head_block_result now automatic probe s m (some none) = elim s.head_block [
    | none ↦ some (record { state = s; block_map = m; message = none })
    | some _ ↦ some (clear_head s m)
  ]
  send_head_block_result now automatic probe s m (some (some b)) =
      keep_head automatic probe s m (try_new now b)
  send_head_block_result now automatic probe s m none = some (clear_head s m)

  -- An error takes the head away.
  pub send_head_block_result-err :
      (now : ℕ) (automatic_block_limit : Bool) (probe : ℕ → Result ProbeError Bool) (s : HeadState)
      (m : hashes.Store)
      → send_head_block_result now automatic_block_limit probe s m none
        ≡ some
            (record { state = record s { head_block = none }; block_map = m; message = some none })
  unfolding send_head_block_result clear_head
  send_head_block_result-err now automatic_block_limit probe s m = refl
