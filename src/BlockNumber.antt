-- ===== src/BlockNumber.antt =====
-- web3_proxy/src/block_number.rs: from a block parameter to a number, and from a request to the
-- block that it needs. `params` is passed in and out. What `serde_json` and `ethers` do to a value
-- is the parameter `Codec`; `fetch` stands for the call of `Web3Rpcs::block` by hash.
pub mod Laws
use Prim.Native.String.{String}
use text.Mathlib.Text.{◌==◌ as str_eq, starts_with}
use web3_proxy.Prelude.Outcomes.{Outcome, done, failed, panics, ◌>>=◌, or_panic, or_fail}
use web3_proxy.Json.{
  Value, Values, Members, array, object, nil, cons, get, push, set, get_key, set_key, values_len,
}
use web3_proxy.Block.{Web3ProxyBlock, number as block_number}
use web3_proxy.Prelude.{
  ℕ, zero, suc, ◌+◌, ◌-◌, ◌*◌, ◌/◌, ◌%◌, ◌^◌, ◌≤◌, ◌<◌, min, max, ◌≡◌, refl, sym, ap, ◌∙◌, ◌≢◌, ◌↔◌,
  ◌⊎◌, inl, inr, Bool, true, false, not, ◌&&◌, ◌||◌, Option, none, some, List, [], ◌∷◌, ◌++◌, map,
  arith, ltb, leb, ◌==◌, if◌then◌else◌, ltb→lt, lt→ltb, leb→le, ==_iff, ==_refl, Bool-cases,
  Option-cases, length, length-append, filter_by, any, All, All-append, contains,
}
use web3_proxy.Prelude.Words.{
  u64_max, saturating_add, saturating_sub, checked_sub, option_max, option_min, some_gt,
}

-- `ethers::BlockNumber`.
pub data BlockNumber : Type 0 where
  earliest finalized latest pending safe : BlockNumber
  number : ℕ → BlockNumber

pub data ParamsError : Type 0 where
  params_not_an_array decoding_block_hash fetching_block_number block_hash_missing : ParamsError
  checking_params invalid_format : ParamsError

-- `none` is the panic of `U64`'s subtraction. The Boolean says whether "latest" became a number.
unfoldable pub block_num_to_u64 : BlockNumber → ℕ → Option (ℕ × Bool)
block_num_to_u64 earliest latest_block = some (0, false)
block_num_to_u64 finalized latest_block =
    if leb 10 latest_block then some (latest_block - 10, false) else none
block_num_to_u64 latest latest_block = some (latest_block, true)
block_num_to_u64 (number x) latest_block = some (x, false)
block_num_to_u64 pending latest_block = some (latest_block, false)
block_num_to_u64 safe latest_block =
    if leb 3 latest_block then some (latest_block - 3, false) else none

pub data BlockNeeded : Type 0 where
  cache_success_forever cache_never : BlockNeeded
  cache : (block_num : ℕ) (cache_errors : Bool) → BlockNeeded
  cache_range : (from_block_num to_block_num : ℕ) (cache_errors : Bool) → BlockNeeded

-- `json!(U64)`, `from_value::<BlockNumber>` and `from_value::<H256>`.
pub record Codec : Type 0 where
  pub json : ℕ → Value
  pub block_number_of : Value → Option BlockNumber
  pub hash_of : Value → Option ℕ

module _ (codec : Codec) (fetch : ℕ → Option Web3ProxyBlock) where
  -- One parameter that is there: its new value, and the number that it stands for.
  object_param : Members → Value → Outcome ParamsError (Value × ℕ)
  object_param obj x = do
    hash ← or_fail (get_key obj "blockHash") block_hash_missing
    h ← or_fail (codec.hash_of hash) decoding_block_hash
    b ← or_fail (fetch h) fetching_block_number
    done (x, block_number b)

  plain_param : Value → ℕ → Outcome ParamsError (Value × ℕ)
  plain_param x latest_block = do
    b ← or_fail (codec.block_number_of x) checking_params
    r ← or_panic (block_num_to_u64 b latest_block)
    done (if r.1 then codec.json r.0 else x, r.0)

  unfoldable pub clean_param : Value → ℕ → Outcome ParamsError (Value × ℕ)
  unfolding object_param plain_param
  clean_param (object obj) latest_block = object_param obj (object obj)
  clean_param x latest_block = plain_param x latest_block

  clean_at : Values → ℕ → ℕ → Option Value → Outcome ParamsError (Value × ℕ)
  clean_at params block_param_id latest_block none = done (
    (if values_len params == block_param_id
        then array (push params (codec.json latest_block))
        else array params),
    latest_block,
  )
  clean_at params block_param_id latest_block (some x) = do
    r ← clean_param x latest_block
    done (array (set params block_param_id r.0), r.1)

  unfoldable pub clean_block_number : Value → ℕ → ℕ → Outcome ParamsError (Value × ℕ)
  unfolding clean_at
  clean_block_number (array params) block_param_id latest_block =
      clean_at params block_param_id latest_block (get params block_param_id)
  clean_block_number _ block_param_id latest_block = failed params_not_an_array

  -- `fromBlock` or `toBlock` of a log filter, with the number that stands for its absence.
  unfoldable pub filter_bound : Members → String → ℕ → ℕ → Outcome ParamsError (Members × ℕ)
  filter_bound obj key absent head_block_num = elim (get_key obj key) [
    | none ↦ done (obj, absent)
    | some x ↦ do
      b ← or_fail (codec.block_number_of x) checking_params
      r ← or_panic (block_num_to_u64 b head_block_num)
      done (if r.1 then set_key obj key (codec.json r.0) else obj, r.0)
  ]

  filter_range : Members → Values → ℕ → Outcome ParamsError (Value × BlockNeeded)
  unfolding filter_bound
  filter_range obj rest head_block_num = do
    from ← filter_bound obj "fromBlock" 0 head_block_num
    to ← filter_bound from.0 "toBlock" head_block_num head_block_num
    done (array (cons (object to.0) rest), cache_range from.1 to.1 true)

  -- `params[0]` through `IndexMut` panics on an empty array and on what is no array.
  unfoldable pub get_logs : Value → ℕ → Outcome ParamsError (Value × BlockNeeded)
  unfolding filter_range
  get_logs (array (cons (object obj) rest)) head_block_num = elim (get_key obj "blockHash") [
    | some _ ↦ done (array (cons (object obj) rest), cache_success_forever)
    | none ↦ filter_range obj rest head_block_num
  ]
  get_logs (array (cons _ rest)) head_block_num = failed invalid_format
  get_logs _ head_block_num = panics

-- What the match on the method says: the place of the block parameter, or the answer at once.
pub data Plan : Type 0 where
  block_param : ℕ → Plan
  forever head logs : Plan

abbrev method_table : List (String × Plan)
method_table =
    ("eth_call", block_param 1)
    ∷ ("eth_estimateGas", block_param 1)
    ∷ ("eth_getBalance", block_param 1)
    ∷ ("eth_getBlockByHash", forever)
    ∷ ("eth_getBlockByNumber", head)
    ∷ ("eth_getBlockReceipts", block_param 0)
    ∷ ("eth_getBlockTransactionCountByHash", forever)
    ∷ ("eth_getBlockTransactionCountByNumber", block_param 0)
    ∷ ("eth_getCode", block_param 1)
    ∷ ("eth_getLogs", logs)
    ∷ ("eth_getStorageAt", block_param 2)
    ∷ ("eth_getTransactionByHash", head)
    ∷ ("eth_getTransactionByBlockHashAndIndex", forever)
    ∷ ("eth_getTransactionByBlockNumberAndIndex", block_param 0)
    ∷ ("eth_getTransactionCount", block_param 1)
    ∷ ("eth_getTransactionReceipt", head)
    ∷ ("eth_getUncleByBlockHashAndIndex", forever)
    ∷ ("eth_getUncleByBlockNumberAndIndex", block_param 0)
    ∷ ("eth_getUncleCountByBlockHash", forever)
    ∷ ("eth_getUncleCountByBlockNumber", block_param 0)
    ∷ []

-- The first arm that fits; the last one is `_`.
find_arm : String → List (String × Plan) → Plan
find_arm method [] = head
find_arm method ((m, p) ∷ arms) = if str_eq m method then p else find_arm method arms

unfoldable pub method_plan : String → Plan
unfolding find_arm
method_plan method = find_arm method method_table

abbrev with_head : Value → ℕ → Outcome ParamsError (Value × BlockNeeded)
with_head params n = done (params, cache n true)

module _ (codec : Codec) (fetch : ℕ → Option Web3ProxyBlock) where
  -- An error of `clean_block_number` is logged, and the head is used; a panic is not caught.
  recover : Value → ℕ → Outcome ParamsError (Value × ℕ) → Outcome ParamsError (Value × BlockNeeded)
  recover params head_block_num (done r) = with_head r.0 r.1
  recover params head_block_num (failed e) = with_head params head_block_num
  recover params head_block_num panics = panics

  unfoldable pub follow : Plan → Value → ℕ → Outcome ParamsError (Value × BlockNeeded)
  unfolding recover
  follow (block_param i) params head_block_num =
      recover params head_block_num (clean_block_number codec fetch params i head_block_num)
  follow forever params head_block_num = done (params, cache_success_forever)
  follow head params head_block_num = with_head params head_block_num
  follow logs params head_block_num = get_logs codec fetch params head_block_num

  with_params : Plan → Option Value → ℕ → Outcome ParamsError (Option Value × BlockNeeded)
  with_params plan none head_block_num = done (none, cache head_block_num true)
  with_params plan (some p) head_block_num = do
    r ← follow plan p head_block_num
    done (some r.0, r.1)

  unfoldable pub block_needed :
      String → Option Value → ℕ → Outcome ParamsError (Option Value × BlockNeeded)
  unfolding with_params
  block_needed method params head_block_num =
      if starts_with method "trace_" || str_eq method "debug_traceTransaction"
      then done (params, cache_never)
      else with_params (method_plan method) params head_block_num
