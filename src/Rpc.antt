-- ===== src/Rpc.antt =====
-- `Web3Rpc` of web3_proxy/src/rpcs/one.rs.
-- A name is a number: what the code does here with names is to compare them.
pub mod Head
pub mod Handle
use web3_proxy.Prelude.{
  ℕ, zero, suc, ◌+◌, ◌-◌, ◌*◌, ◌/◌, ◌%◌, ◌^◌, ◌≤◌, ◌<◌, min, max, ◌≡◌, refl, sym, ap, ◌∙◌, ◌≢◌, ◌↔◌,
  ◌⊎◌, inl, inr, Bool, true, false, not, ◌&&◌, ◌||◌, Option, none, some, List, [], ◌∷◌, ◌++◌, map,
  arith, ltb, leb, ◌==◌, if◌then◌else◌, ltb→lt, lt→ltb, leb→le, ==_iff, ==_refl, Bool-cases,
  Option-cases, length, length-append, filter_by, any, All, All-append, contains,
}
use web3_proxy.Prelude.Results.{Result, ok, err, ◌>>=◌, context}
use web3_proxy.Prelude.Words.{
  u64_max, saturating_add, saturating_sub, checked_sub, option_max, option_min, some_gt,
}

-- The fields that are set when the server is configured. `hash_key` stands for all that `Hash` reads: the
-- name, the display name, the urls, the limits, the tier and the time of creation. In a `HashMap` or a
-- `HashSet` two servers are the same key if these agree, leaving collisions of hashes aside; a server
-- that replaces another under its name is a new key. `PartialEq` compares names alone.
pub record Web3Rpc : Type 0 where
  pub name : ℕ
  pub hash_key : ℕ
  pub soft_limit : ℕ
  pub backup : Bool
  pub tier : ℕ

-- The fields of `Web3Rpcs` (web3_proxy/src/rpcs/many.rs) that a consensus is made by. `by_name` is
-- the map as a function.
pub record Settings : Type 0 where
  pub by_name : ℕ → Option Web3Rpc
  pub min_head_rpcs : ℕ
  pub min_sum_soft_limit : ℕ
  pub max_block_lag : Option ℕ
  pub max_block_age : Option ℕ
