-- ===== src/Block.antt =====
-- `Web3ProxyBlock` of web3_proxy/src/rpcs/blockchain.rs: a block and its age.
-- A hash is the 256-bit number that it is; `ethers`' `Block` is cut to the fields that are read here.
-- `hash()` and `number()` panic on a pending block. They read 0 there, and `IsSaved` says of a block
-- that they do not panic on it: both ways to make a block, `try_new` and `try_from`, see to that.
pub mod Laws
use web3_proxy.Prelude.{
  ℕ, zero, suc, ◌+◌, ◌-◌, ◌*◌, ◌/◌, ◌%◌, ◌^◌, ◌≤◌, ◌<◌, min, max, ◌≡◌, refl, sym, ap, ◌∙◌, ◌≢◌, ◌↔◌,
  ◌⊎◌, inl, inr, Bool, true, false, not, ◌&&◌, ◌||◌, Option, none, some, List, [], ◌∷◌, ◌++◌, map,
  arith, ltb, leb, ◌==◌, if◌then◌else◌, ltb→lt, lt→ltb, leb→le, ==_iff, ==_refl, Bool-cases,
  Option-cases, length, length-append, filter_by, any, All, All-append, contains,
}
use web3_proxy.Prelude.Results.{Result, ok, err, ◌>>=◌, context}
use web3_proxy.Prelude.Words.{
  u64_max, saturating_add, saturating_sub, checked_sub, option_max, option_min, some_gt,
}

-- `Block<TxHash>`: a pending block has neither number nor hash.
pub record ArcBlock : Type 0 where
  pub number : Option ℕ
  pub hash : Option ℕ
  pub parent_hash : ℕ
  pub timestamp : ℕ

pub record Web3ProxyBlock : Type 0 where
  pub block : ArcBlock
  pub received_age : Option ℕ

pub data BlockError : Type 0 where
  must_have_number_or_hash : BlockError

abbrev pub nanos_per_sec : ℕ
nanos_per_sec = 1_000_000_000

-- `age`, at `now` nanoseconds after the epoch, of a block whose time stamp fits 64 bits. On any other it
-- panics: `try_new`, the first to call it on a block that a server sent, sees to that.
unfoldable pub age : ℕ → Web3ProxyBlock → ℕ
age now x =
    if ltb (x.block.timestamp * nanos_per_sec) now
    then (now - x.block.timestamp * nanos_per_sec) / nanos_per_sec
    else 0

abbrev pub is_none : Option ℕ → Bool
is_none none = true
is_none (some _) = false

-- `unwrap`, and `expect`, where `d` stands for the panic.
abbrev pub get_or : Option ℕ → ℕ → ℕ
get_or none d = d
get_or (some a) d = a

-- `none` is the panic of `as_u64` on the time stamp, which is a `U256`; `some none`, the answer `None`.
unfoldable pub try_new : ℕ → ArcBlock → Option (Option Web3ProxyBlock)
try_new now b =
    if is_none b.number || is_none b.hash
    then some none
    else (let x : Web3ProxyBlock = record { block = b; received_age = none } in
        if ltb b.timestamp (2 ^ 64)
        then some (some (record x { received_age = some (age now x) }))
        else none)

unfoldable pub try_from : ArcBlock → Result BlockError Web3ProxyBlock
try_from x =
    if is_none x.number || is_none x.hash
    then err must_have_number_or_hash
    else ok (record { block = x; received_age = none })

unfoldable pub hash : Web3ProxyBlock → ℕ
hash x = get_or x.block.hash 0

unfoldable pub number : Web3ProxyBlock → ℕ
number x = get_or x.block.number 0

unfoldable pub parent_hash : Web3ProxyBlock → ℕ
parent_hash x = x.block.parent_hash

-- `PartialEq`.
abbrev same_hash : Option ℕ → Option ℕ → Bool
same_hash none none = true
same_hash (some _) none = false
same_hash none (some _) = false
same_hash (some s) (some o) = s == o

unfoldable pub eq : Web3ProxyBlock → Web3ProxyBlock → Bool
eq x y = same_hash x.block.hash y.block.hash

-- `hash()` and `number()` do not panic.
pub record IsSaved (x : Web3ProxyBlock) : Type 0 where
  pub has_hash : x.block.hash ≡ some (hash x)
  pub has_number : x.block.number ≡ some (number x)
