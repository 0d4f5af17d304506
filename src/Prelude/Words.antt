-- ===== src/Prelude/Words.antt =====
-- `u64` and `U64`: numbers below 2 ^ 64, with the operations that the code uses on them, and the
-- order of `Option<U64>`, in which `None` is the least value.
use Prim.Native.Nat.{ℕ, ◌+◌, ◌-◌, ◌%◌, max, min}
use mathlib.Core.Bool.{Bool, true}
use mathlib.Core.Option.{Option, none, some}
use web3_proxy.Prelude.Tests.{if◌then◌else◌, ltb, leb}

abbrev pub u64_max : ℕ
u64_max = 18446744073709551615

-- `saturating_add`.
abbrev pub saturating_add : ℕ → ℕ → ℕ
saturating_add a b = if ltb u64_max (a + b) then u64_max else a + b

-- `+=` and `fetch_add` on `u64`, as the release profile compiles them.
abbrev pub wrapping_add : ℕ → ℕ → ℕ
wrapping_add a b = (a + b) % 18446744073709551616

-- `fetch_sub`, for numbers that fit.
abbrev pub wrapping_sub : ℕ → ℕ → ℕ
wrapping_sub a b = (a + 18446744073709551616 - b) % 18446744073709551616

-- `saturating_sub`, which is the truncated difference.
abbrev pub saturating_sub : ℕ → ℕ → ℕ
saturating_sub a b = a - b

-- The operator `-` on `U64`, which panics (`none`) when the result would be negative.
abbrev pub checked_sub : ℕ → ℕ → Option ℕ
checked_sub a b = if leb b a then some (a - b) else none

-- `Option::max` and `Option::min`.
abbrev pub option_max : Option ℕ → Option ℕ → Option ℕ
option_max none b = b
option_max (some a) none = some a
option_max (some a) (some b) = some (max a b)

abbrev pub option_min : Option ℕ → Option ℕ → Option ℕ
option_min none b = none
option_min (some a) none = none
option_min (some a) (some b) = some (min a b)

-- `Some(a) > b`.
abbrev pub some_gt : ℕ → Option ℕ → Bool
some_gt a none = true
some_gt a (some b) = ltb b a
