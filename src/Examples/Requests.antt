-- ===== src/Examples/Requests.antt =====
-- Block parameters on the examples, with numbers written in unary.
use mathlib.Core.Option.{map as option_map}
use web3_proxy.Prelude.{
  ℕ, zero, suc, ◌<◌, ◌≡◌, ap, ◌≢◌, ◌↔◌, ◌⊎◌, inr, refl, false, Option, none, some,
}
use web3_proxy.Prelude.Outcomes.{done, failed}
use web3_proxy.Json.{Value, Values, Members, null, num, str, array, object, nil, cons, get}
use web3_proxy.BlockNumber.{
  BlockNumber, finalized, latest, safe, Codec, logs, invalid_format, block_num_to_u64,
  clean_block_number, get_logs, method_plan, follow, block_needed,
}
use web3_proxy.BlockNumber.Laws.{NumbersRoundTrip, block_num_to_u64-none, clean_block_number-latest}
use web3_proxy.Examples.{fetch}

block_num_to_u64-none_example :
    (block_num_to_u64 finalized 4 ≡ none)
    ↔ (((finalized ≡ finalized) × (4 < 10)) ⊎ ((finalized ≡ safe) × (4 < 3)))
block_num_to_u64-none_example = block_num_to_u64-none finalized 4

safe_12 : block_num_to_u64 safe 12 ≡ some (9, false)
unfolding block_num_to_u64
safe_12 = refl

unfoldable write : ℕ → Value
write zero = null
write (suc n) = array (cons (write n) nil)

unfoldable read : Value → Option ℕ
read null = some 0
read (array (cons v nil)) = option_map suc (read v)
read _ = none

unfoldable read_block_number : Value → Option BlockNumber
read_block_number (str s) = some latest
read_block_number v = option_map BlockNumber.number (read v)

abbrev codec : Codec
codec = record { json = write; block_number_of = read_block_number; hash_of = λ v. none }

read-write : (n : ℕ) → read (write n) ≡ some n
unfolding read write
read-write zero = refl
read-write (suc n) = rw (read-write n) refl

reads_back : (n : ℕ) → read_block_number (write n) ≡ some (BlockNumber.number n)
unfolding read_block_number write read
reads_back zero = refl
reads_back (suc n) = ap (option_map BlockNumber.number) (read-write (suc n))

no_object : (n : ℕ) (obj : Members) → write n ≢ object obj
unfolding write
no_object zero obj e = cc
no_object (suc n) obj e = cc

codec-NumbersRoundTrip : NumbersRoundTrip codec
codec-NumbersRoundTrip = record { reads_back = reads_back; no_object = no_object }

-- `eth_getBalance` with an address and "latest".
abbrev params : Values
params = cons (num "1") (cons (str "latest") nil)

params_at : get params 1 ≡ some (str "latest")
unfolding get
params_at = refl

reads_latest : read_block_number (str "latest") ≡ some latest
unfolding read_block_number
reads_latest = refl

clean_block_number-latest_example :
    (params' : Values) × (clean_block_number codec fetch (array params) 1 4
      ≡ done (array params', 4))
    × ((l' : ℕ) → clean_block_number codec fetch (array params') 1 l' ≡ done (array params', 4))
clean_block_number-latest_example =
    clean_block_number-latest codec fetch codec-NumbersRoundTrip params 1 4
      (inr (str "latest", params_at, reads_latest, λ obj e. cc))

bad_filter :
    block_needed codec fetch "eth_getLogs" (some (array (cons null nil))) 4 ≡ failed invalid_format
unfolding block_needed method_plan follow get_logs
bad_filter = refl

is_logs : method_plan "eth_getLogs" ≡ logs
unfolding method_plan
is_logs = refl
