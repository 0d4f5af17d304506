-- ===== src/Examples/Parallel.antt =====
-- Two servers: the first answers with a JSON-RPC error, the second with a result. The text of a
-- response shows an error's kind only, and each key was counted once.
use Prim.Native.String.{String}
use web3_proxy.Prelude.{
  ℕ, ◌≡◌, refl, ap, arith, true, false, none, List, [], ◌∷◌, ◌==◌, ◌||◌, contains, any,
  if◌then◌else◌, Bool-cases, inl, inr,
}
use web3_proxy.Prelude.Results.{Result, ok, err}
use web3_proxy.JsonRpc.{ProviderError, minus, http_client_error, json_rpc_error}
use web3_proxy.Sending.Parallel.{
  Response, is_ok, is_ok_result, has_error, to_outcome, try_send_parallel_requests,
}
use web3_proxy.Sending.Parallel.Choices.{AreDistinct, fails, TellsApart, ListsKeys, ==-to_eq}
use web3_proxy.Sending.Parallel.Answers.{try_send_parallel_requests-answers}

abbrev debug : Response → ℕ
debug (err e) = 0
debug (ok x) = if has_error x then 1 else 2

debug-TellsApart : TellsApart debug
debug-TellsApart = record { same_ok = same_ok; same_fails = same_fails }
  where
    same_ok : (r s : Response) → debug r ≡ debug s → is_ok r ≡ is_ok s
    same_ok (ok x) (ok y) h = refl
    same_ok (err e) (err d) h = refl
    same_ok (ok x) (err d) h = ground (arith, h)
    same_ok (err d) (ok x) h = ground (arith, h)

    same_fails : (r s : Response) → debug r ≡ debug s → fails r ≡ fails s
    same_fails (ok x) (ok y) h = ground (arith, h)
    same_fails (err e) (err d) h = refl
    same_fails (ok x) (err d) h = ground (arith, h)
    same_fails (err d) (ok x) h = ground (arith, h)

abbrev most_common_ordered : List ℕ → List ℕ
most_common_ordered [] = []
most_common_ordered (k ∷ ks) =
    let rest = most_common_ordered ks in if contains rest k then rest else k ∷ rest

most_common_ordered-ListsKeys : ListsKeys most_common_ordered
unfolding contains
most_common_ordered-ListsKeys = record { distinct = distinct; counted = counted }
  where
    distinct : (ks : List ℕ) → AreDistinct (most_common_ordered ks)
    distinct [] = tt
    distinct (k ∷ ks) = elim (Bool-cases (contains (most_common_ordered ks) k)) [
      | inl e ↦ rw e (distinct ks)
      | inr e ↦ rw e (e, distinct ks)
    ]

    counted : (ks : List ℕ) (j : ℕ) → contains (most_common_ordered ks) j ≡ contains ks j
    counted [] j = refl
    counted (k ∷ ks) j = elim (Bool-cases (contains (most_common_ordered ks) k)) [
      | inr e ↦ rw e (ap (λ b. k == j || b) (counted ks j))
      | inl e ↦ elim (Bool-cases (k == j)) [
        | inr d ↦ rw (e, d) (counted ks j)
        | inl d ↦ rw (e, d) (rw⁻¹ (==-to_eq k j d) e)
      ]
    ]

abbrev answers : List (Result ProviderError String)
answers = ok "0x1" ∷ []

abbrev refused : Result ProviderError String
refused = err (
    http_client_error (
      json_rpc_error
        (record { code = minus 32000; message = "nonce too low"; data_of_error = none })))

try_send_parallel_requests-answers_example :
    (s : Response) × (try_send_parallel_requests debug most_common_ordered "7" (refused ∷ answers)
      ≡ to_outcome s)
    × (any is_ok_result (refused ∷ answers) ≡ true → fails s ≡ false)
try_send_parallel_requests-answers_example =
    try_send_parallel_requests-answers debug most_common_ordered debug-TellsApart
      most_common_ordered-ListsKeys "7" refused answers (tt, (tt, tt))
