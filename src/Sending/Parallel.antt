-- ===== src/Sending/Parallel.antt =====
-- `try_send_parallel_requests` of web3_proxy/src/rpcs/many.rs. The text that
-- is the key of a response is a number; `most_common_ordered` is the library's: the keys that were
-- counted, each once.
pub mod Choices
mod Tallies
pub mod Answers
use Prim.Native.String.{String}
use web3_proxy.Prelude.{
  ℕ, ◌≡◌, ◌≢◌, refl, ap, sym, ◌∙◌, inl, inr, arith, Bool-cases, Bool, true, false, ◌&&◌, ◌||◌,
  Option, none, some, List, [], ◌∷◌, ◌==◌, if◌then◌else◌,
}
use web3_proxy.Prelude.Results.{Result, ok, err}
use web3_proxy.Prelude.Outcomes.{Outcome, done, failed, panics}
use web3_proxy.JsonRpc.{JsonRpcForwardedResponse, ProviderError, try_from_response_result}

abbrev pub Response : Type 0
Response = Result ProviderError JsonRpcForwardedResponse

-- The variables of the first loop; the counter is the list of what it counted.
pub record Tally : Type 0 where
  pub count_map : List (ℕ × Response)
  pub counts : List ℕ
  pub any_ok_with_json_result : Bool
  pub any_ok_but_maybe_json_error : Bool

unfoldable pub get : List (ℕ × Response) → ℕ → Option Response
get [] k = none
get ((j, r) ∷ entries) k = let rest = get entries k in if j == k then some r else rest

unfoldable pub remove : List (ℕ × Response) → ℕ → List (ℕ × Response)
remove [] k = []
remove ((j, r) ∷ entries) k = let rest = remove entries k in if j == k then rest else (j, r) ∷ rest

abbrev pub is_ok : Response → Bool
is_ok (ok x) = true
is_ok (err e) = false

abbrev pub is_ok_result : Result ProviderError String → Bool
is_ok_result (ok result) = true
is_ok_result (err e) = false

abbrev pub has_error : JsonRpcForwardedResponse → Bool
has_error x = elim x.error [ none ↦ false | some e ↦ true ]

-- Whether a response is passed over for a better one.
unfoldable pub is_passed_over : Tally → Response → Bool
is_passed_over t (ok x) = t.any_ok_with_json_result && has_error x
is_passed_over t (err e) = t.any_ok_but_maybe_json_error

abbrev pub to_outcome : Response → Outcome ProviderError JsonRpcForwardedResponse
to_outcome (ok x) = done x
to_outcome (err e) = failed e

-- The second loop; its end is `unimplemented!`.
unfoldable pub choose :
    Tally
    → (most_common : List ℕ) → List (ℕ × Response)
    → Outcome ProviderError JsonRpcForwardedResponse
choose t [] count_map = panics
choose t (k ∷ ks) count_map =
    let rest = choose t ks (remove count_map k) in
    elim (get count_map k) [
      | none ↦ panics
      | some r ↦ if is_passed_over t r then rest else to_outcome r
    ]

abbrev pub no_responses : Tally
no_responses = record {
  count_map = [];
  counts = [];
  any_ok_with_json_result = false;
  any_ok_but_maybe_json_error = false;
}

module _ (debug : Response → ℕ) (most_common_ordered : List ℕ → List ℕ) where
  unfoldable pub insert_missing : Response → Tally → Tally
  insert_missing r t = elim (get t.count_map (debug r)) [
    | some _ ↦ t
    | none ↦ record t {
      any_ok_but_maybe_json_error = t.any_ok_but_maybe_json_error || is_ok r;
      count_map = (debug r, r) ∷ t.count_map;
    }
  ]

  unfoldable pub tally_response : (is_result : Bool) → Response → Tally → Tally
  tally_response is_result r t =
      let t' =
        insert_missing r
          (record t { any_ok_with_json_result = t.any_ok_with_json_result || is_result }) in
      record t' { counts = debug r ∷ t'.counts }

  -- The first loop; `none` is a panic.
  unfoldable pub tally : (id : String) → List (Result ProviderError String) → Tally → Option Tally
  tally id [] t = some t
  tally id (r ∷ rs) t = elim (try_from_response_result r id) [
    | done x ↦ tally id rs (tally_response (is_ok_result r) (ok x) t)
    | failed e ↦ tally id rs (tally_response (is_ok_result r) (err e) t)
    | panics ↦ none
  ]

  -- From the answers of the servers, in the order in which they come.
  unfoldable pub try_send_parallel_requests :
      (id : String)
      → List (Result ProviderError String)
      → Outcome ProviderError JsonRpcForwardedResponse
  try_send_parallel_requests id responses = elim (tally id responses no_responses) [
    | none ↦ panics
    | some t ↦ choose t (most_common_ordered t.counts) t.count_map
  ]
