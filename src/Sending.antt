-- ===== src/Sending.antt =====
-- Sending a request to one server after another: `try_send_best_consensus_head_connection` and
-- `try_proxy_connection` of web3_proxy/src/rpcs/many.rs. The request to a server, that of
-- web3_proxy/src/rpcs/request.rs, is the parameter `ask`. The servers that were tried are listed with
-- the last one first. Every round of the loop has its own view of the clock and of the pool.
pub mod Rounds
pub mod Once
pub mod Retries
pub mod All
pub mod Parallel
use Prim.Native.String.{String, len, slice}
use text.Mathlib.Text.{◌==◌ as str_eq, starts_with}
use web3_proxy.Prelude.{
  ℕ, zero, suc, ◌+◌, ◌-◌, Bool, true, false, not, ◌&&◌, ◌||◌, Option, none, some, List, [], ◌∷◌,
  ◌++◌, leb, ltb, ◌==◌, if◌then◌else◌, length, any,
}
use web3_proxy.Prelude.Results.{Result, ok, err}
use web3_proxy.Prelude.Outcomes.{Outcome, done, failed, panics}
use web3_proxy.Prelude.Words.{wrapping_add}
use web3_proxy.JsonRpc.{
  JsonRpcForwardedResponse, JsonRpcErrorData, Code, minus, plus, ProviderError, from_string,
  try_from_response_result,
}
use web3_proxy.Rpc.{Web3Rpc}
use web3_proxy.Request.{str_contains}
use web3_proxy.Authorization.{RequestMetadata, ProxyMode, best, fastest, versus, debug}
use web3_proxy.Selection.{
  Pool, Handles, Picks, SelectError, opened, retry_later, none_ready, best_available_rpc,
}

unfoldable pub ends_with : String → String → Bool
ends_with s t = leb (len t) (len s) && str_eq (slice s (len s - len t) (len s)) t

-- What the loop changes.
pub record Trying : Type 0 where
  pub skip_rpcs : List Web3Rpc
  pub method_not_available_response : Option JsonRpcForwardedResponse
  pub request_metadata : Option RequestMetadata
  -- How often it was logged that a server limits the rate.
  pub rate_limited : ℕ

abbrev on_metadata :
    (RequestMetadata → RequestMetadata) → Option RequestMetadata → Option RequestMetadata
on_metadata f none = none
on_metadata f (some m) = some (f m)

unfoldable pub chose : Web3Rpc → Trying → Trying
chose rpc t = record t {
  skip_rpcs = rpc ∷ t.skip_rpcs;
  request_metadata =
      on_metadata
        (λ m. record m {
          response_from_backup_rpc = rpc.backup;
          backend_requests = m.backend_requests ++ rpc ∷ [];
        })
        t.request_metadata;
}

unfoldable pub note_error : Trying → Trying
note_error t = record t {
  request_metadata = on_metadata (λ m. record m { error_response = true }) t.request_metadata;
}

unfoldable pub note_no_servers : Trying → Trying
note_no_servers t = record t {
  request_metadata =
      on_metadata (λ m. record m { no_servers = wrapping_add m.no_servers 1 }) t.request_metadata;
}

-- The method is not known to the server.
unfoldable pub is_not_available : String → Bool
is_not_available msg =
    (starts_with msg "the method" && ends_with msg "is not available")
    || str_eq msg "Method not found"

abbrev pub rate_limit_substrings : List String
rate_limit_substrings = "limit" ∷ "exceeded" ∷ []

-- The loop over the substrings, for the number of its warnings. Its `continue` goes on with the next one.
unfoldable pub rate_limit_warnings : (msg : String) → (substrings : List String) → ℕ
rate_limit_warnings msg [] = 0
rate_limit_warnings msg (s ∷ ss) =
    let rest = rate_limit_warnings msg ss in if str_contains msg s then suc rest else rest

abbrev pub retry_prefixes : List String
retry_prefixes =
    "header not found" ∷ "header for hash not found" ∷ "missing trie node" ∷ "node not started"
    ∷ "RPC timeout" ∷ []

-- What follows on a response with an error.
pub data Verdict : Type 0 where
  try_another return_it : Verdict

-- The loop over the prefixes, whose `continue` goes on with the next one as well.
unfoldable pub after_prefixes : (msg : String) → (prefixes : List String) → Verdict
after_prefixes msg [] = return_it
after_prefixes msg (p ∷ ps) =
    let rest = after_prefixes msg ps in elim (starts_with msg p) [ true ↦ rest | false ↦ rest ]

abbrev pub after_method_error : (msg : String) → Verdict
after_method_error msg = if is_not_available msg then try_another else return_it

-- The match on the code.
unfoldable pub verdict : JsonRpcErrorData → Verdict
verdict e = by_code e.code
  where
    by_code : Code → Verdict
    by_code (plus n) = return_it
    by_code (minus n) =
        if n == 32000
        then after_prefixes e.message retry_prefixes
        else if n == 32601
        then after_method_error e.message
        else return_it

pub data Sent : Type 0 where
  -- The loop still goes on.
  running : Sent
  returned : JsonRpcForwardedResponse → Sent
  refused : SelectError → Sent
  panicked : Sent

-- The end of the function, once the loop is left.
unfoldable pub give_up : (id : String) → Trying → Trying × Sent
give_up id t = (
  note_error t,
  elim t.method_not_available_response [
    | some r ↦ returned r
    | none ↦ returned (from_string "Requested data is not available" (some (minus 32043)) (some id))
  ],
)

abbrev pub warned : JsonRpcErrorData → Trying → Trying
warned e t = record t {
  rate_limited = t.rate_limited + rate_limit_warnings e.message rate_limit_substrings;
}

-- A response without an error is returned.
abbrev pub judge_error : Trying → JsonRpcForwardedResponse → Option JsonRpcErrorData → Trying × Sent
judge_error t r none = (t, returned r)
judge_error t r (some e) = elim (verdict e) [
  | return_it ↦ (warned e (note_error t), returned r)
  | try_another ↦
      (record (warned e (note_error t)) { method_not_available_response = some r }, running)
]

unfoldable pub judge : Trying → Outcome ProviderError JsonRpcForwardedResponse → Trying × Sent
judge t (failed e) = (t, running)
judge t panics = (t, panicked)
judge t (done r) = judge_error t r r.error

unfoldable pub forward :
    (id : String) → Outcome ProviderError String → Outcome ProviderError JsonRpcForwardedResponse
forward id (done response) = try_from_response_result (ok response) id
forward id (failed e) = try_from_response_result (err e) id
forward id panics = panics

-- `timer_first`: the time to retry comes before a change of the consensus.
pub record Round : Type 0 where
  pub now : ℕ
  pub pool : Pool
  pub timer_first : Bool

abbrev pop : List Web3Rpc → List Web3Rpc
pop [] = []
pop (x ∷ xs) = xs

module _ (picks : Picks) (handles : Handles)
    (ask : handles.State → Web3Rpc → Outcome ProviderError String × handles.State) where
  -- One round, without the test at its head.
  unfoldable pub send_round :
      Round
      → (id : String) → (min_block_needed max_block_needed : Option ℕ) → handles.State
      → Trying
      → handles.State × Trying × Sent
  send_round r id lo hi s t =
      let (s', answer) = best_available_rpc picks handles r.now r.pool t.skip_rpcs lo hi s in
      elim answer [
        | err e ↦ (s', t, refused e)
        | ok (opened rpc) ↦
            let (response, s'') = ask s' rpc in
            let (t', sent) = judge (chose rpc t) (forward id response) in (s'', t', sent)
        | ok (retry_later at) ↦
            let t' = note_no_servers t in
            (
              s',
              (if r.timer_first then record t' { skip_rpcs = pop t'.skip_rpcs } else t'),
              running,
            )
        | ok none_ready ↦ let (t', sent) = give_up id (note_no_servers t) in (s', t', sent)
      ]

  -- The loop on fuel; `view` says what each round sees.
  unfoldable pub try_send_best_consensus_head_connection :
      (fuel : ℕ)
      → (view : ℕ → Round) → (id : String) → (min_block_needed max_block_needed : Option ℕ)
      → handles.State
      → Trying
      → handles.State × Trying × Sent
  try_send_best_consensus_head_connection zero view id lo hi s t = (s, t, running)
  try_send_best_consensus_head_connection (suc fuel) view id lo hi s t =
      if leb (length (view fuel).pool.rpcs) (length t.skip_rpcs)
      then (let (t', sent) = give_up id t in (s, t', sent))
      else (let (s', t', sent) = send_round (view fuel) id lo hi s t in
          elim sent [
            | running ↦ try_send_best_consensus_head_connection fuel view id lo hi s' t'
            | returned r ↦ (s', t', returned r)
            | refused e ↦ (s', t', refused e)
            | panicked ↦ (s', t', panicked)
          ])

  -- The modes that are not written yet panic.
  unfoldable pub try_proxy_connection :
      ProxyMode
      → (fuel : ℕ) → (view : ℕ → Round) → (id : String)
      → (min_block_needed max_block_needed : Option ℕ) → handles.State
      → Trying
      → handles.State × Trying × Sent
  try_proxy_connection best fuel view id lo hi s t =
      try_send_best_consensus_head_connection fuel view id lo hi s t
  try_proxy_connection debug fuel view id lo hi s t =
      try_send_best_consensus_head_connection fuel view id lo hi s t
  try_proxy_connection (fastest n) fuel view id lo hi s t = (s, t, panicked)
  try_proxy_connection versus fuel view id lo hi s t = (s, t, panicked)
