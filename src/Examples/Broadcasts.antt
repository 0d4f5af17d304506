-- ===== src/Examples/Broadcasts.antt =====
-- Requests to the two servers, of which the first does not know the method.
use Prim.Native.String.{String}
use web3_proxy.Prelude.{
  ℕ, ◌≢◌, refl, true, false, none, some, [], arith, ◌==◌, if◌then◌else◌, length,
}
use web3_proxy.Prelude.Outcomes.{Outcome, done, failed}
use web3_proxy.JsonRpc.{
  ProviderError, http_client_error, json_rpc_error, minus, JsonRpcErrorData,
  JsonRpcForwardedResponse,
}
use web3_proxy.Authorization.{new_metadata}
use web3_proxy.Rpc.{Web3Rpc}
use web3_proxy.Sending.{Trying, running, Round, judge, try_send_best_consensus_head_connection}
use web3_proxy.Sending.Rounds.{try_send_best_consensus_head_connection-ends}
use web3_proxy.Sending.Once.{IsTraced, try_send_best_consensus_head_connection-IsTraced}
use web3_proxy.Sending.Retries.{IsJudged, judge-IsJudged}
use web3_proxy.Sending.All.{count_or, all_connections}
use web3_proxy.Sending.All.Laws.{IsFair, all_connections-IsFair}
use web3_proxy.Examples.Choices.{picks, picks-PicksLaws, generous, pool}

abbrev unknown_method : JsonRpcErrorData
unknown_method = record {
  code = minus 32601;
  message = "the method trace_block is not available";
  data_of_error = none;
}

abbrev ask : ℕ → Web3Rpc → Outcome ProviderError String × ℕ
ask s rpc = (
  if rpc.name == 1 then failed (http_client_error (json_rpc_error unknown_method)) else done "[]",
  s,
)

abbrev view : ℕ → Round
view i = record { now = 5; pool = pool; timer_first = true }

abbrev trying : Trying
trying = record {
  skip_rpcs = [];
  method_not_available_response = none;
  request_metadata = some (new_metadata 60 100);
  rate_limited = 0;
}

try_send_best_consensus_head_connection-ends_example :
    (try_send_best_consensus_head_connection picks generous ask 3 view "1" none none 0 trying).2
    ≢ running
try_send_best_consensus_head_connection-ends_example =
    try_send_best_consensus_head_connection-ends picks generous ask 2 3 view "1" none none 0 trying
      (λ i. omega arith) (omega arith) (omega arith)

trying-IsTraced : IsTraced trying
unfolding new_metadata
trying-IsTraced = record { distinct = tt; listed = refl }

try_send_best_consensus_head_connection-IsTraced_example :
    IsTraced
      (try_send_best_consensus_head_connection picks generous ask 3 view "1" none none 0 trying).1
try_send_best_consensus_head_connection-IsTraced_example =
    try_send_best_consensus_head_connection-IsTraced picks generous ask 3 view "1" none none 0
      trying picks-PicksLaws trying-IsTraced

abbrev no_method : JsonRpcForwardedResponse
no_method = record { jsonrpc = "2.0"; id = "1"; result = none; error = some unknown_method }

judge-IsJudged_example : IsJudged trying no_method (judge trying (done no_method))
judge-IsJudged_example = judge-IsJudged trying no_method

all_connections-IsFair_example :
    IsFair generous pool none none false
      (count_or (some 1) (length pool.rpcs))
      (all_connections generous pool none none false (λ x. x.name) (some 1) 0).1
all_connections-IsFair_example =
    all_connections-IsFair generous pool none none false (λ x. x.name) (some 1) 0
