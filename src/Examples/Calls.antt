-- ===== src/Examples/Calls.antt =====
-- A call by a user of a third of whose errors are saved, on a server with one provider.
use web3_proxy.Prelude.{ℕ, ◌/◌, ◌≡◌, ◌↔◌, ◌⊎◌, refl, true, Option, none, some, List, [], ◌∷◌, arith}
use web3_proxy.Prelude.Results.{Result, err}
use web3_proxy.JsonRpc.{ProviderError, minus, http_client_error, json_rpc_error}
use web3_proxy.Entities.{Method, method_name}
use web3_proxy.Request.{
  save, Provider, http, certain, chance_handler, is_saved_method, revert_handler_of, method_of,
  EthCallFirstParams, wait_for_provider, RpcCounters, panicked, answered, spawn_save, handle_error,
  Asked, after_request, request,
}
use web3_proxy.Request.Counters.{LimitOf, Counts, request-Counts}
use web3_proxy.Request.Reverts.{IsToSave, request-IsToSave, request-panicked_iff}
use web3_proxy.Examples.Users.{checks, authorization}

abbrev call : EthCallFirstParams
call = record { to = 9; data_of_call = none }

-- The parameters are what is read from them.
abbrev parse_params : Option EthCallFirstParams → Option EthCallFirstParams
parse_params p = p

abbrev asked : Option EthCallFirstParams → Asked (Option EthCallFirstParams)
asked params = record {
  authorization = record authorization {
    checks = record checks { log_revert_chance = certain / 3 };
  };
  has_db = true;
  method = "eth_call";
  params = params;
  revert_handler = save;
  now = 5;
  draw = certain / 2;
}

abbrev too_many : ProviderError
too_many = http_client_error (
    json_rpc_error
      (record { code = minus 32005; message = "request limit reached"; data_of_error = none }))

-- The server gives no answer but errors.
abbrev answer : Provider → Option (Result ProviderError ℕ)
answer p = some (err too_many)

abbrev counters : RpcCounters
counters = record { total_requests = 7; active_requests = 2; hard_limit_until = some 0 }

abbrev readings : List (Option Provider)
readings = none ∷ some http ∷ []

request-Counts_example :
    let (c', end) = request parse_params (asked none) none readings answer counters in
    Counts ℕ parse_params counters c' end
    × ((c'.hard_limit_until ≡ some 0)
        ⊎ ((p : Provider) × LimitOf ℕ parse_params 5 p (answer p) (some 0) c'.hard_limit_until))
request-Counts_example =
    request-Counts ℕ parse_params (asked none) none readings answer counters (omega arith)

call_saved :
    (request parse_params (asked (some call)) none readings answer counters).1
    ≡ answered (err too_many) (some (Method.eth_call, call))
unfolding request wait_for_provider after_request revert_handler_of is_saved_method chance_handler
    handle_error spawn_save method_of
call_saved = refl

request-IsToSave_example :
    IsToSave (asked (some call))
    × (method_name Method.eth_call ≡ "eth_call")
    × (some call ≡ some call)
    × ((e : ProviderError) × (◌≡◌ {A = Result ProviderError ℕ} (err too_many) (err e)))
request-IsToSave_example =
    request-IsToSave ℕ parse_params (asked (some call)) none readings answer counters call_saved

request-panicked_iff_example :
    ((request parse_params (asked none) none readings answer counters).1 ≡ panicked) ↔ (
      ((e : ProviderError) × (p : Provider) × (wait_for_provider none readings ≡ some p)
        × (answer p ≡ some (err e)))
      × IsToSave (asked none)
      × (◌≡◌ {A = Option EthCallFirstParams} none none))
request-panicked_iff_example =
    request-panicked_iff ℕ parse_params (asked none) none readings answer counters
