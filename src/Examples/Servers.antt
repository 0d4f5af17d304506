-- ===== src/Examples/Servers.antt =====
-- What a server has and sends, and its handles, on the examples.
use web3_proxy.Prelude.{
  List, ℕ, ◌+◌, ◌≤◌, ◌≡◌, ◌↔◌, ◌⊎◌, refl, Bool, leb, true, false, none, some, [], ◌∷◌, arith,
}
use web3_proxy.Prelude.Results.{Result, ok}
use web3_proxy.Block.{ArcBlock, Web3ProxyBlock, number}
use web3_proxy.Rpc.Head.{HeadState, has_block_data, ProbeError, Sent, send_head_block_result}
use web3_proxy.Rpc.Head.Laws.{has_block_data_iff, IsBad, send_head_block_result_lem}
use web3_proxy.RateLimit.Redis.{
  Reading, RedisRateLimiter, next_period, throttle_label, throttle, throttle_key, period_id,
}
use web3_proxy.Rpc.Handle.{HandleState, retry_at, after_throttle, try_request_handle}
use web3_proxy.Rpc.Handle.{WaitStep, gives_up, timeout_waiting, wait_step, wait_for_request_handle}
use web3_proxy.Rpc.Handle.{WaitStep}
use web3_proxy.Rpc.Handle.Laws.{try_request_handle-again}
use web3_proxy.Examples.{b10, b11, hashes}
use web3_proxy.Examples.Limits.{env, reading}

abbrev pruned : HeadState
pruned = record { head_block = some b11; block_data_limit = 4 }

has_block_data_iff_example : (has_block_data pruned 7 ≡ true) ↔ (
    (head : Web3ProxyBlock) × (pruned.head_block ≡ some head)
    × (7 ≤ number head)
    × (number head ≤ 7 + pruned.block_data_limit))
has_block_data_iff_example = has_block_data_iff pruned 7

-- A node that keeps the state of 40 blocks.
abbrev probe : ℕ → Result ProbeError Bool
probe n = ok (leb n 40)

send_head_block_result_lem_example :
    (((b : ArcBlock) → some (some b10.block) ≡ some (some b) → IsBad b → ⊥)
      × (r : Sent hashes) × (send_head_block_result hashes 5 true probe pruned []
            (some (some b10.block))
          ≡ some r)
      × ((r.message ≡ some r.state.head_block)
          ⊎ ((r.message ≡ none) × (pruned.head_block ≡ none) × (r.state ≡ pruned))))
    ⊎ ((b : ArcBlock) × (some (some b10.block) ≡ some (some b))
        × IsBad b
        × (send_head_block_result hashes 5 true probe pruned [] (some (some b10.block)) ≡ none))
send_head_block_result_lem_example =
    send_head_block_result_lem hashes 5 true probe pruned [] (some (some b10.block))

-- The node allows two requests in ten seconds, and has answered two.
abbrev server_limit : RedisRateLimiter env
server_limit = record { key_prefix = "rpc"; max_requests_per_period = 2; period = 10 }

abbrev limited : HandleState env
limited = record { provider = true; hard_limit_until = some 0; hard_limit = some server_limit }

first_refusal :
    try_request_handle env reading false limited 2
    ≡ (record limited { hard_limit_until = some 1006 }, 3, ok (retry_at 1006))
unfolding try_request_handle after_throttle throttle throttle_label throttle_key period_id
    next_period
first_refusal = refl

try_request_handle-again_example :
    try_request_handle env
      (record { now = 15; instant = 1001 })
      true
      (record limited { hard_limit_until = some 1006 })
      7
    ≡ (record limited { hard_limit_until = some 1006 }, 7, ok (retry_at 1006))
try_request_handle-again_example =
    try_request_handle-again env reading (record { now = 15; instant = 1001 }) false true limited 2
      7 refl first_refusal refl (omega arith)

-- The second round comes when the limit is over, and is refused again.
abbrev rounds : List (Reading env × Bool)
rounds = (reading, true) ∷ (record { now = 21; instant = 1007 }, true) ∷ []

abbrev timed_out : WaitStep env
timed_out = gives_up timeout_waiting

gave_up :
    wait_for_request_handle env (some 1010) false limited 2 rounds
    ≡ (record limited { hard_limit_until = some 1016 }, 4, gives_up timeout_waiting)
unfolding wait_for_request_handle wait_step try_request_handle after_throttle throttle
    throttle_label throttle_key period_id next_period
gave_up = refl
