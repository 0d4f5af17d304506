-- ===== src/Examples/Connections.antt =====
-- A websocket server of another chain, random numbers that are always the least, and a node that gives
-- an error between two answers with the same block.
use web3_proxy.Prelude.{
  ℕ, ◌≡◌, refl, Bool, true, false, none, some, List, [], ◌∷◌, arith, ltb, lt→ltb, if◌then◌else◌,
}
use web3_proxy.Prelude.Results.{Result, ok}
use web3_proxy.Rpc.Head.{HeadState, ProbeError, send_head_block_result, clear_head}
use web3_proxy.Connection.{Spawned, Network, Life, open_sender, connect}
use web3_proxy.Connection.Laws.{Connects, connect-Connects}
use web3_proxy.Connection.Backoff.{
  Rng, RngLaws, retrying_connect, AreBackoffs, retrying_connect-AreBackoffs,
}
use web3_proxy.Connection.Polling.{PollState, answered, send, poll_http, poll_http-same_block}
use web3_proxy.Examples.{hashes, b10}

abbrev rpc : Spawned
rpc = record {
  ws_url = some "ws://localhost:8546";
  http_url = none;
  hard_limit = none;
  has_hard_limit_until = false;
  soft_limit = 100;
  automatic_block_limit = false;
  backup = false;
  block_data_limit = 64;
  reconnect = true;
  tier = 0;
  sends_txs = false;
}

abbrev probe : ℕ → Result ProbeError Bool
probe n = ok true

abbrev net : Network
net = record { accepts = λ url. true; has_handle = true; chain_id = some 137; probe = probe }

abbrev head : HeadState
head = record { head_block = some b10; block_data_limit = 64 }

abbrev life : Life
life = record {
  provider = none;
  head = head;
  reconnect = true;
  disconnected = false;
  told_gone = 0;
}

connect-Connects_example :
    Connects rpc net open_sender false 1
      (connect rpc net open_sender false false 1 life).0
      (connect rpc net open_sender false false 1 life).1
connect-Connects_example = connect-Connects rpc net open_sender false 1 life

abbrev rng : Rng
rng = record {
  Seed = ℕ;
  gen_range = λ seed from to. (if ltb from to then some from else none, seed);
}

rng-RngLaws : RngLaws rng
rng-RngLaws = record {
  in_range = λ seed from to h. (from, rw (lt→ltb from to h) refl, omega arith, h);
}

abbrev attempts : List Bool
attempts = false ∷ false ∷ true ∷ []

retrying_connect-AreBackoffs_example :
    let (sleeps, end) = retrying_connect rng true 0 attempts in
    AreBackoffs rng 0 true attempts sleeps end
retrying_connect-AreBackoffs_example = retrying_connect-AreBackoffs rng rng-RngLaws true 0 attempts

abbrev before : PollState hashes false probe
before = record { last_hash = 110; head = head; block_map = []; messages = [] }

abbrev after : PollState hashes false probe
after = record {
  last_hash = 110;
  head = record { head_block = none; block_data_limit = 64 };
  block_map = [];
  messages = none ∷ [];
}

error_polled : poll_http hashes false probe 5 before (answered none) ≡ some after
unfolding poll_http send send_head_block_result clear_head
error_polled = refl

poll_http-same_block_example :
    (poll_http hashes false probe 6 after (answered (some (some b10.block))) ≡ some after)
    × (after.head.head_block ≡ none)
    × (after.messages ≡ none ∷ [])
poll_http-same_block_example =
    poll_http-same_block hashes false probe 5 6 before after b10.block error_polled refl
