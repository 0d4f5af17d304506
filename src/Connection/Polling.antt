-- ===== src/Connection/Polling.antt =====
-- `subscribe_new_heads` of web3_proxy/src/rpcs/one.rs: the blocks that are asked for at every interval over http,
-- and those that come over a websocket. What `send_head_block_result` puts into the channel is its
-- `message`, in the order of the calls.
use web3_proxy.Prelude.{
  ℕ, ◌≡◌, Bool, true, false, Option, none, some, List, [], ◌∷◌, arith, ◌==◌, if◌then◌else◌, ==_refl,
}
use web3_proxy.Prelude.Results.{Result}
use web3_proxy.Block.{ArcBlock, Web3ProxyBlock}
use web3_proxy.Cache.{CacheOps}
use web3_proxy.Rpc.Head.{HeadState, ProbeError, send_head_block_result, send_head_block_result-err}

-- An answer of the node: an error is `none`, and the block may be missing.
abbrev pub Answer : Type 0
Answer = Option (Option ArcBlock)

pub data Polled : Type 0 where
  no_handle : Polled
  answered : Answer → Polled

-- What the wait for the next interval brings; `lagged` waits on.
pub data Interval : Type 0 where
  ticked lagged closed : Interval

-- Whether a tick came at last.
unfoldable pub next_interval : List Interval → Bool
next_interval [] = false
next_interval (ticked ∷ events) = true
next_interval (lagged ∷ events) = next_interval events
next_interval (closed ∷ events) = false

module _ (hashes : CacheOps Web3ProxyBlock) (automatic_block_limit : Bool)
    (probe : ℕ → Result ProbeError Bool) where
  pub record PollState : Type 0 where
    pub last_hash : ℕ
    pub head : HeadState
    pub block_map : hashes.Store
    pub messages : List (Option Web3ProxyBlock)

  abbrev add_message :
      Option (Option Web3ProxyBlock) → List (Option Web3ProxyBlock) → List (Option Web3ProxyBlock)
  add_message none messages = messages
  add_message (some m) messages = m ∷ messages

  -- `none` is a panic.
  unfoldable pub send : (now : ℕ) → PollState → Answer → Option PollState
  send now s answer =
      elim (send_head_block_result hashes now automatic_block_limit probe s.head s.block_map
        answer) [
          | none ↦ none
          | some sent ↦ some (record s {
            head = sent.state;
            block_map = sent.block_map;
            messages = add_message sent.message s.messages;
          })
        ]

  -- A block is sent unless its hash is the last one. Without a hash there is a panic.
  unfoldable pub send_new : (now : ℕ) → PollState → ArcBlock → (hash : Option ℕ) → Option PollState
  send_new now s block none = none
  send_new now s block (some new_hash) =
      if new_hash == s.last_hash
      then some s
      else send now (record s { last_hash = new_hash }) (some (some block))

  -- One round of the loop over http, up to the wait.
  unfoldable pub poll_http : (now : ℕ) → PollState → Polled → Option PollState
  poll_http now s no_handle = send now s (some none)
  poll_http now s (answered none) = send now s none
  poll_http now s (answered (some none)) = send now s (some none)
  poll_http now s (answered (some (some block))) = send_new now s block block.hash

  -- The first answer over a websocket; 0 is the hash before any.
  unfoldable pub first_ws : (now : ℕ) → PollState → Answer → Option PollState
  first_ws now s none = send now (record s { last_hash = 0 }) none
  first_ws now s (some none) = send now (record s { last_hash = 0 }) (some none)
  first_ws now s (some (some block)) = elim block.hash [
    | none ↦ none
    | some hash ↦ send now (record s { last_hash = hash }) (some (some block))
  ]

  -- The blocks of the subscription, until it ends or the server is to disconnect.
  unfoldable pub stream_ws : PollState → List (ℕ × Bool × ArcBlock) → Option PollState
  stream_ws s [] = some s
  stream_ws s ((now, should_disconnect, block) ∷ stream) =
      if should_disconnect
      then some s
      else (elim (send_new now s block block.hash) [ none ↦ none | some s' ↦ stream_ws s' stream ])

  -- The head is cleared when the subscription is over.
  unfoldable pub finish : (now : ℕ) → PollState → Option PollState
  finish now s = send now s (some none)

  -- After an error of the node, by which the server lost its head, the next answer gives it a head
  -- again only if the block is another one than the last that was sent: the same block once more is
  -- passed over, and the server stays without a head.
  pub poll_http-same_block :
      (now later : ℕ) (s s' : PollState) (block : ArcBlock)
      → poll_http now s (answered none) ≡ some s'
      → block.hash ≡ some s.last_hash
      → (poll_http later s' (answered (some (some block))) ≡ some s')
        × (s'.head.head_block ≡ none)
        × (s'.messages ≡ none ∷ s.messages)
  unfolding poll_http send send_new
  poll_http-same_block now later s s' block h e =
      let sent =
        send_head_block_result-err hashes now automatic_block_limit probe s.head s.block_map in
      let kept : s'.last_hash ≡ s.last_hash = ground (arith, h, sent) in
      let again : (s.last_hash == s'.last_hash) ≡ true = rw kept (==_refl s.last_hash) in
      (ground (arith, e, again), ground (arith, h, sent), ground (arith, h, sent))
