-- ===== src/Connection.antt =====
-- The connection to a server: `spawn`, `connect` and `disconnect` of web3_proxy/src/rpcs/one.rs, and
-- `from_str` of web3_proxy/src/rpcs/provider.rs. What the network answers is the record `Network`. A
-- server's name, its database and the age that `disconnect` logs are left out.
pub mod Backoff
pub mod Polling
pub mod Laws
use Prim.Native.String.{String}
use text.Mathlib.Text.{starts_with}
use web3_proxy.Prelude.{
  ℕ, suc, Bool, true, false, not, ◌&&◌, ◌||◌, Option, none, some, ◌==◌, if◌then◌else◌,
}
use web3_proxy.Prelude.Results.{Result, ok, err}
use web3_proxy.Prelude.Outcomes.{Outcome, done, failed, panics}
use web3_proxy.Rpc.Head.{HeadState, ProbeError, check_block_data_limit}
use web3_proxy.Request.{Provider, http, ws, both}

pub record Web3RpcConfig : Type 0 where
  pub url : Option String
  pub ws_url : Option String
  pub http_url : Option String
  pub block_data_limit : Option ℕ
  pub soft_limit : ℕ
  pub hard_limit : Option ℕ
  pub backup : Bool
  pub tier : ℕ
  pub subscribe_txs : Bool

pub data ConnectionError : Type 0 where
  no_redis bad_url no_url : ConnectionError
  no_http_client bad_scheme cannot_connect : ConnectionError
  block_sender_closed no_handle no_chain_id : ConnectionError
  incorrect_chain_id : (config found : ℕ) → ConnectionError
  no_block_limit : ProbeError → ConnectionError
  failed_waiting : ConnectionError

-- The fields of `Web3Rpc` that `spawn` sets, and whether transactions are subscribed to.
pub record Spawned : Type 0 where
  pub ws_url : Option String
  pub http_url : Option String
  pub hard_limit : Option ℕ
  pub has_hard_limit_until : Bool
  pub soft_limit : ℕ
  pub automatic_block_limit : Bool
  pub backup : Bool
  pub block_data_limit : ℕ
  pub reconnect : Bool
  pub tier : ℕ
  pub sends_txs : Bool

abbrev or_zero : Option ℕ → ℕ
or_zero none = 0
or_zero (some n) = n

abbrev pub is_given {ℓ} : {A : Type ℓ} → Option A → Bool
is_given none = false
is_given (some a) = true

-- The limiter for the configured limit, if there is one.
unfoldable pub hard_limit_of :
    (hard_limit : Option ℕ) → (has_redis : Bool) → Result ConnectionError (Option ℕ)
hard_limit_of none has_redis = ok none
hard_limit_of (some limit) true = ok (some limit)
hard_limit_of (some limit) false = err no_redis

-- The deprecated single url.
url_of : Option String → Result ConnectionError (Option String × Option String)
url_of none = err no_url
url_of (some url) =
    if starts_with url "ws"
    then ok (some url, none)
    else (if starts_with url "http" then ok (none, some url) else err bad_url)

-- The websocket's url and the other.
unfoldable pub urls_of : Web3RpcConfig → Result ConnectionError (Option String × Option String)
unfolding url_of
urls_of c =
    if is_given c.ws_url || is_given c.http_url then ok (c.ws_url, c.http_url) else url_of c.url

unfoldable pub spawn :
    Web3RpcConfig
    → (has_redis has_block_sender has_tx_id_sender reconnect : Bool)
    → Result ConnectionError Spawned
spawn c has_redis has_block_sender has_tx_id_sender reconnect =
    elim (hard_limit_of c.hard_limit has_redis) [
      | err e ↦ err e
      | ok hard_limit ↦ elim (urls_of c) [
        | err e ↦ err e
        | ok (ws_url, http_url) ↦ ok (record {
          ws_url = ws_url;
          http_url = http_url;
          hard_limit = hard_limit;
          has_hard_limit_until = c.backup || is_given hard_limit;
          soft_limit = c.soft_limit;
          automatic_block_limit = (or_zero c.block_data_limit == 0) && has_block_sender;
          backup = c.backup;
          block_data_limit = or_zero c.block_data_limit;
          reconnect = reconnect;
          tier = c.tier;
          sends_txs = c.subscribe_txs && has_tx_id_sender;
        })
      ]
    ]

-- What the network answers to one attempt: whether the url of a client parses or its server accepts,
-- whether a handle is given, which chain id comes, and how far back the state is found.
pub record Network : Type 0 where
  pub accepts : String → Bool
  pub has_handle : Bool
  pub chain_id : Option ℕ
  pub probe : ℕ → Result ProbeError Bool

unfoldable pub from_str :
    Network → (url : String) → (has_http_client : Bool) → Result ConnectionError Provider
from_str net url has_http_client =
    if starts_with url "http"
    then (if not (net.accepts url)
        then err cannot_connect
        else (if has_http_client then ok http else err no_http_client))
    else (if starts_with url "ws"
        then (if net.accepts url then ok ws else err cannot_connect)
        else err bad_scheme)

abbrev pub has_ws : Provider → Bool
has_ws http = false
has_ws ws = true
has_ws both = true

abbrev pub has_http : Provider → Bool
has_http http = true
has_http ws = false
has_http both = false

-- What changes during the life of a connection. `told_gone` counts the messages that say that the server
-- has no blocks.
pub record Life : Type 0 where
  pub provider : Option Provider
  pub head : HeadState
  pub reconnect : Bool
  pub disconnected : Bool
  pub told_gone : ℕ

-- The channel for blocks: there is none, it is open, or its receiver is gone.
pub data BlockSender : Type 0 where
  no_sender open_sender closed_sender : BlockSender

module _ (rpc : Spawned) (net : Network) (sender : BlockSender) (has_http_client : Bool) where
  -- The state is reset before the websocket is opened again; the send may fail.
  unfoldable pub reset_ws : Life → Life × Result ConnectionError (Unit {0})
  reset_ws life = elim life.provider [
    | none ↦ (life, ok tt)
    | some old ↦
        let gone = record life { provider = none; head = record life.head { head_block = none } } in
        elim sender [
          | no_sender ↦ (gone, ok tt)
          | open_sender ↦ (record gone { told_gone = suc life.told_gone }, ok tt)
          | closed_sender ↦ (life, err block_sender_closed)
        ]
  ]

  -- A new provider, with the `assert!` on its kind.
  unfoldable pub dial :
      (is_right : Provider → Bool)
      → (url : String) → (has_http_client : Bool) → Outcome ConnectionError Provider
  dial is_right url has_http_client = elim (from_str net url has_http_client) [
    | err e ↦ failed e
    | ok p ↦ if is_right p then done p else panics
  ]

  unfoldable pub open_provider : Life → Life × Outcome ConnectionError (Option Provider)
  open_provider life = elim rpc.ws_url [
    | some ws_url ↦
        let (life', r) = reset_ws life in
        elim r [
          | err e ↦ (life', failed e)
          | ok _ ↦ elim (dial has_ws ws_url false) [
            | done p ↦ (record life' { provider = some p }, done (some p))
            | failed e ↦ (life', failed e)
            | panics ↦ (life', panics)
          ]
        ]
    | none ↦ elim rpc.http_url [
      | none ↦ (record life { provider = none }, done none)
      | some url ↦ elim (dial has_http url has_http_client) [
        | done p ↦ (record life { provider = some p }, done (some p))
        | failed e ↦ (life, failed e)
        | panics ↦ (life, panics)
      ]
    ]
  ]

  -- The check of the chain's id, and of the block limit.
  unfoldable pub check_server : (chain_id : ℕ) → Life → Life × Outcome ConnectionError (Unit {0})
  check_server chain_id life =
      if not net.has_handle then (life, failed no_handle) else elim net.chain_id [
        | none ↦ (life, failed no_chain_id)
        | some found ↦
            if not (chain_id == found)
            then (life, failed (incorrect_chain_id chain_id found))
            else (let (head, r) =
                  check_block_data_limit rpc.automatic_block_limit net.probe life.head in
                elim r [
                  | err e ↦ (record life { head = head }, failed (no_block_limit e))
                  | ok limit ↦ (record life { head = head }, done tt)
                ])
      ]

  -- `is_locked`: another task holds the lock on the provider.
  unfoldable pub connect :
      (is_locked : Bool) → (chain_id : ℕ) → Life → Life × Outcome ConnectionError (Unit {0})
  connect is_locked chain_id life =
      if is_locked
      then (life, if is_given life.provider then done tt else failed failed_waiting)
      else (let (life', opened) = open_provider life in
          elim opened [
            | failed e ↦ (life', failed e)
            | panics ↦ (life', panics)
            | done p ↦ check_server chain_id life'
          ])

unfoldable pub disconnect : Life → Life
disconnect life = record life { reconnect = false; disconnected = true; provider = none }

unfoldable pub should_disconnect : Life → Bool
should_disconnect life = life.disconnected
