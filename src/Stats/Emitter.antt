-- ===== src/Stats/Emitter.antt =====
-- `StatEmitter` of web3_proxy/src/app_stats.rs: when a period starts, and the loop. What `select!`
-- takes, one thing after another, is a list of events. The map is a list of its entries, in the order
-- in which it is drained. An answer of the database is only logged, so the rows that are handed to it
-- are kept, and the answers are not. A `Duration` is a number of nanoseconds.
use web3_proxy.Prelude.{
  ℕ, ◌-◌, ◌*◌, ◌/◌, ◌%◌, ◌^◌, Bool, true, false, Option, none, some, List, [], ◌∷◌, ◌++◌, map, ◌==◌,
  if◌then◌else◌,
}
use web3_proxy.Prelude.Words.{wrapping_add}
use web3_proxy.Stats.{ProxyResponseStat, ProxyResponseAggregateKey, key, key_eq}
use web3_proxy.Stats.Aggregate.{
  Histograms, ProxyResponseAggregate, default_aggregate, add, save, Row,
}

pub record StatEmitter : Type 0 where
  pub chain_id : ℕ
  pub period_seconds : ℕ

pub record Start : Type 0 where
  pub current_period : ℕ
  pub duration_to_next_period : ℕ
  pub period_timestamp : ℕ

unfoldable pub start_at : StatEmitter → (period duration_since_epoch : ℕ) → Start
start_at e period duration_since_epoch =
    let current_period = duration_since_epoch / period * period in
    record {
      current_period = current_period;
      duration_to_next_period =
          e.period_seconds * 1_000_000_000 - (duration_since_epoch - current_period);
      period_timestamp = current_period / 1_000_000_000;
    }

-- `none` is a panic, that of `unwrap` after `checked_div`, or that of adding a duration to
-- `Instant::now()`, if the sum cannot be represented. `can_add` says for which durations it can, which
-- depends on the platform's clock.
unfoldable pub start :
    (can_add : ℕ → Bool) → StatEmitter → (duration_since_epoch : ℕ) → Option Start
start can_add e duration_since_epoch =
    let period = e.period_seconds % 2 ^ 32 in
    let s = start_at e period duration_since_epoch in
    if period == 0 then none else if can_add s.duration_to_next_period then some s else none

pub data Event : Type 0 where
  -- A statistic came in, or every sender is gone.
  response : ProxyResponseStat → Event
  no_senders : Event
  tick : Event
  shutdown : Event

-- `failed` is the error of a receiver without senders; `panicked`, the `unimplemented!`.
pub data LoopEnd : Type 0 where
  running finished failed panicked : LoopEnd

module _ (hist : Histograms) where
  abbrev pub AggregateMap : Type 0
  AggregateMap = List (ProxyResponseAggregateKey × ProxyResponseAggregate hist)

  unfoldable pub get :
      AggregateMap → ProxyResponseAggregateKey → Option (ProxyResponseAggregate hist)
  get [] k = none
  get ((j, a) ∷ m) k = let rest = get m k in if key_eq j k then some a else rest

  unfoldable pub contains_key : AggregateMap → ProxyResponseAggregateKey → Bool
  contains_key m k = elim (get m k) [ none ↦ false | some a ↦ true ]

  -- A write through `get_mut`.
  unfoldable pub set :
      AggregateMap → ProxyResponseAggregateKey → ProxyResponseAggregate hist → AggregateMap
  set [] k b = []
  set ((j, a) ∷ m) k b = let rest = set m k b in if key_eq j k then (j, b) ∷ m else (j, a) ∷ rest

  unfoldable pub insert_missing : AggregateMap → ProxyResponseAggregateKey → AggregateMap
  insert_missing m k = if contains_key m k then m else (k, default_aggregate hist) ∷ m

  -- `none` is the `unimplemented!`. The error of `add` is only logged.
  unfoldable pub update :
      AggregateMap → ProxyResponseAggregateKey → ProxyResponseStat → Option AggregateMap
  update m k stat = elim (get m k) [
    | none ↦ none
    | some value ↦ some (set m k (add hist value stat).0)
  ]

  unfoldable pub receive : AggregateMap → ProxyResponseStat → Option AggregateMap
  receive m stat = update (insert_missing m (key stat)) (key stat) stat

  -- What the loop changes, and the rows that it has saved.
  pub record LoopState : Type 0 where
    pub period_timestamp : ℕ
    pub response_aggregate_map : AggregateMap
    pub saved : List (Row hist)

  abbrev pub initial : (period_timestamp : ℕ) → LoopState
  initial period_timestamp = record {
    period_timestamp = period_timestamp;
    response_aggregate_map = [];
    saved = [];
  }

  unfoldable pub drain : StatEmitter → LoopState → LoopState
  drain e s = record s {
    response_aggregate_map = [];
    saved =
        s.saved
        ++ map (λ (k, a). save hist e.chain_id k s.period_timestamp a) s.response_aggregate_map;
  }

  unfoldable pub next_period : StatEmitter → LoopState → LoopState
  next_period e s =
      let s' = drain e s in
      record s' { period_timestamp = wrapping_add s'.period_timestamp e.period_seconds }

  unfoldable pub stat_loop : StatEmitter → LoopState → List Event → LoopState × LoopEnd
  stat_loop e s [] = (s, running)
  stat_loop e s (response stat ∷ events) = elim (receive s.response_aggregate_map stat) [
    | none ↦ (s, panicked)
    | some m ↦ stat_loop e (record s { response_aggregate_map = m }) events
  ]
  stat_loop e s (no_senders ∷ events) = (s, failed)
  stat_loop e s (tick ∷ events) = stat_loop e (next_period e s) events
  stat_loop e s (shutdown ∷ events) = (drain e s, finished)
