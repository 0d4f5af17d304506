-- ===== src/Stats/Totals.antt =====
-- No response is lost or counted twice: what the rows and the map add up to.
use web3_proxy.Prelude.{
  ℕ, suc, ◌+◌, ◌%◌, ◌≡◌, refl, sym, ap, ◌∙◌, inl, inr, some, List, [], ◌∷◌, ◌++◌, map, arith, All,
  All-append, Bool-cases, Option-cases,
}
use web3_proxy.Stats.{ProxyResponseStat, ProxyResponseAggregateKey, key, key_eq}
use web3_proxy.Stats.Keys.{key_eq_iff}
use web3_proxy.Stats.Aggregate.{
  Histograms, ProxyResponseAggregate, default_aggregate, count, add, save, Row,
}
use web3_proxy.Stats.Groups.{insert_missing-none, insert_missing-some, update-some}
use web3_proxy.Stats.Emitter.{
  StatEmitter, Event, response, no_senders, tick, shutdown, AggregateMap, get, set, receive,
  insert_missing, update, LoopState, initial, drain, next_period, LoopEnd, running, finished,
  failed, panicked, stat_loop,
}

-- The responses that come in before the loop ends.
abbrev pub heard : List Event → ℕ
heard [] = 0
heard (response stat ∷ events) = suc (heard events)
heard (no_senders ∷ events) = 0
heard (tick ∷ events) = heard events
heard (shutdown ∷ events) = 0

module _ (hist : Histograms) where
  abbrev pub map_total : AggregateMap hist → ℕ
  map_total [] = 0
  map_total ((k, a) ∷ m) = a.frontend_requests + map_total m

  abbrev pub rows_total : List (Row hist) → ℕ
  rows_total [] = 0
  rows_total (r ∷ rs) = r.frontend_requests + rows_total rs

  -- Every request is a hit or a miss, in numbers that wrap around.
  abbrev pub IsBalanced : (requests hits misses : ℕ) → Type 0
  IsBalanced requests hits misses = requests ≡ (hits + misses) % 18446744073709551616

  abbrev pub RowIsBalanced : Row hist → Type 0
  RowIsBalanced r = IsBalanced r.frontend_requests r.cache_hits r.cache_misses

  abbrev EntryIsBalanced : ProxyResponseAggregateKey × ProxyResponseAggregate hist → Type 0
  EntryIsBalanced (k, a) = IsBalanced a.frontend_requests a.cache_hits a.cache_misses

  rows_total-append :
      (rs qs : List (Row hist)) → rows_total (rs ++ qs) ≡ rows_total rs + rows_total qs
  rows_total-append [] qs = omega arith
  rows_total-append (r ∷ rs) qs = omega (arith, rows_total-append rs qs)

  rows_total-save :
      (e : StatEmitter) (t : ℕ) (m : AggregateMap hist)
      → rows_total (map (λ (k, a). save hist e.chain_id k t a) m) ≡ map_total m
  unfolding save
  rows_total-save e t [] = refl
  rows_total-save e t ((k, a) ∷ m) = omega (arith, rows_total-save e t m)

  rows_balanced-save :
      (e : StatEmitter) (t : ℕ) (m : AggregateMap hist)
      → All EntryIsBalanced m
      → All RowIsBalanced (map (λ (k, a). save hist e.chain_id k t a) m)
  unfolding save
  rows_balanced-save e t [] b = tt
  rows_balanced-save e t ((k, a) ∷ m) b = (b.0, rows_balanced-save e t m b.1)

  frontend_requests-add :
      (a : ProxyResponseAggregate hist) (stat : ProxyResponseStat)
      → (add hist a stat).0.frontend_requests ≡ (a.frontend_requests + 1) % 18446744073709551616
  unfolding add count
  frontend_requests-add a stat = ground arith

  IsBalanced-add :
      (a : ProxyResponseAggregate hist) (stat : ProxyResponseStat)
      → IsBalanced a.frontend_requests a.cache_hits a.cache_misses
      → let b = (add hist a stat).0 in IsBalanced b.frontend_requests b.cache_hits b.cache_misses
  unfolding add count
  IsBalanced-add a stat h = ground arith

  map_total-set :
      (m : AggregateMap hist) (k : ProxyResponseAggregateKey) {a : ProxyResponseAggregate hist}
      (b : ProxyResponseAggregate hist)
      → get hist m k ≡ some a
      → map_total (set hist m k b) + a.frontend_requests ≡ map_total m + b.frontend_requests
  unfolding get set
  map_total-set [] k b h = cc
  map_total-set ((j, c) ∷ m) k {a} b h = elim (Bool-cases (key_eq j k)) [
    | inl e ↦ let same : c ≡ a = ground (arith, h) in rw (e, same) (omega arith)
    | inr e ↦ let rest = map_total-set m k b (rw e at h) in rw e (omega (arith, rest))
  ]

  IsBalanced-get :
      (m : AggregateMap hist) (k : ProxyResponseAggregateKey) {a : ProxyResponseAggregate hist}
      → All EntryIsBalanced m
      → get hist m k ≡ some a
      → IsBalanced a.frontend_requests a.cache_hits a.cache_misses
  unfolding get
  IsBalanced-get [] k b h = cc
  IsBalanced-get ((j, c) ∷ m) k {a} b h = elim (Bool-cases (key_eq j k)) [
    | inl e ↦ let same : c ≡ a = ground (arith, h) in rw (sym same) b.0
    | inr e ↦ IsBalanced-get m k b.1 (rw e at h)
  ]

  IsBalanced-set :
      (m : AggregateMap hist) (k : ProxyResponseAggregateKey) (a : ProxyResponseAggregate hist)
      → All EntryIsBalanced m
      → IsBalanced a.frontend_requests a.cache_hits a.cache_misses
      → All EntryIsBalanced (set hist m k a)
  unfolding set
  IsBalanced-set [] k a b h = tt
  IsBalanced-set ((j, c) ∷ m) k a b h = elim (Bool-cases (key_eq j k)) [
    | inl e ↦ rw e (h, b.1)
    | inr e ↦ rw e (b.0, IsBalanced-set m k a b.1 h)
  ]

  -- One response more, and every entry balanced as before.
  record Counted (m : AggregateMap hist) (stat : ProxyResponseStat) : Type 0 where
    after : AggregateMap hist
    received : receive hist m stat ≡ some after
    total : map_total after % 18446744073709551616 ≡ (map_total m + 1) % 18446744073709551616
    balanced : All EntryIsBalanced after

  update-Counted :
      (m m1 : AggregateMap hist) (stat : ProxyResponseStat) {a : ProxyResponseAggregate hist}
      → insert_missing hist m (key stat) ≡ m1
      → get hist m1 (key stat) ≡ some a
      → map_total m1 ≡ map_total m
      → All EntryIsBalanced m1
      → Counted m stat
  unfolding receive
  update-Counted m m1 stat {a} inserted found total balanced =
      let b = (add hist a stat).0 in
      let more = frontend_requests-add a stat in
      let moved = map_total-set m1 (key stat) b found in
      record {
        after = set hist m1 (key stat) b;
        received =
            ap (λ x. update hist x (key stat) stat) inserted
            ∙ update-some hist m1 (key stat) stat found;
        total = omega (arith, more, moved, total);
        balanced =
            IsBalanced-set m1 (key stat) b balanced
              (IsBalanced-add a stat (IsBalanced-get m1 (key stat) balanced found));
      }

  receive-Counted :
      (m : AggregateMap hist) (stat : ProxyResponseStat) → All EntryIsBalanced m → Counted m stat
  unfolding get
  receive-Counted m stat b = elim (Option-cases (get hist m (key stat))) [
    | inl gone ↦
        update-Counted m _ stat {a = default_aggregate hist}
          (insert_missing-none hist m (key stat) gone)
          (rw ((key_eq_iff (key stat) (key stat)).1 refl) refl) (omega arith) (refl, b)
    | inr (a, found) ↦
        update-Counted m m stat (insert_missing-some hist m (key stat) found) found refl b
  ]

  -- The loop has not panicked, and has saved all it had when it is finished.
  abbrev pub EndsWell : LoopEnd → AggregateMap hist → Type 0
  EndsWell running m = Unit
  EndsWell finished m = m ≡ []
  EndsWell failed m = Unit
  EndsWell panicked m = ⊥

  -- What the rows and the map have together, against the responses.
  pub record Accounted (responses : ℕ) (s : LoopState hist) (end : LoopEnd) : Type 0 where
    pub ends_well : EndsWell end s.response_aggregate_map
    pub total :
        (rows_total s.saved + map_total s.response_aggregate_map) % 18446744073709551616
        ≡ responses % 18446744073709551616
    pub rows_balanced : All RowIsBalanced s.saved

  module _ (e : StatEmitter) where
    -- The same from any state whose rows and entries are balanced.
    record Continues (s : LoopState hist) (events : List Event) (s' : LoopState hist)
        (end : LoopEnd) : Type 0 where
      ends_well : EndsWell end s'.response_aggregate_map
      total :
          (rows_total s'.saved + map_total s'.response_aggregate_map) % 18446744073709551616
          ≡ (rows_total s.saved + map_total s.response_aggregate_map + heard events)
            % 18446744073709551616
      rows_balanced : All RowIsBalanced s'.saved

    drain_total :
        (s : LoopState hist)
        → rows_total (drain hist e s).saved
          ≡ rows_total s.saved + map_total s.response_aggregate_map
    unfolding drain
    drain_total s =
        rows_total-append s.saved _
        ∙ ap (λ n. rows_total s.saved + n)
            (rows_total-save e s.period_timestamp s.response_aggregate_map)

    drain_balanced :
        (s : LoopState hist)
        → All RowIsBalanced s.saved
        → All EntryIsBalanced s.response_aggregate_map
        → All RowIsBalanced (drain hist e s).saved
    unfolding drain
    drain_balanced s rows entries =
        All-append RowIsBalanced s.saved _ rows
          (rows_balanced-save e s.period_timestamp s.response_aggregate_map entries)

    stat_loop-Continues :
        (s : LoopState hist) (events : List Event)
        → All RowIsBalanced s.saved
        → All EntryIsBalanced s.response_aggregate_map
        → Continues s events (stat_loop hist e s events).0 (stat_loop hist e s events).1
    unfolding stat_loop next_period drain
    stat_loop-Continues s [] rows entries = record {
      ends_well = tt;
      total = omega arith;
      rows_balanced = rows;
    }
    stat_loop-Continues s (response stat ∷ events) rows entries =
        let c = receive-Counted s.response_aggregate_map stat entries in
        let rest =
          stat_loop-Continues (record s { response_aggregate_map = c.after }) events rows
            c.balanced in
        rw (stat_loop, c.received)
          (record {
            ends_well = rest.ends_well;
            total = omega (arith, rest.total, c.total);
            rows_balanced = rest.rows_balanced;
          })
    stat_loop-Continues s (no_senders ∷ events) rows entries = record {
      ends_well = tt;
      total = omega arith;
      rows_balanced = rows;
    }
    stat_loop-Continues s (tick ∷ events) rows entries =
        let rest =
          stat_loop-Continues (next_period hist e s) events (drain_balanced s rows entries) tt in
        let same = drain_total s in
        record {
          ends_well = rest.ends_well;
          total = omega (arith, rest.total, same);
          rows_balanced = rest.rows_balanced;
        }
    stat_loop-Continues s (shutdown ∷ events) rows entries =
        let same = drain_total s in
        record {
          ends_well = refl;
          total = omega (arith, same);
          rows_balanced = drain_balanced s rows entries;
        }

    -- However the responses, the ticks and the ends come, the loop does not panic. The requests of the
    -- rows it has saved and of the map it still has are as many as the responses that came in before
    -- it ended, in 64 bits; after a shutdown the map is empty, and in every row each request is a hit or
    -- a miss.
    pub stat_loop-Accounted :
        (period_timestamp : ℕ) (events : List Event)
        → let (s, end) = stat_loop hist e (initial hist period_timestamp) events in
          Accounted (heard events) s end
    stat_loop-Accounted t events =
        let c = stat_loop-Continues (initial hist t) events tt tt in
        record {
          ends_well = c.ends_well;
          total = omega (arith, c.total);
          rows_balanced = c.rows_balanced;
        }
