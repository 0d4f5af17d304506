-- ===== src/Stats/Aggregate.antt =====
-- `ProxyResponseAggregate` of web3_proxy/src/app_stats.rs, and the row that `save` makes of one. The
-- histograms of hdrhistogram are the interface `Histograms`; quantiles are in percent. A time that
-- chrono has no date for, past the year 262000, is left out.
use Prim.Native.String.{String}
use web3_proxy.Prelude.{ℕ, Bool, Option, none, some, ◌==◌, if◌then◌else◌}
use web3_proxy.Prelude.Results.{Result, ok, err}
use web3_proxy.Prelude.Words.{wrapping_add}
use web3_proxy.Stats.{ProxyResponseStat, ProxyResponseAggregateKey}

pub record Histograms : Type 1 where
  pub Histogram : Type 0
  pub F64 : Type 0
  pub empty : Histogram
  -- `none` is a `RecordError`.
  pub record_value : Histogram → ℕ → Option Histogram
  pub min_of : Histogram → ℕ
  pub mean_of : Histogram → F64
  pub max_of : Histogram → ℕ
  pub value_at_quantile : Histogram → (percent : ℕ) → ℕ

pub data RecordError : Type 0 where
  cannot_record : RecordError

module _ (hist : Histograms) where
  pub record ProxyResponseHistograms : Type 0 where
    pub request_bytes : hist.Histogram
    pub response_bytes : hist.Histogram
    pub response_millis : hist.Histogram

  pub record ProxyResponseAggregate : Type 0 where
    pub frontend_requests : ℕ
    pub backend_requests : ℕ
    pub cache_misses : ℕ
    pub cache_hits : ℕ
    pub sum_request_bytes : ℕ
    pub sum_response_bytes : ℕ
    pub sum_response_millis : ℕ
    pub histograms : ProxyResponseHistograms

  abbrev pub default_aggregate : ProxyResponseAggregate
  default_aggregate = record {
    frontend_requests = 0;
    backend_requests = 0;
    cache_misses = 0;
    cache_hits = 0;
    sum_request_bytes = 0;
    sum_response_bytes = 0;
    sum_response_millis = 0;
    histograms = record {
      request_bytes = hist.empty;
      response_bytes = hist.empty;
      response_millis = hist.empty;
    };
  }

  -- The counters, before the histograms.
  unfoldable pub count : ProxyResponseAggregate → ProxyResponseStat → ProxyResponseAggregate
  count a stat =
      let counted = record a {
        frontend_requests = wrapping_add a.frontend_requests 1;
        sum_request_bytes = wrapping_add a.sum_request_bytes stat.request_bytes;
        sum_response_bytes = wrapping_add a.sum_response_bytes stat.response_bytes;
        sum_response_millis = wrapping_add a.sum_response_millis stat.response_millis;
      } in
      if stat.backend_requests == 0
      then record counted { cache_hits = wrapping_add a.cache_hits 1 }
      else record counted {
        cache_misses = wrapping_add a.cache_misses 1;
        backend_requests = wrapping_add a.backend_requests stat.backend_requests;
      }

  -- The histograms up to the one that fails, and whether one did.
  unfoldable pub record_all :
      ProxyResponseHistograms
      → ProxyResponseStat
      → ProxyResponseHistograms × Result RecordError (Unit {0})
  record_all h stat = elim (hist.record_value h.request_bytes stat.request_bytes) [
    | none ↦ (h, err cannot_record)
    | some a ↦
        let h1 = record h { request_bytes = a } in
        elim (hist.record_value h.response_millis stat.response_millis) [
          | none ↦ (h1, err cannot_record)
          | some b ↦
              let h2 = record h1 { response_millis = b } in
              elim (hist.record_value h.response_bytes stat.response_bytes) [
                | none ↦ (h2, err cannot_record)
                | some c ↦ (record h2 { response_bytes = c }, ok tt)
              ]
        ]
  ]

  -- The counters stand even if an error comes back.
  unfoldable pub add :
      ProxyResponseAggregate
      → ProxyResponseStat
      → ProxyResponseAggregate × Result RecordError (Unit {0})
  add a stat =
      let (h, result) = record_all a.histograms stat in
      (record (count a stat) { histograms = h }, result)

  pub record Summary : Type 0 where
    pub sum : ℕ
    pub min : ℕ
    pub mean : hist.F64
    pub p50 : ℕ
    pub p90 : ℕ
    pub p99 : ℕ
    pub max : ℕ

  unfoldable pub summary : ℕ → hist.Histogram → Summary
  summary sum h = record {
    sum = sum;
    min = hist.min_of h;
    mean = hist.mean_of h;
    p50 = hist.value_at_quantile h 50;
    p90 = hist.value_at_quantile h 90;
    p99 = hist.value_at_quantile h 99;
    max = hist.max_of h;
  }

  -- `rpc_accounting::ActiveModel`.
  pub record Row : Type 0 where
    pub rpc_key_id : Option ℕ
    pub origin : Option ℕ
    pub chain_id : ℕ
    pub method : Option String
    pub archive_request : Bool
    pub error_response : Bool
    pub period_datetime : ℕ
    pub frontend_requests : ℕ
    pub backend_requests : ℕ
    pub cache_misses : ℕ
    pub cache_hits : ℕ
    pub request_bytes : Summary
    pub response_millis : Summary
    pub response_bytes : Summary

  unfoldable pub save :
      (chain_id : ℕ)
      → ProxyResponseAggregateKey
      → (period_timestamp : ℕ) → ProxyResponseAggregate
      → Row
  save chain_id key period_timestamp a = record {
    rpc_key_id = key.rpc_key_id;
    origin = key.origin;
    chain_id = chain_id;
    method = key.method;
    archive_request = key.archive_request;
    error_response = key.error_response;
    period_datetime = period_timestamp;
    frontend_requests = a.frontend_requests;
    backend_requests = a.backend_requests;
    cache_misses = a.cache_misses;
    cache_hits = a.cache_hits;
    request_bytes = summary a.sum_request_bytes a.histograms.request_bytes;
    response_millis = summary a.sum_response_millis a.histograms.response_millis;
    response_bytes = summary a.sum_response_bytes a.histograms.response_bytes;
  }
