-- ===== src/Examples/Statistics.antt =====
-- Two users, one of them unlogged, and a histogram that keeps what it is given.
use web3_proxy.Prelude.{
  Bool, true, false, ltb, ℕ, ◌+◌, ◌/◌, ◌%◌, ◌^◌, ◌≡◌, ◌⊎◌, refl, Option, none, some, List, [], ◌∷◌,
  length, if◌then◌else◌,
}
use web3_proxy.Entities.{LogLevel}
use web3_proxy.Authorization.{AuthorizationChecks}
use web3_proxy.Stats.{ProxyResponseStat, key}
use web3_proxy.Stats.Aggregate.{Histograms}
use web3_proxy.Stats.Emitter.{
  StatEmitter, Start, start, Event, response, tick, shutdown, AggregateMap, initial, stat_loop,
}
use web3_proxy.Stats.Keys.{IsAnonymous, key-IsAnonymous}
use web3_proxy.Stats.Groups.{receive_all, Holds, receive_all-Holds}
use web3_proxy.Stats.Totals.{heard, Accounted, stat_loop-Accounted}
use web3_proxy.Stats.Periods.{IsRecent, start-IsRecent}
use web3_proxy.Examples.Users.{checks, caller, authorization}

-- Values above a million are refused.
abbrev hist : Histograms
hist = record {
  Histogram = List ℕ;
  F64 = ℕ;
  empty = [];
  record_value = λ h v. if ltb 1_000_000 v then none else some (v ∷ h);
  min_of = length;
  mean_of = length;
  max_of = length;
  value_at_quantile = λ h q. length h;
}

abbrev silent : ℕ → AuthorizationChecks
silent id = record checks { rpc_secret_key_id = some id; log_level = LogLevel.none }

abbrev stat : AuthorizationChecks → (origin : Option ℕ) → (backend_requests : ℕ) → ProxyResponseStat
stat c origin backend_requests = record {
  authorization = record authorization { checks = c; caller = record caller { origin = origin } };
  method = "eth_call";
  archive_request = false;
  error_response = false;
  request_bytes = 30;
  backend_requests = backend_requests;
  response_bytes = 2_000_000;
  response_millis = 12;
}

abbrev first : ProxyResponseStat
first = stat (silent 1) (some 41) 2

abbrev second : ProxyResponseStat
second = stat (silent 2) none 0

first-IsAnonymous : IsAnonymous first
first-IsAnonymous = record { key_id = λ h. cc; level = refl }

second-IsAnonymous : IsAnonymous second
second-IsAnonymous = record { key_id = λ h. cc; level = refl }

key-IsAnonymous_example : key first ≡ key second
key-IsAnonymous_example =
    key-IsAnonymous first second first-IsAnonymous second-IsAnonymous
      (record { archive_request = refl; error_response = refl; method = refl })

abbrev stats : List ProxyResponseStat
stats = first ∷ stat checks none 1 ∷ second ∷ []

receive_all-Holds_example :
    (m : AggregateMap hist) × (receive_all hist [] stats ≡ some m) × Holds hist [] stats m
receive_all-Holds_example = receive_all-Holds hist [] stats tt

abbrev emitter : StatEmitter
emitter = record { chain_id = 1; period_seconds = 60 }

abbrev events : List Event
events = response first ∷ tick ∷ response second ∷ shutdown ∷ []

stat_loop-Accounted_example :
    let (s, end) = stat_loop hist emitter (initial hist 960) events in
    Accounted hist (heard events) s end
stat_loop-Accounted_example = stat_loop-Accounted hist emitter 960 events

-- A clock of 63 bits of seconds, of which a day has passed.
abbrev can_add : ℕ → Bool
can_add d = ltb (d / 1_000_000_000 + 86_400) (2 ^ 63)

-- At 1000.5 seconds, in the middle of a minute.
start-IsRecent_example :
    ((60 % 2 ^ 32 ≡ 0) × (start can_add emitter 1_000_500_000_000 ≡ none))
    ⊎ ((s : Start) × IsRecent emitter 1_000_500_000_000 s
        × (((can_add s.duration_to_next_period ≡ false)
              × (start can_add emitter 1_000_500_000_000 ≡ none))
            ⊎ ((can_add s.duration_to_next_period ≡ true)
                × (start can_add emitter 1_000_500_000_000 ≡ some s))))
start-IsRecent_example = start-IsRecent can_add emitter 1_000_500_000_000
