-- ===== src/Request/Counters.antt =====
-- What a request does to the counters and to the limit of its server.
use Prim.Native.String.{String}
use web3_proxy.Prelude.{
  ℕ, ◌+◌, ◌<◌, ◌≡◌, refl, ◌⊎◌, inl, inr, Option, none, some, List, arith, Option-cases,
}
use web3_proxy.Prelude.Results.{Result, ok, err}
use web3_proxy.Prelude.Words.{wrapping_add, wrapping_sub}
use web3_proxy.JsonRpc.{ProviderError}
use web3_proxy.Entities.{Method}
use web3_proxy.Request.{
  RequestRevertHandler, trace_level, debug_level, error_level, warn_level, save, Provider,
  ResponseType, revert, rate_limit, fine, response_type, method_of, EthCallFirstParams,
  wait_for_provider, RpcCounters, limit_until, Requested, waiting, dropped, panicked, answered,
  spawn_save, handle_error, Asked, after_request, request, revert_handler_of,
}

limit_until_lem :
    (now : ℕ) (t : ResponseType) (before : Option ℕ)
    → (limit_until now t before ≡ before)
      ⊎ ((t ≡ rate_limit) × (limit_until now t before ≡ some (now + 1_000_000_000)))
unfolding limit_until
limit_until_lem now rate_limit (some until) = inr (refl, refl)
limit_until_lem now rate_limit none = inl refl
limit_until_lem now revert until = inl refl
limit_until_lem now fine until = inl refl

back : (n : ℕ) → n < 18446744073709551616 → wrapping_sub (wrapping_add n 1) 1 ≡ n
back n h = omega arith

module _ {P : Type 0} (R : Type 0) (parse_params : P → Option EthCallFirstParams) where
  -- The limit is as before, or there was one and the node's error said that it was met.
  abbrev pub LimitOf :
      ℕ → Provider → Option (Result ProviderError R) → (before after : Option ℕ) → Type 0
  LimitOf now p answer before after =
      (after ≡ before)
      ⊎ ((e : ProviderError) × (answer ≡ some (err e))
          × (response_type p e ≡ rate_limit)
          × (after ≡ some (now + 1_000_000_000)))

  -- What has changed, by how the request ends.
  abbrev pub Counts : RpcCounters → RpcCounters → Requested R → Type 0
  Counts c c' waiting =
      (c'.total_requests ≡ c.total_requests) × (c'.active_requests ≡ c.active_requests)
  Counts c c' dropped =
      (c'.total_requests ≡ wrapping_add c.total_requests 1)
      × (c'.active_requests ≡ wrapping_add c.active_requests 1)
  Counts c c' panicked =
      (c'.total_requests ≡ wrapping_add c.total_requests 1)
      × (c'.active_requests ≡ c.active_requests)
  Counts c c' (answered r saved) =
      (c'.total_requests ≡ wrapping_add c.total_requests 1)
      × (c'.active_requests ≡ c.active_requests)

  -- An error that is handled comes back, or the handling panics.
  handle_error-cases :
      (handler : RequestRevertHandler) (method : String) (params : P) (e : ProviderError)
      → (handle_error {R = R} parse_params handler method params e ≡ panicked)
        ⊎ ((saved : Option (Method × EthCallFirstParams)) × (handle_error {R = R} parse_params
                handler method params e
              ≡ answered (err e) saved))
  unfolding handle_error spawn_save
  handle_error-cases save method params e = elim (Option-cases (method_of method)) [
    | inl h ↦ inl (ground (arith, h))
    | inr (m, h) ↦ (elim (Option-cases (parse_params params)) [
      | inl q ↦ inl (ground (arith, h, q))
      | inr (p, q) ↦ inr (some (m, p), ground (arith, h, q))
    ])
  ]
  handle_error-cases trace_level method params e = inr (none, refl)
  handle_error-cases debug_level method params e = inr (none, refl)
  handle_error-cases error_level method params e = inr (none, refl)
  handle_error-cases warn_level method params e = inr (none, refl)

  finished-Counts :
      (handler : RequestRevertHandler) (asked : Asked P) (e : ProviderError) (c c' : RpcCounters)
      → c'.total_requests ≡ wrapping_add c.total_requests 1
      → c'.active_requests ≡ c.active_requests
      → Counts c c' (handle_error {R = R} parse_params handler asked.method asked.params e)
  finished-Counts handler asked e c c' t a =
      elim (handle_error-cases handler asked.method asked.params e) [
        | inl h ↦ rw h (t, a)
        | inr (saved, h) ↦ rw h (t, a)
      ]

  -- With a number of active requests in 64 bits: once there is a provider, the request is counted, and
  -- when it ends, with an answer or a panic, it no longer counts as active. A request that its caller
  -- drops stays active for ever. The limit of the server changes only when an error says that it was
  -- met, to one second from now.
  pub request-Counts :
      (asked : Asked P) (unlocked : Option Provider) (readings : List (Option Provider))
      (answer : Provider → Option (Result ProviderError R)) (c : RpcCounters)
      → c.active_requests < 18446744073709551616
      → let (c', end) = request parse_params asked unlocked readings answer c in
        Counts c c' end
        × ((c'.hard_limit_until ≡ c.hard_limit_until)
            ⊎ ((p : Provider) × LimitOf asked.now p
                  (answer p)
                  c.hard_limit_until
                  c'.hard_limit_until))
  unfolding request after_request
  request-Counts asked unlocked readings answer c small =
      go (wait_for_provider unlocked readings) refl
    where
      Goal : RpcCounters × Requested R → Type 0
      Goal (c', end) =
          Counts c c' end
          × ((c'.hard_limit_until ≡ c.hard_limit_until)
              ⊎ ((p : Provider) × LimitOf asked.now p (answer p) c.hard_limit_until
                    c'.hard_limit_until))

      started : RpcCounters
      started = record c {
        total_requests = wrapping_add c.total_requests 1;
        active_requests = wrapping_add c.active_requests 1;
      }

      with_answer :
          (p : Provider) (a : Option (Result ProviderError R))
          → answer p ≡ a
          → Goal (after_request parse_params asked p started a)
      with_answer p none h = ((refl, refl), inl refl)
      with_answer p (some (ok r)) h = ((refl, back c.active_requests small), inl refl)
      with_answer p (some (err e)) h = (
        finished-Counts
            (revert_handler_of asked.revert_handler asked.method asked.has_db
              asked.authorization.checks.log_revert_chance asked.draw)
            asked e c
            (record started {
              active_requests = wrapping_sub started.active_requests 1;
              hard_limit_until = limit_until asked.now (response_type p e) started.hard_limit_until;
            })
            refl (back c.active_requests small),
        elim (limit_until_lem asked.now (response_type p e) c.hard_limit_until) [
          | inl q ↦ inl q
          | inr (t, q) ↦ inr (p, inr (e, h, t, q))
        ],
      )

      go :
          (p : Option Provider)
          → wait_for_provider unlocked readings ≡ p
          → Goal (request parse_params asked unlocked readings answer c)
      go none h = rw (request, h) ((refl, refl), inl refl)
      go (some p) h = rw (request, h) (with_answer p (answer p) refl)
