-- ===== src/Rpc/Handle/Waits.antt =====
-- How `wait_for_request_handle` ends.
use mathlib.Core.List.{Memᴰ}
use web3_proxy.Prelude.{
  ℕ, ◌≡◌, ◌≢◌, ◌⊎◌, ap, ◌∙◌, refl, sym, inl, inr, Bool, true, Option, List, [], ◌∷◌, arith,
  Bool-cases,
}
use web3_proxy.Prelude.Results.{Result, ok, err}
use web3_proxy.RateLimit.Redis.{RedisEnv, RedisError, Reading}
use web3_proxy.Rpc.Handle.{
  OpenRequestResult, handle, retry_at, not_ready, HandleState, try_request_handle, timeout_waiting,
  unable_to_retry, throttling, past, WaitStep, opened, gives_up, waits, wait_step,
  wait_for_request_handle,
}

module _ (env : RedisEnv) where
  -- What the last answer was when the loop ends.
  abbrev pub EndsWith : Option ℕ → ℕ → WaitStep env → Result RedisError OpenRequestResult → Type 0
  EndsWith max_wait now opened answer = answer ≡ ok handle
  EndsWith max_wait now (gives_up timeout_waiting) answer =
      (t : ℕ) × (answer ≡ ok (retry_at t)) × (past env max_wait t ≡ true)
  EndsWith max_wait now (gives_up unable_to_retry) answer =
      (answer ≡ ok not_ready) × (past env max_wait now ≡ true)
  EndsWith max_wait now (gives_up (throttling e)) answer = answer ≡ err e
  EndsWith max_wait now waits answer = ⊥

  wait_step-EndsWith :
      (max_wait : Option ℕ) (now : ℕ) (answer : Result RedisError OpenRequestResult)
      (step : WaitStep env)
      → wait_step env max_wait now answer ≡ step
      → (step ≡ waits) ⊎ EndsWith max_wait now step answer
  unfolding wait_step
  wait_step-EndsWith max_wait now (ok handle) step h = rw (sym h, wait_step) (inr refl)
  wait_step-EndsWith max_wait now (ok (retry_at t)) step h =
      elim (Bool-cases (past env max_wait t)) [
        | inl e ↦ rw (sym h, wait_step, e) (inr (t, refl, e))
        | inr e ↦ rw (sym h, wait_step, e) (inl refl)
      ]
  wait_step-EndsWith max_wait now (ok not_ready) step h =
      elim (Bool-cases (past env max_wait now)) [
        | inl e ↦ rw (sym h, wait_step, e) (inr (refl, e))
        | inr e ↦ rw (sym h, wait_step, e) (inl refl)
      ]
  wait_step-EndsWith max_wait now (err e) step h = rw (sym h, wait_step) (inr refl)

  -- The round in which the loop ends, with its readings and its answer.
  pub record Ended (max_wait : Option ℕ) (u : Bool) (rounds : List (Reading env × Bool))
      (s' : HandleState env) (server' : env.Server) (step : WaitStep env) : Type 0 where
    pub reading : Reading env
    pub connected : Bool
    pub state : HandleState env
    pub server : env.Server
    pub answer : Result RedisError OpenRequestResult
    pub among : Memᴰ (reading, connected) rounds
    pub answered :
        try_request_handle env reading u (record state { provider = connected }) server
        ≡ (s', server', answer)
    pub ends : EndsWith max_wait reading.instant step answer

  -- The loop goes on waiting, or it ends with the answer of one of its rounds: a handle is returned if
  -- that round opened one, and it gives up only if that answer was an error, if the time to retry lies
  -- past the longest wait, or if that time is over and the server is not ready.
  pub wait_for_request_handle-Ended :
      (max_wait : Option ℕ) (u : Bool) (s : HandleState env) (server : env.Server)
      (rounds : List (Reading env × Bool)) {s' : HandleState env} {server' : env.Server}
      {step : WaitStep env}
      → wait_for_request_handle env max_wait u s server rounds ≡ (s', server', step)
      → (step ≡ waits) ⊎ Ended max_wait u rounds s' server' step
  unfolding wait_for_request_handle
  wait_for_request_handle-Ended max_wait u s server [] h = inl (ground arith)
  wait_for_request_handle-Ended max_wait u s server ((r, connected) ∷ rounds) {s'} {server'} {step}
        h =
      let tried = try_request_handle env r u (record s { provider = connected }) server in
      go tried.0 tried.1 tried.2 refl (wait_step env max_wait r.instant tried.2) refl
        (λ t v e. wait_for_request_handle-Ended max_wait u t v rounds e)
    where
      stop :
          (t : HandleState env) (v : env.Server) (answer : Result RedisError OpenRequestResult)
          → try_request_handle env r u (record s { provider = connected }) server ≡ (t, v, answer)
          → (w : WaitStep env) → wait_step env max_wait r.instant answer ≡ w
          → ◌≡◌ {A = HandleState env × env.Server × WaitStep env} (t, v, w) (s', server', step)
          → w ≢ waits
          → Ended max_wait u ((r, connected) ∷ rounds) s' server' step
      stop t v answer e w q end moving = record {
        reading = r;
        connected = connected;
        state = s;
        server = server;
        answer = answer;
        among = Memᴰ.head refl;
        answered = e ∙ ap (λ x. (x.0, x.1, answer)) end;
        ends = elim (wait_step-EndsWith max_wait r.instant answer step (q ∙ ap (λ x. x.2) end)) [
          | inl again ↦ absurd (moving (ap (λ x. x.2) end ∙ again))
          | inr x ↦ x
        ];
      }

      go :
          (t : HandleState env) (v : env.Server) (answer : Result RedisError OpenRequestResult)
          → try_request_handle env r u (record s { provider = connected }) server ≡ (t, v, answer)
          → (w : WaitStep env) → wait_step env max_wait r.instant answer ≡ w
          → ((t' : HandleState env) (v' : env.Server)
              → wait_for_request_handle env max_wait u t' v' rounds ≡ (s', server', step)
              → (step ≡ waits) ⊎ Ended max_wait u rounds s' server' step)
          → (step ≡ waits) ⊎ Ended max_wait u ((r, connected) ∷ rounds) s' server' step
      go t v answer e waits q rec = elim (rec t v (ground arith)) [
        | inl w ↦ inl w
        | inr x ↦ inr (record {
          reading = x.reading;
          connected = x.connected;
          state = x.state;
          server = x.server;
          answer = x.answer;
          among = Memᴰ.tail x.among;
          answered = x.answered;
          ends = x.ends;
        })
      ]
      go t v answer e opened q rec = inr (stop t v answer e opened q (ground arith) (λ x. cc))
      go t v answer e (gives_up x) q rec =
          inr (stop t v answer e (gives_up x) q (ground arith) (λ y. cc))
