-- ===== src/Sending/Rounds.antt =====
-- The loop over the servers ends.
use Prim.Native.String.{String}
use web3_proxy.Prelude.{
  ℕ, zero, suc, ◌+◌, ◌≤◌, ◌<◌, ◌≡◌, ◌≢◌, refl, ap, inl, inr, false, Option, none, some, arith, leb,
  length, Bool-cases, Option-cases,
}
use web3_proxy.Prelude.Results.{Result, ok, err}
use web3_proxy.Prelude.Outcomes.{Outcome, done, failed, panics}
use web3_proxy.JsonRpc.{JsonRpcForwardedResponse, JsonRpcErrorData, ProviderError}
use web3_proxy.Rpc.{Web3Rpc}
use web3_proxy.Selection.{
  Handles, Picks, Selected, SelectError, opened, retry_later, none_ready, best_available_rpc,
}
use web3_proxy.Selection.Best.{best_available_rpc-no_retry}
use web3_proxy.Sending.{
  Trying, chose, note_error, note_no_servers, verdict, Verdict, try_another, return_it, Sent,
  running, returned, refused, panicked, give_up, judge_error, judge, Round, send_round,
  try_send_best_consensus_head_connection,
}

give_up-running : (id : String) (t : Trying) → (give_up id t).1 ≢ running
unfolding give_up
give_up-running id t h = elim (Option-cases t.method_not_available_response) [
  | inl e ↦ ground arith
  | inr (r, e) ↦ ground arith
]

pub judge-skip :
    (t : Trying) (o : Outcome ProviderError JsonRpcForwardedResponse)
    → (judge t o).0.skip_rpcs ≡ t.skip_rpcs
unfolding judge note_error
judge-skip t (failed e) = refl
judge-skip t panics = refl
judge-skip t (done r) = go r.error
  where
    go : (o : Option JsonRpcErrorData) → (judge_error t r o).0.skip_rpcs ≡ t.skip_rpcs
    go none = refl
    go (some e) = by_verdict (verdict e) refl
      where
        by_verdict :
            (v : Verdict) → verdict e ≡ v → (judge_error t r (some e)).0.skip_rpcs ≡ t.skip_rpcs
        by_verdict return_it q = rw (judge_error, q) refl
        by_verdict try_another q = rw (judge_error, q) refl

module _ (picks : Picks) (handles : Handles)
    (ask : handles.State → Web3Rpc → Outcome ProviderError String × handles.State) where
  -- A round after which the loop goes on has tried one server more.
  pub length-send_round :
      (r : Round) (id : String) (lo hi : Option ℕ) (s : handles.State) (t : Trying)
      → (send_round picks handles ask r id lo hi s t).2 ≡ running
      → length (send_round picks handles ask r id lo hi s t).1.skip_rpcs ≡ suc (length t.skip_rpcs)
  unfolding send_round chose
  length-send_round r id lo hi s t h =
      go (best_available_rpc picks handles r.now r.pool t.skip_rpcs lo hi s).1 refl
    where
      go :
          (answer : Result SelectError Selected)
          → (best_available_rpc picks handles r.now r.pool t.skip_rpcs lo hi s).1 ≡ answer
          → length (send_round picks handles ask r id lo hi s t).1.skip_rpcs
            ≡ suc (length t.skip_rpcs)
      go (err e) q = absurd (ground arith)
      go (ok (retry_later at)) q =
          absurd (best_available_rpc-no_retry picks handles r.now r.pool t.skip_rpcs lo hi s at q)
      go (ok none_ready) q = absurd (give_up-running id (note_no_servers t) (ground (arith, h, q)))
      go (ok (opened rpc)) q = rw (send_round, q) (ap length (judge-skip (chose rpc t) _))

  -- If no round sees more than n servers: with one round more than n less the servers that were tried
  -- before, the loop ends, with a response, an error or a panic.
  pub try_send_best_consensus_head_connection-ends :
      (n fuel : ℕ) (view : ℕ → Round) (id : String) (lo hi : Option ℕ) (s : handles.State)
      (t : Trying)
      → ((i : ℕ) → length (view i).pool.rpcs ≤ n)
      → n < fuel + length t.skip_rpcs
      → 0 < fuel
      → (try_send_best_consensus_head_connection picks handles ask fuel view id lo hi s t).2
        ≢ running
  unfolding try_send_best_consensus_head_connection
  try_send_best_consensus_head_connection-ends n zero view id lo hi s t few enough positive h =
      omega (arith, positive)
  try_send_best_consensus_head_connection-ends n (suc fuel) view id lo hi s t few enough positive
        h =
      elim (Bool-cases (leb (length (view fuel).pool.rpcs) (length t.skip_rpcs))) [
        | inl e ↦ give_up-running id t (ground (arith, h, e))
        | inr e ↦
            let left : length t.skip_rpcs < length (view fuel).pool.rpcs = ground (arith, e) in
            go
              (λ s' t'. try_send_best_consensus_head_connection-ends n fuel view id lo hi s' t' few)
              (send_round picks handles ask (view fuel) id lo hi s t).2 refl e left
      ]
    where
      next : Trying
      next = (send_round picks handles ask (view fuel) id lo hi s t).1

      go :
          ((s' : handles.State) (t' : Trying)
            → n < fuel + length t'.skip_rpcs
            → 0 < fuel
            → (try_send_best_consensus_head_connection picks handles ask fuel view id lo hi s' t').2
              ≢ running)
          → (sent : Sent) → (send_round picks handles ask (view fuel) id lo hi s t).2 ≡ sent
          → leb (length (view fuel).pool.rpcs) (length t.skip_rpcs) ≡ false
          → length t.skip_rpcs < length (view fuel).pool.rpcs
          → ⊥
      go rec running q e left =
          let more = length-send_round (view fuel) id lo hi s t q in
          let seen = few fuel in
          rec (send_round picks handles ask (view fuel) id lo hi s t).0 next
            (omega (arith, enough, more)) (omega (arith, enough, left, seen))
            (ground (arith, h, q, e))
      go rec (returned r) q e left = ground (arith, h, q, e)
      go rec (refused x) q e left = ground (arith, h, q, e)
      go rec panicked q e left = ground (arith, h, q, e)
