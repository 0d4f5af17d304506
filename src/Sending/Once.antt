-- ===== src/Sending/Once.antt =====
-- No server is asked twice for one request, and the statistics know every one that was asked.
use Prim.Native.String.{String}
use web3_proxy.Prelude.{
  ℕ, zero, suc, ◌≡◌, refl, ap, inl, inr, false, Option, none, some, List, [], ◌∷◌, ◌++◌, leb,
  length, Bool-cases,
}
use web3_proxy.Prelude.Results.{Result, ok, err}
use web3_proxy.Prelude.Outcomes.{Outcome, done, failed, panics}
use web3_proxy.JsonRpc.{JsonRpcForwardedResponse, JsonRpcErrorData, ProviderError}
use web3_proxy.Authorization.{RequestMetadata}
use web3_proxy.Rpc.{Web3Rpc}
use web3_proxy.Consensus.Head.{ConsensusWeb3Rpcs}
use web3_proxy.Selection.{
  Pool, Handles, Picks, Selected, SelectError, opened, retry_later, none_ready, is_skipped,
  best_available_rpc,
}
use web3_proxy.Selection.Tiers.{MayServe, old, at_head}
use web3_proxy.Selection.Best.{PicksLaws, best_available_rpc-opened, best_available_rpc-no_retry}
use web3_proxy.Sending.{
  Trying, chose, note_error, note_no_servers, verdict, Verdict, try_another, return_it, Sent,
  running, returned, refused, panicked, give_up, judge_error, judge, Round, send_round,
  try_send_best_consensus_head_connection,
}

-- No two servers of the list have one name.
abbrev pub AreDistinct : List Web3Rpc → Type 0
AreDistinct [] = Unit
AreDistinct (x ∷ xs) = (is_skipped xs x ≡ false) × AreDistinct xs

abbrev pub reversed : List Web3Rpc → List Web3Rpc
reversed [] = []
reversed (x ∷ xs) = reversed xs ++ x ∷ []

-- The servers in the order in which they were asked, if statistics are kept.
abbrev pub Lists : Option RequestMetadata → List Web3Rpc → Type 0
Lists none skip = Unit
Lists (some m) skip = m.backend_requests ≡ reversed skip

pub record IsTraced (t : Trying) : Type 0 where
  pub distinct : AreDistinct t.skip_rpcs
  pub listed : Lists t.request_metadata t.skip_rpcs

note_error-IsTraced : (t : Trying) → IsTraced t → IsTraced (note_error t)
unfolding note_error
note_error-IsTraced t i = record { distinct = i.distinct; listed = go t.request_metadata i.listed }
  where
    go :
        (o : Option RequestMetadata)
        → Lists o t.skip_rpcs
        → Lists (note_error (record t { request_metadata = o })).request_metadata t.skip_rpcs
    go none l = l
    go (some m) l = l

note_no_servers-IsTraced : (t : Trying) → IsTraced t → IsTraced (note_no_servers t)
unfolding note_no_servers
note_no_servers-IsTraced t i = record {
  distinct = i.distinct;
  listed = go t.request_metadata i.listed;
}
  where
    go :
        (o : Option RequestMetadata)
        → Lists o t.skip_rpcs
        → Lists (note_no_servers (record t { request_metadata = o })).request_metadata t.skip_rpcs
    go none l = l
    go (some m) l = l

chose-IsTraced :
    (rpc : Web3Rpc) (t : Trying)
    → is_skipped t.skip_rpcs rpc ≡ false
    → IsTraced t
    → IsTraced (chose rpc t)
unfolding chose
chose-IsTraced rpc t fresh i = record {
  distinct = (fresh, i.distinct);
  listed = go t.request_metadata i.listed;
}
  where
    go :
        (o : Option RequestMetadata)
        → Lists o t.skip_rpcs
        → Lists (chose rpc (record t { request_metadata = o })).request_metadata (rpc ∷ t.skip_rpcs)
    go none l = l
    go (some m) l = ap (λ xs. xs ++ rpc ∷ []) l

give_up-IsTraced : (id : String) (t : Trying) → IsTraced t → IsTraced (give_up id t).0
unfolding give_up
give_up-IsTraced id t i = note_error-IsTraced t i

judge-IsTraced :
    (t : Trying) (o : Outcome ProviderError JsonRpcForwardedResponse)
    → IsTraced t
    → IsTraced (judge t o).0
unfolding judge
judge-IsTraced t (failed e) i = i
judge-IsTraced t panics i = i
judge-IsTraced t (done r) i = go r.error
  where
    go : (o : Option JsonRpcErrorData) → IsTraced (judge_error t r o).0
    go none = i
    go (some e) = by_verdict (verdict e) refl
      where
        by_verdict : (v : Verdict) → verdict e ≡ v → IsTraced (judge_error t r (some e)).0
        by_verdict return_it q =
            let noted = note_error-IsTraced t i in
            rw (judge_error, q) (record { distinct = noted.distinct; listed = noted.listed })
        by_verdict try_another q =
            let noted = note_error-IsTraced t i in
            rw (judge_error, q) (record { distinct = noted.distinct; listed = noted.listed })

MayServe-fresh :
    (now : ℕ) (pool : Pool) (skip : List Web3Rpc) (lo hi : Option ℕ) (c : ConsensusWeb3Rpcs)
    (rpc : Web3Rpc)
    → MayServe now pool skip lo hi c rpc
    → is_skipped skip rpc ≡ false
MayServe-fresh now pool skip lo hi c rpc (old e i) = i.fresh
MayServe-fresh now pool skip lo hi c rpc (at_head e i) = i.fresh

module _ (picks : Picks) (handles : Handles)
    (ask : handles.State → Web3Rpc → Outcome ProviderError String × handles.State) where
  send_round-IsTraced :
      (r : Round) (id : String) (lo hi : Option ℕ) (s : handles.State) (t : Trying)
      → PicksLaws picks
      → IsTraced t
      → IsTraced (send_round picks handles ask r id lo hi s t).1
  unfolding send_round
  send_round-IsTraced r id lo hi s t laws i =
      go (best_available_rpc picks handles r.now r.pool t.skip_rpcs lo hi s).0
        (best_available_rpc picks handles r.now r.pool t.skip_rpcs lo hi s).1 refl
    where
      go :
          (s' : handles.State) (answer : Result SelectError Selected)
          → best_available_rpc picks handles r.now r.pool t.skip_rpcs lo hi s ≡ (s', answer)
          → IsTraced (send_round picks handles ask r id lo hi s t).1
      go s' (err e) q = rw (send_round, q) i
      go s' (ok (retry_later at)) q = absurd (
          best_available_rpc-no_retry picks handles r.now r.pool t.skip_rpcs lo hi s at
            (ap (λ x. x.1) q))
      go s' (ok none_ready) q =
          rw (send_round, q)
            (give_up-IsTraced id (note_no_servers t) (note_no_servers-IsTraced t i))
      go s' (ok (opened rpc)) q =
          let (c, e, may, w) =
            best_available_rpc-opened picks handles r.now r.pool t.skip_rpcs lo hi s laws q in
          let fresh = MayServe-fresh r.now r.pool t.skip_rpcs lo hi c rpc may in
          rw (send_round, q) (judge-IsTraced (chose rpc t) _ (chose-IsTraced rpc t fresh i))

  -- If shuffling a list and taking windows over it add nothing new: the servers that were tried stay
  -- distinct by name, and the statistics, if they are kept, list them in the order in which they were
  -- asked.
  pub try_send_best_consensus_head_connection-IsTraced :
      (fuel : ℕ) (view : ℕ → Round) (id : String) (lo hi : Option ℕ) (s : handles.State)
      (t : Trying)
      → PicksLaws picks
      → IsTraced t
      → IsTraced
          (try_send_best_consensus_head_connection picks handles ask fuel view id lo hi s t).1
  unfolding try_send_best_consensus_head_connection
  try_send_best_consensus_head_connection-IsTraced zero view id lo hi s t laws i = i
  try_send_best_consensus_head_connection-IsTraced (suc fuel) view id lo hi s t laws i =
      let next = send_round picks handles ask (view fuel) id lo hi s t in
      let traced = send_round-IsTraced (view fuel) id lo hi s t laws i in
      elim (Bool-cases (leb (length (view fuel).pool.rpcs) (length t.skip_rpcs))) [
        | inl e ↦ rw (try_send_best_consensus_head_connection, e) (give_up-IsTraced id t i)
        | inr e ↦ go e traced next.2 refl (
            try_send_best_consensus_head_connection-IsTraced fuel view id lo hi next.0 next.1 laws
              traced)
      ]
    where
      go :
          leb (length (view fuel).pool.rpcs) (length t.skip_rpcs) ≡ false
          → IsTraced (send_round picks handles ask (view fuel) id lo hi s t).1
          → (sent : Sent) → (send_round picks handles ask (view fuel) id lo hi s t).2 ≡ sent
          → IsTraced
              (try_send_best_consensus_head_connection picks handles ask fuel view id lo hi
                (send_round picks handles ask (view fuel) id lo hi s t).0
                (send_round picks handles ask (view fuel) id lo hi s t).1).1
          → IsTraced
              (try_send_best_consensus_head_connection picks handles ask
                (suc fuel)
                view
                id
                lo
                hi
                s
                t).1
      go e traced running q rest = rw (try_send_best_consensus_head_connection, e, q) rest
      go e traced (returned x) q rest = rw (try_send_best_consensus_head_connection, e, q) traced
      go e traced (refused x) q rest = rw (try_send_best_consensus_head_connection, e, q) traced
      go e traced panicked q rest = rw (try_send_best_consensus_head_connection, e, q) traced
