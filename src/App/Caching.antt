-- ===== src/App/Caching.antt =====
-- What the cache of responses gives back.
use web3_proxy.Prelude.{◌≡◌, refl, ap, ◌∙◌, inl, inr, none, some, arith, Option-cases}
use web3_proxy.Prelude.Outcomes.{Outcome, done, failed, panics}
use web3_proxy.JsonRpc.{JsonRpcRequest, JsonRpcForwardedResponse}
use web3_proxy.Authorization.{RequestMetadata}
use web3_proxy.App.{AppError, ResponseCacheKey, AppConfig, AppEnv, ◌>>=◌}
use web3_proxy.App.Responses.{number_of, keep, from_cache, forward}

-- What is inserted is there, as long as it is not evicted.
pub record FindsInserted (env : AppEnv) : Type 0 where
  pub finds :
      (s : env.S) (k : ResponseCacheKey) (response : JsonRpcForwardedResponse)
      → env.cached (env.insert s k response) k ≡ some response

module _ (env : AppEnv) (config : AppConfig) where
  -- If what is inserted is there: the response that one request got under a key is what the next
  -- request gets under it, with no server asked, and nothing changes. That holds for an error too, and
  -- whatever `cache_errors` says.
  pub forward-again :
      FindsInserted env
      → (r r' : JsonRpcRequest) (k : ResponseCacheKey) (s s' : env.S) (m m' m'' : RequestMetadata)
        (response : JsonRpcForwardedResponse)
      → forward env config r (some k) s m ≡ (s', m', done response)
      → forward env config r' (some k) s' m'' ≡ (s', m'', done response)
  unfolding forward from_cache keep ◌>>=◌
  forward-again law r r' k s s' m m' m'' response h = elim (Option-cases (env.cached s k)) [
    | inr (found, there) ↦
        let same_state : s ≡ s' = ground (arith, h, there) in
        let same : found ≡ response = ground (arith, h, there) in
        let again : env.cached s' k ≡ some response = rw⁻¹ same_state (there ∙ ap some same) in
        ground (arith, again)
    | inl gone ↦
        let asked =
          env.try_proxy_connection r (number_of env config k.from_block)
            (number_of env config k.to_block) s m in
        go gone asked.0 asked.1 asked.2 refl
  ]
    where
      go :
          env.cached s k ≡ none
          → (t : env.S) (n : RequestMetadata) (o : Outcome AppError JsonRpcForwardedResponse)
          → env.try_proxy_connection r
              (number_of env config k.from_block)
              (number_of env config k.to_block)
              s
              m
            ≡ (t, n, o)
          → forward env config r' (some k) s' m'' ≡ (s', m'', done response)
      go gone t n (failed e) q = absurd (ground (arith, h, gone, q))
      go gone t n panics q = absurd (ground (arith, h, gone, q))
      go gone t n (done x) q =
          let stored = law.finds t k (record x { id = "null" }) in
          let same_state : env.insert t k (record x { id = "null" }) ≡ s' =
            ground (arith, h, gone, q) in
          let same : record x { id = "null" } ≡ response = ground (arith, h, gone, q) in
          let again : env.cached s' k ≡ some response = rw⁻¹ same_state (stored ∙ ap some same) in
          ground (arith, again)
