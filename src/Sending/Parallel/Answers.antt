-- ===== src/Sending/Parallel/Answers.antt =====
-- What `try_send_parallel_requests` answers.
use Prim.Native.String.{String}
use web3_proxy.Prelude.{
  ℕ, ◌≡◌, ◌≢◌, refl, ap, sym, ◌∙◌, arith, Bool, true, false, ◌||◌, some, List, [], ◌∷◌, contains,
  any, All,
}
use web3_proxy.Prelude.Results.{Result, ok, err}
use web3_proxy.JsonRpc.{
  ProviderError, try_from_response_result, from_response, from_ethers_error, json_rpc_error,
  other_client_error, http_client_error, ws_client_error, unknown_client_error, other_error,
}
use web3_proxy.Sending.Parallel.{
  Response, Tally, get, is_ok, tally_response, is_ok_result, tally, is_passed_over, to_outcome,
  no_responses, try_send_parallel_requests,
}
use web3_proxy.Sending.Parallel.Choices.{
  fails, TellsApart, ListsKeys, contains_none, contains_head, choose-done,
}
use web3_proxy.Sending.Parallel.Tallies.{
  IsSound, sound-best, tally_response-IsSound, counts-tally_response, flag-tally_response,
}

module _ (debug : Response → ℕ) (most_common_ordered : List ℕ → List ℕ)
    (tells : TellsApart debug) where
  -- An error of a type that is not known is a panic of `from_ethers_error`.
  abbrev pub IsKnown : Result ProviderError String → Type 0
  IsKnown (ok result) = Unit
  IsKnown (err unknown_client_error) = ⊥
  IsKnown (err other_error) = Unit
  IsKnown (err (http_client_error e)) = Unit
  IsKnown (err (ws_client_error e)) = Unit

  -- The body of the first loop.
  record IsStep (id : String) (r : Result ProviderError String)
      (rs : List (Result ProviderError String)) (t : Tally) : Type 0 where
    response : Response
    goes :
        tally debug most_common_ordered id (r ∷ rs) t
        ≡ tally debug most_common_ordered id rs
            (tally_response debug most_common_ordered (is_ok_result r) response t)
    good : is_ok_result r ≡ true → fails response ≡ false

  tally-IsStep :
      (id : String) (r : Result ProviderError String) (rs : List (Result ProviderError String))
      (t : Tally)
      → IsKnown r
      → IsStep id r rs t
  unfolding tally try_from_response_result from_ethers_error from_response
  tally-IsStep id (ok result) rs t known = record {
    response = ok (from_response result id);
    goes = refl;
    good = λ h. refl;
  }
  tally-IsStep id (err unknown_client_error) rs t known = absurd known
  tally-IsStep id (err other_error) rs t known = record {
    response = err other_error;
    goes = refl;
    good = λ h. absurd (ground (arith, h));
  }
  tally-IsStep id (err (http_client_error (json_rpc_error e))) rs t known = record {
    response = _;
    goes = refl;
    good = λ h. absurd (ground (arith, h));
  }
  tally-IsStep id (err (http_client_error other_client_error)) rs t known = record {
    response = _;
    goes = refl;
    good = λ h. absurd (ground (arith, h));
  }
  tally-IsStep id (err (ws_client_error (json_rpc_error e))) rs t known = record {
    response = _;
    goes = refl;
    good = λ h. absurd (ground (arith, h));
  }
  tally-IsStep id (err (ws_client_error other_client_error)) rs t known = record {
    response = _;
    goes = refl;
    good = λ h. absurd (ground (arith, h));
  }

  record IsTallied (id : String) (rs : List (Result ProviderError String)) (t : Tally)
      : Type 0 where
    tallied : Tally
    ends : tally debug most_common_ordered id rs t ≡ some tallied
    sound : IsSound debug tallied
    any_key : (k : ℕ) × (contains tallied.counts k ≡ true)
    notices :
        t.any_ok_with_json_result || any is_ok_result rs ≡ true
        → tallied.any_ok_with_json_result ≡ true

  -- The first loop ends, as long as no error is of a type that is not known.
  tally-IsTallied :
      (id : String) (rs : List (Result ProviderError String)) (t : Tally)
      → All IsKnown rs
      → IsSound debug t
      → (k : ℕ) × (contains t.counts k ≡ true)
      → IsTallied id rs t
  unfolding tally any
  tally-IsTallied id [] t known sound key = record {
    tallied = t;
    ends = refl;
    sound = sound;
    any_key = key;
    notices = or_false;
  }
    where
      or_false : t.any_ok_with_json_result || false ≡ true → t.any_ok_with_json_result ≡ true
      or_false h = ground (arith, h)
  tally-IsTallied id (r ∷ rs) t known sound key =
      let step = tally-IsStep id r rs t known.0 in
      let t' = tally_response debug most_common_ordered (is_ok_result r) step.response t in
      let has_key : contains t'.counts (debug step.response) ≡ true =
        ap (λ ks. contains ks (debug step.response))
          (counts-tally_response debug most_common_ordered tells (is_ok_result r) step.response t)
        ∙ contains_head (debug step.response) t.counts in
      let rest =
        tally-IsTallied id rs t' known.1
          (tally_response-IsSound debug most_common_ordered tells (is_ok_result r) step.response t
            step.good sound)
          (debug step.response, has_key) in
      record {
        tallied = rest.tallied;
        ends = step.goes ∙ rest.ends;
        sound = rest.sound;
        any_key = rest.any_key;
        notices = λ h. rest.notices (
            ap (λ b. b || any is_ok_result rs)
              (flag-tally_response debug most_common_ordered tells (is_ok_result r) step.response t)
            ∙ or_assoc t.any_ok_with_json_result (is_ok_result r) (any is_ok_result rs)
            ∙ h);
      }
    where
      or_assoc : (a b c : Bool) → (a || b) || c ≡ a || (b || c)
      or_assoc true b c = refl
      or_assoc false b c = refl

  no_responses-IsSound : IsSound debug no_responses
  unfolding get contains
  no_responses-IsSound = record {
    known = λ k c. absurd (contains_none k c);
    kept = λ k r h. absurd (ground (arith, h));
    counted = λ k r h. absurd (ground (arith, h));
    result = λ h. absurd (ground (arith, h));
    answer = λ h. absurd (ground (arith, h));
    noticed = λ r h o. absurd (ground (arith, h));
  }

  first-IsTallied :
      (id : String) (r : Result ProviderError String) (rs : List (Result ProviderError String))
      → All IsKnown (r ∷ rs)
      → IsTallied id (r ∷ rs) no_responses
  unfolding any
  first-IsTallied id r rs known =
      let step = tally-IsStep id r rs no_responses known.0 in
      let t' =
        tally_response debug most_common_ordered (is_ok_result r) step.response no_responses in
      let has_key : contains t'.counts (debug step.response) ≡ true =
        ap (λ ks. contains ks (debug step.response))
          (counts-tally_response debug most_common_ordered tells (is_ok_result r) step.response
            no_responses)
        ∙ contains_head (debug step.response) [] in
      let rest =
        tally-IsTallied id rs t' known.1
          (tally_response-IsSound debug most_common_ordered tells (is_ok_result r) step.response
            no_responses step.good no_responses-IsSound)
          (debug step.response, has_key) in
      record {
        tallied = rest.tallied;
        ends = step.goes ∙ rest.ends;
        sound = rest.sound;
        any_key = rest.any_key;
        notices = λ h. rest.notices (
            ap (λ b. b || any is_ok_result rs)
              (flag-tally_response debug most_common_ordered tells (is_ok_result r) step.response
                no_responses)
            ∙ h);
      }

  -- Once a server gave a result, what is not passed over is one without an error.
  chosen_fails :
      (t : Tally) (s : Response)
      → IsSound debug t
      → t.any_ok_with_json_result ≡ true
      → is_passed_over t s ≡ false
      → fails s ≡ false
  unfolding is_passed_over
  chosen_fails t (ok x) sound j p = ground (arith, j, p)
  chosen_fails t (err e) sound j p =
      let (r, kept, f) = sound.result j in
      absurd (not_both (sound.noticed r kept (without_error r f)) p)
    where
      without_error : (r : Response) → fails r ≡ false → is_ok r ≡ true
      without_error (ok x) f = refl
      without_error (err e) f = absurd (ground (arith, f))

      not_both : t.any_ok_but_maybe_json_error ≡ true → t.any_ok_but_maybe_json_error ≢ false
      not_both a b = absurd (cc)

  -- If the text of a response tells an answer from an error and shows a JSON-RPC error, the counter
  -- gives each key once, and no error is of a type that is not known: whatever at least one server
  -- answers, the end of the second loop is not reached, and some response or error is returned. If
  -- a server gave a result, it is one without an error.
  pub try_send_parallel_requests-answers :
      ListsKeys most_common_ordered
      → (id : String) (r : Result ProviderError String) (rs : List (Result ProviderError String))
      → All IsKnown (r ∷ rs)
      → (s : Response) × (try_send_parallel_requests debug most_common_ordered id (r ∷ rs)
          ≡ to_outcome s)
        × (any is_ok_result (r ∷ rs) ≡ true → fails s ≡ false)
  unfolding try_send_parallel_requests
  try_send_parallel_requests-answers lists id r rs known =
      let x = first-IsTallied id r rs known in
      let t = x.tallied in
      let (k, there) = x.any_key in
      let (some_kept, found, here) = x.sound.known k there in
      let (best, kept, p) =
        sound-best debug t some_kept x.sound (ap (get t.count_map) here ∙ found) in
      let listed : (j : ℕ) → contains (most_common_ordered t.counts) j ≡ contains t.counts j =
        lists.counted t.counts in
      let (s, chosen, q) =
        choose-done t (most_common_ordered t.counts) t.count_map (lists.distinct t.counts)
          (λ j c. let (y, qy, dy) = x.sound.known j (sym (listed j) ∙ c) in (y, qy)) (debug best)
          best (listed (debug best) ∙ x.sound.counted (debug best) best kept) kept p in
      (
        s,
        rw (try_send_parallel_requests, x.ends) chosen,
        λ h. chosen_fails t s x.sound (x.notices h) q,
      )
