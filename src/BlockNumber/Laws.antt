-- ===== src/BlockNumber/Laws.antt =====
-- What the block parameters become: bounds, panics, and that a cleaned request no longer depends
-- on the head.
use Prim.Native.String.{String}
use web3_proxy.Prelude.Outcomes.{Outcome, done, failed, panics}
use web3_proxy.Json.{
  Value, Values, Members, array, object, null, get, push, set, values_len, get-push, get-set,
  set-get_self,
}
use web3_proxy.Block.{Web3ProxyBlock}
use web3_proxy.BlockNumber.{
  BlockNumber, earliest, finalized, latest, safe, number, ParamsError, block_num_to_u64, Codec,
  clean_param, clean_block_number, plain_param, Plan, block_param, logs, method_plan, follow,
  recover, block_needed, with_params,
}
use web3_proxy.Prelude.{
  ℕ, ◌≤◌, ◌<◌, ◌≡◌, refl, ◌≢◌, ◌↔◌, ◌⊎◌, inl, inr, Bool, true, Option, none, some, arith,
}

-- The conversion panics for "finalized" on the first ten blocks and for "safe" on the first three,
-- and for nothing else.
pub block_num_to_u64-none :
    (b : BlockNumber) (l : ℕ)
    → (block_num_to_u64 b l ≡ none) ↔ (((b ≡ finalized) × (l < 10)) ⊎ ((b ≡ safe) × (l < 3)))
unfolding block_num_to_u64
block_num_to_u64-none earliest l = ground arith
block_num_to_u64-none _ l = ground arith

-- Otherwise only a literal number can lie above the head, and the parameter is to be rewritten
-- exactly when it is "latest".
pub block_num_to_u64-some :
    (b : BlockNumber) (l n : ℕ) (change : Bool)
    → block_num_to_u64 b l ≡ some (n, change)
    → ((n ≤ l) ⊎ (b ≡ number n)) × ((change ≡ true) ↔ (b ≡ latest))
unfolding block_num_to_u64
block_num_to_u64-some earliest l n change h = ground arith
block_num_to_u64-some _ l n change h = ground arith

-- What the code relies on in `serde_json` and `ethers`: a block number survives being written, and
-- is not written as an object.
pub record NumbersRoundTrip (codec : Codec) : Type 0 where
  pub reads_back : (n : ℕ) → codec.block_number_of (codec.json n) ≡ some (number n)
  pub no_object : (n : ℕ) (obj : Members) → codec.json n ≢ object obj

module _ (codec : Codec) (fetch : ℕ → Option Web3ProxyBlock) where
  clean_param-plain :
      (x : Value) (l : ℕ)
      → ((obj : Members) → x ≢ object obj)
      → clean_param codec fetch x l ≡ plain_param codec fetch x l
  unfolding clean_param
  clean_param-plain (object obj) l h = absurd (h obj refl)
  clean_param-plain null l h = refl
  clean_param-plain _ l h = refl

  clean_param-json :
      NumbersRoundTrip codec
      → (n l : ℕ) → clean_param codec fetch (codec.json n) l ≡ done (codec.json n, n)
  unfolding plain_param block_num_to_u64
  clean_param-json rt n l =
      rw (clean_param-plain (codec.json n) l (rt.no_object n), rt.reads_back n) refl

  -- A number that is there already stays, whatever the head.
  settled :
      NumbersRoundTrip codec
      → (vs : Values) (i l : ℕ) → get vs i ≡ some (codec.json l)
      → (l' : ℕ) → clean_block_number codec fetch (array vs) i l' ≡ done (array vs, l)
  unfolding clean_block_number
  settled rt vs i l at l' = rw at (ground (arith, clean_param-json rt l l', set-get_self vs i at))

  abbrev pub IsLatest : Values → ℕ → Type 0
  IsLatest params i =
      ((get params i ≡ none) × (values_len params ≡ i))
      ⊎ ((x : Value) × (get params i ≡ some x)
          × (codec.block_number_of x ≡ some latest)
          × ((obj : Members) → x ≢ object obj))

  -- If numbers survive being written: with "latest" at the block parameter's place, or with only that parameter missing, the head's
  -- number is used and written there: under any later head the request still means that block.
  pub clean_block_number-latest :
      (rt : NumbersRoundTrip codec) (params : Values) (i l : ℕ)
      → IsLatest params i
      → (params' : Values) × (clean_block_number codec fetch (array params) i l
          ≡ done (array params', l))
        × ((l' : ℕ) → clean_block_number codec fetch (array params') i l' ≡ done (array params', l))
  unfolding clean_block_number plain_param block_num_to_u64
  clean_block_number-latest rt params i l (inl (gone, len)) = (
    push params (codec.json l),
    rw gone (ground arith),
    settled rt (push params (codec.json l)) i l (rw (← len) (get-push params (codec.json l))),
  )
  clean_block_number-latest rt params i l (inr (x, at, is_latest, plain)) = (
    set params i (codec.json l),
    rw (at, clean_param-plain x l plain) (ground arith),
    settled rt (set params i (codec.json l)) i l (get-set params i (codec.json l) at),
  )

  follow-failed :
      (plan : Plan) (p : Value) (l : ℕ) (e : ParamsError)
      → follow codec fetch plan p l ≡ failed e
      → plan ≡ logs
  unfolding follow
  follow-failed (block_param i) p l e h = no_error (clean_block_number codec fetch p i l) h
    where
      no_error :
          (o : Outcome ParamsError (Value × ℕ))
          → recover codec fetch p l o ≡ failed e
          → block_param i ≡ logs
      no_error (done r) h = cc
      no_error (failed e) h = cc
      no_error panics h = cc
  follow-failed logs p l e h = refl
  follow-failed _ p l e h = cc

  with_params-failed :
      (plan : Plan) (params : Option Value) (l : ℕ) (e : ParamsError)
      → with_params codec fetch plan params l ≡ failed e
      → plan ≡ logs
  unfolding with_params
  with_params-failed plan none l e h = cc
  with_params-failed plan (some p) l e h = ground (arith, follow-failed plan p l e)

  -- An error reaches the caller for `eth_getLogs` only: for every other method an unreadable block
  -- parameter falls back to the head.
  pub block_needed-failed :
      (method : String) (params : Option Value) (l : ℕ) (e : ParamsError)
      → block_needed codec fetch method params l ≡ failed e
      → method_plan method ≡ logs
  unfolding block_needed
  block_needed-failed method params l e h =
      ground (arith, with_params-failed (method_plan method) params l e)
