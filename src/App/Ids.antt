-- ===== src/App/Ids.antt =====
-- Every response carries the id of its request.
use Prim.Native.String.{String}
use mathlib.Core.List.{Memᴰ}
use web3_proxy.Prelude.{◌≡◌, refl, ◌⊎◌, List, [], ◌∷◌}
use web3_proxy.Prelude.Outcomes.{Outcome, done, failed, panics}
use web3_proxy.JsonRpc.{JsonRpcRequest, JsonRpcForwardedResponse, Code, from_string}
use web3_proxy.Rpc.{Web3Rpc}
use web3_proxy.Authorization.{Authorization}
use web3_proxy.App.{AppError, AppConfig, AppEnv, Reply}
use web3_proxy.App.Yields.{Holds, Yields}
use web3_proxy.App.Methods.{Arm, estimate_gas, send_raw_transaction, arm_of}
use web3_proxy.App.Replies.{invalid_request}

abbrev pub HasId : String → Reply → Type 0
HasId id (response, rpcs) = response.id ≡ id

-- The two methods whose response is that of a server, with the id that the server wrote.
abbrev pub IsPassedOn : Arm → Type 0
IsPassedOn arm = (arm ≡ estimate_gas) ⊎ (arm ≡ send_raw_transaction)

-- The response carries the id of the request, unless the method is one of the two.
abbrev pub IsOwn : JsonRpcRequest → JsonRpcForwardedResponse → Type 0
IsOwn r response = IsPassedOn (arm_of r.method) ⊎ (response.id ≡ r.id)

module _ (env : AppEnv) (config : AppConfig) where
  invalid_request-HasId :
      (code : Code) (r : JsonRpcRequest) → Yields (HasId r.id) (invalid_request env config code r)
  unfolding invalid_request from_string
  invalid_request-HasId code r = record { all = λ s m. refl }

  -- A response for every request, in their order, each its own.
  abbrev pub IsBatch : List JsonRpcRequest → List JsonRpcForwardedResponse → Type 0
  IsBatch [] [] = Unit
  IsBatch [] (response ∷ responses) = ⊥
  IsBatch (r ∷ rs) [] = ⊥
  IsBatch (r ∷ rs) (response ∷ responses) = IsOwn r response × IsBatch rs responses

  -- The outcomes belong to the requests, one after another.
  abbrev Match : List JsonRpcRequest → List (Outcome AppError Reply) → Type 0
  Match [] [] = Unit
  Match [] (outcome ∷ outcomes) = ⊥
  Match (r ∷ rs) [] = ⊥
  Match (r ∷ rs) (outcome ∷ outcomes) = Holds (λ x. IsOwn r x.0) outcome × Match rs outcomes

  -- An error or a panic of one request is that of the whole batch.
  abbrev pub Ends :
      List JsonRpcRequest
      → List (Outcome AppError Reply)
      → Outcome AppError (List JsonRpcForwardedResponse × List Web3Rpc)
      → Type 0
  Ends rs outcomes (done (responses, rpcs)) = IsBatch rs responses
  Ends rs outcomes (failed e) = Memᴰ (failed e) outcomes
  Ends rs outcomes panics = Memᴰ panics outcomes
