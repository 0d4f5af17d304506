-- ===== src/JsonRpc.antt =====
-- Requests and responses: web3_proxy/src/jsonrpc.rs. A `RawValue` is its text. What serde reads of an
-- object is the list of its fields, in which `none` is an error of serde; of an array, the list of its
-- elements. The text of a value and of an error are passed in where one is needed.
use Prim.Native.String.{String}
use web3_proxy.Prelude.{ℕ, Option, none, some, List, [], ◌∷◌}
use web3_proxy.Prelude.Results.{Result, ok, err}
use web3_proxy.Prelude.Outcomes.{Outcome, done, failed, panics}
use web3_proxy.Json.{Value, array, nil}

pub record JsonRpcRequest : Type 0 where
  pub jsonrpc : String
  pub id : String
  pub method : String
  pub params : Option Value

pub data JsonRpcRequestEnum : Type 0 where
  batch : List JsonRpcRequest → JsonRpcRequestEnum
  single : JsonRpcRequest → JsonRpcRequestEnum

pub data Field : Type 0 where
  jsonrpc_field id_field method_field : String → Field
  params_field : Value → Field

pub data ParseError : Type 0 where
  bad_field : ParseError
  duplicate_field missing_field : String → ParseError

-- The variables of `visit_map`.
pub record Seen : Type 0 where
  pub jsonrpc : Option String
  pub id : Option String
  pub method : Option String
  pub params : Option Value

abbrev set_once : {A : Type 0} → String → Option A → A → (Option A → Seen) → Result ParseError Seen
set_once name none a put = ok (put (some a))
set_once name (some b) a put = err (duplicate_field name)

unfoldable pub visit_field : Seen → Field → Result ParseError Seen
visit_field s (jsonrpc_field x) = ok (record s { jsonrpc = some x })
visit_field s (id_field x) = set_once "id" s.id x (λ o. record s { id = o })
visit_field s (method_field x) = set_once "method" s.method x (λ o. record s { method = o })
visit_field s (params_field x) = set_once "params" s.params x (λ o. record s { params = o })

unfoldable pub visit_fields : Seen → List (Option Field) → Result ParseError Seen
visit_fields s [] = ok s
visit_fields s (none ∷ fields) = err bad_field
visit_fields s (some f ∷ fields) = elim (visit_field s f) [
  | err e ↦ err e
  | ok s' ↦ visit_fields s' fields
]

abbrev or_version : Option String → String
or_version none = "2.0"
or_version (some x) = x

abbrev pub or_no_params : Option Value → Value
or_no_params none = array nil
or_no_params (some x) = x

unfoldable pub finish_request : Seen → Result ParseError JsonRpcRequest
finish_request s = elim s.id [
  | none ↦ err (missing_field "id")
  | some id ↦ elim s.method [
    | none ↦ err (missing_field "method")
    | some method ↦ ok (record {
      jsonrpc = or_version s.jsonrpc;
      id = id;
      method = method;
      params = some (or_no_params s.params);
    })
  ]
]

abbrev pub nothing_seen : Seen
nothing_seen = record { jsonrpc = none; id = none; method = none; params = none }

unfoldable pub visit_map : List (Option Field) → Result ParseError JsonRpcRequest
visit_map fields = elim (visit_fields nothing_seen fields) [
  | err e ↦ err e
  | ok s ↦ finish_request s
]

-- The elements up to the first that is no request.
unfoldable pub visit_seq : List (Option JsonRpcRequest) → List JsonRpcRequest
visit_seq [] = []
visit_seq (none ∷ xs) = []
visit_seq (some r ∷ xs) = r ∷ visit_seq xs

-- A code is an `i64`, of which the negative ones are written here without their sign.
pub data Code : Type 0 where
  minus plus : ℕ → Code

pub record JsonRpcErrorData : Type 0 where
  pub code : Code
  pub message : String
  pub data_of_error : Option Value

pub record JsonRpcForwardedResponse : Type 0 where
  pub jsonrpc : String
  pub id : String
  pub result : Option String
  pub error : Option JsonRpcErrorData

abbrev or_null : Option String → String
or_null none = "null"
or_null (some id) = id

abbrev or_internal : Option Code → Code
or_internal none = minus 32099
or_internal (some code) = code

unfoldable pub from_string :
    (message : String) → Option Code → (id : Option String) → JsonRpcForwardedResponse
from_string message code id = record {
  jsonrpc = "2.0";
  id = or_null id;
  result = none;
  error = some (record { code = or_internal code; message = message; data_of_error = none });
}

unfoldable pub from_response : (partial_response id : String) → JsonRpcForwardedResponse
from_response partial_response id = record {
  jsonrpc = "2.0";
  id = id;
  result = some partial_response;
  error = none;
}

-- `HttpClientError` and `WsClientError`: a JSON-RPC error, or anything else.
pub data ClientError : Type 0 where
  json_rpc_error : JsonRpcErrorData → ClientError
  other_client_error : ClientError

-- `ProviderError` of ethers: an error of a client, which is told by its type, or anything else.
pub data ProviderError : Type 0 where
  http_client_error ws_client_error : ClientError → ProviderError
  unknown_client_error : ProviderError
  other_error : ProviderError

error_response : (id : String) → JsonRpcErrorData → JsonRpcForwardedResponse
error_response id e = record { jsonrpc = "2.0"; id = id; result = none; error = some e }

from_client_error :
    (whole : ProviderError)
    → ClientError
    → (id : String) → Outcome ProviderError JsonRpcForwardedResponse
unfolding error_response
from_client_error whole (json_rpc_error e) id = done (error_response id e)
from_client_error whole other_client_error id = failed whole

-- An error that is not of JSON-RPC is passed on as it is.
unfoldable pub from_ethers_error :
    ProviderError → (id : String) → Outcome ProviderError JsonRpcForwardedResponse
unfolding from_client_error
from_ethers_error (http_client_error e) id = from_client_error (http_client_error e) e id
from_ethers_error (ws_client_error e) id = from_client_error (ws_client_error e) e id
from_ethers_error unknown_client_error id = panics
from_ethers_error other_error id = failed other_error

unfoldable pub try_from_response_result :
    Result ProviderError String → (id : String) → Outcome ProviderError JsonRpcForwardedResponse
try_from_response_result (ok response) id = done (from_response response id)
try_from_response_result (err e) id = from_ethers_error e id
