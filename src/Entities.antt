-- ===== src/Entities.antt =====
-- The enumerations of entities/src/sea_orm_active_enums.rs. Their constructors are written with the
-- type's name.
use Prim.Native.String.{String}

pub data LogLevel : Type 0 where
  none aggregated detailed : LogLevel

-- The kinds of call whose reverts are saved.
pub data Method : Type 0 where
  eth_call eth_estimate_gas eth_send_raw_transaction : Method

unfoldable pub method_name : Method → String
method_name Method.eth_call = "eth_call"
method_name Method.eth_estimate_gas = "eth_estimateGas"
method_name Method.eth_send_raw_transaction = "eth_sendRawTransaction"
