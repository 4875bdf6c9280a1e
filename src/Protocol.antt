-- ===== src/Protocol.antt =====
-- crates/madrpc-common/src/protocol: the errors of the system (error.rs) and the JSON-RPC messages
-- (jsonrpc.rs). A JSON value is a parameter, `V`. The errors of other libraries are their texts.
use Prim.Native.String.{◌++◌}
use madrpc.Prelude.{ℕ, String, Bool, true, false, Option, none, some}
use madrpc.Float.{ℤ, negsuc}

pub data MadrpcError : Type 0 where
  transport : String → MadrpcError
  json_serialization : String → MadrpcError
  request_timeout : ℕ → MadrpcError
  node_unavailable : String → MadrpcError
  java_script_execution : String → MadrpcError
  invalid_response : String → MadrpcError
  all_nodes_failed : MadrpcError
  invalid_request : String → MadrpcError
  io : String → MadrpcError
  connection : String → MadrpcError
  pool_timeout : ℕ → MadrpcError
  pool_exhausted : String → MadrpcError
  payload_too_large : ℕ → ℕ → MadrpcError

unfoldable pub is_retryable : MadrpcError → Bool
is_retryable (transport msg) = true
is_retryable (request_timeout ms) = true
is_retryable (node_unavailable msg) = true
is_retryable (io msg) = true
is_retryable (connection msg) = true
is_retryable (pool_timeout ms) = true
is_retryable (json_serialization msg) = false
is_retryable (java_script_execution msg) = false
is_retryable (invalid_response msg) = false
is_retryable all_nodes_failed = false
is_retryable (invalid_request msg) = false
is_retryable (pool_exhausted msg) = false
is_retryable (payload_too_large size limit) = false

-- The text of an error, with the decimal form of the numbers.
unfoldable pub display : (ℕ → String) → MadrpcError → String
display show (transport msg) = "Transport error: " ++ msg
display show (json_serialization msg) = "JSON serialization error: " ++ msg
display show (request_timeout ms) = "Request timeout after " ++ show ms ++ "ms"
display show (node_unavailable msg) = "Node unavailable: " ++ msg
display show (java_script_execution msg) = "JavaScript execution error: " ++ msg
display show (invalid_response msg) = "Invalid response: " ++ msg
display show all_nodes_failed = "All nodes failed"
display show (invalid_request msg) = "Invalid request: " ++ msg
display show (io msg) = "IO error: " ++ msg
display show (connection msg) = "Connection error: " ++ msg
display show (pool_timeout ms) = "Pool acquisition timeout after " ++ show ms ++ "ms"
display show (pool_exhausted msg) = "Connection pool exhausted for " ++ msg
display show (payload_too_large size limit) =
    "Payload size "
    ++ show size
    ++ " bytes exceeds maximum allowed size of "
    ++ show limit
    ++ " bytes"

-- `Result<T, MadrpcError>`.
pub data Result {ℓ} (A : Type ℓ) : Type ℓ where
  ok : A → Result A
  err : MadrpcError → Result A

pub record JsonRpcRequest (V : Type 0) : Type 0 where
  pub jsonrpc : String
  pub method : String
  pub params : V
  pub id : V

pub record JsonRpcError (V : Type 0) : Type 0 where
  pub code : ℤ  -- i32
  pub message : String
  pub payload : Option V  -- the field `data`

pub record JsonRpcResponse (V : Type 0) : Type 0 where
  pub jsonrpc : String
  pub result : Option V
  pub error : Option (JsonRpcError V)
  pub id : V

-- The codes: `negsuc n` is -(n + 1).
abbrev pub parse_error_code : ℤ
parse_error_code = negsuc 32699

abbrev pub invalid_request_code : ℤ
invalid_request_code = negsuc 32599

abbrev pub method_not_found_code : ℤ
method_not_found_code = negsuc 32600

abbrev pub invalid_params_code : ℤ
invalid_params_code = negsuc 32601

abbrev pub internal_error_code : ℤ
internal_error_code = negsuc 32602

abbrev pub request_too_large_code : ℤ
request_too_large_code = negsuc 32000

abbrev pub node_registration_error_code : ℤ
node_registration_error_code = negsuc 32001

abbrev pub server_error_code : ℤ
server_error_code = negsuc 31999

module _ {V : Type 0} where
  abbrev with_code : ℤ → String → JsonRpcError V
  with_code code message = record { code = code; message = message; payload = none }

  unfoldable pub parse_error : JsonRpcError V
  parse_error = with_code parse_error_code "Parse error"

  unfoldable pub invalid_request_error : JsonRpcError V
  invalid_request_error = with_code invalid_request_code "Invalid Request"

  unfoldable pub method_not_found : JsonRpcError V
  method_not_found = with_code method_not_found_code "Method not found"

  unfoldable pub invalid_params : String → JsonRpcError V
  invalid_params msg = with_code invalid_params_code msg

  unfoldable pub internal_error : String → JsonRpcError V
  internal_error msg = with_code internal_error_code msg

  unfoldable pub server_error : String → JsonRpcError V
  server_error msg = with_code server_error_code msg

  -- The limit comes as the text of the number.
  unfoldable pub request_too_large : String → JsonRpcError V
  request_too_large limit =
      with_code request_too_large_code ("Request body too large (max " ++ limit ++ " bytes)")

  unfoldable pub node_registration_error : String → JsonRpcError V
  node_registration_error msg = with_code node_registration_error_code msg

  unfoldable pub success : V → V → JsonRpcResponse V
  success id result = record { jsonrpc = "2.0"; result = some result; error = none; id = id }

  unfoldable pub failure : V → JsonRpcError V → JsonRpcResponse V
  failure id error = record { jsonrpc = "2.0"; result = none; error = some error; id = id }
