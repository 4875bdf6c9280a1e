-- ===== src/Transport.antt =====
-- crates/madrpc-common/src/transport/http.rs: bodies and responses. A body is the list of its bytes. The
-- serialized form of a response is left as the message.
use madrpc.Prelude.{ℕ, ◌*◌, String, ◌⊎◌, inl, inr, Option, none, List, ltb, length, if◌then◌else◌}
use madrpc.Protocol.{
  json_serialization, payload_too_large, Result, ok, err, JsonRpcRequest, JsonRpcError,
  JsonRpcResponse, failure,
}

abbrev pub max_payload_size : ℕ
max_payload_size = 10 * 1024 * 1024

-- `limited` is the body that tells when to retry.
pub data Content (V : Type 0) : Type 0 where
  message : JsonRpcResponse V → Content V
  plain_text : String → Content V
  limited : String → Content V

-- A status, the header Retry-After, and the body.
pub record HttpResponse (V : Type 0) : Type 0 where
  pub status : ℕ
  pub retry_after : Option String
  pub content : Content V

-- `from_slice` is serde_json's, with the text of an error.
unfoldable pub parse_jsonrpc :
    {V : Type 0} → (List ℕ → String ⊎ JsonRpcRequest V) → List ℕ → Result (JsonRpcRequest V)
parse_jsonrpc from_slice body =
    if ltb max_payload_size (length body)
    then err (payload_too_large (length body) max_payload_size)
    else elim (from_slice body) [ inl e ↦ err (json_serialization e) | inr req ↦ ok req ]

unfoldable pub build_request :
    {V : Type 0} → (JsonRpcRequest V → String ⊎ List ℕ) → String → V → V → Result (JsonRpcRequest V)
build_request {V} to_vec method params id =
    let request : JsonRpcRequest V = record {
      jsonrpc = "2.0";
      method = method;
      params = params;
      id = id;
    } in
    elim (to_vec request) [
      | inl e ↦ err (json_serialization e)
      | inr serialized ↦
          if ltb max_payload_size (length serialized)
          then err (payload_too_large (length serialized) max_payload_size)
          else ok request
    ]

unfoldable pub to_http_response_with_status : {V : Type 0} → JsonRpcResponse V → ℕ → HttpResponse V
to_http_response_with_status jsonrpc status = record {
  status = status;
  retry_after = none;
  content = message jsonrpc;
}

unfoldable pub to_http_response : {V : Type 0} → JsonRpcResponse V → HttpResponse V
to_http_response jsonrpc = record { status = 200; retry_after = none; content = message jsonrpc }

unfoldable pub to_http_error : {V : Type 0} → V → JsonRpcError V → HttpResponse V
to_http_error id error = to_http_response (failure id error)
