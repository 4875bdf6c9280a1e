-- ===== src/Server.antt =====
-- crates/madrpc-server: a node. Its limits (resource_limits.rs), its calls and its registration (node.rs),
-- its router (http_router.rs) and its server (http_server.rs). What the JavaScript engine makes of a call
-- is an argument, `Execution`. Durations are nanoseconds.
pub mod Registration
pub mod Relay
pub mod Answers
pub mod Gate
pub mod OlderProtocol
pub mod Construction
pub mod Script
use Prim.Native.String.{◌++◌ as ◌<>◌}
use text.Mathlib.Text.{◌==◌}
use madrpc.Prelude.{
  ℕ, zero, suc, ◌+◌, ◌-◌, ◌*◌, ◌/◌, ◌⊎◌, inl, inr, String, Bool, true, false, not, ◌&&◌, Option,
  none, some, List, [], ◌∷◌, ltb, length, min, if◌then◌else◌,
}
use madrpc.Float.{F64}
use madrpc.Prelude.Word.{u64}
use madrpc.Protocol.{
  MadrpcError, transport, java_script_execution, invalid_request, Result, ok, err, display,
  JsonRpcRequest, JsonRpcError, JsonRpcResponse, success, failure, method_not_found, server_error,
  internal_error, invalid_request_error, parse_error, request_too_large,
}
use madrpc.Builtin.{Json, healthy_response, InfoResponse, node_info}
use madrpc.Metrics.Registry.{State}
use madrpc.Metrics.Recording.{MetricsSnapshot, snapshot, record_call}
use madrpc.Auth.{AuthConfig, requires_auth, validate_api_key}
use madrpc.RateLimit.{RateLimiter, is_allowed, retry_after, check_rate_limit}
use madrpc.Transport.{HttpResponse, parse_jsonrpc, to_http_response, to_http_error}
use madrpc.Orchestrator.HttpServer.{Header, key_bytes, unauthorized_response, rate_limited_response}

pub record ResourceLimits : Type 0 where
  pub execution_timeout : ℕ

unfoldable pub default_limits : ResourceLimits
default_limits = record { execution_timeout = 30000000000 }

unfoldable pub with_execution_timeout : ℕ → ResourceLimits → ResourceLimits
with_execution_timeout timeout limits = record { execution_timeout = timeout }

abbrev pub as_secs : ℕ → ℕ
as_secs nanos = nanos / 1000000000

-- The text of the error, or none.
unfoldable pub validate_limits : (ℕ → String) → ResourceLimits → Option String
validate_limits show limits =
    if not (ltb 0 limits.execution_timeout)
    then some "execution timeout must be greater than zero"
    else if ltb 3600 (as_secs limits.execution_timeout)
    then some (
        "execution timeout must be <= 1 hour (got "
        <> show (as_secs limits.execution_timeout)
        <> " seconds)")
    else none

-- What becomes of a call within the time limit: no runtime to run it on, the limit reached, the task
-- lost, or the result, of the context or of the function.
pub data Execution (V : Type 0) : Type 0 where
  no_runtime : String → Execution V
  elapsed : Execution V
  not_joined : String → Execution V
  finished : Result V → Execution V

abbrev pub is_success : {V : Type 0} → Result V → Bool
is_success (ok v) = true
is_success (err e) = false

-- What the world does during one request: the end of the call by method and parameters, the system's
-- time, the start and the end in nanoseconds, and the uptime.
pub record NodeWorld (V : Type 0) : Type 0 where
  pub execute : String → V → Execution V
  pub system_time : Option ℕ
  pub start : ℕ
  pub end_ : ℕ
  pub uptime_ms : ℕ

module _ (F : F64) {V : Type 0} (J : Json V) (version : String) (limits : ResourceLimits)
    (w : NodeWorld V) where
  abbrev pub time_limit_error : MadrpcError
  time_limit_error = java_script_execution (
      "JavaScript execution exceeded time limit of "
      <> J.show (limits.execution_timeout / 1000000)
      <> "ms")

  abbrev pub runtime_error : String → MadrpcError
  runtime_error e = java_script_execution ("No tokio runtime: " <> e)

  abbrev pub join_error : String → MadrpcError
  join_error e = java_script_execution ("Task join error: " <> e)

  -- The metrics are recorded for a call that has finished. `none` is a panic.
  unfoldable pub call_rpc : String → V → State → Option (State × Result V)
  call_rpc method params metrics = elim (w.execute method params) [
    | no_runtime e ↦ some (metrics, err (runtime_error e))
    | elapsed ↦ some (metrics, err time_limit_error)
    | not_joined e ↦ some (metrics, err (join_error e))
    | finished result ↦
        elim (record_call w.system_time method w.start w.end_ (is_success result) metrics) [
          | none ↦ none
          | some metrics' ↦ some (metrics', result)
        ]
  ]

  unfoldable pub get_node_metrics : State → Result MetricsSnapshot
  get_node_metrics metrics = ok (snapshot F false w.uptime_ms metrics.registry)

  unfoldable pub get_node_info : Result InfoResponse
  get_node_info = ok (node_info (record { version = version; uptime_ms = w.uptime_ms }))

  -- The error of a response, by the error of the call.
  unfoldable pub rpc_error : MadrpcError → JsonRpcError V
  rpc_error (invalid_request msg) = method_not_found
  rpc_error (java_script_execution msg) = server_error msg
  rpc_error (MadrpcError.transport msg) = method_not_found
  rpc_error (MadrpcError.json_serialization msg) = method_not_found
  rpc_error (MadrpcError.request_timeout ms) = method_not_found
  rpc_error (MadrpcError.node_unavailable msg) = method_not_found
  rpc_error (MadrpcError.invalid_response msg) = method_not_found
  rpc_error MadrpcError.all_nodes_failed = method_not_found
  rpc_error (MadrpcError.io msg) = method_not_found
  rpc_error (MadrpcError.connection msg) = method_not_found
  rpc_error (MadrpcError.pool_timeout ms) = method_not_found
  rpc_error (MadrpcError.pool_exhausted msg) = method_not_found
  rpc_error (MadrpcError.payload_too_large size limit) = method_not_found

  abbrev pub respond_to :
      {A : Type 0} → V → (A → V) → (MadrpcError → JsonRpcError V) → Result A → JsonRpcResponse V
  respond_to id to_value to_error (ok a) = success id (to_value a)
  respond_to id to_value to_error (err e) = failure id (to_error e)

  abbrev pub as_internal : MadrpcError → JsonRpcError V
  as_internal e = internal_error (display J.show e)

  unfoldable pub handle_node_request : JsonRpcRequest V → State → Option (State × JsonRpcResponse V)
  handle_node_request req metrics =
      if req.method == "_health"
      then some (metrics, success req.id (J.of_health healthy_response))
      else if req.method == "_metrics"
      then some (metrics, respond_to req.id J.of_metrics as_internal (get_node_metrics metrics))
      else if req.method == "_info"
      then some (metrics, respond_to req.id J.of_info as_internal get_node_info)
      else elim (call_rpc req.method req.params metrics) [
        | none ↦ none
        | some (metrics', result) ↦ some (metrics', respond_to req.id (λ v. v) rpc_error result)
      ]

abbrev pub max_body_size : ℕ
max_body_size = 10 * 1024 * 1024

-- A request as hyper gives it: whether it is a POST, and its body or the error of reading it.
pub record NodeHttpRequest (IpAddr : Type 0) : Type 0 where
  pub client_ip : IpAddr
  pub x_api_key : Option Header
  pub is_post : Bool
  pub body : String ⊎ List ℕ

module _ (F : F64) {V : Type 0} {IpAddr : Type 0} (ip_dec : Discrete IpAddr) (J : Json V)
    (version : String) (limits : ResourceLimits) (w : NodeWorld V) (auth_config : AuthConfig) where
  -- From the body on.
  unfoldable pub handle_body : List ℕ → State → Option (State × HttpResponse V)
  handle_body body metrics =
      if ltb max_body_size (length body)
      then some (metrics, to_http_error J.null (request_too_large (J.show max_body_size)))
      else elim (parse_jsonrpc J.from_slice body) [
        | err e ↦ some (metrics, to_http_error J.null parse_error)
        | ok jsonrpc_req ↦ elim (handle_node_request F J version limits w jsonrpc_req metrics) [
          | none ↦ none
          | some (metrics', response) ↦ some (metrics', to_http_response response)
        ]
      ]

  unfoldable pub admit_node_request :
      NodeHttpRequest IpAddr → State → Option (State × HttpResponse V)
  admit_node_request req metrics =
      if requires_auth auth_config && not (validate_api_key (key_bytes req.x_api_key) auth_config)
      then some (metrics, unauthorized_response)
      else if not req.is_post
      then some (metrics, to_http_error J.null invalid_request_error)
      else elim req.body [
        | inl e ↦
            some (metrics, to_http_error J.null (internal_error "Failed to read request body"))
        | inr body ↦ handle_body body metrics
      ]

  unfoldable pub handle_http_request :
      NodeHttpRequest IpAddr
      → ℕ
      → RateLimiter F IpAddr
      → State
      → Option (RateLimiter F IpAddr × State × HttpResponse V)
  handle_http_request req now limiter metrics =
      let (limiter', answer) = check_rate_limit ip_dec req.client_ip now limiter in
      elim answer [
        | none ↦ none
        | some rate_limit_result ↦
            if not (is_allowed rate_limit_result)
            then some
                (limiter', metrics, rate_limited_response J.show (retry_after rate_limit_result))
            else elim (admit_node_request req metrics) [
              | none ↦ none
              | some (metrics', response) ↦ some (limiter', metrics', response)
            ]
      ]
