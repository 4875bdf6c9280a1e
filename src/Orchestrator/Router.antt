-- ===== src/Orchestrator/Router.antt =====
-- crates/madrpc-orchestrator/src/http_router.rs, and of orchestrator.rs and load_balancer.rs what it
-- calls: the built-in methods, and a request that is forwarded, with the metrics that it leaves. What
-- the world answers while a request is handled is an argument, `World`.
pub mod Answers
use Prim.Native.String.{◌++◌ as ◌<>◌}
use text.Mathlib.Text.{◌==◌}
use madrpc.Prelude.{
  ℕ, zero, suc, ◌+◌, ◌-◌, ◌/◌, String, Bool, true, false, ◌||◌, Option, none, some, List, [], ◌∷◌,
  inl, inr, if◌then◌else◌, length, map,
}
use mathlib.Core.Option
use madrpc.Prelude.Text.{str_dec}
use madrpc.Prelude.Word.{u64}
use madrpc.Prelude.HashMap.{insert}
use madrpc.Float.{F64}
use madrpc.Protocol.{
  MadrpcError, Result, ok, err, display, JsonRpcRequest, JsonRpcError, JsonRpcResponse, success,
  failure, server_error, invalid_params, node_registration_error,
}
use madrpc.Builtin.{
  OrchestratorNodeInfo, OrchestratorInfo, InfoResponse, orchestrator_info, ServerBase, orchestrator,
  Json, NodeRegistrationResponse,
}
use madrpc.Metrics.Recording.{MetricsSnapshot, NodeMetrics, snapshot, is_metrics_request}
use madrpc.Metrics.Registry.{State}
use madrpc.Metrics.Registry.Events.{Event, called, report_all}
use madrpc.Metrics.Registry.Events
use madrpc.Node.{Node, DisableReason, CircuitBreakerState, closed, open_, half_open}
use madrpc.Node
use madrpc.LoadBalancer.{LoadBalancer, all_nodes}
use madrpc.Orchestrator.{
  RetryConfig, Effect, node_requested, slept, call_recorded, Forwarded, forward, register_node,
}

-- The state that the requests share.
pub record Service (F : F64) : Type 0 where
  pub balancer : LoadBalancer F
  pub metrics : State

-- What nodes, clocks and other tasks do during one request: the answer of a node to the k-th attempt,
-- by method, parameters and address; the balancer after the k-th wait; the clock at the k-th attempt;
-- the system's time; the start and the end in nanoseconds; and the uptime.
pub record World (F : F64) (V : Type 0) : Type 0 where
  pub send : String → V → ℕ → String → Result V
  pub others : ℕ → LoadBalancer F → LoadBalancer F
  pub clock : ℕ → ℕ
  pub system_time : Option ℕ
  pub start : ℕ
  pub end_ : ℕ
  pub uptime_ms : ℕ

-- `format!("{:?}", ..)`.
unfoldable pub reason_text : DisableReason → String
reason_text DisableReason.manual = "Manual"
reason_text DisableReason.health_check = "HealthCheck"

unfoldable pub circuit_text : CircuitBreakerState → String
circuit_text closed = "Closed"
circuit_text open_ = "Open"
circuit_text half_open = "HalfOpen"

abbrev pub millis_of : Option ℕ → ℕ
millis_of none = 0
millis_of (some nanos) = u64 (nanos / 1000000)

unfoldable pub collect_metrics :
    List (String × NodeMetrics) → List (String × Node) → List (String × NodeMetrics)
collect_metrics acc [] = acc
collect_metrics acc ((addr, n) ∷ m) =
    let metrics : NodeMetrics = record {
      node_addr = n.addr;
      request_count = n.request_count;
      last_request_ms = millis_of n.last_request_time;
    } in
    collect_metrics (insert str_dec n.addr metrics acc) m

unfoldable pub node_metrics : {F : F64} → LoadBalancer F → List (String × NodeMetrics)
node_metrics lb = collect_metrics [] lb.nodes

unfoldable pub node_infos : List Node → List OrchestratorNodeInfo
node_infos [] = []
node_infos (n ∷ ns) =
    record {
      addr = n.addr;
      enabled = n.enabled;
      disable_reason = Option.map reason_text n.disable_reason;
      circuit_state = circuit_text n.circuit_state;
      consecutive_failures = n.consecutive_failures;
    }
    ∷ node_infos ns

unfoldable pub count_enabled : List Node → ℕ
count_enabled [] = 0
count_enabled (n ∷ ns) = let rest = count_enabled ns in if n.enabled then suc rest else rest

-- `record_node_request` and `record_call`, as the registry sees them.
unfoldable pub events_of : Option ℕ → String → ℕ → List Effect → List Event
events_of now method latency_us [] = []
events_of now method latency_us (node_requested addr ∷ xs) =
    Event.node_requested now addr ∷ events_of now method latency_us xs
events_of now method latency_us (slept ms ∷ xs) = events_of now method latency_us xs
events_of now method latency_us (call_recorded flag ∷ xs) =
    called now method latency_us flag ∷ events_of now method latency_us xs

module _ {F : F64} {V : Type 0} (J : Json V) (version : String) (config : RetryConfig F)
    (w : World F V) where
  unfoldable pub get_metrics : Service F → Result MetricsSnapshot
  get_metrics s = ok (record (snapshot F true w.uptime_ms s.metrics.registry) {
    nodes = some (node_metrics s.balancer);
  })

  unfoldable pub get_info : Service F → Result InfoResponse
  get_info s =
      let nodes = all_nodes s.balancer in
      ok (
        orchestrator_info (record {
          version = version;
          uptime_ms = w.uptime_ms;
          total_nodes = length nodes;
          enabled_nodes = count_enabled nodes;
          disabled_nodes = length nodes - count_enabled nodes;
          nodes = node_infos nodes;
        }))

  -- The collector's own answers. The last arm is `unreachable!`.
  unfoldable pub handle_metrics_request : String → Service F → Option V
  handle_metrics_request method s =
      if method == "_metrics"
      then some (J.of_metrics (snapshot F true w.uptime_ms s.metrics.registry))
      else if method == "_info"
      then some (
          J.of_server
            (record { server_type = orchestrator; version = version; uptime_ms = w.uptime_ms }))
      else none

  abbrev pub no_nodes_message : ℕ → String
  no_nodes_message attempt =
      "No available nodes (attempt "
      <> J.show (attempt + 1)
      <> "/"
      <> J.show (config.max_retries + 1)
      <> ")"

  -- `none` is a panic.
  unfoldable pub forward_request_jsonrpc :
      JsonRpcRequest V → Service F → Option (Service F × Result V)
  forward_request_jsonrpc req s =
      if is_metrics_request req.method
      then elim (handle_metrics_request req.method s) [ none ↦ none | some v ↦ some (s, ok v) ]
      else elim (forward config (w.send req.method req.params) w.others no_nodes_message w.clock
          s.balancer) [
            | none ↦ none
            | some r ↦
                elim (report_all
                  (events_of w.system_time req.method (u64 ((w.end_ - w.start) / 1000)) r.effects)
                  s.metrics) [
                    | none ↦ none
                    | some metrics ↦
                        some (record { balancer = r.balancer; metrics = metrics }, r.result)
                  ]
          ]

  -- The answer to a result, with the error that the arm makes.
  abbrev pub respond :
      V → {A : Type 0} → (A → V) → (String → JsonRpcError V) → Result A → JsonRpcResponse V
  respond id to_value to_error (ok a) = success id (to_value a)
  respond id to_value to_error (err e) = failure id (to_error (display J.show e))

  unfoldable pub forward_to_node :
      JsonRpcRequest V → Service F → Option (Service F × JsonRpcResponse V)
  forward_to_node req s = elim (forward_request_jsonrpc req s) [
    | none ↦ none
    | some (s', result) ↦ some (s', respond req.id (λ v. v) server_error result)
  ]

  unfoldable pub handle_register : JsonRpcRequest V → Service F → Service F × JsonRpcResponse V
  handle_register req s = elim (J.node_url req.params) [
    | inl e ↦ (s, failure req.id (invalid_params ("Invalid registration params: " <> e)))
    | inr node_url ↦
        let (lb, result) = register_node node_url s.balancer in
        (
          record s { balancer = lb },
          respond req.id J.of_registration node_registration_error result,
        )
  ]

  unfoldable pub handle_request :
      JsonRpcRequest V → Service F → Option (Service F × JsonRpcResponse V)
  handle_request req s =
      if req.method == "_metrics"
      then some (s, respond req.id J.of_metrics server_error (get_metrics s))
      else if req.method == "_info"
      then some (s, respond req.id J.of_info server_error (get_info s))
      else if req.method == "_register"
      then some (handle_register req s)
      else forward_to_node req s
