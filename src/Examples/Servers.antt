-- ===== src/Examples/Servers.antt =====
-- Requests at the servers. A JSON value is a number.
use madrpc.Prelude.{
  zero, suc, subst, some_inj, ℕ, ◌≡◌, ◌⊎◌, inr, refl, String, true, none, some, List, [], ◌∷◌,
  arith, ℕ_discrete,
}
use madrpc.Prelude.Text.{str_dec}
use madrpc.Prelude.HashMap.{get, insert, alter}
use madrpc.Protocol.{
  java_script_execution, Result, ok, err, JsonRpcRequest, JsonRpcResponse, failure, server_error,
  node_unavailable,
}
use madrpc.Builtin.{Json}
use madrpc.Auth.{with_api_key}
use madrpc.Auth.Equality.{AreBytes}
use madrpc.RateLimit.{
  RateLimiter, allowed, check_rate_limit, maybe_cleanup, try_consume, new_bucket,
}
use madrpc.Metrics.Registry.{State, default_metrics_config, registry_with_config}
use madrpc.Metrics.Registry.Counters.{IsBalanced}
use madrpc.Metrics.Registry.Events.{empty-IsBalanced}
use madrpc.Transport.{HttpResponse}
use madrpc.LoadBalancer.{collect_nodes, with_config, next_node, scan, selectable}
use madrpc.LoadBalancer.Selection.{picked}
use madrpc.Node
use madrpc.Orchestrator.{default_retry}
use madrpc.Orchestrator.Router.{Service, World, handle_request}
use madrpc.Orchestrator.Router.Answers.{Answered, handle_request-Answered}
use madrpc.Orchestrator.HttpServer.{HttpRequest, readable, handle_jsonrpc}
use madrpc.Orchestrator.HttpServer.Gate.{Handled, Refused, handle_jsonrpc-Gated}
use madrpc.Server.{NodeWorld, elapsed, default_limits, call_rpc, rpc_error, handle_node_request}
use madrpc.Server.{NodeHttpRequest, handle_http_request}
use madrpc.Server.Gate.{Served, Declined, handle_http_request-Screened}
use madrpc.Server.Relay.{received, Relayed, handle_request-Relayed}
use madrpc.Server.Registration.{
  Registering, register_with_orchestrator, doubling, Attempted,
  register_with_orchestrator-Attempted,
}
use madrpc.Examples.Numbers.{whole}
use madrpc.Examples.Balancer.{pair}

abbrev json : Json ℕ
json = record {
  null = 0;
  show = λ n. "n";
  from_slice = λ body. inr (record { jsonrpc = "2.0"; method = "add"; params = 3; id = 9 });
  node_url = λ v. inr "http://c:3";
  of_id = λ n. n;
  of_metrics = λ m. 1;
  of_info = λ i. 2;
  of_server = λ s. 3;
  of_health = λ h. 4;
  of_registration = λ r. 5;
}

abbrev add : ℕ → JsonRpcRequest ℕ
add id = record { jsonrpc = "2.0"; method = "add"; params = 3; id = id }

abbrev pub metrics : State
metrics = record {
  clock = record { timestamp_fallback = 0; last_timestamp = 0 };
  registry = registry_with_config default_metrics_config;
}

abbrev service : Service whole
service = record { balancer = pair; metrics = metrics }

pub metrics-IsBalanced : IsBalanced metrics.registry
metrics-IsBalanced = empty-IsBalanced default_metrics_config

-- On the node the call takes too long.
abbrev too_long : String
too_long = "JavaScript execution exceeded time limit of nms"

abbrev node_answer : JsonRpcResponse ℕ
node_answer = failure 5 (server_error too_long)

abbrev node_world : NodeWorld ℕ
node_world = record {
  execute = λ method params. elapsed;
  system_time = none;
  start = 0;
  end_ = 0;
  uptime_ms = 0;
}

abbrev world : World whole ℕ
world = record {
  send = λ method params k addr. received 0 "OK" node_answer;
  others = λ k lb. lb;
  clock = λ k. 7;
  system_time = some 1;
  start = 0;
  end_ = 5000000;
  uptime_ms = 0;
}

handle_request-Answered_example :
    (s' : Service whole) × (r : JsonRpcResponse ℕ) × (handle_request json "0.1.0"
        (default_retry whole)
        world
        (add 9)
        service
      ≡ some (s', r))
    × Answered json "0.1.0" (default_retry whole) world (add 9) service s' r
handle_request-Answered_example =
    handle_request-Answered json "0.1.0" (default_retry whole) world (add 9) service
      metrics-IsBalanced

handle_request-Relayed_example :
    (s' : Service whole) × (response : JsonRpcResponse ℕ) × (handle_request json "0.1.0"
        (default_retry whole)
        world
        (add 9)
        service
      ≡ some (s', response))
    × (s'.balancer ≡ picked pair "a:1" 1 7)
    × Relayed {V = ℕ} (err (java_script_execution too_long)) (received 0 "OK" response)
unfolding handle_node_request call_rpc rpc_error next_node scan selectable with_config collect_nodes
    get insert alter str_dec Node.new
handle_request-Relayed_example =
    handle_request-Relayed json "0.1.0" (default_retry whole) world default_limits node_world
      (add 9) (add 5) service metrics metrics (picked pair "a:1" 1 7) "a:1" "OK"
      (err (java_script_execution too_long)) node_answer refl refl metrics-IsBalanced refl refl refl
      refl

-- A request with the right key.
abbrev request : HttpRequest ℕ
request = record {
  client_ip = 1;
  x_api_key = some (readable (107 ∷ []) "k");
  content_type = some (readable [] "application/json");
  body = 123 ∷ 125 ∷ [];
}

key-AreBytes :
    (expected : List ℕ) → (with_api_key (107 ∷ [])).api_key ≡ some expected → AreBytes expected
unfolding with_api_key
key-AreBytes expected e = subst AreBytes (some_inj e) (omega arith, tt)

abbrev limiter : RateLimiter whole ℕ
limiter = record {
  config = record {
    requests_per_second = whole.of_ℕ 2;
    burst_size = 3;
    cleanup_interval = 60000000000;
    entry_ttl = 300000000000;
  };
  buckets = [];
  last_cleanup = 0;
}

handle_jsonrpc-Gated_example :
    (s' : Service whole) × (response : HttpResponse ℕ) × (handle_jsonrpc ℕ_discrete json "0.1.0"
        (default_retry whole)
        world
        (with_api_key (107 ∷ []))
        request
        7
        limiter
        service
      ≡ some ((check_rate_limit ℕ_discrete 1 7 limiter).0, s', response))
    × (Handled ℕ_discrete json "0.1.0"
          (default_retry whole)
          world
          (with_api_key (107 ∷ []))
          request
          service
          allowed
          s'
          response
        ⊎ ((s' ≡ service)
            × Refused ℕ_discrete json "0.1.0"
                (default_retry whole)
                world
                (with_api_key (107 ∷ []))
                request
                service
                allowed
                response.status))
unfolding check_rate_limit maybe_cleanup try_consume new_bucket get whole
handle_jsonrpc-Gated_example =
    handle_jsonrpc-Gated ℕ_discrete json "0.1.0" (default_retry whole) world
      (with_api_key (107 ∷ [])) request service 7 limiter allowed (omega arith, tt) key-AreBytes
      metrics-IsBalanced refl

-- The orchestrator answers the third call.
abbrev late : ℕ → Result ℕ
late zero = err (node_unavailable "x")
late (suc zero) = err (node_unavailable "x")
late (suc (suc zero)) = err (node_unavailable "x")
late (suc (suc (suc k))) = ok 1

register_with_orchestrator-Attempted_example :
    (r : Registering) × (register_with_orchestrator (λ n. "n") late true 5 ≡ some r)
    × Attempted (λ n. "n") late 0 (doubling 500000000) r
register_with_orchestrator-Attempted_example =
    register_with_orchestrator-Attempted (λ n. "n") late 5 (omega arith)

-- The same key at the node.
abbrev node_request : NodeHttpRequest ℕ
node_request = record {
  client_ip = 1;
  x_api_key = some (readable (107 ∷ []) "k");
  is_post = true;
  body = inr (123 ∷ 125 ∷ []);
}

handle_http_request-Screened_example :
    (metrics' : State) × (response : HttpResponse ℕ) × (handle_http_request whole ℕ_discrete json
        "0.1.0" default_limits node_world
        (with_api_key (107 ∷ []))
        node_request
        7
        limiter
        metrics
      ≡ some ((check_rate_limit ℕ_discrete 1 7 limiter).0, metrics', response))
    × (Served whole ℕ_discrete json "0.1.0" default_limits node_world
          (with_api_key (107 ∷ []))
          node_request
          metrics
          allowed
          metrics'
          response
        ⊎ ((metrics' ≡ metrics)
            × Declined whole ℕ_discrete json "0.1.0" default_limits node_world
                (with_api_key (107 ∷ []))
                node_request
                metrics
                allowed
                response))
unfolding check_rate_limit maybe_cleanup try_consume new_bucket get whole
handle_http_request-Screened_example =
    handle_http_request-Screened whole ℕ_discrete json "0.1.0" default_limits node_world
      (with_api_key (107 ∷ [])) node_request metrics 7 limiter allowed (omega arith, tt)
      key-AreBytes metrics-IsBalanced refl
