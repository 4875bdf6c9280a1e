-- ===== src/Examples/Nodes.antt =====
-- A node whose script gives a promise that is settled with 5.
use madrpc.Prelude.{ℕ, ◌≡◌, refl, none, some, inr, arith, true}
use madrpc.Protocol.{Result, ok}
use madrpc.Builtin.{Json}
use madrpc.Metrics.Registry.{State}
use madrpc.Metrics.Registry.Accounts.{Counted}
use madrpc.Runtime.{JsonValue, null, number}
use madrpc.Runtime.Conversions.{js_value_to_json, json_to_js_value}
use madrpc.Runtime.Context.{
  Builder, MadrpcContext, with_client_from_source, fulfilled, wait_promise, call_rpc_async,
  get_function, get_registry, apply_function,
}
use madrpc.Runtime.Context.Waiting.{after}
use madrpc.Server.{NodeWorld, finished, default_limits, call_rpc}
use madrpc.Server.Script.{CallTask, Settles, execute, call_rpc-scripted}
use madrpc.Examples.Numbers.{whole}
use madrpc.Examples.Scripts.{realm, polls, called, pending_once, settled_twice}
use madrpc.Examples.Servers.{metrics, metrics-IsBalanced}

abbrev json : Json (JsonValue ℕ)
json = record {
  null = null;
  show = λ n. "n";
  from_slice = λ body. inr (record { jsonrpc = "2.0"; method = "pi"; params = null; id = null });
  node_url = λ v. inr "http://c:3";
  of_id = λ n. number n;
  of_metrics = λ m. null;
  of_info = λ i. null;
  of_server = λ s. null;
  of_health = λ h. null;
  of_registration = λ r. null;
}

abbrev builder : Builder ℕ ℕ
builder = record {
  build = inr 0;
  install = λ client c. ok c;
  eval = λ source c. inr c;
  read_to_string = λ path. inr path;
}

abbrev context : MadrpcContext ℕ ℕ
context = record { ctx = 0; client = none }

abbrev world : NodeWorld (JsonValue ℕ)
world = record {
  execute = λ method params. finished (ok (number 5));
  system_time = some 1;
  start = 0;
  end_ = 5000000;
  uptime_ms = 0;
}

abbrev call_task : CallTask
call_task = record { runtime_missing = none; in_time = true; join_failure = none }

made : with_client_from_source builder "pi" none ≡ ok context
unfolding with_client_from_source
made = refl

runs : execute realm builder call_task polls 2 "pi" none "pi" null ≡ some (world.execute "pi" null)
unfolding execute with_client_from_source call_rpc_async get_function get_registry apply_function
    json_to_js_value wait_promise js_value_to_json
runs = refl

call_rpc-scripted_example :
    (metrics' : State) × (r : Result (JsonValue ℕ)) × (n : ℕ) × (call_rpc whole json "0.1.0"
        default_limits world "pi" null metrics
      ≡ some (metrics', r))
    × Settles realm (after realm 2 0) (fulfilled 5) r n
    × Counted metrics.registry metrics'.registry 1 n 0 0
call_rpc-scripted_example =
    call_rpc-scripted realm builder whole json "0.1.0" default_limits world metrics call_task polls
      1 2 "pi" none "pi" null context 7 0 (fulfilled 5) refl refl refl runs made called refl
      (λ k. omega arith) pending_once settled_twice (λ e. cc e) (omega arith) (omega arith)
      metrics-IsBalanced
