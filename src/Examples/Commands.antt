-- ===== src/Examples/Commands.antt =====
-- A command that starts a node and registers it.
use madrpc.Prelude.{ℕ, String, true, none, some, inr, ltb, ◌≡◌, if◌then◌else◌}
use madrpc.Protocol.{ok, err, transport}
use madrpc.Server.Construction.{Host, Node}
use madrpc.CommandLine.{NodeArgs, Network, Started, run_node}
use madrpc.CommandLine.Starting.{RegistersChecked, ServesRegistered, run_node-Started}

abbrev host : Host
host = record {
  show = λ n. "n";
  exists = λ path. true;
  read_to_string = λ path. inr "madrpc.register('pi', pi)";
  new_client = λ addr. ok tt;
}

abbrev network : Network String ℕ
network = record {
  public_url_var = none;
  answer = λ o u k. if ltb k 2 then err (transport "refused") else ok k;
  parse_addr = λ text. inr text;
  run_server = λ addr. none;
}

abbrev arguments : NodeArgs ℕ
arguments = record {
  script = "pi.js";
  bind = "127.0.0.1:9001";
  orchestrator = some "http://127.0.0.1:8080";
  api_key = none;
  rate_limit_rps = none;
  max_execution_time_ms = 30000;
  public_url = none;
}

run_node-Started_example :
    (s : Started ℕ String Node) × (run_node host network arguments ≡ some s)
    × RegistersChecked host network arguments s
    × ServesRegistered host network arguments s
run_node-Started_example = run_node-Started host network arguments
