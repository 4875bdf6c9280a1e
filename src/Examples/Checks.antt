-- ===== src/Examples/Checks.antt =====
-- Rounds of health checks on two nodes, and circuit timeouts.
use madrpc.Prelude.{
  ◌*◌, ◌^◌, ◌≡◌, refl, String, Option, none, some, [], ◌∷◌, arith, ltb, min, if◌then◌else◌,
}
use madrpc.Prelude.Text.{str_dec}
use madrpc.Prelude.HashMap.{get, insert}
use mathlib.Core.Option
use madrpc.Node
use madrpc.Node.{Node, default_circuit_config, calculate_timeout, manual, health_check, is_manual}
use madrpc.Node.Timeout.{calculate_timeout-default}
use madrpc.LoadBalancer.{collect_nodes, with_config}
use madrpc.HealthChecker.{default_health_config, check_all_nodes, run}
use madrpc.HealthChecker.Pointwise.{round_of, check_all_nodes-round_of}
use madrpc.HealthChecker.Rounds.{AlwaysFails, run-threshold}
use madrpc.Examples.Numbers.{whole, whole-IsExact}
use madrpc.Examples.Balancer.{breaker, pair, pair-IsValid, node_a}

-- No node answers.
abbrev down : Node → Option String
down n = some "connection refused"

-- Every node answers.
abbrev up : Node → Option String
up n = none

down-AlwaysFails : AlwaysFails down "a:1"
down-AlwaysFails n e = ("connection refused", refl)

run-threshold_example :
    (r : Node) × (get str_dec "a:1" (run default_health_config down (1 ∷ 2 ∷ 3 ∷ []) pair).nodes
      ≡ some r)
    × (r.consecutive_failures ≡ 3)
    × (r.enabled ≡ ltb 3 3)
    × (r.disable_reason ≡ (if ltb 3 3 then none else some health_check))
unfolding with_config collect_nodes get insert str_dec Node.new
run-threshold_example =
    run-threshold default_health_config down "a:1" (1 ∷ 2 ∷ 3 ∷ []) pair node_a pair-IsValid
      down-AlwaysFails (omega arith) (omega arith) refl refl refl

check_all_nodes-round_of_example :
    get str_dec "b:2" (check_all_nodes default_health_config down 1 pair).nodes
    ≡ Option.map (round_of default_health_config down breaker 1) (get str_dec "b:2" pair.nodes)
unfolding with_config
check_all_nodes-round_of_example =
    check_all_nodes-round_of default_health_config down 1 pair "b:2" pair-IsValid

calculate_timeout-default_example :
    calculate_timeout (default_circuit_config whole) 3 ≡ min (30000 * 2 ^ 2) 300000
calculate_timeout-default_example = calculate_timeout-default whole whole-IsExact 2 (omega arith)
