-- ===== src/Examples/Balancer.antt =====
-- Two nodes at work: the theorems on the load balancer.
use text.Mathlib.TextEquality.{eq_iff}
use madrpc.Prelude.{
  ◌≡◌, ◌≢◌, refl, String, true, false, none, some, List, [], ◌∷◌, arith, contains, Distinct,
  some_inj, ltb, if◌then◌else◌, drop, take, ◌++◌, map,
}
use madrpc.Prelude.Text.{str_dec}
use madrpc.Prelude.HashMap.{get, insert, alter, remove}
use madrpc.Node.{
  Node, CircuitBreakerConfig, default_circuit_config, closed, open_, half_open, manual,
  health_check, healthy, unhealthy, should_attempt_half_open, try_transition_to_half_open,
  transition_circuit_state, calculate_timeout, backoff_exponent,
}
use madrpc.Node
use madrpc.LoadBalancer.{
  LoadBalancer, collect_nodes, with_config, next_node, scan, selectable, disable_node,
  auto_enable_node, remove_node, update_health_status, check_timeout, check_timeouts,
  check_circuit_timeouts,
}
use madrpc.LoadBalancer.Health.{apply_status}
use madrpc.LoadBalancer.Invariant.{IsValid}
use madrpc.LoadBalancer.Selection.{Scanned, next_node-Scanned}
use madrpc.LoadBalancer.RoundRobin.{AllSelectable, answers, answers-turn}
use madrpc.LoadBalancer.Timeouts.{check_circuit_timeouts-recovers}
use madrpc.LoadBalancer.History.{
  Call, selects, checks, auto_enables, reports, removes, step, run, with_config-IsValid,
  run-IsValid,
}
use madrpc.LoadBalancer.Manual.{IsManual, run-IsManual}
use madrpc.LoadBalancer.Circuit.{Moved, step-Moved, fail_at, fail_at-threshold}
use madrpc.Examples.Numbers.{whole}

abbrev pub breaker : CircuitBreakerConfig whole
breaker = record {
  failure_threshold = 2;
  base_timeout_secs = 1;
  max_timeout_secs = 8;
  backoff_multiplier = whole.of_ℕ 2;
}

abbrev pub addresses : List String
addresses = "a:1" ∷ "b:2" ∷ []

abbrev pub pair : LoadBalancer whole
pair = with_config addresses breaker

abbrev pub node_a : Node
node_a = Node.new "a:1"

pub addresses-Distinct : Distinct str_dec addresses
unfolding str_dec
addresses-Distinct = (refl, (refl, tt))

pub pair-IsValid : IsValid pair
pair-IsValid = with_config-IsValid addresses breaker addresses-Distinct

-- A run: two failures trip the circuit, and the check after the timeout lets it probe.
tripped_then_half_open :
    run pair
      (reports "a:1" (unhealthy "x") 5 ∷ reports "a:1" (unhealthy "x") 6 ∷ checks 3000000000 ∷ [])
    ≡ some (record pair {
      nodes =
          (
            "a:1",
            record node_a {
              consecutive_failures = 2;
              last_health_check = some 6;
              last_health_check_status = some (unhealthy "x");
              circuit_state = half_open;
              half_open_attempted = true;
            },
          )
          ∷ ("b:2", Node.new "b:2")
          ∷ [];
    })
unfolding with_config collect_nodes get insert alter str_dec run step update_health_status
    apply_status transition_circuit_state check_circuit_timeouts check_timeouts check_timeout
    should_attempt_half_open try_transition_to_half_open calculate_timeout backoff_exponent whole
    Node.new
tripped_then_half_open = refl

-- The theorems.
next_node-Scanned_example : Scanned pair 2 7 (next_node 7 pair)
unfolding with_config
next_node-Scanned_example = next_node-Scanned 7 pair (omega arith) (omega arith)

abbrev pub node_open : Node
node_open = record node_a {
  circuit_state = open_;
  circuit_opened_at = some 0;
  consecutive_failures = 2;
}

abbrev pub broken : LoadBalancer whole
broken = record {
  nodes = ("a:1", node_open) ∷ [];
  enabled_nodes = "a:1" ∷ [];
  round_robin_index = 0;
  circuit_config = breaker;
}

pair-AllSelectable : AllSelectable pair
unfolding with_config collect_nodes get insert selectable Node.new str_dec
pair-AllSelectable a h = elim (str_dec a "a:1") [
  | yes p ↦ ground arith
  | no p ↦ elim (str_dec a "b:2") [ yes q ↦ ground arith | no q ↦ ground arith ]
]

answers-turn_example :
    answers 2 7 pair ≡ map (λ a. some (some a)) (drop 0 addresses ++ take 0 addresses)
unfolding with_config
answers-turn_example = answers-turn 7 pair (omega arith) (omega arith) pair-AllSelectable

pub broken-IsValid : IsValid broken
unfolding get str_dec Node.new
broken-IsValid = record {
  distinct_nodes = (refl, tt);
  distinct_enabled = (refl, tt);
  agree = λ a. ground arith;
  sound = (record { addressed = refl; reasoned = refl; timed = refl; claimed = refl }, tt);
}

check_circuit_timeouts-recovers_example :
    get str_dec "a:1" (check_circuit_timeouts broken 3000000000).0.nodes
    ≡ some (record node_open {
      circuit_state = half_open;
      circuit_opened_at = none;
      half_open_attempted = true;
    })
unfolding get str_dec calculate_timeout backoff_exponent whole
check_circuit_timeouts-recovers_example =
    check_circuit_timeouts-recovers broken 3000000000 "a:1" node_open broken-IsValid refl
      (refl, λ t e. let z : 0 ≡ t = some_inj e in omega arith)

abbrev calls : List Call
calls = selects 7 ∷ auto_enables "a:1" ∷ reports "a:1" healthy 8 ∷ removes "b:2" ∷ selects 9 ∷ []

run-IsValid_example : (lb : LoadBalancer whole) × (run pair calls ≡ some lb) × IsValid lb
run-IsValid_example = run-IsValid addresses breaker calls addresses-Distinct

abbrev left_over : LoadBalancer whole
left_over = record {
  nodes =
      (
        "a:1",
        record node_a {
          enabled = false;
          disable_reason = some manual;
          last_health_check = some 8;
          last_health_check_status = some healthy;
        },
      )
      ∷ [];
  enabled_nodes = [];
  round_robin_index = 0;
  circuit_config = breaker;
}

a_not_b : ◌≢◌ {A = String} "a:1" "b:2"
a_not_b p = let q : false ≡ true = (eq_iff "a:1" "b:2").1 p in cc

run-IsManual_example :
    IsManual "a:1" left_over × (contains str_dec left_over.enabled_nodes "a:1" ≡ false)
unfolding with_config collect_nodes get insert alter remove str_dec run step next_node scan
    selectable disable_node auto_enable_node remove_node update_health_status apply_status Node.new
run-IsManual_example =
    run-IsManual "a:1" pair left_over calls node_a pair-IsValid refl
      (tt, (tt, (tt, (a_not_b, (tt, tt))))) refl

step-Moved_example : Moved "a:1" node_open (check_circuit_timeouts broken 3000000000).0
unfolding get str_dec step
step-Moved_example =
    step-Moved "a:1" node_open broken (check_circuit_timeouts broken 3000000000).0
      (checks 3000000000) refl refl

fail_at-threshold_example :
    ((fail_at breaker ((5, "x") ∷ (6, "y") ∷ []) node_a).circuit_state
      ≡ (if ltb 2 2 then closed else open_))
    × ((fail_at breaker ((5, "x") ∷ (6, "y") ∷ []) node_a).consecutive_failures ≡ 2)
unfolding Node.new
fail_at-threshold_example =
    fail_at-threshold breaker ((5, "x") ∷ (6, "y") ∷ []) node_a (omega arith) (omega arith) refl
      refl
