-- ===== src/Examples/Rotation.antt =====
-- The rotation of the nodes: what the balancer promises of it, and a node that comes back.
use madrpc.Prelude.{
  ℕ, ◌≡◌, ◌≢◌, refl, String, Option, none, some, List, [], ◌∷◌, arith, some_inj, contains,
}
use madrpc.Prelude.Text.{str_dec}
use madrpc.Prelude.HashMap.{get}
use madrpc.Node
use madrpc.Node.{
  Node, health_check, should_attempt_half_open, try_transition_to_half_open, calculate_timeout,
  backoff_exponent,
}
use madrpc.LoadBalancer.{
  LoadBalancer, with_config, next_node, all_nodes, check_circuit_timeouts, check_timeouts,
  check_timeout, update_health_status,
}
use madrpc.LoadBalancer.History.{Call, disables, auto_disables, auto_enables, adds, run}
use madrpc.LoadBalancer.Roster.{
  is_active, entry_of, first_entry, entry_after_all, run-entry_after_all,
}
use madrpc.HealthChecker.{
  default_health_config, check_all_nodes, process_results, check_results, apply_health_update,
  process_health_result,
}
use madrpc.HealthChecker.Recovery.{Back, check_all_nodes-Back}
use madrpc.Examples.Numbers.{whole}
use madrpc.Examples.Balancer.{
  breaker, addresses, addresses-Distinct, broken, node_open, broken-IsValid,
}

abbrev orders : List Call
orders = auto_disables "a:1" ∷ disables "b:2" ∷ auto_enables "b:2" ∷ adds "c:3" ∷ []

entry_of_a : entry_after_all orders "a:1" (first_entry addresses "a:1") ≡ some (some health_check)
unfolding entry_after_all str_dec
entry_of_a = refl

run-entry_after_all_example :
    (lb : LoadBalancer whole) × (run (with_config addresses breaker) orders ≡ some lb)
    × ((a : String)
        → (entry_of lb a ≡ entry_after_all orders a (first_entry addresses a))
          × (contains str_dec lb.enabled_nodes a
              ≡ is_active (entry_after_all orders a (first_entry addresses a))))
run-entry_after_all_example = run-entry_after_all addresses breaker orders addresses-Distinct

abbrev up : Node → Option String
up n = none

abbrev recovered : LoadBalancer whole
recovered = check_all_nodes default_health_config up 3000000000 broken

check_all_nodes-Back_example :
    Back "a:1" recovered
    × ((later : ℕ) (lb' : LoadBalancer whole) → next_node later recovered ≢ some (none, lb'))
unfolding get str_dec calculate_timeout backoff_exponent whole check_all_nodes Node.new
    process_results check_results all_nodes check_circuit_timeouts check_timeouts
    apply_health_update process_health_result check_timeout should_attempt_half_open
    try_transition_to_half_open update_health_status
check_all_nodes-Back_example =
    check_all_nodes-Back default_health_config up 3000000000 "a:1" broken node_open broken-IsValid
      refl (refl, λ t e. let z : 0 ≡ t = some_inj e in omega arith) refl (λ m e. refl) (omega arith)
      (omega arith)
