-- ===== src/LoadBalancer/Health.antt =====
-- crates/madrpc-orchestrator/src/load_balancer.rs, `update_health_status`: what a health check result
-- does to the node.
use madrpc.Prelude.{ℕ, ◌+◌, some, leb, if◌then◌else◌}
use madrpc.Prelude.Word.{u32}
use madrpc.Float.{F64}
use madrpc.Node.{
  Node, CircuitBreakerState, CircuitBreakerConfig, HealthCheckStatus, healthy, unhealthy, closed,
  open_, half_open, transition_circuit_state,
}

-- A success closes a half-open circuit.
recover_circuit : CircuitBreakerState → ℕ → Node → Node
recover_circuit half_open now n = transition_circuit_state closed now n
recover_circuit closed now n = n
recover_circuit open_ now n = n

-- The circuit's part of a failure, the failure counted already.
trip_circuit : {F : F64} → CircuitBreakerConfig F → CircuitBreakerState → ℕ → Node → Node
trip_circuit c closed now n =
    if leb c.failure_threshold n.consecutive_failures
    then transition_circuit_state open_ now n
    else n
trip_circuit c half_open now n = transition_circuit_state open_ now n
trip_circuit c open_ now n = n

unfoldable pub apply_status :
    {F : F64} → CircuitBreakerConfig F → HealthCheckStatus → ℕ → Node → Node
unfolding recover_circuit trip_circuit transition_circuit_state
apply_status c healthy now n = recover_circuit n.circuit_state now (record n {
  last_health_check = some now;
  last_health_check_status = some healthy;
  consecutive_failures = 0;
})
apply_status c (unhealthy msg) now n = trip_circuit c n.circuit_state now (record n {
  last_health_check = some now;
  last_health_check_status = some (unhealthy msg);
  consecutive_failures = u32 (n.consecutive_failures + 1);
})
