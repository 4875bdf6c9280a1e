-- ===== src/HealthChecker.antt =====
-- crates/madrpc-orchestrator/src/health_checker.rs: one round of health checks. The request to a node
-- is an argument, `probe`: none for a healthy answer, and otherwise the text of the error.
pub mod Pointwise
pub mod Rounds
pub mod Recovery
use madrpc.Prelude.{
  ℕ, ◌+◌, String, Bool, true, false, not, ◌&&◌, Option, none, some, List, [], ◌∷◌, leb,
  if◌then◌else◌,
}
use madrpc.Prelude.Word.{u32}
use madrpc.Float.{F64}
use madrpc.Node.{Node, HealthCheckStatus, healthy, unhealthy, is_manual, is_health_check}
use madrpc.LoadBalancer.{
  LoadBalancer, all_nodes, check_circuit_timeouts, consecutive_failures, update_health_status,
  auto_enable_node, auto_disable_node,
}

pub record HealthCheckUpdate : Type 0 where
  pub node_addr : String
  pub status : HealthCheckStatus
  pub should_enable : Bool
  pub should_disable : Bool

-- The interval between rounds and the timeout of a check do not reach the state. In nanoseconds.
pub record HealthCheckConfig : Type 0 where
  pub interval : ℕ
  pub timeout : ℕ
  pub failure_threshold : ℕ

abbrev pub default_health_config : HealthCheckConfig
default_health_config = record {
  interval = 5000000000;
  timeout = 2000000000;
  failure_threshold = 3;
}

-- The node is the copy that was checked; the failures are read anew.
unfoldable pub process_health_result :
    {F : F64} → HealthCheckConfig → LoadBalancer F → Node → Option String → HealthCheckUpdate
process_health_result config lb node none = record {
  node_addr = node.addr;
  status = healthy;
  should_enable = not node.enabled && is_health_check node.disable_reason;
  should_disable = false;
}
process_health_result config lb node (some msg) = record {
  node_addr = node.addr;
  status = unhealthy msg;
  should_enable = false;
  should_disable =
      leb config.failure_threshold (u32 (consecutive_failures node.addr lb + 1))
      && node.enabled
      && not (is_manual node.disable_reason);
}

unfoldable pub apply_health_update :
    {F : F64} → HealthCheckUpdate → ℕ → LoadBalancer F → LoadBalancer F
apply_health_update update now lb =
    let lb1 = update_health_status update.node_addr lb update.status now in
    let lb2 = if update.should_enable then (auto_enable_node update.node_addr lb1).0 else lb1 in
    if update.should_disable then (auto_disable_node update.node_addr lb2).0 else lb2

-- The loop over the results.
unfoldable pub process_results :
    {F : F64}
    → HealthCheckConfig
    → ℕ
    → List (Node × Option String)
    → LoadBalancer F
    → LoadBalancer F
process_results config now [] lb = lb
process_results config now ((node, result) ∷ results) lb =
    process_results config now results
      (apply_health_update (process_health_result config lb node result) now lb)

-- `join_all` of the checks keeps their order.
unfoldable pub check_results : (Node → Option String) → List Node → List (Node × Option String)
check_results probe [] = []
check_results probe (n ∷ ns) = (n, probe n) ∷ check_results probe ns

unfoldable pub check_all_nodes :
    {F : F64} → HealthCheckConfig → (Node → Option String) → ℕ → LoadBalancer F → LoadBalancer F
check_all_nodes config probe now lb =
    let lb1 = (check_circuit_timeouts lb now).0 in
    process_results config now (check_results probe (all_nodes lb1)) lb1

-- The loop of `run`, for the rounds at the given times.
unfoldable pub run :
    {F : F64}
    → HealthCheckConfig
    → (Node → Option String)
    → List ℕ
    → LoadBalancer F
    → LoadBalancer F
run config probe [] lb = lb
run config probe (now ∷ times) lb = run config probe times (check_all_nodes config probe now lb)
