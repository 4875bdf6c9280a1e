-- ===== src/LoadBalancer.antt =====
-- crates/madrpc-orchestrator/src/load_balancer.rs: the nodes by address, and the round-robin list of
-- those that are enabled. One `now` stands for both clocks that an operation reads.
pub mod Health
pub mod Invariant
pub mod Selection
pub mod RoundRobin
pub mod Timeouts
pub mod Loop
pub mod History
pub mod Manual
pub mod Circuit
pub mod Roster
use madrpc.Prelude.{
  ℕ, zero, suc, ◌+◌, ◌/◌, ◌%◌, String, Bool, true, false, not, ◌||◌, Option, none, some, List, [],
  ◌∷◌, ◌++◌, map, if◌then◌else◌, length, get_elem?, contains, retain_ne,
}
use madrpc.Prelude.Text.{str_dec}
use madrpc.Prelude.Word.{u64}
use madrpc.Prelude.HashMap.{keys, get, insert, remove, alter, is_some}
use madrpc.Float.{F64}
use madrpc.Node
use madrpc.Node.{
  Node, CircuitBreakerState, CircuitBreakerConfig, HealthCheckStatus, closed, open_, half_open,
  is_open, is_manual, is_health_check, manual, health_check, default_circuit_config,
  should_attempt_half_open, try_transition_to_half_open,
}
use Health.{apply_status}

pub record LoadBalancer (F : F64) : Type 0 where
  pub nodes : List (String × Node)
  pub enabled_nodes : List String
  pub round_robin_index : ℕ  -- usize
  pub circuit_config : CircuitBreakerConfig F

-- `node_addrs.iter().map(|addr| (addr, Node::new(addr))).collect()`.
unfoldable pub collect_nodes : List (String × Node) → List String → List (String × Node)
collect_nodes m [] = m
collect_nodes m (addr ∷ addrs) = collect_nodes (insert str_dec addr (Node.new addr) m) addrs

unfoldable pub with_config : {F : F64} → List String → CircuitBreakerConfig F → LoadBalancer F
with_config node_addrs circuit_config = record {
  nodes = collect_nodes [] node_addrs;
  enabled_nodes = node_addrs;
  round_robin_index = 0;
  circuit_config = circuit_config;
}

unfoldable pub new : {F : F64} → List String → LoadBalancer F
unfolding with_config
new {F} node_addrs = with_config node_addrs (default_circuit_config F)

-- The node is in the map and its circuit is not open.
unfoldable pub selectable : List (String × Node) → String → Bool
selectable nodes addr = elim (get str_dec addr nodes) [
  | none ↦ false
  | some node ↦ not (is_open node.circuit_state)
]

abbrev pub count_request : ℕ → Node → Node
count_request now n = record n {
  request_count = u64 (n.request_count + 1);
  last_request_time = some now;
}

-- `round_robin_index.wrapping_add(1) % enabled_nodes.len()`.
abbrev pub next_index : ℕ → ℕ → ℕ
next_index i len = u64 (i + 1) % len

-- The loop of `next_node`, with the rounds left. The outer `none` is the panic of an index that is
-- out of bounds.
unfoldable pub scan : {F : F64} → ℕ → ℕ → LoadBalancer F → Option (Option String × LoadBalancer F)
scan zero now lb = some (none, lb)
scan (suc rounds) now lb =
    let len = length lb.enabled_nodes in
    let lb' = record lb { round_robin_index = next_index lb.round_robin_index len } in
    let rest = scan rounds now lb' in
    elim (get_elem? lb.enabled_nodes (lb.round_robin_index % len)) [
      | none ↦ none
      | some addr ↦
          if selectable lb.nodes addr
          then some
              (some addr, record lb' { nodes = alter str_dec addr (count_request now) lb.nodes })
          else rest
    ]

-- The early return on an empty list is the loop's with no rounds.
unfoldable pub next_node : {F : F64} → ℕ → LoadBalancer F → Option (Option String × LoadBalancer F)
next_node now lb = scan (length lb.enabled_nodes) now lb

-- `if !enabled_nodes.contains(addr) { enabled_nodes.push(addr) }`.
abbrev pub push_absent : String → List String → List String
push_absent addr xs = if contains str_dec xs addr then xs else xs ++ addr ∷ []

abbrev pub set_disabled : Node.DisableReason → Node → Node
set_disabled reason n = record n { enabled = false; disable_reason = some reason }

abbrev pub set_enabled : Node → Node
set_enabled n = record n { enabled = true; disable_reason = none; consecutive_failures = 0 }

module _ {F : F64} (addr : String) (lb : LoadBalancer F) where
  abbrev pub disabled_as : Node.DisableReason → LoadBalancer F
  disabled_as reason = record lb {
    nodes = alter str_dec addr (set_disabled reason) lb.nodes;
    enabled_nodes = retain_ne str_dec addr lb.enabled_nodes;
  }

  abbrev pub enabled_again : LoadBalancer F
  enabled_again = record lb {
    nodes = alter str_dec addr set_enabled lb.nodes;
    enabled_nodes = push_absent addr lb.enabled_nodes;
  }

  unfoldable pub disable_node : LoadBalancer F × Bool
  disable_node = elim (get str_dec addr lb.nodes) [
    | none ↦ (lb, false)
    | some node ↦ (disabled_as manual, true)
  ]

  unfoldable pub enable_node : LoadBalancer F × Bool
  enable_node = elim (get str_dec addr lb.nodes) [
    | none ↦ (lb, false)
    | some node ↦ (enabled_again, true)
  ]

  unfoldable pub auto_disable_node : LoadBalancer F × Bool
  auto_disable_node = elim (get str_dec addr lb.nodes) [
    | none ↦ (lb, false)
    | some node ↦
        if is_manual node.disable_reason then (lb, false) else (disabled_as health_check, true)
  ]

  unfoldable pub auto_enable_node : LoadBalancer F × Bool
  auto_enable_node = elim (get str_dec addr lb.nodes) [
    | none ↦ (lb, false)
    | some node ↦ if is_health_check node.disable_reason then (enabled_again, true) else (lb, false)
  ]

  unfoldable pub add_node : LoadBalancer F
  add_node = if is_some (get str_dec addr lb.nodes) then lb else record lb {
    nodes = insert str_dec addr (Node.new addr) lb.nodes;
    enabled_nodes = lb.enabled_nodes ++ addr ∷ [];
  }

  unfoldable pub remove_node : LoadBalancer F
  remove_node = record lb {
    nodes = remove str_dec addr lb.nodes;
    enabled_nodes = retain_ne str_dec addr lb.enabled_nodes;
  }

  unfoldable pub update_health_status : HealthCheckStatus → ℕ → LoadBalancer F
  update_health_status status now = record lb {
    nodes = alter str_dec addr (apply_status lb.circuit_config status now) lb.nodes;
  }

  unfoldable pub circuit_state : Option CircuitBreakerState
  circuit_state = elim (get str_dec addr lb.nodes) [ none ↦ none | some n ↦ some n.circuit_state ]

  -- 0 where the node is missing.
  unfoldable pub consecutive_failures : ℕ
  consecutive_failures = elim (get str_dec addr lb.nodes) [
    | none ↦ 0
    | some n ↦ n.consecutive_failures
  ]

-- One round of the loop of `check_circuit_timeouts`.
unfoldable pub check_timeout : {F : F64} → CircuitBreakerConfig F → ℕ → Node → Node × Bool
check_timeout c now n =
    if should_attempt_half_open n c now then try_transition_to_half_open n else (n, false)

unfoldable pub check_timeouts :
    {F : F64} → CircuitBreakerConfig F → ℕ → List (String × Node) → List (String × Node) × Bool
check_timeouts c now [] = ([], false)
check_timeouts c now ((addr, n) ∷ m) =
    let (n', transitioned) = check_timeout c now n in
    let (m', any) = check_timeouts c now m in ((addr, n') ∷ m', transitioned || any)

unfoldable pub check_circuit_timeouts : {F : F64} → LoadBalancer F → ℕ → LoadBalancer F × Bool
check_circuit_timeouts lb now =
    let (m, any) = check_timeouts lb.circuit_config now lb.nodes in (record lb { nodes = m }, any)

-- `self.nodes.iter().filter(..).map(|(addr, _)| addr)`.
unfoldable pub addrs_where : (Node → Bool) → List (String × Node) → List String
addrs_where test [] = []
addrs_where test ((addr, n) ∷ m) = if test n then addr ∷ addrs_where test m else addrs_where test m

abbrev pub is_half_open : CircuitBreakerState → Bool
is_half_open closed = false
is_half_open open_ = false
is_half_open half_open = true

module _ {F : F64} (lb : LoadBalancer F) where
  unfoldable pub open_circuit_nodes : List String
  unfolding addrs_where
  open_circuit_nodes = addrs_where (λ n. is_open n.circuit_state) lb.nodes

  unfoldable pub half_open_circuit_nodes : List String
  unfolding addrs_where
  half_open_circuit_nodes = addrs_where (λ n. is_half_open n.circuit_state) lb.nodes

  unfoldable pub disabled_nodes : List String
  unfolding addrs_where
  disabled_nodes = addrs_where (λ n. not n.enabled) lb.nodes

  unfoldable pub all_nodes : List Node
  all_nodes = map (λ e. e.1) lb.nodes

  unfoldable pub node_addrs : List String
  node_addrs = keys lb.nodes

  unfoldable pub node_count : ℕ
  node_count = length lb.nodes

  unfoldable pub enabled_count : ℕ
  enabled_count = length lb.enabled_nodes
