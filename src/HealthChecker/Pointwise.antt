-- ===== src/HealthChecker/Pointwise.antt =====
-- A round of health checks, seen from one node.
use madrpc.Prelude.{
  ℕ, ◌+◌, ◌≡◌, refl, sym, subst, ◌∙◌, ite, String, false, not, ◌&&◌, Option, none, some, List, [],
  ◌∷◌, map, arith, leb, if◌then◌else◌, contains, Distinct,
}
use mathlib.Core.Option
use madrpc.Prelude.Text.{str_dec}
use madrpc.Prelude.Word.{u32}
use madrpc.Prelude.HashMap.{keys, get, get-alter, Every, contains-keys}
use madrpc.Float.{F64}
use madrpc.Node.{
  Node, CircuitBreakerConfig, HealthCheckStatus, healthy, unhealthy, health_check, is_manual,
  is_health_check,
}
use madrpc.LoadBalancer.Health.{apply_status}
use madrpc.LoadBalancer.{
  LoadBalancer, all_nodes, check_timeout, check_circuit_timeouts, consecutive_failures,
  update_health_status, auto_enable_node, auto_disable_node, set_enabled, set_disabled,
}
use madrpc.LoadBalancer.Invariant.{IsSound, IsValid}
use madrpc.LoadBalancer.Timeouts.{check_circuit_timeouts-IsValid, get-check_timeouts}
use madrpc.HealthChecker.{
  HealthCheckConfig, HealthCheckUpdate, process_health_result, apply_health_update, process_results,
  check_results, check_all_nodes,
}

-- What an update does to the node that it names.
unfoldable pub updated : {F : F64} → CircuitBreakerConfig F → HealthCheckUpdate → ℕ → Node → Node
updated c u now n =
    let n1 = apply_status c u.status now n in
    let n2 = if u.should_enable && is_health_check n1.disable_reason then set_enabled n1 else n1 in
    if u.should_disable && not (is_manual n2.disable_reason)
    then set_disabled health_check n2
    else n2

module _ {F : F64} (a b : String) (lb : LoadBalancer F) where
  get-auto_enable_node :
      get str_dec a (auto_enable_node b lb).0.nodes
      ≡ ite
          (str_dec a b)
          (Option.map
            (λ n. if is_health_check n.disable_reason then set_enabled n else n)
            (get str_dec a lb.nodes))
          (get str_dec a lb.nodes)
  unfolding auto_enable_node
  get-auto_enable_node = ground (arith, get-alter str_dec a b set_enabled lb.nodes)

  get-auto_disable_node :
      get str_dec a (auto_disable_node b lb).0.nodes
      ≡ ite
          (str_dec a b)
          (Option.map
            (λ n. if is_manual n.disable_reason then n else set_disabled health_check n)
            (get str_dec a lb.nodes))
          (get str_dec a lb.nodes)
  unfolding auto_disable_node
  get-auto_disable_node = ground (arith, get-alter str_dec a b (set_disabled health_check) lb.nodes)

  get-update_health_status :
      (status : HealthCheckStatus) (now : ℕ)
      → get str_dec a (update_health_status b lb status now).nodes
        ≡ ite
            (str_dec a b)
            (Option.map (apply_status lb.circuit_config status now) (get str_dec a lb.nodes))
            (get str_dec a lb.nodes)
  unfolding update_health_status
  get-update_health_status status now = get-alter str_dec a b _ lb.nodes

-- An update writes to the node that it names, and to no other.
pub get-apply_health_update :
    {F : F64} (a : String) (u : HealthCheckUpdate) (now : ℕ) (lb : LoadBalancer F)
    → get str_dec a (apply_health_update u now lb).nodes
      ≡ ite
          (str_dec a u.node_addr)
          (Option.map (updated lb.circuit_config u now) (get str_dec a lb.nodes))
          (get str_dec a lb.nodes)
unfolding apply_health_update updated
get-apply_health_update {F} a u now lb = ground (
  arith,
  get-update_health_status a u.node_addr lb u.status now,
  get-auto_enable_node a u.node_addr checked,
  get-auto_disable_node a u.node_addr checked,
  get-auto_disable_node a u.node_addr (auto_enable_node u.node_addr checked).0,
)
  where
    checked : LoadBalancer F
    checked = update_health_status u.node_addr lb u.status now

-- The update of one node's own result, and what the round as a whole does to the node.
unfoldable pub own_update : HealthCheckConfig → Node → Option String → HealthCheckUpdate
own_update config n none = record {
  node_addr = n.addr;
  status = healthy;
  should_enable = not n.enabled && is_health_check n.disable_reason;
  should_disable = false;
}
own_update config n (some msg) = record {
  node_addr = n.addr;
  status = unhealthy msg;
  should_enable = false;
  should_disable =
      leb config.failure_threshold (u32 (n.consecutive_failures + 1))
      && n.enabled
      && not (is_manual n.disable_reason);
}

unfoldable pub round_of :
    {F : F64}
    → HealthCheckConfig
    → (Node → Option String)
    → CircuitBreakerConfig F
    → ℕ
    → Node
    → Node
round_of config probe c now n =
    let n1 = (check_timeout c now n).0 in updated c (own_update config n1 (probe n1)) now n1

process-own_update :
    {F : F64} (config : HealthCheckConfig) (lb : LoadBalancer F) (n : Node) (result : Option String)
    → get str_dec n.addr lb.nodes ≡ some n
    → process_health_result config lb n result ≡ own_update config n result
unfolding process_health_result own_update consecutive_failures
process-own_update config lb n none e = refl
process-own_update config lb n (some msg) e = ground arith

config-apply_health_update :
    {F : F64} (u : HealthCheckUpdate) (now : ℕ) (lb : LoadBalancer F)
    → (apply_health_update u now lb).circuit_config ≡ lb.circuit_config
unfolding apply_health_update auto_enable_node auto_disable_node update_health_status
config-apply_health_update u now lb = ground arith

own_update-addr :
    (config : HealthCheckConfig) (n : Node) (result : Option String)
    → (own_update config n result).node_addr ≡ n.addr
unfolding own_update
own_update-addr config n none = refl
own_update-addr config n (some msg) = refl

-- The entries of `m` are what the balancer holds of them.
abbrev Holds : {F : F64} → List (String × Node) → LoadBalancer F → Type 0
Holds m lb = (a : String) (n : Node) → get str_dec a m ≡ some n → get str_dec a lb.nodes ≡ some n

module _ {F : F64} (config : HealthCheckConfig) (probe : Node → Option String) (now : ℕ) where
  -- What the rest of the loop, over the entries of `m`, makes of the node at `a`.
  abbrev expected : List (String × Node) → LoadBalancer F → String → Option Node
  expected m lb a = elim (get str_dec a m) [
    | none ↦ get str_dec a lb.nodes
    | some n ↦ some (updated lb.circuit_config (own_update config n (probe n)) now n)
  ]

  module _ (k : String) (n : Node) (m : List (String × Node)) (lb : LoadBalancer F)
      (fresh : contains str_dec (keys m) k ≡ false) (sound : IsSound k n)
      (holds : Holds ((k, n) ∷ m) lb) where
    abbrev stepped : LoadBalancer F
    stepped = apply_health_update (own_update config n (probe n)) now lb

    here : get str_dec k lb.nodes ≡ some n
    unfolding get
    here = holds k n (ground arith)

    absent : get str_dec k m ≡ none
    absent = ground (arith, contains-keys str_dec k m)

    first_update : process_health_result config lb n (probe n) ≡ own_update config n (probe n)
    first_update =
        process-own_update config lb n (probe n)
          (subst (λ x. get str_dec x lb.nodes ≡ some n) (sym sound.addressed) here)

    get-stepped :
        (a : String)
        → get str_dec a stepped.nodes
          ≡ ite
              (str_dec a k)
              (some (updated lb.circuit_config (own_update config n (probe n)) now n))
              (get str_dec a lb.nodes)
    get-stepped a = ground (
      arith,
      get-apply_health_update a (own_update config n (probe n)) now lb,
      own_update-addr config n (probe n),
      sound.addressed,
      here,
    )

    stepped-Holds : Holds m stepped
    unfolding get
    stepped-Holds a x e = ground (arith, get-stepped a, holds a x, absent)

    expected-stepped : (a : String) → expected m stepped a ≡ expected ((k, n) ∷ m) lb a
    unfolding get
    expected-stepped a = ground (
      arith,
      get-stepped a,
      absent,
      config-apply_health_update (own_update config n (probe n)) now lb,
    )

  process_results-expected :
      (m : List (String × Node)) (lb : LoadBalancer F)
      → Distinct str_dec (keys m)
      → Every str_dec IsSound m
      → Holds m lb
      → (a : String)
      → get str_dec a (process_results config now (check_results probe (map (λ e. e.1) m)) lb).nodes
        ≡ expected m lb a
  unfolding process_results check_results get
  process_results-expected [] lb d s h a = refl
  process_results-expected ((k, n) ∷ m) lb d s h a =
      rw (first_update k n m lb d.0 s.0 h, process_results)
        (process_results-expected m (stepped k n m lb d.0 s.0 h) d.1 s.1
            (stepped-Holds k n m lb d.0 s.0 h) a
          ∙ expected-stepped k n m lb d.0 s.0 h a)

expected-round_of :
    {F : F64} (config : HealthCheckConfig) (probe : Node → Option String) (now : ℕ)
    (lb : LoadBalancer F) (a : String)
    → expected config probe now
        (check_circuit_timeouts lb now).0.nodes
        (check_circuit_timeouts lb now).0
        a
      ≡ Option.map (round_of config probe lb.circuit_config now) (get str_dec a lb.nodes)
unfolding check_circuit_timeouts round_of
expected-round_of config probe now lb a =
    ground (arith, get-check_timeouts lb.circuit_config now a lb.nodes)

-- In a valid balancer, a round of health checks does to each node exactly what that node's own
-- timeout and own result say, whatever the other nodes answer and the order in which they are
-- taken; no address comes or goes.
pub check_all_nodes-round_of :
    {F : F64} (config : HealthCheckConfig) (probe : Node → Option String) (now : ℕ)
    (lb : LoadBalancer F) (a : String)
    → IsValid lb
    → get str_dec a (check_all_nodes config probe now lb).nodes
      ≡ Option.map (round_of config probe lb.circuit_config now) (get str_dec a lb.nodes)
unfolding check_all_nodes all_nodes
check_all_nodes-round_of {F} config probe now lb a v =
    process_results-expected config probe now checked.nodes checked valid.distinct_nodes valid.sound
      (λ b n e. e) a
    ∙ pointwise
  where
    checked : LoadBalancer F
    checked = (check_circuit_timeouts lb now).0

    valid : IsValid checked
    valid = check_circuit_timeouts-IsValid lb now v

    pointwise :
        expected config probe now checked.nodes checked a
        ≡ Option.map (round_of config probe lb.circuit_config now) (get str_dec a lb.nodes)
    pointwise = expected-round_of config probe now lb a
