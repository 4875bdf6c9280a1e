-- ===== src/LoadBalancer/History.antt =====
-- The balancer under any sequence of calls, from its construction.
use madrpc.Prelude.{
  ℕ, ◌≡◌, refl, ite, String, true, ◌||◌, Option, none, some, List, [], ◌∷◌, arith, contains,
  Distinct,
}
use madrpc.Prelude.Text.{str_dec}
use madrpc.Prelude.HashMap.{keys, get, insert, Every, get-insert, insert-Distinct, insert-Every}
use madrpc.Float.{F64}
use madrpc.Node
use madrpc.Node.{Node, HealthCheckStatus, CircuitBreakerConfig}
use madrpc.LoadBalancer.{
  LoadBalancer, collect_nodes, with_config, count_request, next_node, disable_node, enable_node,
  auto_disable_node, auto_enable_node, add_node, remove_node, update_health_status,
  check_circuit_timeouts,
}
use madrpc.LoadBalancer.Invariant
use madrpc.LoadBalancer.Invariant.{IsSound, IsValid, enabled_in, new-IsSound, alter-IsValid}
use madrpc.LoadBalancer.Loop.{Ends, next_node_inv}
use madrpc.LoadBalancer.Timeouts.{check_circuit_timeouts-IsValid}

collect_nodes-Distinct :
    (m : List (String × Node)) (addrs : List String)
    → Distinct str_dec (keys m)
    → Distinct str_dec (keys (collect_nodes m addrs))
unfolding collect_nodes
collect_nodes-Distinct m [] d = d
collect_nodes-Distinct m (a ∷ addrs) d =
    collect_nodes-Distinct (insert str_dec a (Node.new a) m) addrs
      (insert-Distinct str_dec a (Node.new a) m d)

collect_nodes-Every :
    (m : List (String × Node)) (addrs : List String)
    → Every str_dec IsSound m
    → Every str_dec IsSound (collect_nodes m addrs)
unfolding collect_nodes
collect_nodes-Every m [] e = e
collect_nodes-Every m (a ∷ addrs) e =
    collect_nodes-Every (insert str_dec a (Node.new a) m) addrs
      (insert-Every str_dec IsSound a (Node.new a) m (new-IsSound a) e)

enabled_in-insert :
    (a b : String) (m : List (String × Node))
    → enabled_in (insert str_dec b (Node.new b) m) a ≡ ite (str_dec a b) true (enabled_in m a)
unfolding Node.new
enabled_in-insert a b m = ground (arith, get-insert str_dec a b (Node.new b) m)

enabled_in-collect_nodes :
    (m : List (String × Node)) (addrs : List String) (a : String)
    → enabled_in (collect_nodes m addrs) a ≡ contains str_dec addrs a || enabled_in m a
unfolding collect_nodes
enabled_in-collect_nodes m [] a = refl
enabled_in-collect_nodes m (b ∷ addrs) a = ground (
  arith,
  enabled_in-collect_nodes (insert str_dec b (Node.new b) m) addrs a,
  enabled_in-insert a b m,
)

-- A balancer built from distinct addresses is valid.
pub with_config-IsValid :
    {F : F64} (addrs : List String) (c : CircuitBreakerConfig F)
    → Distinct str_dec addrs
    → IsValid (with_config addrs c)
unfolding with_config get
with_config-IsValid addrs c d = record {
  distinct_nodes = collect_nodes-Distinct [] addrs tt;
  distinct_enabled = d;
  agree = λ a. ground (arith, enabled_in-collect_nodes [] addrs a);
  sound = collect_nodes-Every [] addrs tt;
}

index-IsValid :
    {F : F64} (lb : LoadBalancer F) (i : ℕ)
    → IsValid lb
    → IsValid (record lb { round_robin_index = i })
index-IsValid lb i v = record {
  distinct_nodes = v.distinct_nodes;
  distinct_enabled = v.distinct_enabled;
  agree = v.agree;
  sound = v.sound;
}

pub next_node-IsValid :
    {F : F64} (now : ℕ) (lb : LoadBalancer F) → IsValid lb → Ends IsValid (next_node now lb)
next_node-IsValid now lb v =
    next_node_inv IsValid now index-IsValid
      (λ lb addr. alter-IsValid addr (count_request now) lb (λ n. refl) (λ n s. ground arith)) lb v

-- The calls that change a balancer.
pub data Call : Type 0 where
  selects checks : ℕ → Call
  disables enables auto_disables auto_enables adds removes : String → Call
  reports : String → HealthCheckStatus → ℕ → Call

-- One call; `none` is a panic.
unfoldable pub step : {F : F64} → LoadBalancer F → Call → Option (LoadBalancer F)
step lb (selects now) = elim (next_node now lb) [ none ↦ none | some (r, lb') ↦ some lb' ]
step lb (checks now) = some (check_circuit_timeouts lb now).0
step lb (disables a) = some (disable_node a lb).0
step lb (enables a) = some (enable_node a lb).0
step lb (auto_disables a) = some (auto_disable_node a lb).0
step lb (auto_enables a) = some (auto_enable_node a lb).0
step lb (adds a) = some (add_node a lb)
step lb (removes a) = some (remove_node a lb)
step lb (reports a status now) = some (update_health_status a lb status now)

unfoldable pub run : {F : F64} → LoadBalancer F → List Call → Option (LoadBalancer F)
run lb [] = some lb
run lb (c ∷ cs) = elim (step lb c) [ none ↦ none | some lb' ↦ run lb' cs ]

pub step-IsValid :
    {F : F64} (lb : LoadBalancer F) (c : Call)
    → IsValid lb
    → (lb' : LoadBalancer F) × (step lb c ≡ some lb') × IsValid lb'
unfolding step
step-IsValid lb (selects now) v =
    let (r, lb', e, v') = next_node-IsValid now lb v in (lb', rw (e, step), v')
step-IsValid lb (checks now) v = (_, refl, check_circuit_timeouts-IsValid lb now v)
step-IsValid lb (disables a) v = (_, refl, Invariant.disable_node-IsValid a lb v)
step-IsValid lb (enables a) v = (_, refl, Invariant.enable_node-IsValid a lb v)
step-IsValid lb (auto_disables a) v = (_, refl, Invariant.auto_disable_node-IsValid a lb v)
step-IsValid lb (auto_enables a) v = (_, refl, Invariant.auto_enable_node-IsValid a lb v)
step-IsValid lb (adds a) v = (_, refl, Invariant.add_node-IsValid a lb v)
step-IsValid lb (removes a) v = (_, refl, Invariant.remove_node-IsValid a lb v)
step-IsValid lb (reports a status now) v =
    (_, refl, Invariant.update_health_status-IsValid a lb v status now)

run_keeps :
    {F : F64} (lb : LoadBalancer F) (cs : List Call)
    → IsValid lb
    → (lb' : LoadBalancer F) × (run lb cs ≡ some lb') × IsValid lb'
unfolding run
run_keeps lb [] v = (lb, refl, v)
run_keeps lb (c ∷ cs) v =
    let (lb1, e, v1) = step-IsValid lb c v in
    let (lb2, e2, v2) = run_keeps lb1 cs v1 in (lb2, rw (e, run) e2, v2)

-- From a balancer built of distinct addresses no sequence of calls panics, and the balancer that
-- it ends in is valid: its keys are distinct, the enabled list has no address twice and holds
-- exactly the addresses whose node is enabled, and the flags and circuit fields of every node
-- agree.
pub run-IsValid :
    {F : F64} (addrs : List String) (c : CircuitBreakerConfig F) (cs : List Call)
    → Distinct str_dec addrs
    → (lb : LoadBalancer F) × (run (with_config addrs c) cs ≡ some lb) × IsValid lb
run-IsValid addrs c cs d = run_keeps (with_config addrs c) cs (with_config-IsValid addrs c d)
