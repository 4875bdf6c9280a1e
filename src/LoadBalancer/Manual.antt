-- ===== src/LoadBalancer/Manual.antt =====
-- A node that a user took out of the rotation, through any sequence of calls.
use madrpc.Prelude.{
  ℕ, ◌≡◌, ◌≢◌, refl, subst, ◌∙◌, inl, inr, String, false, some, List, [], ◌∷◌, arith, All, some_inj,
  contains, Option-cases,
}
use madrpc.Prelude.Text.{str_dec}
use madrpc.Prelude.HashMap.{get, alter, get-alter, get-insert, get-remove, get-Every}
use madrpc.Float.{F64}
use madrpc.Node
use madrpc.Node.{
  Node, CircuitBreakerConfig, HealthCheckStatus, healthy, unhealthy, manual, health_check,
  try_transition_to_half_open,
}
use madrpc.LoadBalancer.Health.{apply_status}
use madrpc.LoadBalancer.{
  LoadBalancer, count_request, set_enabled, set_disabled, disable_node, enable_node,
  auto_disable_node, auto_enable_node, add_node, remove_node, update_health_status, check_timeout,
  check_circuit_timeouts,
}
use madrpc.LoadBalancer.Invariant.{IsSound, IsValid, disable_node-IsValid}
use madrpc.LoadBalancer.Timeouts.{get-check_timeouts}
use madrpc.LoadBalancer.Loop.{next_node_inv}
use madrpc.LoadBalancer.History.{
  Call, selects, checks, disables, enables, auto_disables, auto_enables, adds, removes, reports,
  step, run, step-IsValid,
}

-- The node is in the map, and its reason is `manual`.
abbrev pub IsManual : {F : F64} → String → LoadBalancer F → Type 0
IsManual a lb = (n : Node) × (get str_dec a lb.nodes ≡ some n) × (n.disable_reason ≡ some manual)

-- The call is no user's call to enable or remove the node.
abbrev pub Spares : String → Call → Type 0
Spares a (selects now) = Unit
Spares a (checks now) = Unit
Spares a (disables b) = Unit
Spares a (enables b) = a ≢ b
Spares a (auto_disables b) = Unit
Spares a (auto_enables b) = Unit
Spares a (adds b) = Unit
Spares a (removes b) = a ≢ b
Spares a (reports b status now) = Unit

pub apply_status-reason :
    {F : F64} (c : CircuitBreakerConfig F) (status : HealthCheckStatus) (now : ℕ) (n : Node)
    → (apply_status c status now n).disable_reason ≡ n.disable_reason
unfolding apply_status
apply_status-reason c healthy now n = ground arith
apply_status-reason c (unhealthy msg) now n = ground arith

pub check_timeout-reason :
    {F : F64} (c : CircuitBreakerConfig F) (now : ℕ) (n : Node)
    → (check_timeout c now n).0.disable_reason ≡ n.disable_reason
unfolding check_timeout try_transition_to_half_open
check_timeout-reason c now n = ground arith

-- A write to any node that keeps the reason `manual` keeps the node manual.
alter-IsManual :
    {F : F64} (a b : String) (f : Node → Node) (lb : LoadBalancer F)
    → ((n : Node) → n.disable_reason ≡ some manual → (f n).disable_reason ≡ some manual)
    → IsManual a lb
    → IsManual a (record lb { nodes = alter str_dec b f lb.nodes })
alter-IsManual a b f lb keeps (n, e, m) = elim (str_dec a b) [
  | yes p ↦ (f n, ground (arith, get-alter str_dec a b f lb.nodes), keeps n m)
  | no p ↦ (n, ground (arith, get-alter str_dec a b f lb.nodes), m)
]

module _ {F : F64} (a b : String) (lb : LoadBalancer F) (h : IsManual a lb) where
  disable-IsManual : IsManual a (disable_node b lb).0
  unfolding disable_node
  disable-IsManual = elim (Option-cases (get str_dec b lb.nodes)) [
    | inl e ↦ rw (e, disable_node) h
    | inr (n, e) ↦
        rw (e, disable_node) (alter-IsManual a b (set_disabled manual) lb (λ n m. refl) h)
  ]

  enable-IsManual : a ≢ b → IsManual a (enable_node b lb).0
  unfolding enable_node
  enable-IsManual ne = (h.0, ground (arith, get-alter str_dec a b set_enabled lb.nodes), h.2)

  auto_disable-IsManual : IsManual a (auto_disable_node b lb).0
  unfolding auto_disable_node
  auto_disable-IsManual =
      (h.0, ground (arith, get-alter str_dec a b (set_disabled health_check) lb.nodes), h.2)

  auto_enable-IsManual : IsManual a (auto_enable_node b lb).0
  unfolding auto_enable_node
  auto_enable-IsManual = (h.0, ground (arith, get-alter str_dec a b set_enabled lb.nodes), h.2)

  add-IsManual : IsManual a (add_node b lb)
  unfolding add_node
  add-IsManual = (h.0, ground (arith, get-insert str_dec a b (Node.new b) lb.nodes), h.2)

  remove-IsManual : a ≢ b → IsManual a (remove_node b lb)
  unfolding remove_node
  remove-IsManual ne = (h.0, ground (arith, get-remove str_dec a b lb.nodes), h.2)

reported-IsManual :
    {F : F64} (a b : String) (lb : LoadBalancer F) (status : HealthCheckStatus) (now : ℕ)
    → IsManual a lb
    → IsManual a (update_health_status b lb status now)
unfolding update_health_status
reported-IsManual a b lb status now =
    alter-IsManual a b (apply_status lb.circuit_config status now) lb
      (λ n m. apply_status-reason lb.circuit_config status now n ∙ m)

checks-IsManual :
    {F : F64} (a : String) (lb : LoadBalancer F) (now : ℕ)
    → IsManual a lb
    → IsManual a (check_circuit_timeouts lb now).0
unfolding check_circuit_timeouts
checks-IsManual a lb now (n, e, m) = (
  (check_timeout lb.circuit_config now n).0,
  ground (arith, get-check_timeouts lb.circuit_config now a lb.nodes),
  check_timeout-reason lb.circuit_config now n ∙ m,
)

step-IsManual :
    {F : F64} (a : String) (lb lb' : LoadBalancer F) (c : Call)
    → Spares a c
    → step lb c ≡ some lb'
    → IsManual a lb
    → IsManual a lb'
unfolding step
step-IsManual a lb lb' (selects now) sp e h =
    let (r, lb1, e1, h1) =
      next_node_inv (IsManual a) now (λ lb i p. p)
        (λ lb b. alter-IsManual a b (count_request now) lb (λ n m. m)) lb h in
    subst (IsManual a) {x = lb1} {y = lb'} (some_inj (ground arith)) h1
step-IsManual a lb lb' (checks now) sp e h =
    subst (IsManual a) (some_inj e) (checks-IsManual a lb now h)
step-IsManual a lb lb' (disables b) sp e h =
    subst (IsManual a) (some_inj e) (disable-IsManual a b lb h)
step-IsManual a lb lb' (enables b) sp e h =
    subst (IsManual a) (some_inj e) (enable-IsManual a b lb h sp)
step-IsManual a lb lb' (auto_disables b) sp e h =
    subst (IsManual a) (some_inj e) (auto_disable-IsManual a b lb h)
step-IsManual a lb lb' (auto_enables b) sp e h =
    subst (IsManual a) (some_inj e) (auto_enable-IsManual a b lb h)
step-IsManual a lb lb' (adds b) sp e h = subst (IsManual a) (some_inj e) (add-IsManual a b lb h)
step-IsManual a lb lb' (removes b) sp e h =
    subst (IsManual a) (some_inj e) (remove-IsManual a b lb h sp)
step-IsManual a lb lb' (reports b status now) sp e h =
    subst (IsManual a) (some_inj e) (reported-IsManual a b lb status now h)

just_disabled :
    {F : F64} (a : String) (lb : LoadBalancer F) (n : Node)
    → get str_dec a lb.nodes ≡ some n
    → IsManual a (disable_node a lb).0
unfolding disable_node
just_disabled a lb n e = (
  set_disabled manual n,
  ground (arith, get-alter str_dec a a (set_disabled manual) lb.nodes),
  refl,
)

-- A valid balancer does not hold a manual node in its enabled list.
IsManual-not_enabled :
    {F : F64} (a : String) (lb : LoadBalancer F)
    → IsValid lb
    → IsManual a lb
    → contains str_dec lb.enabled_nodes a ≡ false
IsManual-not_enabled a lb v (n, e, m) =
    ground (arith, v.agree a, (get-Every str_dec IsSound a n lb.nodes v.sound e).reasoned)

run_spared :
    {F : F64} (a : String) (lb lb' : LoadBalancer F) (cs : List Call)
    → All (Spares a) cs
    → run lb cs ≡ some lb'
    → IsValid lb
    → IsManual a lb
    → IsValid lb' × IsManual a lb'
unfolding run
run_spared a lb lb' [] sp e v h = (subst IsValid (some_inj e) v, subst (IsManual a) (some_inj e) h)
run_spared a lb lb' (c ∷ cs) sp e v h =
    let (lb1, e1, v1) = step-IsValid lb c v in
    run_spared a lb1 lb' cs sp.1 (ground arith) v1 (step-IsManual a lb lb1 c sp.0 e1 h)

-- In a valid balancer, a node that a user disables stays in the map with the reason `manual` and
-- out of the enabled list, through any sequence of calls in which no call enables or removes
-- that very node.
pub run-IsManual :
    {F : F64} (a : String) (lb lb' : LoadBalancer F) (cs : List Call) (n : Node)
    → IsValid lb
    → get str_dec a lb.nodes ≡ some n
    → All (Spares a) cs
    → run (disable_node a lb).0 cs ≡ some lb'
    → IsManual a lb' × (contains str_dec lb'.enabled_nodes a ≡ false)
run-IsManual a lb lb' cs n v e sp r =
    let (v', m) =
      run_spared a (disable_node a lb).0 lb' cs sp r (disable_node-IsValid a lb v)
        (just_disabled a lb n e) in
    (m, IsManual-not_enabled a lb' v' m)
