-- ===== src/HealthChecker/Rounds.antt =====
-- Rounds of health checks one after another, for a node that keeps failing and for one that answers.
use madrpc.Prelude.{
  ℕ, ◌+◌, ◌^◌, ◌<◌, ◌≡◌, subst, ap, ◌∙◌, String, Bool, true, false, not, ◌&&◌, Option, none, some,
  List, [], ◌∷◌, arith, ltb, leb, if◌then◌else◌, length,
}
use mathlib.Core.Option
use native.Mathlib.Nat.{mod-eq_of_lt}
use madrpc.Prelude.Text.{str_dec}
use madrpc.Prelude.HashMap.{get, get-Every}
use madrpc.Prelude.Word.{u32}
use madrpc.Float.{F64}
use madrpc.Node.{
  Node, CircuitBreakerConfig, manual, health_check, is_manual, try_transition_to_half_open,
}
use madrpc.LoadBalancer.Health.{apply_status}
use madrpc.LoadBalancer.{
  LoadBalancer, check_timeout, update_health_status, auto_enable_node, auto_disable_node,
}
use madrpc.LoadBalancer.Invariant
use madrpc.LoadBalancer.Invariant.{IsSound, IsValid}
use madrpc.LoadBalancer.Timeouts.{check_circuit_timeouts-IsValid}
use madrpc.HealthChecker.{
  HealthCheckConfig, HealthCheckUpdate, apply_health_update, process_results, check_all_nodes,
  process_health_result, run,
}
use madrpc.HealthChecker.Pointwise.{own_update, updated, round_of, check_all_nodes-round_of}

check_timeout_keeps :
    {F : F64} (c : CircuitBreakerConfig F) (now : ℕ) (n : Node)
    → let n' = (check_timeout c now n).0 in
      (n'.addr ≡ n.addr)
      × (n'.enabled ≡ n.enabled)
      × (n'.disable_reason ≡ n.disable_reason)
      × (n'.consecutive_failures ≡ n.consecutive_failures)
unfolding check_timeout try_transition_to_half_open
check_timeout_keeps c now n = ground arith

-- A healthy answer clears the failures, and only a manual reason survives it.
abbrev Healed : Node → Node → Type 0
Healed n r =
    (r.consecutive_failures ≡ 0)
    × (r.enabled ≡ not (is_manual n.disable_reason))
    × (r.disable_reason ≡ (if is_manual n.disable_reason then some manual else none))

-- A failure is counted, and takes the node out if it was in and the threshold is reached.
abbrev Failed : HealthCheckConfig → Node → Node → Type 0
Failed config n r =
    (r.consecutive_failures ≡ n.consecutive_failures + 1)
    × (r.enabled ≡ n.enabled && ltb (n.consecutive_failures + 1) config.failure_threshold)
    × (r.disable_reason ≡ (
        if n.enabled && leb config.failure_threshold (n.consecutive_failures + 1)
        then some health_check
        else n.disable_reason))

module _ {F : F64} (config : HealthCheckConfig) (c : CircuitBreakerConfig F) (now : ℕ)
    (addr : String) (n : Node) (s : IsSound addr n) where
  updated_healthy : Healed n (updated c (own_update config n none) now n)
  unfolding updated own_update apply_status
  updated_healthy = ground arith

  updated-Failed :
      (msg : String)
      → n.consecutive_failures + 1 < 2 ^ 32
      → Failed config n (updated c (own_update config n (some msg)) now n)
  unfolding updated own_update apply_status
  updated-Failed msg h =
      let exact : u32 (n.consecutive_failures + 1) ≡ n.consecutive_failures + 1 = mod-eq_of_lt h in
      ground (arith, exact)

module _ {F : F64} (config : HealthCheckConfig) (probe : Node → Option String)
    (c : CircuitBreakerConfig F) (now : ℕ) (addr : String) (n : Node) (s : IsSound addr n) where
  abbrev timed_node : Node
  timed_node = (check_timeout c now n).0

  timed_node-IsSound : IsSound addr timed_node
  timed_node-IsSound = Invariant.check_timeout-IsSound c now addr n s

  round_of-healthy : probe timed_node ≡ none → Healed n (round_of config probe c now n)
  unfolding round_of
  round_of-healthy e =
      rw (e, round_of)
        (ground (
          arith,
          updated_healthy config c now addr timed_node timed_node-IsSound,
          check_timeout_keeps c now n,
        ))

  round_of-Failed :
      (msg : String)
      → probe timed_node ≡ some msg
      → n.consecutive_failures + 1 < 2 ^ 32
      → Failed config n (round_of config probe c now n)
  unfolding round_of
  round_of-Failed msg e h =
      rw (e, round_of)
        (ground (
          arith,
          updated-Failed config c now addr timed_node timed_node-IsSound msg,
          check_timeout_keeps c now n,
        ))

apply_health_update-IsValid :
    {F : F64} (u : HealthCheckUpdate) (now : ℕ) (lb : LoadBalancer F)
    → IsValid lb
    → IsValid (apply_health_update u now lb)
unfolding apply_health_update
apply_health_update-IsValid {F} u now lb v = disabled u.should_disable (enabled u.should_enable)
  where
    checked : LoadBalancer F
    checked = update_health_status u.node_addr lb u.status now

    enabled : (b : Bool) → IsValid (if b then (auto_enable_node u.node_addr checked).0 else checked)
    enabled true =
        Invariant.auto_enable_node-IsValid u.node_addr checked
          (Invariant.update_health_status-IsValid u.node_addr lb v u.status now)
    enabled false = Invariant.update_health_status-IsValid u.node_addr lb v u.status now

    disabled :
        (b : Bool) {lb2 : LoadBalancer F}
        → IsValid lb2
        → IsValid (if b then (auto_disable_node u.node_addr lb2).0 else lb2)
    disabled true {lb2} v2 = Invariant.auto_disable_node-IsValid u.node_addr lb2 v2
    disabled false v2 = v2

process_results-IsValid :
    {F : F64} (config : HealthCheckConfig) (now : ℕ) (results : List (Node × Option String))
    (lb : LoadBalancer F)
    → IsValid lb
    → IsValid (process_results config now results lb)
unfolding process_results
process_results-IsValid config now [] lb v = v
process_results-IsValid config now ((n, r) ∷ results) lb v =
    process_results-IsValid config now results
      (apply_health_update (process_health_result config lb n r) now lb)
      (apply_health_update-IsValid (process_health_result config lb n r) now lb v)

-- A round of health checks keeps a valid balancer valid.
pub check_all_nodes-IsValid :
    {F : F64} (config : HealthCheckConfig) (probe : Node → Option String) (now : ℕ)
    (lb : LoadBalancer F)
    → IsValid lb
    → IsValid (check_all_nodes config probe now lb)
unfolding check_all_nodes
check_all_nodes-IsValid config probe now lb v =
    process_results-IsValid config now _ _ (check_circuit_timeouts-IsValid lb now v)

-- Every check of the address fails.
abbrev pub AlwaysFails : (Node → Option String) → String → Type 0
AlwaysFails probe a = (n : Node) → n.addr ≡ a → (msg : String) × (probe n ≡ some msg)

-- The node after `k` failures in a row, counted from an enabled node with none.
record IsFailing (config : HealthCheckConfig) (k : ℕ) (n : Node) : Type 0 where
  failures : n.consecutive_failures ≡ k
  enabled : n.enabled ≡ ltb k config.failure_threshold
  reason : n.disable_reason ≡ (if ltb k config.failure_threshold then none else some health_check)

round_of-IsFailing :
    {F : F64} (config : HealthCheckConfig) (probe : Node → Option String)
    (c : CircuitBreakerConfig F) (now : ℕ) (addr : String) (n : Node) (k : ℕ)
    → IsSound addr n
    → AlwaysFails probe addr
    → k + 1 < 2 ^ 32
    → IsFailing config k n
    → IsFailing config (k + 1) (round_of config probe c now n)
round_of-IsFailing config probe c now addr n k s fails h f =
    let (msg, e) =
      fails (timed_node config probe c now addr n s)
        (timed_node-IsSound config probe c now addr n s).addressed in
    ground (arith, round_of-Failed config probe c now addr n s msg e)

run-IsFailing :
    {F : F64} (config : HealthCheckConfig) (probe : Node → Option String) (addr : String)
    (times : List ℕ) (k : ℕ) (lb : LoadBalancer F) (n : Node)
    → IsValid lb
    → AlwaysFails probe addr
    → k + length times < 2 ^ 32
    → get str_dec addr lb.nodes ≡ some n
    → IsFailing config k n
    → (r : Node) × (get str_dec addr (run config probe times lb).nodes ≡ some r)
      × IsFailing config (k + length times) r
unfolding run
run-IsFailing config probe addr [] k lb n v fails h e f =
    (n, e, subst (λ j. IsFailing config j n) {x = k} (omega arith) f)
run-IsFailing config probe addr (now ∷ times) k lb n v fails h e f =
    let sound = get-Every str_dec IsSound addr n lb.nodes v.sound e in
    let next =
      round_of-IsFailing config probe lb.circuit_config now addr n k sound fails (omega arith) f in
    let (r, at, g) =
      run-IsFailing config probe addr times (k + 1) (check_all_nodes config probe now lb)
        (round_of config probe lb.circuit_config now n)
        (check_all_nodes-IsValid config probe now lb v) fails (omega arith)
        (check_all_nodes-round_of config probe now lb addr v
          ∙ ap (Option.map (round_of config probe lb.circuit_config now)) e)
        next in
    (r, at, subst (λ j. IsFailing config j r) {x = k + 1 + length times} (omega arith) g)

-- From a valid balancer, a node that is enabled with no failures and fails every check is, after
-- any number of rounds below 2^32, still in the map with as many failures as rounds; it is
-- enabled as long as the rounds are fewer than the threshold, and from then on disabled with the
-- reason `health_check`. The threshold is not 0.
pub run-threshold :
    {F : F64} (config : HealthCheckConfig) (probe : Node → Option String) (addr : String)
    (times : List ℕ) (lb : LoadBalancer F) (n : Node)
    → IsValid lb
    → AlwaysFails probe addr
    → 0 < config.failure_threshold
    → length times < 2 ^ 32
    → get str_dec addr lb.nodes ≡ some n
    → n.enabled ≡ true
    → n.consecutive_failures ≡ 0
    → (r : Node) × (get str_dec addr (run config probe times lb).nodes ≡ some r)
      × (r.consecutive_failures ≡ length times)
      × (r.enabled ≡ ltb (length times) config.failure_threshold)
      × (r.disable_reason
          ≡ (if ltb (length times) config.failure_threshold then none else some health_check))
run-threshold config probe addr times lb n v fails pos h e on zero_ =
    let sound = get-Every str_dec IsSound addr n lb.nodes v.sound e in
    let (r, at, f) = run-IsFailing config probe addr times 0 lb n v fails (omega arith) e (record {
      failures = zero_;
      enabled = ground arith;
      reason = ground (arith, sound.reasoned);
    }) in
    (
      r,
      at,
      f.failures ∙ omega arith,
      subst (λ (j : ℕ). r.enabled ≡ ltb j config.failure_threshold) {x = 0 + length times}
          (omega arith) f.enabled,
      subst
          (λ (j : ℕ).
            r.disable_reason ≡ (if ltb j config.failure_threshold then none else some health_check))
          {x = 0 + length times} (omega arith) f.reason,
    )

-- In a valid balancer, a round in which the node's check succeeds clears its failures and
-- enables it, unless it was disabled by hand, and then it stays so.
pub check_all_nodes-healthy :
    {F : F64} (config : HealthCheckConfig) (probe : Node → Option String) (now : ℕ) (addr : String)
    (lb : LoadBalancer F) (n : Node)
    → IsValid lb
    → ((m : Node) → m.addr ≡ addr → probe m ≡ none)
    → get str_dec addr lb.nodes ≡ some n
    → (r : Node) × (get str_dec addr (check_all_nodes config probe now lb).nodes ≡ some r)
      × (r.consecutive_failures ≡ 0)
      × (r.enabled ≡ not (is_manual n.disable_reason))
      × (r.disable_reason ≡ (if is_manual n.disable_reason then some manual else none))
check_all_nodes-healthy config probe now addr lb n v ok e =
    let sound = get-Every str_dec IsSound addr n lb.nodes v.sound e in
    let c = lb.circuit_config in
    let healed = round_of-healthy config probe c now addr n sound (
      ok (timed_node config probe c now addr n sound)
        (timed_node-IsSound config probe c now addr n sound).addressed) in
    (
      round_of config probe c now n,
      check_all_nodes-round_of config probe now lb addr v
          ∙ ap (Option.map (round_of config probe c now)) e,
      healed.0,
      healed.1,
      healed.2,
    )
