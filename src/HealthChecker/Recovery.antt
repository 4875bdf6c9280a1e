-- ===== src/HealthChecker/Recovery.antt =====
-- How a node comes back once its circuit has been open for its timeout.
use madrpc.Prelude.{
  ℕ, ◌+◌, ◌^◌, ◌<◌, ◌≡◌, ◌≢◌, refl, sym, ap, ◌∙◌, subst, String, Bool, true, false, not, Option,
  none, some, arith, some_inj, length, contains,
}
use mathlib.Core.Option
use madrpc.Prelude.Text.{str_dec}
use madrpc.Prelude.HashMap.{get, get-Every}
use madrpc.Float.{F64}
use madrpc.Node.{Node, CircuitBreakerConfig, closed, half_open, is_manual, transition_circuit_state}
use madrpc.LoadBalancer.{LoadBalancer, selectable, next_node, check_timeout}
use madrpc.LoadBalancer.Health.{apply_status}
use madrpc.LoadBalancer.Invariant.{IsSound, IsValid}
use madrpc.LoadBalancer.Selection.{next_node-none}
use madrpc.LoadBalancer.Timeouts.{TimedOut, check_timeout-half_open}
use madrpc.HealthChecker.{HealthCheckConfig, check_all_nodes}
use madrpc.HealthChecker.Pointwise.{updated, own_update, round_of, check_all_nodes-round_of}
use madrpc.HealthChecker.Rounds.{check_all_nodes-healthy, check_all_nodes-IsValid}

probed_closed :
    {F : F64} (config : HealthCheckConfig) (c : CircuitBreakerConfig F) (now : ℕ) (n : Node)
    → n.circuit_state ≡ half_open
    → (updated c (own_update config n none) now n).circuit_state ≡ closed
unfolding updated own_update apply_status transition_circuit_state
probed_closed config c now n h = ground arith

round_of-closed :
    {F : F64} (config : HealthCheckConfig) (probe : Node → Option String)
    (c : CircuitBreakerConfig F) (now : ℕ) (addr : String) (n : Node)
    → IsSound addr n
    → TimedOut c now n
    → ((m : Node) → m.addr ≡ addr → probe m ≡ none)
    → (round_of config probe c now n).circuit_state ≡ closed
unfolding round_of
round_of-closed config probe c now addr n sound h answers =
    let waiting = record n {
      circuit_state = half_open;
      circuit_opened_at = none;
      half_open_attempted = true;
    } in
    let timed : (check_timeout c now n).0 ≡ waiting =
      ap (λ (r : Node × Bool). r.0) (check_timeout-half_open c now addr n sound h) in
    rw (timed, answers waiting sound.addressed, round_of) (probed_closed config c now waiting refl)

-- A node that is back in the rotation.
pub record Back {F : F64} (addr : String) (lb : LoadBalancer F) : Type 0 where
  pub node : Node
  pub found : get str_dec addr lb.nodes ≡ some node
  pub closed_circuit : node.circuit_state ≡ closed
  pub no_failures : node.consecutive_failures ≡ 0
  pub in_use : node.enabled ≡ true
  pub listed : contains str_dec lb.enabled_nodes addr ≡ true
  pub can_be_selected : selectable lb.nodes addr ≡ true

-- In a valid balancer, a node whose circuit has been open for its timeout or longer, that no
-- user has disabled and that answers its check, is back after one round of health checks: its
-- circuit is closed, its failures are cleared, it is enabled and in the enabled list, and
-- `next_node` no longer answers none. After the round the list is shorter than 2^64 and the
-- index below 2^64 - 1.
pub check_all_nodes-Back :
    {F : F64} (config : HealthCheckConfig) (probe : Node → Option String) (now : ℕ) (addr : String)
    (lb : LoadBalancer F) (n : Node)
    → IsValid lb
    → get str_dec addr lb.nodes ≡ some n
    → TimedOut lb.circuit_config now n
    → is_manual n.disable_reason ≡ false
    → ((m : Node) → m.addr ≡ addr → probe m ≡ none)
    → length (check_all_nodes config probe now lb).enabled_nodes < 2 ^ 64
    → (check_all_nodes config probe now lb).round_robin_index + 1 < 2 ^ 64
    → Back addr (check_all_nodes config probe now lb)
      × ((later : ℕ) (lb' : LoadBalancer F)
          → next_node later (check_all_nodes config probe now lb) ≢ some (none, lb'))
unfolding selectable
check_all_nodes-Back config probe now addr lb n v e h free answers fits inside =
    let after = check_all_nodes config probe now lb in
    let valid = check_all_nodes-IsValid config probe now lb v in
    let (r, found, failures, enabled, reason) =
      check_all_nodes-healthy config probe now addr lb n v answers e in
    let sound = get-Every str_dec IsSound addr n lb.nodes v.sound e in
    let image = round_of config probe lb.circuit_config now n in
    let same : image ≡ r = some_inj (
      sym (
        check_all_nodes-round_of config probe now lb addr v
        ∙ ap (Option.map (round_of config probe lb.circuit_config now)) e)
      ∙ found) in
    let closes : r.circuit_state ≡ closed =
      subst (λ m. m.circuit_state ≡ closed) same
        (round_of-closed config probe lb.circuit_config now addr n sound h answers) in
    let on : r.enabled ≡ true = enabled ∙ ap not free in
    let listed : contains str_dec after.enabled_nodes addr ≡ true =
      ground (arith, valid.agree addr) in
    let fit : selectable after.nodes addr ≡ true = rw (found, closes, selectable) refl in
    (
      record {
        node = r;
        found = found;
        closed_circuit = closes;
        no_failures = failures;
        in_use = on;
        listed = listed;
        can_be_selected = fit;
      },
      λ later lb' none_left.
          absurd (cc (fit, next_node-none later after addr fits inside none_left listed)),
    )
