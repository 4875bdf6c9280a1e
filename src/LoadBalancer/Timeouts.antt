-- ===== src/LoadBalancer/Timeouts.antt =====
-- `check_circuit_timeouts`: every node on its own, and when an open circuit gets half-open.
use madrpc.Prelude.{
  ℕ, ◌-◌, ◌*◌, ◌≤◌, ◌≡◌, refl, ap, sym, ◌∙◌, inl, inr, if_pos, if_neg, String, Bool, true, none,
  some, List, [], ◌∷◌, arith, Option-cases,
}
use mathlib.Core.Option
use madrpc.Prelude.Text.{str_dec}
use madrpc.Prelude.HashMap.{keys, get, Every, get-Every}
use madrpc.Float.{F64}
use madrpc.Node.{
  Node, CircuitBreakerConfig, half_open, open_, should_attempt_half_open,
  try_transition_to_half_open, calculate_timeout,
}
use madrpc.LoadBalancer.{LoadBalancer, check_timeout, check_timeouts, check_circuit_timeouts}
use madrpc.LoadBalancer.Invariant.{
  IsSound, IsValid, enabled_in, check_timeout-IsSound, check_timeout-enabled,
}

module _ {F : F64} (c : CircuitBreakerConfig F) (now : ℕ) where
  pub keys-check_timeouts : (m : List (String × Node)) → keys (check_timeouts c now m).0 ≡ keys m
  unfolding check_timeouts
  keys-check_timeouts [] = refl
  keys-check_timeouts ((a, n) ∷ m) = ap (◌∷◌ a) (keys-check_timeouts m)

  pub get-check_timeouts :
      (a : String) (m : List (String × Node))
      → get str_dec a (check_timeouts c now m).0
        ≡ Option.map (λ n. (check_timeout c now n).0) (get str_dec a m)
  unfolding check_timeouts get
  get-check_timeouts a [] = refl
  get-check_timeouts a ((b, n) ∷ m) = elim (str_dec a b) [
    | yes p ↦ rw (if_pos _ p, if_pos _ p)
    | no p ↦ rw (if_neg _ p, if_neg _ p) (get-check_timeouts a m)
  ]

  pub check_timeouts-Every :
      (m : List (String × Node))
      → Every str_dec IsSound m
      → Every str_dec IsSound (check_timeouts c now m).0
  unfolding check_timeouts
  check_timeouts-Every [] e = tt
  check_timeouts-Every ((a, n) ∷ m) e =
      (check_timeout-IsSound c now a n e.0, check_timeouts-Every m e.1)

  pub enabled_in-check_timeouts :
      (a : String) (m : List (String × Node))
      → enabled_in (check_timeouts c now m).0 a ≡ enabled_in m a
  enabled_in-check_timeouts a m = elim (Option-cases (get str_dec a m)) [
    | inl e ↦ ground (arith, get-check_timeouts a m)
    | inr (n, e) ↦ ground (arith, get-check_timeouts a m, check_timeout-enabled c now n)
  ]

pub check_circuit_timeouts-IsValid :
    {F : F64} (lb : LoadBalancer F) (now : ℕ)
    → IsValid lb
    → IsValid (check_circuit_timeouts lb now).0
unfolding check_circuit_timeouts
check_circuit_timeouts-IsValid lb now v = record {
  distinct_nodes = rw (keys-check_timeouts lb.circuit_config now lb.nodes) v.distinct_nodes;
  distinct_enabled = v.distinct_enabled;
  agree = λ a. v.agree a ∙ sym (enabled_in-check_timeouts lb.circuit_config now a lb.nodes);
  sound = check_timeouts-Every lb.circuit_config now lb.nodes v.sound;
}

-- What the check does to a sound node: an open circuit whose time is up gets half-open, whatever
-- happened before, and every other node stays as it is.
abbrev pub TimedOut : {F : F64} → CircuitBreakerConfig F → ℕ → Node → Type 0
TimedOut c now n =
    (n.circuit_state ≡ open_)
    × ((t : ℕ)
        → n.circuit_opened_at ≡ some t
        → calculate_timeout c n.consecutive_failures * 1000000 ≤ now - t)

pub check_timeout-half_open :
    {F : F64} (c : CircuitBreakerConfig F) (now : ℕ) (a : String) (n : Node)
    → IsSound a n
    → TimedOut c now n
    → check_timeout c now n ≡ (
      record n { circuit_state = half_open; circuit_opened_at = none; half_open_attempted = true },
      true,
    )
unfolding check_timeout should_attempt_half_open try_transition_to_half_open
check_timeout-half_open c now a n s h = elim (Option-cases n.circuit_opened_at) [
  | inl e ↦ ground (arith, s.timed)
  | inr (t, e) ↦ ground (arith, s.claimed, h.1 t e)
]

-- In a valid balancer a node whose circuit has been open for its timeout or longer is half-open
-- after `check_circuit_timeouts`, with no opening time and all else unchanged: the claim on the
-- transition never stands in the way.
pub check_circuit_timeouts-recovers :
    {F : F64} (lb : LoadBalancer F) (now : ℕ) (addr : String) (n : Node)
    → IsValid lb
    → get str_dec addr lb.nodes ≡ some n
    → TimedOut lb.circuit_config now n
    → get str_dec addr (check_circuit_timeouts lb now).0.nodes
      ≡ some (record n {
        circuit_state = half_open;
        circuit_opened_at = none;
        half_open_attempted = true;
      })
unfolding check_circuit_timeouts
check_circuit_timeouts-recovers lb now addr n v e h =
    get-check_timeouts lb.circuit_config now addr lb.nodes
    ∙ ap (Option.map (λ m. (check_timeout lb.circuit_config now m).0)) e
    ∙ ap (λ (r : Node × Bool). some r.0)
        (check_timeout-half_open lb.circuit_config now addr n
          (get-Every str_dec IsSound addr n lb.nodes v.sound e) h)
