-- ===== src/LoadBalancer/Circuit.antt =====
-- The circuit breaker's state machine: the moves that it makes, and when it trips.
use native.Mathlib.Nat.{mod-eq_of_lt}
use madrpc.Prelude.{
  ℕ, ◌+◌, ◌^◌, ◌<◌, ◌≡◌, ◌≢◌, refl, sym, subst, some_inj, inl, inr, ap, ◌∙◌, ◌⊎◌, String, none,
  some, List, [], ◌∷◌, arith, length, ltb, if◌then◌else◌, Option-cases, Bool-cases,
}
use madrpc.Prelude.Text.{str_dec}
use madrpc.Prelude.Word.{u32}
use madrpc.Prelude.HashMap.{get, alter, get-alter, get-insert, get-remove}
use madrpc.Float.{F64}
use madrpc.Node
use madrpc.Node.{
  Node, CircuitBreakerConfig, CircuitBreakerState, HealthCheckStatus, healthy, unhealthy, closed,
  open_, half_open, manual, health_check, is_manual, is_health_check, try_transition_to_half_open,
  transition_circuit_state,
}
use madrpc.LoadBalancer.Health.{apply_status}
use madrpc.LoadBalancer.{
  LoadBalancer, count_request, set_enabled, set_disabled, disable_node, enable_node,
  auto_disable_node, auto_enable_node, add_node, remove_node, update_health_status, check_timeout,
  check_circuit_timeouts,
}
use madrpc.LoadBalancer.Timeouts.{get-check_timeouts}
use madrpc.LoadBalancer.Loop.{next_node_inv}
use madrpc.LoadBalancer.History.{
  Call, selects, checks, disables, enables, auto_disables, auto_enables, adds, removes, reports,
  step,
}

-- The documented transitions, and no move at all.
pub data Move : CircuitBreakerState → CircuitBreakerState → Type 0 where
  stay : {s : CircuitBreakerState} → Move s s
  trip : Move closed open_
  probe : Move open_ half_open
  recover : Move half_open closed
  relapse : Move half_open open_

abbrev MoveTo : Node → Node → Type 0
MoveTo n m = Move n.circuit_state m.circuit_state

-- The node at `a` before and after: gone, or moved along.
abbrev pub Moved : {F : F64} → String → Node → LoadBalancer F → Type 0
Moved a n lb =
    (get str_dec a lb.nodes ≡ none)
    ⊎ ((m : Node) × (get str_dec a lb.nodes ≡ some m) × Move n.circuit_state m.circuit_state)

-- The moves from each state, by what they do not reach.
from_closed : (t : CircuitBreakerState) → t ≢ half_open → Move closed t
from_closed closed h = stay
from_closed open_ h = trip
from_closed half_open h = absurd (h refl)

from_open : (t : CircuitBreakerState) → t ≢ closed → Move open_ t
from_open closed h = absurd (h refl)
from_open open_ h = stay
from_open half_open h = probe

from_half_open : (t : CircuitBreakerState) → Move half_open t
from_half_open closed = recover
from_half_open open_ = relapse
from_half_open half_open = stay

module _ {F : F64} (c : CircuitBreakerConfig F) (now : ℕ) (n : Node) where
  apply_status-Move :
      (s : CircuitBreakerState) (status : HealthCheckStatus)
      → n.circuit_state ≡ s
      → Move s (apply_status c status now n).circuit_state
  unfolding apply_status
  apply_status-Move closed healthy e = from_closed _ (ground arith)
  apply_status-Move closed (unhealthy msg) e = from_closed _ (ground arith)
  apply_status-Move open_ healthy e = from_open _ (ground arith)
  apply_status-Move open_ (unhealthy msg) e = from_open _ (ground arith)
  apply_status-Move half_open status e = from_half_open _

  check_timeout-Move :
      (s : CircuitBreakerState)
      → n.circuit_state ≡ s
      → Move s (check_timeout c now n).0.circuit_state
  unfolding check_timeout try_transition_to_half_open
  check_timeout-Move closed e = from_closed _ (ground arith)
  check_timeout-Move open_ e = from_open _ (ground arith)
  check_timeout-Move half_open e = from_half_open _

-- A write to one node whose circuit makes a move.
alter-Moved :
    {F : F64} (a b : String) (f : Node → Node) (n : Node) (lb : LoadBalancer F)
    → ((m : Node) → Move m.circuit_state (f m).circuit_state)
    → get str_dec a lb.nodes ≡ some n
    → Moved a n (record lb { nodes = alter str_dec b f lb.nodes })
alter-Moved a b f n lb moves e = elim (str_dec a b) [
  | yes p ↦ inr (f n, ground (arith, get-alter str_dec a b f lb.nodes), moves n)
  | no p ↦ inr (n, ground (arith, get-alter str_dec a b f lb.nodes), stay)
]

module _ {F : F64} (a b : String) (n : Node) (lb : LoadBalancer F)
    (at : get str_dec a lb.nodes ≡ some n) where
  disable-Moved : Moved a n (disable_node b lb).0
  unfolding disable_node
  disable-Moved = elim (Option-cases (get str_dec b lb.nodes)) [
    | inl e ↦ rw (e, disable_node) (inr (n, at, stay))
    | inr (m, e) ↦ rw (e, disable_node) (alter-Moved a b (set_disabled manual) n lb (λ m. stay) at)
  ]

  enable-Moved : Moved a n (enable_node b lb).0
  unfolding enable_node
  enable-Moved = elim (Option-cases (get str_dec b lb.nodes)) [
    | inl e ↦ rw (e, enable_node) (inr (n, at, stay))
    | inr (m, e) ↦ rw (e, enable_node) (alter-Moved a b set_enabled n lb (λ m. stay) at)
  ]

  auto_disable-Moved : Moved a n (auto_disable_node b lb).0
  unfolding auto_disable_node
  auto_disable-Moved = elim (Option-cases (get str_dec b lb.nodes)) [
    | inl e ↦ rw (e, auto_disable_node) (inr (n, at, stay))
    | inr (m, e) ↦
        rw (e, auto_disable_node)
          (elim (Bool-cases (is_manual m.disable_reason)) [
            | inl q ↦ rw q (inr (n, at, stay))
            | inr q ↦ rw q (alter-Moved a b (set_disabled health_check) n lb (λ m. stay) at)
          ])
  ]

  auto_enable-Moved : Moved a n (auto_enable_node b lb).0
  unfolding auto_enable_node
  auto_enable-Moved = elim (Option-cases (get str_dec b lb.nodes)) [
    | inl e ↦ rw (e, auto_enable_node) (inr (n, at, stay))
    | inr (m, e) ↦
        rw (e, auto_enable_node)
          (elim (Bool-cases (is_health_check m.disable_reason)) [
            | inl q ↦ rw q (alter-Moved a b set_enabled n lb (λ m. stay) at)
            | inr q ↦ rw q (inr (n, at, stay))
          ])
  ]

  add-Moved : Moved a n (add_node b lb)
  unfolding add_node
  add-Moved = inr (n, ground (arith, get-insert str_dec a b (Node.new b) lb.nodes), stay)

  remove-Moved : Moved a n (remove_node b lb)
  unfolding remove_node
  remove-Moved = elim (str_dec a b) [
    | yes p ↦ inl (ground (arith, get-remove str_dec a b lb.nodes))
    | no p ↦ inr (n, ground (arith, get-remove str_dec a b lb.nodes), stay)
  ]

  report-Moved :
      (status : HealthCheckStatus) (now : ℕ) → Moved a n (update_health_status b lb status now)
  unfolding update_health_status
  report-Moved status now =
      alter-Moved a b (apply_status lb.circuit_config status now) n lb
        (λ m. apply_status-Move lb.circuit_config now m m.circuit_state status refl) at

  checks-Moved : (now : ℕ) → Moved a n (check_circuit_timeouts lb now).0
  unfolding check_circuit_timeouts
  checks-Moved now = inr (
    (check_timeout lb.circuit_config now n).0,
    ground (arith, get-check_timeouts lb.circuit_config now a lb.nodes),
    check_timeout-Move lb.circuit_config now n n.circuit_state refl,
  )

-- Counting requests leaves the circuit where it is.
abbrev SameCircuit : {F : F64} → String → CircuitBreakerState → LoadBalancer F → Type 0
SameCircuit a s lb = (m : Node) × (get str_dec a lb.nodes ≡ some m) × (m.circuit_state ≡ s)

count-SameCircuit :
    {F : F64} (a : String) (s : CircuitBreakerState) (now : ℕ) (lb : LoadBalancer F) (b : String)
    → SameCircuit a s lb
    → SameCircuit a s (record lb { nodes = alter str_dec b (count_request now) lb.nodes })
count-SameCircuit a s now lb b (m, e, q) = elim (str_dec a b) [
  | yes p ↦
      (count_request now m, ground (arith, get-alter str_dec a b (count_request now) lb.nodes), q)
  | no p ↦ (m, ground (arith, get-alter str_dec a b (count_request now) lb.nodes), q)
]

selects-Moved :
    {F : F64} (a : String) (n : Node) (lb lb' : LoadBalancer F) (now : ℕ)
    → get str_dec a lb.nodes ≡ some n
    → step lb (selects now) ≡ some lb'
    → Moved a n lb'
unfolding step
selects-Moved a n lb lb' now at e =
    let (r, lb1, e1, (m, q, same)) =
      next_node_inv (SameCircuit a n.circuit_state) now (λ lb i p. p)
        (count-SameCircuit a n.circuit_state now) lb (n, at, refl) in
    subst (Moved a n) {x = lb1} {y = lb'} (some_inj (ground arith))
      (inr (m, q, subst (Move n.circuit_state) (sym same) stay))

-- Any call on the balancer removes a node or moves its circuit along one of the documented
-- transitions, if it moves it at all: closed to open, open to half-open, half-open to closed or
-- open.
pub step-Moved :
    {F : F64} (a : String) (n : Node) (lb lb' : LoadBalancer F) (c : Call)
    → get str_dec a lb.nodes ≡ some n
    → step lb c ≡ some lb'
    → Moved a n lb'
unfolding step
step-Moved a n lb lb' (selects now) at e = selects-Moved a n lb lb' now at e
step-Moved a n lb lb' (checks now) at e =
    subst (Moved a n) (some_inj e) (checks-Moved a a n lb at now)
step-Moved a n lb lb' (disables b) at e = subst (Moved a n) (some_inj e) (disable-Moved a b n lb at)
step-Moved a n lb lb' (enables b) at e = subst (Moved a n) (some_inj e) (enable-Moved a b n lb at)
step-Moved a n lb lb' (auto_disables b) at e =
    subst (Moved a n) (some_inj e) (auto_disable-Moved a b n lb at)
step-Moved a n lb lb' (auto_enables b) at e =
    subst (Moved a n) (some_inj e) (auto_enable-Moved a b n lb at)
step-Moved a n lb lb' (adds b) at e = subst (Moved a n) (some_inj e) (add-Moved a b n lb at)
step-Moved a n lb lb' (removes b) at e = subst (Moved a n) (some_inj e) (remove-Moved a b n lb at)
step-Moved a n lb lb' (reports b status now) at e =
    subst (Moved a n) (some_inj e) (report-Moved a b n lb at status now)

-- Failures in a row, at the given times.
pub fail_at : {F : F64} → CircuitBreakerConfig F → List (ℕ × String) → Node → Node
fail_at c [] n = n
fail_at c ((now, msg) ∷ es) n = fail_at c es (apply_status c (unhealthy msg) now n)

-- The node after `k` failures in a row, counted from a closed circuit with none.
record IsTripping {F : F64} (c : CircuitBreakerConfig F) (k : ℕ) (n : Node) : Type 0 where
  failures : n.consecutive_failures ≡ k
  state : n.circuit_state ≡ (if ltb k c.failure_threshold then closed else open_)

fail-IsTripping :
    {F : F64} (c : CircuitBreakerConfig F) (now : ℕ) (msg : String) (n : Node) (k : ℕ)
    → k + 1 < 2 ^ 32
    → IsTripping c k n
    → IsTripping c (k + 1) (apply_status c (unhealthy msg) now n)
unfolding apply_status transition_circuit_state
fail-IsTripping c now msg n k h t =
    let exact : u32 (n.consecutive_failures + 1) ≡ k + 1 = ap u32 (omega arith) ∙ mod-eq_of_lt h in
    ground (arith, exact)

fail_at-IsTripping :
    {F : F64} (c : CircuitBreakerConfig F) (es : List (ℕ × String)) (n : Node) (k : ℕ)
    → k + length es < 2 ^ 32
    → IsTripping c k n
    → IsTripping c (k + length es) (fail_at c es n)
unfolding fail_at
fail_at-IsTripping c [] n k h t = subst (λ j. IsTripping c j n) {x = k} (omega arith) t
fail_at-IsTripping c ((now, msg) ∷ es) n k h t =
    subst (λ j. IsTripping c j (fail_at c es (apply_status c (unhealthy msg) now n)))
      {x = k + 1 + length es} (omega arith)
      (fail_at-IsTripping c es (apply_status c (unhealthy msg) now n) (k + 1) (omega arith)
        (fail-IsTripping c now msg n k (omega arith) t))

-- From a closed circuit with no failures, failures in a row leave it closed as long as they are
-- fewer than the threshold and open from then on, and each is counted. The threshold is not 0,
-- and there are fewer than 2^32 of them.
pub fail_at-threshold :
    {F : F64} (c : CircuitBreakerConfig F) (es : List (ℕ × String)) (n : Node)
    → 0 < c.failure_threshold
    → length es < 2 ^ 32
    → n.circuit_state ≡ closed
    → n.consecutive_failures ≡ 0
    → ((fail_at c es n).circuit_state
        ≡ (if ltb (length es) c.failure_threshold then closed else open_))
      × ((fail_at c es n).consecutive_failures ≡ length es)
fail_at-threshold c es n pos h s z =
    let t =
      fail_at-IsTripping c es n 0 (omega arith) (record { failures = z; state = ground arith }) in
    (
      subst
          (λ (j : ℕ).
            (fail_at c es n).circuit_state ≡ (if ltb j c.failure_threshold then closed else open_))
          {x = 0 + length es} (omega arith) t.state,
      t.failures ∙ omega arith,
    )
