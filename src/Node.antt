-- ===== src/Node.antt =====
-- crates/madrpc-orchestrator/src/node.rs: a node of the load balancer and its circuit breaker.
-- `SystemTime` and `Instant` are nanoseconds; the current time is an argument of each operation
-- that reads the clock. A `Duration` is in milliseconds where the program builds it from those.
pub mod Timeout
use madrpc.Prelude.{
  ℕ, zero, suc, ◌+◌, ◌-◌, ◌*◌, ◌^◌, String, Bool, true, false, Option, none, some, ltb, leb, min,
  if◌then◌else◌,
}
use madrpc.Prelude.Word.{u64}
use madrpc.Float.{F64, ℤ, pos, negsuc}

pub data DisableReason : Type 0 where
  manual health_check : DisableReason

pub data HealthCheckStatus : Type 0 where
  healthy : HealthCheckStatus
  unhealthy : String → HealthCheckStatus

pub data CircuitBreakerState : Type 0 where
  closed open_ half_open : CircuitBreakerState

pub CircuitBreakerState-discrete : Discrete CircuitBreakerState
CircuitBreakerState-discrete = hlevel

-- `state == CircuitBreakerState::Open`.
abbrev pub is_open : CircuitBreakerState → Bool
is_open closed = false
is_open open_ = true
is_open half_open = false

-- `reason == Some(DisableReason::Manual)`.
abbrev pub is_manual : Option DisableReason → Bool
is_manual (some manual) = true
is_manual (some health_check) = false
is_manual none = false

-- `reason == Some(DisableReason::HealthCheck)`.
abbrev pub is_health_check : Option DisableReason → Bool
is_health_check (some manual) = false
is_health_check (some health_check) = true
is_health_check none = false

pub record CircuitBreakerConfig (F : F64) : Type 0 where
  pub failure_threshold : ℕ
  pub base_timeout_secs : ℕ
  pub max_timeout_secs : ℕ
  pub backoff_multiplier : F.Float

unfoldable pub default_circuit_config : (F : F64) → CircuitBreakerConfig F
default_circuit_config F = record {
  failure_threshold = 5;
  base_timeout_secs = 30;
  max_timeout_secs = 300;
  backoff_multiplier = F.of_ℕ 2;
}

-- `n as i32`, of a `u32`.
as_i32 : ℕ → ℤ
as_i32 n = if ltb n (2 ^ 31) then pos n else negsuc (2 ^ 32 - n - 1)

-- `i - 1` on `i32`, which wraps at the least value.
pred_i32 : ℤ → ℤ
pred_i32 (pos zero) = negsuc 0
pred_i32 (pos (suc n)) = pos n
pred_i32 (negsuc n) = if leb (2 ^ 31 - 1) n then pos (2 ^ 31 - 1) else negsuc (n + 1)

unfoldable pub backoff_exponent : ℕ → ℤ
unfolding as_i32 pred_i32
backoff_exponent failures = pred_i32 (as_i32 failures)

-- In milliseconds.
unfoldable pub calculate_timeout : {F : F64} → CircuitBreakerConfig F → ℕ → ℕ
calculate_timeout {F} c consecutive_failures =
    let base_ms = u64 (c.base_timeout_secs * 1000) in
    let multiplier = F.powi c.backoff_multiplier (backoff_exponent consecutive_failures) in
    let backoff_ms = F.to_u64 (F.mul (F.of_ℕ base_ms) multiplier) in
    let max_ms = u64 (c.max_timeout_secs * 1000) in min backoff_ms max_ms

pub record Node : Type 0 where
  pub addr : String
  pub enabled : Bool
  pub disable_reason : Option DisableReason
  pub consecutive_failures : ℕ  -- u32
  pub last_health_check : Option ℕ
  pub last_health_check_status : Option HealthCheckStatus
  pub circuit_state : CircuitBreakerState
  pub circuit_opened_at : Option ℕ
  pub request_count : ℕ  -- u64
  pub last_request_time : Option ℕ
  pub half_open_attempted : Bool

-- `Node::new`.
unfoldable pub new : String → Node
new addr = record {
  addr = addr;
  enabled = true;
  disable_reason = none;
  consecutive_failures = 0;
  last_health_check = none;
  last_health_check_status = none;
  circuit_state = closed;
  circuit_opened_at = none;
  request_count = 0;
  last_request_time = none;
  half_open_attempted = false;
}

-- `opened_at.elapsed().unwrap_or(0)` is truncated subtraction.
timed_out : {F : F64} → CircuitBreakerConfig F → ℕ → ℕ → Option ℕ → Bool
timed_out c now failures none = false
timed_out c now failures (some opened_at) =
    leb (calculate_timeout c failures * 1000000) (now - opened_at)

unfoldable pub should_attempt_half_open : {F : F64} → Node → CircuitBreakerConfig F → ℕ → Bool
unfolding timed_out
should_attempt_half_open n c now =
    if is_open n.circuit_state
    then timed_out c now n.consecutive_failures n.circuit_opened_at
    else false

unfoldable pub transition_circuit_state : CircuitBreakerState → ℕ → Node → Node
transition_circuit_state open_ now n = record n {
  circuit_state = open_;
  circuit_opened_at = some now;
  half_open_attempted = false;
}
transition_circuit_state closed now n = record n {
  circuit_state = closed;
  circuit_opened_at = none;
  half_open_attempted = false;
}
transition_circuit_state half_open now n = record n {
  circuit_state = half_open;
  circuit_opened_at = none;
}

-- The compare-and-swap claims the flag only if it is clear.
unfoldable pub try_transition_to_half_open : Node → Node × Bool
try_transition_to_half_open n =
    if is_open n.circuit_state
    then (if n.half_open_attempted then (n, false) else (
      record n { half_open_attempted = true; circuit_state = half_open; circuit_opened_at = none },
      true,
    ))
    else (n, false)
