-- ===== src/Orchestrator.antt =====
-- crates/madrpc-orchestrator/src/orchestrator.rs: forwarding a request to a node with retries, and the
-- registration of nodes. What a node answers to the k-th attempt of a request is an argument, and so
-- are the clock at that attempt and what other tasks do to the balancer while the request waits.
pub mod Forward
pub mod Registration
pub mod Router
pub mod HttpServer
pub mod OlderProtocol
use Prim.Native.String.{◌++◌ as ◌<>◌}
use text.Mathlib.Text.{starts_with}
use madrpc.Prelude.{
  ℕ, zero, suc, ◌+◌, String, Bool, true, false, not, ◌&&◌, ◌||◌, Option, none, some, List, [], ◌∷◌,
  ltb, min, if◌then◌else◌,
}
use madrpc.Float.{F64}
use madrpc.Protocol.{
  MadrpcError, node_unavailable, all_nodes_failed, invalid_request, Result, ok, err,
}
use madrpc.Builtin.{NodeRegistrationResponse}
use madrpc.LoadBalancer.{LoadBalancer, next_node, node_count}
use madrpc.LoadBalancer

pub record RetryConfig (F : F64) : Type 0 where
  pub max_retries : ℕ  -- usize
  pub initial_backoff_ms : ℕ  -- u64
  pub max_backoff_ms : ℕ  -- u64
  pub backoff_multiplier : F.Float

unfoldable pub default_retry : (F : F64) → RetryConfig F
default_retry F = record {
  max_retries = 3;
  initial_backoff_ms = 50;
  max_backoff_ms = 5000;
  backoff_multiplier = F.of_ℕ 2;
}

-- The orchestrator's own test, narrower than that of the error type.
unfoldable pub is_retryable_static : MadrpcError → Bool
is_retryable_static all_nodes_failed = true
is_retryable_static (node_unavailable msg) = true
is_retryable_static (MadrpcError.transport msg) = false
is_retryable_static (MadrpcError.json_serialization msg) = false
is_retryable_static (MadrpcError.request_timeout ms) = false
is_retryable_static (MadrpcError.java_script_execution msg) = false
is_retryable_static (MadrpcError.invalid_response msg) = false
is_retryable_static (MadrpcError.invalid_request msg) = false
is_retryable_static (MadrpcError.io msg) = false
is_retryable_static (MadrpcError.connection msg) = false
is_retryable_static (MadrpcError.pool_timeout ms) = false
is_retryable_static (MadrpcError.pool_exhausted msg) = false
is_retryable_static (MadrpcError.payload_too_large size limit) = false

abbrev pub is_ok : {V : Type 0} → Result V → Bool
is_ok (ok v) = true
is_ok (err e) = false

-- What a request does besides its result: `record_node_request`, a sleep in milliseconds, and
-- `record_call` with its flag.
pub data Effect : Type 0 where
  node_requested : String → Effect
  slept : ℕ → Effect
  call_recorded : Bool → Effect

pub record Forwarded (F : F64) (V : Type 0) : Type 0 where
  pub result : Result V
  pub balancer : LoadBalancer F
  pub effects : List Effect

abbrev pub after_effects : {F : F64} {V : Type 0} → List Effect → Forwarded F V → Forwarded F V
after_effects [] r = r
after_effects (x ∷ xs) r = let r' = after_effects xs r in record r' { effects = x ∷ r'.effects }

abbrev pub preceded :
    {F : F64} {V : Type 0} → List Effect → Option (Forwarded F V) → Option (Forwarded F V)
preceded xs none = none
preceded xs (some r) = some (after_effects xs r)

abbrev pub next_backoff : {F : F64} → RetryConfig F → ℕ → ℕ
next_backoff {F} config backoff_ms =
    min (F.to_u64 (F.mul (F.of_ℕ backoff_ms) config.backoff_multiplier)) config.max_backoff_ms

module _ {F : F64} {V : Type 0} (config : RetryConfig F) (send : ℕ → String → Result V)
    (others : ℕ → LoadBalancer F → LoadBalancer F) (message : ℕ → String) (now : ℕ → ℕ) where
  -- `next_node()` found nothing: the loop is left at once.
  abbrev no_node : ℕ → MadrpcError
  no_node attempt =
      if ltb attempt config.max_retries
      then node_unavailable (message attempt)
      else all_nodes_failed

  -- The retry loop from an attempt on, with the attempts that are left after it. `none` is a panic.
  unfoldable pub retry_from : ℕ → ℕ → ℕ → LoadBalancer F → Option (Forwarded F V)
  retry_from zero attempt backoff_ms lb = none
  retry_from (suc left) attempt backoff_ms lb =
      let retry = λ (lb' : LoadBalancer F).
        retry_from left (suc attempt) (next_backoff config backoff_ms) (others attempt lb') in
      elim (next_node (now attempt) lb) [
        | none ↦ none
        | some (none, lb') ↦
            some (record { result = err (no_node attempt); balancer = lb'; effects = [] })
        | some (some addr, lb') ↦ elim (send attempt addr) [
          | ok v ↦ some (record {
            result = ok v;
            balancer = lb';
            effects = node_requested addr ∷ call_recorded (is_ok {V = V} (ok v)) ∷ [];
          })
          | err e ↦
              if ltb attempt config.max_retries && is_retryable_static e
              then preceded (node_requested addr ∷ slept backoff_ms ∷ []) (retry lb')
              else some
                  (record { result = err e; balancer = lb'; effects = node_requested addr ∷ [] })
        ]
      ]

  -- The part of `forward_request_jsonrpc` behind the built-in methods.
  unfoldable pub forward : LoadBalancer F → Option (Forwarded F V)
  forward lb = retry_from (suc config.max_retries) 0 config.initial_backoff_ms lb

-- `format!("http://{}", addr)`, unless the address has a scheme.
unfoldable pub base_url : String → String
base_url addr =
    if starts_with addr "http://" || starts_with addr "https://" then addr else "http://" <> addr

unfoldable pub register_node :
    {F : F64} → String → LoadBalancer F → LoadBalancer F × Result NodeRegistrationResponse
register_node node_url lb =
    if not (starts_with node_url "http://") && not (starts_with node_url "https://")
    then (lb, err (invalid_request "Invalid node URL: must start with http:// or https://"))
    else (let lb1 = LoadBalancer.add_node node_url lb in
        let lb2 = (LoadBalancer.enable_node node_url lb1).0 in
        (
          lb2,
          ok (record {
            registered_url = node_url;
            is_new_registration = ltb (node_count lb) (node_count lb2);
          }),
        ))
