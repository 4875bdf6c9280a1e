-- ===== src/Server/OlderProtocol.antt =====
-- crates/madrpc-server/src/node.rs, `handle_request`: a request of the older protocol on a node. What the
-- JavaScript engine makes of the script and of the call are arguments.
use text.Mathlib.Text.{◌==◌}
use madrpc.Prelude.{ℕ, ◌-◌, ◌/◌, ◌≡◌, refl, String, false, Option, none, some, if◌then◌else◌}
use madrpc.Prelude.Word.{u64}
use madrpc.Float.{F64}
use madrpc.Protocol.{MadrpcError, Result, ok, err, display}
use madrpc.Builtin.{Json, node}
use madrpc.Requests.{Request, Response, success_response, error_response}
use madrpc.Metrics.Registry.{State}
use madrpc.Metrics.Registry.Counters.{IsBalanced}
use madrpc.Metrics.Registry.Accounts.{to_number, Counted, record_method_call-Counted}
use madrpc.Metrics.Recording.{snapshot, record_call, is_metrics_request}
use madrpc.Server.{ResourceLimits, NodeWorld, is_success}

abbrev pub to_response : {V : Type 0} → (ℕ → String) → ℕ → Result V → Response V
to_response show id (ok v) = success_response id v
to_response show id (err e) = error_response id (display show e)

module _ (F : F64) {V : Type 0} (J : Json V) (version : String) (limits : ResourceLimits)
    (w : NodeWorld V) (context : Option MadrpcError) (call : String → V → Result V) where
  -- The collector's own answers. The last arm is `unreachable!`.
  unfoldable pub handle_node_metrics_request : String → State → Option V
  handle_node_metrics_request method metrics =
      if method == "_metrics"
      then some (J.of_metrics (snapshot F false w.uptime_ms metrics.registry))
      else if method == "_info"
      then some
          (J.of_server (record { server_type = node; version = version; uptime_ms = w.uptime_ms }))
      else none

  -- `context` is the error of the script, which returns at once. `none` is a panic.
  unfoldable pub handle_request_sync : Request V → State → Option (State × Result (Response V))
  handle_request_sync req metrics =
      if is_metrics_request req.method
      then elim (handle_node_metrics_request req.method metrics) [
        | none ↦ none
        | some v ↦ some (metrics, ok (success_response req.id v))
      ]
      else elim context [
        | some e ↦ some (metrics, err e)
        | none ↦
            let result = call req.method req.args in
            elim (record_call w.system_time req.method w.start w.end_ (is_success result) metrics) [
              | none ↦ none
              | some metrics' ↦ some (metrics', ok (to_response J.show req.id result))
            ]
      ]

  -- With a script that loads, a call never panics, and is counted by its outcome.
  handle_request_sync-Counted :
      (req : Request V) (metrics : State)
      → is_metrics_request req.method ≡ false
      → context ≡ none
      → IsBalanced metrics.registry
      → (metrics' : State) × (handle_request_sync req metrics
          ≡ some (metrics', ok (to_response J.show req.id (call req.method req.args))))
        × Counted metrics.registry metrics'.registry 1
            (to_number (is_success (call req.method req.args)))
            0
            0
  unfolding handle_request_sync record_call
  handle_request_sync-Counted req metrics plain loaded b =
      let (metrics', done, c) =
        record_method_call-Counted w.system_time req.method (u64 ((w.end_ - w.start) / 1000))
          (is_success (call req.method req.args)) metrics b in
      (metrics', rw (plain, loaded, done, handle_request_sync, record_call) refl, c)
