-- ===== src/Orchestrator/OlderProtocol.antt =====
-- crates/madrpc-orchestrator/src/orchestrator.rs, `forward_request`: a request of the older protocol.
use madrpc.Prelude.{ℕ, ◌≡◌, refl, String, false, Option, none, some, if◌then◌else◌}
use madrpc.Float.{F64}
use madrpc.Protocol.{Result, ok, err, JsonRpcRequest}
use madrpc.Builtin.{Json}
use madrpc.Requests.{Request, Response, success_response}
use madrpc.Metrics.Recording.{is_metrics_request}
use madrpc.Metrics.Registry.Counters.{IsBalanced}
use madrpc.Metrics.Registry.Accounts.{to_number}
use madrpc.Orchestrator.{RetryConfig, is_ok}
use madrpc.Orchestrator.Router.{Service, World, handle_metrics_request, forward_request_jsonrpc}
use madrpc.Orchestrator.Router.Answers.{Grown, forward_request_jsonrpc-Grown}

abbrev pub to_response : {V : Type 0} → ℕ → Result V → Result (Response V)
to_response id (ok v) = ok (success_response id v)
to_response id (err e) = err e

module _ {F : F64} {V : Type 0} (J : Json V) (version : String) (config : RetryConfig F)
    (w : World F V) where
  abbrev pub to_jsonrpc : Request V → JsonRpcRequest V
  to_jsonrpc req = record {
    jsonrpc = "2.0";
    method = req.method;
    params = req.args;
    id = J.of_id req.id;
  }

  -- `none` is a panic.
  unfoldable pub forward_request : Request V → Service F → Option (Service F × Result (Response V))
  forward_request req s =
      if is_metrics_request req.method
      then elim (handle_metrics_request J version config w req.method s) [
        | none ↦ none
        | some v ↦ some (s, ok (success_response req.id v))
      ]
      else elim (forward_request_jsonrpc J version config w (to_jsonrpc req) s) [
        | none ↦ none
        | some (s', result) ↦ some (s', to_response req.id result)
      ]

  -- A request that is forwarded never panics, and is counted, as a success, exactly if it succeeds.
  forward_request-Grown :
      (req : Request V) (s : Service F)
      → is_metrics_request req.method ≡ false
      → IsBalanced s.metrics.registry
      → (s' : Service F) × (result : Result V) × (forward_request req s
          ≡ some (s', to_response req.id result))
        × Grown (to_number (is_ok result)) s.metrics.registry s'.metrics.registry
  unfolding forward_request
  forward_request-Grown req s plain b =
      let (s', result, done, grown) =
        forward_request_jsonrpc-Grown J version config w (to_jsonrpc req) s plain b in
      (s', result, rw (plain, done, forward_request) refl, grown)
