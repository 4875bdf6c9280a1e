-- ===== src/Server/Script.antt =====
-- crates/madrpc-server/src/node.rs: the execution of a call by a context that is made of the node's script,
-- and what the node makes of it.
use Prim.Native.String.{◌++◌}
use madrpc.Prelude.{
  ℕ, suc, ◌<◌, ◌≤◌, ◌≡◌, ◌≢◌, refl, sym, ◌∙◌, some_inj, String, Bool, true, false, Option, none,
  some, ◌⊎◌, inl, inr, subst,
}
use madrpc.Float.{F64}
use madrpc.Protocol.{Result, ok, err, MadrpcError, java_script_execution}
use madrpc.Builtin.{Json}
use madrpc.Metrics.Registry.{State}
use madrpc.Metrics.Registry.Counters.{IsBalanced}
use madrpc.Metrics.Registry.Accounts.{to_number, Counted}
use madrpc.Runtime.{JsonValue}
use madrpc.Runtime.Conversions.{◌>>=◌, js_value_to_json}
use madrpc.Runtime.Context.{
  PromiseState, pending, fulfilled, rejected, Realm, with_state, reason_of, decoded_or, Builder,
  MadrpcContext, with_client_from_source, get_function, apply_function, call_rpc_async, by_state,
  timeout_duration,
}
use madrpc.Runtime.Context.Waiting.{after, call_rpc-settled}
use madrpc.Server.{
  ResourceLimits, NodeWorld, Execution, no_runtime, elapsed, not_joined, finished, is_success,
  call_rpc,
}
use madrpc.Server.Answers.{call_rpc-finished}

-- What a call gives whose promise is found in a state, and how many successes it counts: the value as
-- JSON, the error of a value that is no JSON, or the error with the reason of the rejection: its text,
-- `Unknown error` for one that is not valid Unicode, or how the engine prints it where it is no string.
pub data Settles {C V N F S : Type 0} (R : Realm C V N F S) (c : C)
    : PromiseState V → Result (JsonValue N) → ℕ → Type 0 where
  value :
      (v : V) (j : JsonValue N)
      → js_value_to_json R.engine (R.view c v) ≡ ok j
      → Settles R c (fulfilled v) (ok j) 1
  unreadable :
      (v : V) (e : MadrpcError)
      → js_value_to_json R.engine (R.view c v) ≡ err e
      → Settles R c (fulfilled v) (err e) 0
  reason_text :
      (reason : V) (s : S) (text : String)
      → R.as_string reason ≡ some s
      → R.engine.to_std_string s ≡ inr text
      → Settles R c (rejected reason) (err (java_script_execution ("Promise rejected: " ++ text))) 0
  reason_unknown :
      (reason : V) (s : S) (e : String)
      → R.as_string reason ≡ some s
      → R.engine.to_std_string s ≡ inl e
      → Settles R c
          (rejected reason)
          (err (java_script_execution ("Promise rejected: " ++ "Unknown error")))
          0
  reason_printed :
      (reason : V)
      → R.as_string reason ≡ none
      → Settles R c
          (rejected reason)
          (err (java_script_execution ("Promise rejected: " ++ R.debug reason)))
          0

-- The task of a call: no runtime to run it on, whether it ends within the time limit, and the error of
-- joining it.
pub record CallTask : Type 0 where
  pub runtime_missing : Option String
  pub in_time : Bool
  pub join_failure : Option String

abbrev pub joined : {A : Type 0} → Option String → Result A → Execution A
joined none r = finished r
joined (some e) r = not_joined e

abbrev pub timed : {A : Type 0} → Bool → Execution A → Execution A
timed true x = x
timed false x = elapsed

abbrev pub supervised : {A : Type 0} → Option String → Execution A → Execution A
supervised none x = x
supervised (some e) x = no_runtime e

module _ {C V N F S Client : Type 0} (R : Realm C V N F S) (B : Builder C Client) where
  -- A result without the state of the engine.
  abbrev pub value_of : Result (JsonValue N × C) → Result (JsonValue N)
  value_of (ok (j, c)) = ok j
  value_of (err e) = err e

  abbrev finish : CallTask → Option (Result (JsonValue N × C)) → Option (Execution (JsonValue N))
  finish t none = none
  finish t (some r) =
      some (supervised t.runtime_missing (timed t.in_time (joined t.join_failure (value_of r))))

  abbrev call_in :
      (ℕ → ℕ)
      → ℕ
      → String
      → JsonValue N
      → Result (MadrpcContext C Client)
      → Option (Result (JsonValue N × C))
  call_in clock fuel method params (err e) = some (err e)
  call_in clock fuel method params (ok context) =
      call_rpc_async R clock fuel method params context.ctx

  -- The closure that a call runs on a thread of its own, and the time limit around it: `clock` is the
  -- time that each poll of a promise reads, and `none` is for a fuel that is too small.
  unfoldable pub execute :
      CallTask
      → (ℕ → ℕ)
      → ℕ
      → String
      → Option Client
      → String
      → JsonValue N
      → Option (Execution (JsonValue N))
  execute t clock fuel source client method params =
      finish t (call_in clock fuel method params (with_client_from_source B source client))

  execute-settled :
      (t : CallTask) (clock : ℕ → ℕ) (fuel : ℕ) (source : String) (client : Option Client)
      → (method : String) (params : JsonValue N) (context : MadrpcContext C Client)
      → (r : Result (JsonValue N × C)) → t.runtime_missing ≡ none
      → t.in_time ≡ true
      → t.join_failure ≡ none
      → with_client_from_source B source client ≡ ok context
      → call_rpc_async R clock fuel method params context.ctx ≡ some r
      → execute t clock fuel source client method params ≡ some (finished (value_of r))
  unfolding execute
  execute-settled t clock fuel source client method params context r a b c made called =
      rw (made, called, a, b, c) refl

  -- What the poll that finds the promise settled gives.
  abbrev Settled : C → PromiseState V → Option (Result (JsonValue N × C)) → Type 0
  Settled c s answer =
      (r : Result (JsonValue N × C)) × (n : ℕ) × (answer ≡ some r)
      × Settles R c s (value_of r) n
      × (to_number (is_success (value_of r)) ≡ n)

  fulfilled-Settled : (c : C) (v : V) → Settled c (fulfilled v) (by_state R c none (fulfilled v))
  fulfilled-Settled c v = by_json (js_value_to_json R.engine (R.view c v)) refl
    where
      by_json :
          (j : Result (JsonValue N))
          → js_value_to_json R.engine (R.view c v) ≡ j
          → Settled c (fulfilled v) (some (with_state R c j))
      by_json (ok j) e = (ok (j, c), 1, refl, value v j e, refl)
      by_json (err x) e = (err x, 0, refl, unreadable v x e, refl)

  rejected-Settled : (c : C) (v : V) → Settled c (rejected v) (by_state R c none (rejected v))
  rejected-Settled c v = by_text (R.as_string v) refl
    where
      by_text :
          (o : Option S)
          → R.as_string v ≡ o
          → Settled c
              (rejected v)
              (some (err (java_script_execution ("Promise rejected: " ++ reason_of R v o))))
      by_text none e = (_, 0, refl, reason_printed v e, refl)
      by_text (some s) e = by_decoded (R.engine.to_std_string s) refl
        where
          by_decoded :
              (d : String ⊎ String)
              → R.engine.to_std_string s ≡ d
              → Settled c (rejected v) (
                  some (
                    err (
                      java_script_execution
                        ("Promise rejected: " ++ decoded_or R "Unknown error" d))))
          by_decoded (inl x) f = (_, 0, refl, reason_unknown v s x e f, refl)
          by_decoded (inr text) f = (_, 0, refl, reason_text v s text e f, refl)

  by_state-Settled : (c : C) (s : PromiseState V) → s ≢ pending → Settled c s (by_state R c none s)
  by_state-Settled c pending n = absurd (n refl)
  by_state-Settled c (fulfilled v) n = fulfilled-Settled c v
  by_state-Settled c (rejected v) n = rejected-Settled c v

  -- A call of a node end to end: the context is made of the script, the function that the
  -- script has registered gives a promise, which the polls find pending until the poll `j`
  -- finds it settled, before the 30 s and the time limit of the node are up. The node then
  -- answers, as `Settles` says, with the value that the promise was fulfilled with as JSON,
  -- with the error of a value that is no JSON, or with an error that names the reason of the
  -- rejection: its text, `Unknown error` where that is not valid Unicode, or how the engine
  -- prints it. Its metrics count one call, and one success in the first case only. The clock
  -- does not go back, and the registry is balanced.
  pub call_rpc-scripted :
      (G : F64) (J : Json (JsonValue N)) (version : String) (limits : ResourceLimits)
      → (w : NodeWorld (JsonValue N)) (metrics : State)
      → (t : CallTask) (clock : ℕ → ℕ) (j fuel : ℕ) (source : String) (client : Option Client)
      → (method : String) (params : JsonValue N) (context : MadrpcContext C Client)
      → (promise : V) (c : C) (s : PromiseState V) → t.runtime_missing ≡ none
      → t.in_time ≡ true
      → t.join_failure ≡ none
      → execute t clock fuel source client method params ≡ some (w.execute method params)
      → with_client_from_source B source client ≡ ok context
      → (get_function R method context.ctx >>= apply_function R params) ≡ ok (promise, c)
      → R.is_promise promise ≡ true
      → ((k : ℕ) → clock k ≤ clock (suc k))
      → ((i : ℕ) → i < j → R.promise_state promise (after R (suc i) c) ≡ pending)
      → R.promise_state promise (after R (suc j) c) ≡ s
      → s ≢ pending
      → clock j < timeout_duration
      → j < fuel
      → IsBalanced metrics.registry
      → (metrics' : State) × (r : Result (JsonValue N)) × (n : ℕ) × (call_rpc G J version limits w
            method params metrics
          ≡ some (metrics', r))
        × Settles R (after R (suc j) c) s r n
        × Counted metrics.registry metrics'.registry 1 n 0 0
  call_rpc-scripted G J version limits w metrics t clock j fuel source client method params context
        promise c s a b d runs made called is grows before now unsettled lt enough balanced =
      let (r, n, given, settles, counts) = by_state-Settled (after R (suc j) c) s unsettled in
      let settled =
        (call_rpc-settled R method params context.ctx c promise clock j fuel s called is grows
          before now unsettled lt enough).1
        ∙ given in
      let done =
        execute-settled t clock fuel source client method params context r a b d made settled in
      let (metrics', answered, counted) =
        call_rpc-finished G J version limits w method params metrics (value_of r)
          (some_inj (sym runs ∙ done)) balanced in
      (
        metrics',
        value_of r,
        n,
        answered,
        settles,
        subst (λ k. Counted metrics.registry metrics'.registry 1 k 0 0) counts counted,
      )
