-- ===== src/Runtime/Context.antt =====
-- crates/madrpc-server/src/runtime/context.rs: a context of the engine, made of a script, and a call of a
-- function that the script has registered. The state of the engine, `C`, is passed on; the values that
-- the engine hands out, `V`, are references into it. A state after an error is not kept: a context
-- serves one request. Times are nanoseconds.
pub mod Waiting
use Prim.Native.String.{◌++◌}
use madrpc.Prelude.{
  ℕ, zero, suc, ◌*◌, ◌⊎◌, inl, inr, String, Bool, Option, none, some, List, [], ◌∷◌, not, leb,
  if◌then◌else◌,
}
use madrpc.Protocol.{MadrpcError, java_script_execution, invalid_request, Result, ok, err}
use madrpc.Runtime.{JsonValue, JsValue, Engine}
use madrpc.Runtime.Conversions.{◌>>=◌, json_to_js_value, js_value_to_json}

pub data PromiseState (V : Type 0) : Type 0 where
  pending : PromiseState V
  fulfilled : V → PromiseState V
  rejected : V → PromiseState V

-- What the program uses of the engine. `view` is the tree that a reference stands for, `realise` makes a
-- tree; `run_jobs` also gives the error of the run, if any. A text on the left is an error's.
pub record Realm (C : Type 0) (V : Type 0) (N : Type 0) (F : Type 0) (S : Type 0) : Type 0 where
  pub engine : Engine N F S
  pub view : C → V → JsValue F S
  pub realise : JsValue F S → C → V × C
  pub global_object : C → V
  pub get : V → S → C → String ⊎ (V × C)
  pub set : V → S → V → C → String ⊎ C
  pub call_function : V → List V → C → String ⊎ (V × C)
  pub is_undefined : V → Bool
  pub is_object : V → Bool
  pub is_callable : V → Bool
  pub is_promise : V → Bool
  pub as_string : V → Option S
  pub debug : V → String
  pub run_jobs : C → Option String × C
  pub promise_state : V → C → PromiseState V

abbrev pub max_promise_wait_ms : ℕ
max_promise_wait_ms = 30000

abbrev pub promise_poll_interval_async_ms : ℕ
promise_poll_interval_async_ms = 10

abbrev pub promise_poll_interval_sync_ms : ℕ
promise_poll_interval_sync_ms = 50

abbrev pub timeout_duration : ℕ
timeout_duration = max_promise_wait_ms * 1000000

-- An error of the engine as one of the system.
abbrev pub map_err : {A : Type 0} → (String → MadrpcError) → String ⊎ A → Result A
map_err to_error (inl e) = err (to_error e)
map_err to_error (inr a) = ok a

abbrev pub guard : Bool → MadrpcError → Result (Unit {0})
guard b e = if b then ok tt else err e

module _ {C V N F S : Type 0} (R : Realm C V N F S) where
  abbrev pub js_string : String → S
  js_string s = R.engine.js_string s

  -- `reason_str`.
  abbrev pub decoded_or : String → String ⊎ String → String
  decoded_or default (inl e) = default
  decoded_or default (inr s) = s

  abbrev pub reason_of : V → Option S → String
  reason_of reason none = R.debug reason
  reason_of reason (some s) = decoded_or "Unknown error" (R.engine.to_std_string s)

  abbrev pub rejection : V → MadrpcError
  rejection reason =
      java_script_execution ("Promise rejected: " ++ reason_of reason (R.as_string reason))

  abbrev pub promise_timeout : MadrpcError
  promise_timeout =
      java_script_execution
        ("Promise did not resolve within " ++ R.engine.show max_promise_wait_ms ++ "ms timeout")

  abbrev pub with_state : C → Result (JsonValue N) → Result (JsonValue N × C)
  with_state c (ok j) = ok (j, c)
  with_state c (err e) = err e

  abbrev pub to_json : C → V → Result (JsonValue N × C)
  to_json c v = with_state c (js_value_to_json R.engine (R.view c v))

  -- What a poll that finds the promise in a state gives; `next` is the rest of the loop.
  abbrev pub by_state :
      C → Option (Result (JsonValue N × C)) → PromiseState V → Option (Result (JsonValue N × C))
  by_state c next pending = next
  by_state c next (fulfilled v) = some (to_json c v)
  by_state c next (rejected reason) = some (err (rejection reason))

  -- The loop of the polls from number `k` on: `elapsed k` is the time since the start that the poll
  -- reads. `none` is for a fuel that is too small.
  unfoldable pub wait_promise : (ℕ → ℕ) → V → ℕ → ℕ → C → Option (Result (JsonValue N × C))
  wait_promise elapsed promise zero k c = none
  wait_promise elapsed promise (suc fuel) k c =
      let c' = (R.run_jobs c).1 in
      let next = wait_promise elapsed promise fuel (suc k) c' in
      if leb timeout_duration (elapsed k)
      then some (err promise_timeout)
      else by_state c' next (R.promise_state promise c')

  abbrev access_error : String → MadrpcError
  access_error e = invalid_request "Failed to access registry"

  -- `madrpc.as_object().and_then(|o| o.get("__registry"))`.
  abbrev registry_value : V → C → Result (V × C)
  registry_value madrpc c = do
    _ ← guard (R.is_object madrpc) (access_error "")
    map_err access_error (R.get madrpc (js_string "__registry") c)

  unfoldable pub get_registry : C → Result (V × C)
  get_registry c = do
    found ← map_err java_script_execution (R.get (R.global_object c) (js_string "madrpc") c)
    value ← registry_value found.0 found.1
    _ ← guard (R.is_object value.0) (invalid_request "Registry is not an object")
    ok value

  abbrev lookup_error : String → String → MadrpcError
  lookup_error method e = invalid_request ("Method '" ++ method ++ "' lookup error: " ++ e)

  -- The function under the name of a method.
  unfoldable pub get_function : String → C → Result (V × C)
  get_function method c = do
    registry ← get_registry c
    func ← map_err (lookup_error method) (R.get registry.0 (js_string method) registry.1)
    _ ←
        guard (not (R.is_undefined func.0))
          (invalid_request ("Method '" ++ method ++ "' is not registered"))
    _ ← guard (R.is_object func.0) (invalid_request "Registered value is not a function")
    ok func

  abbrev execution_error : String → MadrpcError
  execution_error e = java_script_execution ("Function execution error: " ++ e)

  -- The arguments of a call are converted, and the function runs.
  unfoldable pub apply_function : JsonValue N → V × C → Result (V × C)
  apply_function args func = do
    tree ← json_to_js_value R.engine args
    let args_js = R.realise tree func.1
    map_err execution_error (R.call_function func.0 (args_js.0 ∷ []) args_js.1)

  -- Where the result is no promise: `call_rpc` leaves the error of the jobs out.
  unfoldable pub finish_sync : V → C → Result (JsonValue N × C)
  finish_sync result c = to_json (R.run_jobs c).1 result

  abbrev job_error : Option String → Result (Unit {0})
  job_error none = ok tt
  job_error (some e) = err (java_script_execution ("Job execution error: " ++ e))

  unfoldable pub finish_async : V → C → Result (JsonValue N × C)
  finish_async result c = do _ ← job_error (R.run_jobs c).0; to_json (R.run_jobs c).1 result

  abbrev settle :
      (V → C → Result (JsonValue N × C))
      → (ℕ → ℕ)
      → ℕ
      → Result (V × C)
      → Option (Result (JsonValue N × C))
  settle finish elapsed fuel (err e) = some (err e)
  settle finish elapsed fuel (ok (result, c)) =
      if R.is_promise result then wait_promise elapsed result fuel 0 c else some (finish result c)

  unfoldable pub call_rpc :
      (ℕ → ℕ) → ℕ → String → JsonValue N → C → Option (Result (JsonValue N × C))
  call_rpc elapsed fuel method args c =
      settle finish_sync elapsed fuel (get_function method c >>= apply_function args)

  unfoldable pub call_rpc_async :
      (ℕ → ℕ) → ℕ → String → JsonValue N → C → Option (Result (JsonValue N × C))
  call_rpc_async elapsed fuel method args c =
      settle finish_async elapsed fuel (get_function method c >>= apply_function args)

-- A context: the state of the engine and the client, if any.
pub record MadrpcContext (C : Type 0) (Client : Type 0) : Type 0 where
  pub ctx : C
  pub client : Option Client

-- What the system does where a context is made: the engine's new state, the evaluation of a source, the
-- bindings and the text of a file.
pub record Builder (C : Type 0) (Client : Type 0) : Type 0 where
  pub build : String ⊎ C
  pub install : Option Client → C → Result C
  pub eval : String → C → String ⊎ C
  pub read_to_string : String → String ⊎ String

module _ {C Client : Type 0} (B : Builder C Client) where
  abbrev build_error : String → MadrpcError
  build_error e = java_script_execution ("Failed to build context: " ++ e)

  abbrev load_error : String → MadrpcError
  load_error e = invalid_request ("Failed to load script: " ++ e)

  abbrev evaluation_error : String → MadrpcError
  evaluation_error e = java_script_execution ("Script evaluation error: " ++ e)

  unfoldable pub with_client : String → Option Client → Result (MadrpcContext C Client)
  with_client script_path client = do
    built ← map_err build_error B.build
    bound ← B.install client built
    script ← map_err load_error (B.read_to_string script_path)
    ctx ← map_err evaluation_error (B.eval script bound)
    ok (record { ctx = ctx; client = client })

  unfoldable pub with_client_from_source : String → Option Client → Result (MadrpcContext C Client)
  with_client_from_source script_source client = do
    built ← map_err build_error B.build
    bound ← B.install client built
    ctx ← map_err evaluation_error (B.eval script_source bound)
    ok (record { ctx = ctx; client = client })

  unfoldable pub new_context : String → Result (MadrpcContext C Client)
  new_context script_path = with_client script_path none

  unfoldable pub from_source : String → Result (MadrpcContext C Client)
  from_source script_source = with_client_from_source script_source none

-- `distributed_call`: the call of the client is an argument.
unfoldable pub distributed_call :
    {C Client N : Type 0}
    → (Client → String → JsonValue N → Result (JsonValue N))
    → MadrpcContext C Client
    → String
    → JsonValue N
    → Result (JsonValue N)
distributed_call {C} {Client} {N} call c method args = by_client c.client
  where
    by_client : Option Client → Result (JsonValue N)
    by_client none = err (invalid_request "No client configured")
    by_client (some client) = call client method args
