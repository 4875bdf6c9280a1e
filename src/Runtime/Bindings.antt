-- ===== src/Runtime/Bindings.antt =====
-- crates/madrpc-server/src/runtime/bindings.rs: the object `madrpc` that a script finds, and what its
-- functions do. A text on the left is the message of the TypeError that a function throws. The client of
-- a call is an argument, `remote`; the jobs of the engine are asked for by `enqueue`.
pub mod Registered
use Prim.Native.String.{◌++◌}
use madrpc.Prelude.{
  ◌⊎◌, inl, inr, String, Bool, ◌&&◌, Option, none, some, List, get_elem?, if◌then◌else◌,
}
use madrpc.Protocol.{MadrpcError, java_script_execution, Result, ok, err, display}
use madrpc.Runtime.{JsonValue, JsValue, undefined}
use madrpc.Runtime.Conversions.{json_to_js_value, js_value_to_json}
use madrpc.Runtime.Conversions.{◌>>=◌ as ◌>=>◌}
use madrpc.Runtime.Context.{Realm, js_string, map_err}

-- The native functions: `register`, and with a client the two that call other nodes.
pub data Native (Client : Type 0) : Type 0 where
  register_fn : Native Client
  call_fn : Client → Native Client
  call_sync_fn : Client → Native Client

-- What the bindings use of the engine beside `Realm`: new objects and functions, a property of the global
-- object, a new promise, and the end of one.
pub record Natives (C : Type 0) (V : Type 0) (N : Type 0) (Client : Type 0) : Type 0 where
  pub new_object : C → V × C
  pub build_function : Native Client → C → V × C
  pub register_global : String → V → C → String ⊎ C
  pub new_pending : C → V × C
  pub enqueue : Client → String → JsonValue N → V → C → C
  pub resolve : V → V → C → String ⊎ C
  pub reject : V → V → C → String ⊎ C
  pub undefined_value : V

infixl 5 ◌>>=◌
abbrev pub ◌>>=◌ : {A B : Type 0} → String ⊎ A → (A → String ⊎ B) → String ⊎ B
inl e >>= f = inl e
inr a >>= f = f a

abbrev pub throw_unless : Bool → String → String ⊎ Unit {0}
throw_unless b e = if b then inr tt else inl e

-- The text of an error with words in front.
abbrev pub prefixed : {A : Type 0} → String → String ⊎ A → String ⊎ A
prefixed words (inl e) = inl (words ++ e)
prefixed words (inr a) = inr a

abbrev pub required : {A : Type 0} → String → Option A → String ⊎ A
required e none = inl e
required e (some a) = inr a

module _ {C V N F S Client : Type 0} (R : Realm C V N F S) (M : Natives C V N Client) where
  abbrev pub string_argument : Option V → Option S
  string_argument none = none
  string_argument (some v) = R.as_string v

  unfoldable pub register : List V → C → String ⊎ (V × C)
  register args c = do
    name ← required "First argument must be a string" (string_argument (get_elem? args 0))
    func ← required "Second argument required" (get_elem? args 1)
    _ ← throw_unless (R.is_object func && R.is_callable func) "Second argument must be a function"
    madrpc ← prefixed "Failed to get madrpc: " (R.get (R.global_object c) (js_string R "madrpc") c)
    _ ← throw_unless (R.is_object madrpc.0) "madrpc is not an object"
    registry ←
        prefixed "Failed to get registry: " (R.get madrpc.0 (js_string R "__registry") madrpc.1)
    _ ← throw_unless (R.is_object registry.0) "Registry is not an object"
    done ← prefixed "Failed to register: " (R.set registry.0 name func registry.1)
    inr (M.undefined_value, done)

  -- The error of a conversion.
  abbrev converted : {A : Type 0} → String → Result A → String ⊎ A
  converted words (ok a) = inr a
  converted words (err e) = inl (words ++ display R.engine.show e)

  -- The name of the method, the first argument of `call` and of `callSync`.
  unfoldable pub method_name : List V → String ⊎ String
  method_name args = do
    name ←
        required "First argument must be a string (method name)"
          (string_argument (get_elem? args 0))
    prefixed "Invalid method name: " (R.engine.to_std_string name)

  abbrev or_undefined : C → Option V → JsValue F S
  or_undefined c none = undefined
  or_undefined c (some v) = R.view c v

  unfoldable pub json_args : List V → C → String ⊎ JsonValue N
  json_args args c =
      converted "Failed to convert args to JSON: "
        (js_value_to_json R.engine (or_undefined c (get_elem? args 1)))

  -- `madrpc.call`: a promise, and a job that settles it.
  unfoldable pub call : Client → List V → C → String ⊎ (V × C)
  call client args c = do
    method ← method_name args
    json ← json_args args c
    let made = M.new_pending c
    inr (made.0, M.enqueue client method json made.0 made.1)

  abbrev call_failed : MadrpcError → String
  call_failed e = "RPC call failed: " ++ display R.engine.show e

  unfoldable pub rpc_call_async :
      (Client → String → JsonValue N → Result (JsonValue N))
      → Client
      → String
      → JsonValue N
      → String ⊎ JsonValue N
  rpc_call_async remote client method json =
      converted "RPC call failed: " (remote client method json)

  abbrev settle_job : V → C → String ⊎ JsonValue N → String ⊎ C
  settle_job promise c (inl e) =
      let made = R.realise (JsValue.text_value (js_string R e)) c in M.reject promise made.0 made.1
  settle_job promise c (inr json) = do
    tree ← converted "Failed to convert result to JS: " (json_to_js_value R.engine json)
    let made = R.realise tree c
    M.resolve promise made.0 made.1

  -- The job of `madrpc.call`: it calls, and resolves or rejects the promise.
  unfoldable pub call_job :
      (Client → String → JsonValue N → Result (JsonValue N))
      → Client
      → String
      → JsonValue N
      → V
      → C
      → String ⊎ C
  call_job remote client method json promise c =
      settle_job promise c (rpc_call_async remote client method json)

  -- `madrpc.callSync`: `runtime` is the error of getting or of locking the shared runtime, if any.
  unfoldable pub call_sync :
      (Client → String → JsonValue N → Result (JsonValue N))
      → String ⊎ Unit {0}
      → String ⊎ Unit {0}
      → Client
      → List V
      → C
      → String ⊎ (V × C)
  call_sync remote runtime lock client args c = do
    method ← method_name args
    json ← json_args args c
    _ ← prefixed "Failed to get blocking runtime: " runtime
    _ ← prefixed "Failed to lock runtime: " lock
    result ← converted "RPC call failed: " (remote client method json)
    tree ← converted "Failed to convert result to JS: " (json_to_js_value R.engine result)
    inr (R.realise tree c)

  abbrev set_property : V → String → V → C → Result C
  set_property object key v c = map_err java_script_execution (R.set object (js_string R key) v c)

  abbrev set_native : V → String → Native Client → C → Result C
  set_native object key f c =
      let made = M.build_function f c in set_property object key made.0 made.1

  -- The two functions that need a client.
  abbrev set_calls : V → Option Client → C → Result C
  set_calls object none c = ok c
  set_calls object (some client) c =
      set_native object "call" (call_fn client) c
      >=> set_native object "callSync" (call_sync_fn client)

  unfoldable pub install_madrpc_bindings : Option Client → C → Result C
  install_madrpc_bindings client c =
      let madrpc_object = M.new_object c in
      let registry = M.new_object madrpc_object.1 in
      set_property madrpc_object.0 "__registry" registry.0 registry.1
      >=> set_native madrpc_object.0 "register" register_fn
      >=> set_calls madrpc_object.0 client
      >=> (λ c'. map_err java_script_execution (M.register_global "madrpc" madrpc_object.0 c'))

-- `BLOCKING_RUNTIME`, and the attempt to make a runtime: the runtime that is there is kept.
unfoldable pub get_blocking_runtime :
    {Runtime : Type 0} → String ⊎ Runtime → Option Runtime → Option Runtime × (String ⊎ Runtime)
get_blocking_runtime made (some runtime) = (some runtime, inr runtime)
get_blocking_runtime (inl e) none = (none, inl e)
get_blocking_runtime (inr runtime) none = (some runtime, inr runtime)
