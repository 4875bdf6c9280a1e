-- ===== src/CommandLine.antt =====
-- crates/madrpc-cli/src/main.rs: what each command does with its arguments, up to the server that it runs
-- or the call that it makes. What the system and the network answer is an argument.
-- Durations are nanoseconds. A text on the left is an error's.
pub mod Starting
pub mod Top
use Prim.Native.String.{◌++◌}
use text.Mathlib.Text.{starts_with}
use madrpc.Prelude.{
  ℕ, ◌*◌, ◌⊎◌, inl, inr, String, Bool, true, false, ◌||◌, Option, none, some, List, [], ◌∷◌,
  if◌then◌else◌,
}
use madrpc.Protocol.{Result, ok, err, display, invalid_request}
use madrpc.Server.{ResourceLimits, default_limits, with_execution_timeout}
use madrpc.HealthChecker.{HealthCheckConfig}
use madrpc.Server.Registration.{Registering, max_attempts, register_with_orchestrator}
use madrpc.Server.Construction.{
  Node, Host, with_resource_limits, with_orchestrator_and_resource_limits,
}

infixl 5 ◌>>=◌
abbrev pub ◌>>=◌ : {A B : Type 0} → String ⊎ A → (A → String ⊎ B) → String ⊎ B
inl e >>= f = inl e
inr a >>= f = f a

unfoldable pub is_http_url : String → Bool
is_http_url url = starts_with url "http://" || starts_with url "https://"

unfoldable pub validate_http_url : String → String → String ⊎ Unit {0}
validate_http_url url description =
    if is_http_url url
    then inr tt
    else inl ("Invalid " ++ description ++ ": '" ++ url ++ "' must start with http:// or https://")

-- The first address that is refused, if any.
unfoldable pub validate_all : List String → String ⊎ Unit {0}
validate_all [] = inr tt
validate_all (addr ∷ addrs) = do _ ← validate_http_url addr "node address"; validate_all addrs

pub record NodeArgs (F : Type 0) : Type 0 where
  pub script : String
  pub bind : String
  pub orchestrator : Option String
  pub api_key : Option String
  pub rate_limit_rps : Option F
  pub max_execution_time_ms : ℕ
  pub public_url : Option String

pub record OrchestratorArgs (F : Type 0) : Type 0 where
  pub bind : String
  pub nodes : List String
  pub health_check_interval_secs : ℕ
  pub health_check_timeout_ms : ℕ
  pub health_check_failure_threshold : ℕ
  pub disable_health_check : Bool
  pub api_key : Option String
  pub rate_limit_rps : Option F

pub record TopArgs : Type 0 where
  pub server_address : String
  pub interval_ms : ℕ

pub record CallArgs : Type 0 where
  pub server_address : String
  pub method : String
  pub args : String

pub data Commands (F : Type 0) : Type 0 where
  node : NodeArgs F → Commands F
  orchestrator : OrchestratorArgs F → Commands F
  top : TopArgs → Commands F
  call : CallArgs → Commands F

-- The settings of a server: the key and the rate that it was given.
pub record Settings (F : Type 0) : Type 0 where
  pub auth : Option String
  pub rate : Option F

-- What has been done when a command ends: the registration that was made, as the orchestrator and the
-- public URL, the address that was served, with the settings and the node or orchestrator (`O`) behind
-- it, and the error, if any.
pub record Started (F : Type 0) (Addr : Type 0) (O : Type 0) : Type 0 where
  pub registered : Option (String × String)
  pub served : Option (Addr × Settings F × O)
  pub error : Option String

-- The environment and the network: the variable MADRPC_PUBLIC_URL, what a client of the address of an
-- orchestrator is answered to its call k of `_register` with a public URL, the parser of addresses and
-- the run of a server.
pub record Network (Addr : Type 0) (V : Type 0) : Type 0 where
  pub public_url_var : Option String
  pub answer : String → String → ℕ → Result V
  pub parse_addr : String → String ⊎ Addr
  pub run_server : Addr → Option String

abbrev pub or_else : Option String → Option String → Option String
or_else none b = b
or_else (some a) b = some a

abbrev pub unwrap_or : String → Option String → String
unwrap_or default none = default
unwrap_or default (some a) = a

abbrev pub is_present : Option String → Bool
is_present none = false
is_present (some a) = true

-- Where a registration went.
abbrev pub registration : Option String → String → Option (String × String)
registration none url = none
registration (some orch) url = some (orch, url)

module _ {Addr V : Type 0} (H : Host) (W : Network Addr V) where
  -- What the calls of a client are answered; a node without one makes none.
  abbrev pub client_answers : Option String → String → ℕ → Result V
  client_answers none url k = err (invalid_request "No orchestrator client configured")
  client_answers (some orch) url k = W.answer orch url k

  abbrev pub register_client : Option String → String → Option Registering
  register_client client url =
      register_with_orchestrator H.show (client_answers client url) (is_present client) max_attempts

  -- `node_arc.register_with_orchestrator`, by the node's own client.
  abbrev pub register_made : Node → String → Option Registering
  register_made n url = register_client n.orchestrator_client url

module _ {F Addr V : Type 0} (H : Host) (W : Network Addr V) where
  abbrev pub failed : {O : Type 0} → String → Started F Addr O
  failed e = record { registered = none; served = none; error = some e }

  -- The server runs at the address; `done` is the registration made before, if any.
  abbrev pub serve :
      {O : Type 0}
      → Option (String × String)
      → String
      → Settings F
      → O
      → String ⊎ Addr
      → Started F Addr O
  serve done bind settings behind (inl e) = record {
    registered = done;
    served = none;
    error = some ("Invalid bind address " ++ bind ++ ": " ++ e);
  }
  serve done bind settings behind (inr addr) = record {
    registered = done;
    served = some (addr, settings, behind);
    error = W.run_server addr;
  }

  abbrev pub settings_of : NodeArgs F → Settings F
  settings_of args = record { auth = args.api_key; rate = args.rate_limit_rps }

  abbrev pub limits_of : NodeArgs F → ResourceLimits
  limits_of args = with_execution_timeout (args.max_execution_time_ms * 1000000) default_limits

  -- The flag, the variable, or the address that the server binds to.
  unfoldable pub public_url_of : NodeArgs F → String
  public_url_of args = unwrap_or ("http://" ++ args.bind) (or_else args.public_url W.public_url_var)

  abbrev pub after_result : NodeArgs F → Node → String → Result {0} Unit → Started F Addr Node
  after_result args n url (err e) = failed (display H.show e)
  after_result args n url (ok u) =
      serve (registration n.orchestrator_client url) args.bind (settings_of args) n
        (W.parse_addr args.bind)

  abbrev pub after_registration :
      NodeArgs F → Node → String → Option Registering → Option (Started F Addr Node)
  after_registration args n url none = none
  after_registration args n url (some r) = some (after_result args n url r.result)

  abbrev pub register_and_serve :
      NodeArgs F → Node → String → String ⊎ Unit {0} → Option (Started F Addr Node)
  register_and_serve args n url (inl e) = some (failed e)
  register_and_serve args n url (inr u) = after_registration args n url (register_made H W n url)

  abbrev pub run_made_node : NodeArgs F → Option String → Result Node → Option (Started F Addr Node)
  run_made_node args orch (err e) = some (failed (display H.show e))
  run_made_node args none (ok n) =
      some (serve none args.bind (settings_of args) n (W.parse_addr args.bind))
  run_made_node args (some orch) (ok n) =
      register_and_serve args n (public_url_of args)
        (validate_http_url (public_url_of args) "public URL")

  abbrev pub run_checked_node :
      NodeArgs F → String → String ⊎ Unit {0} → Option (Started F Addr Node)
  run_checked_node args orch (inl e) = some (failed e)
  run_checked_node args orch (inr u) =
      run_made_node args (some orch)
        (with_orchestrator_and_resource_limits H args.script orch (limits_of args))

  abbrev pub run_node_with : NodeArgs F → Option String → Option (Started F Addr Node)
  run_node_with args none =
      run_made_node args none (with_resource_limits H args.script (limits_of args))
  run_node_with args (some orch) =
      run_checked_node args orch (validate_http_url orch "orchestrator address")

  -- The arm of `main` for a node: `none` would be for a registration that does not end.
  unfoldable pub run_node : NodeArgs F → Option (Started F Addr Node)
  run_node args = run_node_with args args.orchestrator

  abbrev pub health_config : OrchestratorArgs F → HealthCheckConfig
  health_config args = record {
    interval =
        if args.disable_health_check
        then 365 * 24 * 60 * 60 * 1000000000
        else args.health_check_interval_secs * 1000000000;
    timeout = args.health_check_timeout_ms * 1000000;
    failure_threshold = args.health_check_failure_threshold;
  }

  abbrev run_made_orchestrator : {O : Type 0} → OrchestratorArgs F → Result O → Started F Addr O
  run_made_orchestrator args (err e) = failed (display H.show e)
  run_made_orchestrator args (ok o) =
      serve none args.bind (record { auth = args.api_key; rate = args.rate_limit_rps }) o
        (W.parse_addr args.bind)

  abbrev run_checked_orchestrator :
      {O : Type 0}
      → (List String → HealthCheckConfig → Result O)
      → OrchestratorArgs F
      → String ⊎ Unit {0}
      → Started F Addr O
  run_checked_orchestrator make args (inl e) = failed e
  run_checked_orchestrator make args (inr u) =
      run_made_orchestrator args (make args.nodes (health_config args))

  -- The arm of `main` for an orchestrator: `make` is its constructor.
  unfoldable pub run_orchestrator :
      {O : Type 0}
      → (List String → HealthCheckConfig → Result O)
      → OrchestratorArgs F
      → Started F Addr O
  run_orchestrator make args = run_checked_orchestrator make args (validate_all args.nodes)

-- The arm of `main` for `top`: `top` is `run_top`, with the error that it ends with, if any.
unfoldable pub run_top_command : (String → ℕ → String ⊎ Unit {0}) → TopArgs → String ⊎ Unit {0}
run_top_command run args = do
  _ ← validate_http_url args.server_address "server address"
  run args.server_address args.interval_ms

abbrev parsed : {V : Type 0} → String ⊎ V → String ⊎ V
parsed (inl e) = inl ("Invalid JSON in args: " ++ e)
parsed (inr v) = inr v

-- What is printed: the parser of JSON, the call and the printer are arguments.
unfoldable pub run_call :
    {V : Type 0}
    → (String → String ⊎ V)
    → (String → String → V → String ⊎ V)
    → (V → String ⊎ String)
    → CallArgs
    → String ⊎ String
run_call from_str call_server to_string args = do
  _ ← validate_http_url args.server_address "server address"
  args_value ← parsed (from_str args.args)
  result ← call_server args.server_address args.method args_value
  to_string result
