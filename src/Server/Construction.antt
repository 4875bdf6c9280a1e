-- ===== src/Server/Construction.antt =====
-- crates/madrpc-server/src/node.rs: the construction of a node from its script. What the files and the
-- constructor of a client answer is an argument. A text on the left is an error's.
use Prim.Native.String.{◌++◌}
use madrpc.Prelude.{ℕ, ◌⊎◌, inl, inr, String, Bool, Option, none, some, if◌then◌else◌}
use madrpc.Protocol.{MadrpcError, invalid_request, Result, ok, err, display}
use madrpc.Server.{ResourceLimits, default_limits, validate_limits}

-- A node: the text of its script and the address of its orchestrator's client.
pub record Node : Type 0 where
  pub script_path : String
  pub script_source : String
  pub orchestrator_client : Option String
  pub resource_limits : ResourceLimits

-- The files and the constructor of a client; `display_error` is the text of an error of the system.
pub record Host : Type 0 where
  pub show : ℕ → String
  pub exists : String → Bool
  pub read_to_string : String → String ⊎ String
  pub new_client : String → Result (Unit {0})

module _ (H : Host) where
  abbrev limits_error : String → MadrpcError
  limits_error e = invalid_request ("Invalid resource limits: " ++ e)

  abbrev client_error : MadrpcError → MadrpcError
  client_error e = invalid_request ("Failed to create orchestrator client: " ++ display H.show e)

  abbrev pub with_client_made : Result (Unit {0}) → Node → Result Node
  with_client_made (ok u) n = ok n
  with_client_made (err e) n = err (client_error e)

  abbrev pub connect : Option String → Node → Result Node
  connect none n = ok n
  connect (some addr) n = with_client_made (H.new_client addr) n

  abbrev pub load : String → Option String → ResourceLimits → String ⊎ String → Result Node
  load path addr limits (inl e) = err (invalid_request ("Failed to load script: " ++ e))
  load path addr limits (inr source) = connect addr (record {
    script_path = path;
    script_source = source;
    orchestrator_client = addr;
    resource_limits = limits;
  })

  abbrev pub check_path : String → Option String → ResourceLimits → Option String → Result Node
  check_path path addr limits (some e) = err (limits_error e)
  check_path path addr limits none =
      if H.exists path
      then load path addr limits (H.read_to_string path)
      else err (invalid_request ("Script path does not exist: " ++ path))

  -- The two constructors differ in the client.
  abbrev pub make_node : String → Option String → ResourceLimits → Result Node
  make_node path addr limits = check_path path addr limits (validate_limits H.show limits)

  unfoldable pub with_resource_limits : String → ResourceLimits → Result Node
  with_resource_limits path limits = make_node path none limits

  unfoldable pub with_orchestrator_and_resource_limits :
      String → String → ResourceLimits → Result Node
  with_orchestrator_and_resource_limits path addr limits = make_node path (some addr) limits

  unfoldable pub new_node : String → Result Node
  new_node path = with_resource_limits path default_limits

  unfoldable pub with_orchestrator : String → String → Result Node
  with_orchestrator path addr = with_orchestrator_and_resource_limits path addr default_limits

abbrev limited : ResourceLimits → Node → Option String → Option Node
limited limits n (some e) = none
limited limits n none = some (record n { resource_limits = limits })

-- `none` is the panic of `expect` on limits that are out of range.
unfoldable pub and_resource_limits : Host → ResourceLimits → Node → Option Node
and_resource_limits H limits n = limited limits n (validate_limits H.show limits)
