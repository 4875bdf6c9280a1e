-- ===== src/Builtin.antt =====
-- crates/madrpc-common/src/protocol/builtin.rs: what the built-in methods answer, and the interface of
-- serde_json that turns it into JSON values, `V`. The version of the package is a parameter.
use madrpc.Prelude.{ℕ, String, Bool, Option, List, ◌⊎◌}
use madrpc.Metrics.Recording.{MetricsSnapshot}
use madrpc.Protocol.{JsonRpcRequest}

pub data ServerType : Type 0 where
  node orchestrator : ServerType

pub record HealthResponse : Type 0 where
  pub status : String

unfoldable pub healthy_response : HealthResponse
healthy_response = record { status = "healthy" }

pub record ServerBase : Type 0 where
  pub server_type : ServerType
  pub version : String
  pub uptime_ms : ℕ

pub record NodeInfo : Type 0 where
  pub version : String
  pub uptime_ms : ℕ

pub record OrchestratorNodeInfo : Type 0 where
  pub addr : String
  pub enabled : Bool
  pub disable_reason : Option String
  pub circuit_state : String
  pub consecutive_failures : ℕ

pub record OrchestratorInfo : Type 0 where
  pub version : String
  pub uptime_ms : ℕ
  pub total_nodes : ℕ
  pub enabled_nodes : ℕ
  pub disabled_nodes : ℕ
  pub nodes : List OrchestratorNodeInfo

pub data InfoResponse : Type 0 where
  node_info : NodeInfo → InfoResponse
  orchestrator_info : OrchestratorInfo → InfoResponse

-- crates/madrpc-common/src/protocol/mod.rs.
pub record NodeRegistrationResponse : Type 0 where
  pub registered_url : String
  pub is_new_registration : Bool

-- What serde_json makes of requests and answers, and the decimal form of a number. A text on the left
-- is an error's.
pub record Json (V : Type 0) : Type 0 where
  pub null : V
  pub show : ℕ → String
  pub from_slice : List ℕ → String ⊎ JsonRpcRequest V
  pub node_url : V → String ⊎ String
  pub of_id : ℕ → V
  pub of_metrics : MetricsSnapshot → V
  pub of_info : InfoResponse → V
  pub of_server : ServerBase → V
  pub of_health : HealthResponse → V
  pub of_registration : NodeRegistrationResponse → V
