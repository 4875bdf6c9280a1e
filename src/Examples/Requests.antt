-- ===== src/Examples/Requests.antt =====
-- Requests and registrations at the orchestrator.
use madrpc.Prelude.{ℕ, zero, suc, ◌+◌, ◌≡◌, String, true, false, ◌⊎◌}
use madrpc.Protocol.{node_unavailable, invalid_request, Result, ok, err}
use madrpc.LoadBalancer.{LoadBalancer}
use madrpc.Orchestrator.{register_node}
use madrpc.Orchestrator.Registration.{accepted, Registered, register_node-Registered}
use madrpc.Examples.Numbers.{whole}
use madrpc.Examples.Balancer.{pair, pair-IsValid}

-- The first node is down, the second answers.
abbrev send : ℕ → String → Result ℕ
send zero addr = err (node_unavailable addr)
send (suc k) addr = ok 42

abbrev alone : ℕ → LoadBalancer whole → LoadBalancer whole
alone k lb = lb

abbrev message : ℕ → String
message k = "No available nodes"

abbrev clock : ℕ → ℕ
clock k = k + 7

register_node-Registered_example :
    ((accepted "http://n:1" ≡ false)
      × (register_node "http://n:1" pair
          ≡ (pair, err (invalid_request "Invalid node URL: must start with http:// or https://"))))
    ⊎ ((accepted "http://n:1" ≡ true)
        × Registered "http://n:1" pair (register_node "http://n:1" pair))
register_node-Registered_example = register_node-Registered "http://n:1" pair pair-IsValid
