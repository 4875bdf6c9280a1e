-- ===== src/Examples.antt =====
-- The theorems at concrete values, and runs of the model.
mod Numbers
mod Balancer
mod Checks
mod Calls
mod Requests
mod Latencies
mod Limits
mod Keys
mod Rotation
mod Registry
mod Servers
mod Scripts
mod Commands
mod Nodes
mod Objects
