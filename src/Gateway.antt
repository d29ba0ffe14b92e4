-- ===== src/Gateway.antt =====
-- apps/z21-gateway: the process that connects one Z21 command station to the cluster.
pub mod Health
pub mod Reachability
pub mod Detected
pub mod Detectors
pub mod Discovery
pub mod Applied
pub mod Flap
pub mod Reporter
pub mod Session
pub mod Conditions
