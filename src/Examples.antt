-- ===== src/Examples.antt =====
-- The theorems at concrete inputs.
mod Cluster
mod Pools
mod Detectors
mod Simulator
mod Packets
mod Health
mod Devices
mod Controllers
mod Teardown
mod Modules
mod Streams
mod Requests
mod Simulations
