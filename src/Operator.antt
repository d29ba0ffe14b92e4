-- ===== src/Operator.antt =====
-- operators/z21-device: the controllers that allocate CAN module addresses and run the gateways.
pub mod Detector
pub mod Allocate
pub mod Exclusive
pub mod Chosen
pub mod Rebuilt
pub mod Cluster
pub mod Reconcile
pub mod Settles
pub mod Phases
pub mod Shared
pub mod Device
pub mod Workload
pub mod Status
pub mod Controller
pub mod Running
pub mod Settled
pub mod Defaults
pub mod Lifecycle
pub mod Deletion
pub mod Teardown
pub mod Reported
