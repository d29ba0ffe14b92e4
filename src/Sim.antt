-- ===== src/Sim.antt =====
-- apps/z21-sim: the simulator of a Z21 command station on the LAN.
pub mod Wire
pub mod Platform
pub mod Device
pub mod Server
pub mod Broadcast
pub mod Xpressnet
pub mod Can
pub mod Packet
pub mod Control
pub mod Sessions
pub mod Frames
pub mod Invariant
pub mod Subscribers
pub mod Delivery
pub mod Names
pub mod Checksum
pub mod Clients
