-- ===== src/Canpool.antt =====
-- packages/canpool: the pool of CAN module addresses of one command station.
pub mod Config
pub mod Pool
pub mod Invariant
pub mod Allocation
pub mod Preservation
pub mod Available
pub mod Laws
pub mod Messages
pub mod Register
pub mod Refines
