-- ===== src/Api.antt =====
-- apps/api: the HTTP service through which devices are created, read and changed.
pub mod Types
pub mod Requests
pub mod Laws
pub mod Addresses
pub mod Stream
pub mod Delivery
pub mod Followers
pub mod Published
pub mod Handlers
pub mod Refused
pub mod Simulations
pub mod Merged
