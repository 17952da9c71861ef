-- ===== src/Protobuf/Terminates.antt =====
-- The fuel of the comparison of src/karapace/core/protobuf, and what the comparison keeps.
mod Fields
mod Messages
mod Types
mod Elements
pub mod Dependencies
pub mod Drops
pub mod Files
