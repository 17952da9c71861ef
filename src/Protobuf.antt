-- ===== src/Protobuf.antt =====
-- The Protobuf code of src/karapace/core/protobuf.
pub mod Varint
pub mod Text
pub mod Elements
pub mod ProtoType
pub mod Comparison
pub mod TypeStorage
pub mod Compare
pub mod Fields
pub mod Messages
pub mod Locks
pub mod Safe
pub mod Terminates
pub mod Check
