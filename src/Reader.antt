-- ===== src/Reader.antt =====
-- src/karapace/core/schema_reader.py: the messages of the schemas topic, applied to the database
-- (`Handlers`) and consumed in batches (`Consume`).
pub mod Handlers
pub mod View
pub mod Consume
pub mod Invariant
pub mod Effects
pub mod HardDelete
pub mod Steps
pub mod Release
pub mod Batches
pub mod Replay
