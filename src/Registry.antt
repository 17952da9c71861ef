-- ===== src/Registry.antt =====
-- `KarapaceSchemaRegistry` of src/karapace/core/schema_registry.py. An operation works on the state that
-- it shares with the reader and on the messages sent to the schemas topic, oldest first; it holds
-- `schema_lock` for its whole body, so it is one step. `send` only appends: that the producer then waits
-- for the reader, and may time out, is left out.
mod State
mod Reads
mod Writes
mod Deletes
pub mod Checks
pub mod Register
pub mod RoundTrip
pub mod Deletion
unfoldable pub use State.*
unfoldable pub use Reads.*
unfoldable pub use Writes.*
unfoldable pub use Deletes.*
