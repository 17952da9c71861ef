-- ===== src/Database.antt =====
-- src/karapace/core/in_memory_database.py: the state of `InMemoryDatabase`, its queries and its
-- changes. The locks are left out: each method holds `schema_lock_thread` (or `id_lock_thread`) for
-- its whole body, so methods are atomic steps. `hash` stands for SHA-1 in `TypedSchema.fingerprint`.
mod State
mod Queries
mod Changes
pub mod Lookup
pub mod Invariant
pub mod Ids
pub mod Index
pub mod Forget
pub mod Referents
pub mod Counts
unfoldable pub use State.*
unfoldable pub use Queries.*
unfoldable pub use Changes.*
