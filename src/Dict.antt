-- ===== src/Dict.antt =====
-- Python's `dict`, as the list of its items in insertion order: a write to a present key keeps the
-- key's place, a write to a new key appends. Keys are compared by an instance of `Eq`.
mod Laws
pub mod Keys
unfoldable pub use Laws.*
