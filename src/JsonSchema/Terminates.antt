-- ===== src/JsonSchema/Terminates.antt =====
-- The recursion of the checker ends: each call of `compatibility_rec` in its body is on parts of the two
-- schemas.
pub mod Weight
pub mod Runs
pub mod Basics
pub mod Types
pub mod Arrays
pub mod Objects
pub mod Subschemas
pub mod Combined
pub mod Scalars
pub mod Recursion
