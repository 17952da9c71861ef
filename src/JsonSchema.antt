-- ===== src/JsonSchema.antt =====
-- The JSON Schema checker of src/karapace/core/compatibility/jsonschema.
pub mod Json
pub mod Types
pub mod Steps
pub mod Utils
pub mod Constraints
pub mod Assertions
pub mod Scalars
pub mod Arrays
pub mod Objects
pub mod Subschemas
pub mod Recursion
pub mod Normalize
pub mod Terminates
pub mod Verdicts
