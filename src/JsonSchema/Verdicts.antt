-- ===== src/JsonSchema/Verdicts.antt =====
-- What a compatible verdict of the checker means.
pub mod Passes
pub mod Numbers
pub mod Scalars
pub mod Runs
pub mod Objects
pub mod Properties
pub mod Strings
pub mod Options
pub mod Arrays
