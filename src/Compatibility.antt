-- ===== src/Compatibility.antt =====
-- src/karapace/core/compatibility/__init__.py and compatibility/schema_compatibility.py: the modes,
-- and which checker is asked, with which schema as the reader. `S` is the type of parsed schemas;
-- the checkers and `merge` (of the avro package) are parameters.
pub mod Modes
use karapace.Prelude.{
  Bool, true, false, not, ◌&&◌, ◌||◌, Option, none, some, List, [], ◌∷◌, String, ◌==◌, string_eq,
  if◌then◌else◌,
}
use karapace.Schema.{SchemaType, avro, jsonschema, protobuf, TypedSchema, type_eq}

-- `CompatibilityModes`
pub data CompatibilityMode : Type 0 where
  backward backward_transitive forward forward_transitive full full_transitive : CompatibilityMode
  no_check : CompatibilityMode

-- `CompatibilityModes(text)`; none stands for its ValueError.
unfoldable pub mode_of : String → Option CompatibilityMode
mode_of s =
    if s == "BACKWARD"
    then some backward
    else if s == "BACKWARD_TRANSITIVE"
    then some backward_transitive
    else if s == "FORWARD"
    then some forward
    else if s == "FORWARD_TRANSITIVE"
    then some forward_transitive
    else if s == "FULL"
    then some full
    else if s == "FULL_TRANSITIVE"
    then some full_transitive
    else if s == "NONE"
    then some no_check
    else none

-- `CompatibilityModes.value`
unfoldable pub mode_value : CompatibilityMode → String
mode_value backward = "BACKWARD"
mode_value backward_transitive = "BACKWARD_TRANSITIVE"
mode_value forward = "FORWARD"
mode_value forward_transitive = "FORWARD_TRANSITIVE"
mode_value full = "FULL"
mode_value full_transitive = "FULL_TRANSITIVE"
mode_value no_check = "NONE"

-- `CompatibilityModes.is_transitive`
unfoldable pub is_transitive : CompatibilityMode → Bool
is_transitive backward_transitive = true
is_transitive forward_transitive = true
is_transitive full_transitive = true
is_transitive _ = false

-- `SchemaCompatibilityResult`, by its verdict and its messages
pub record SchemaCompatibilityResult : Type 0 where
  pub is_compatible : Bool
  pub messages : List String

abbrev pub compatible : SchemaCompatibilityResult
compatible = record { is_compatible = true; messages = [] }

-- `is_incompatible`
abbrev pub is_incompatible : SchemaCompatibilityResult → Bool
is_incompatible r = not r.is_compatible

-- `ParsedTypedSchema`: a typed schema beside the parsed object
pub record ParsedTypedSchema (S : Type 0) : Type 0 where
  pub typed : TypedSchema
  pub parsed : S

-- The checkers, each applied to a reader and a writer, and the avro package's `merge`.
pub record Checkers (S : Type 0) : Type 0 where
  pub check_avro : S → S → SchemaCompatibilityResult
  pub check_jsonschema : S → S → SchemaCompatibilityResult
  pub check_protobuf : S → S → SchemaCompatibilityResult
  pub merge : SchemaCompatibilityResult → SchemaCompatibilityResult → SchemaCompatibilityResult

module _ {S : Type 0} (c : Checkers S) where
  -- `check_avro_compatibility`, `check_jsonschema_compatibility`, `check_protobuf_compatibility`
  unfoldable pub check_type : SchemaType → S → S → SchemaCompatibilityResult
  check_type avro = c.check_avro
  check_type jsonschema = c.check_jsonschema
  check_type protobuf = c.check_protobuf

  -- the branches on the mode, which are the same for each type of schema
  unfoldable pub check_mode : CompatibilityMode → SchemaType → S → S → SchemaCompatibilityResult
  unfolding check_type
  check_mode backward t old new = check_type t new old
  check_mode backward_transitive t old new = check_type t new old
  check_mode forward t old new = check_type t old new
  check_mode forward_transitive t old new = check_type t old new
  check_mode full t old new = c.merge (check_type t new old) (check_type t old new)
  check_mode full_transitive t old new = c.merge (check_type t new old) (check_type t old new)
  check_mode no_check t old new = compatible

  -- `incompatible_schema` with the message of a type mismatch
  abbrev pub type_mismatch : SchemaCompatibilityResult
  type_mismatch = record {
    is_compatible = false;
    messages = "Comparing different schema types" ∷ [];
  }

  -- the branches of `check_compatibility` after the mode NONE
  abbrev check_checked :
      CompatibilityMode → ParsedTypedSchema S → ParsedTypedSchema S → SchemaCompatibilityResult
  check_checked mode old new =
      if old.typed.schema_type == new.typed.schema_type
      then check_mode mode old.typed.schema_type old.parsed new.parsed
      else type_mismatch

  -- `SchemaCompatibility.check_compatibility`
  unfoldable pub check_compatibility :
      ParsedTypedSchema S → ParsedTypedSchema S → CompatibilityMode → SchemaCompatibilityResult
  unfolding check_mode
  check_compatibility old new no_check = compatible
  check_compatibility old new mode = check_checked mode old new
