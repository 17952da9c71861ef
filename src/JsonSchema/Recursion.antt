-- ===== src/JsonSchema/Recursion.antt =====
-- src/karapace/core/compatibility/jsonschema/checks.py: `compatibility_rec` and `compatibility`. The
-- recursion is on fuel, whose end is `recursion_error`.
use karapace.Prelude.{ℕ, zero, suc, Bool, not, ◌&&◌, ◌||◌, [], ◌∷◌, ◌++◌, if◌then◌else◌}
use karapace.Outcome.{
  Result, ok, err, raise_if, assertion_error, value_error, recursion_error, ◌>>=◌, ◌>>◌,
}
use karapace.JsonSchema.Json.{
  JsonValue, text, object, no_members, member, is_null, is_truthy, get, get_or_else, members_of,
}
use karapace.JsonSchema.Types.{
  Keyword, keyword_value, Instance, instance_value, Subschema, subschema_value, JsonschemaTypes,
  instance_type, subschema_type, keyword_type, boolean_schema, same_type, Incompatibility,
  CompatibilityResult, compatible, Location, Packages,
}
use karapace.JsonSchema.Utils.{get_type_of}
use karapace.JsonSchema.Constraints.{is_true_schema, introduced_constraint}
use karapace.JsonSchema.Steps.{
  type_mismatch, incompatible_schema, done, ◌then◌, for_each, when, with_value, add, merge_result,
  if_incompatible,
}
use karapace.JsonSchema.Scalars.{
  is_number_type, compatibility_numerical, compatibility_string, compatibility_enum,
}
use karapace.JsonSchema.Arrays.{compatibility_array}
use karapace.JsonSchema.Objects.{compatibility_object}
use karapace.JsonSchema.Subschemas.{compatibility_subschemas}

-- `reader_has_subschema`
unfoldable pub is_combined_type : JsonschemaTypes → Bool
unfolding same_type
is_combined_type t =
    same_type t (subschema_type Subschema.all_of)
    || same_type t (subschema_type Subschema.any_of)
    || same_type t (subschema_type Subschema.one_of)

-- `reader_is_object or reader_is_true_schema`
unfoldable pub is_object_schema : JsonschemaTypes → JsonValue → Bool
unfolding same_type
is_object_schema t schema = same_type t (instance_type Instance.object) || is_true_schema schema

-- `{"type": Instance.OBJECT.value}` in place of a true schema
unfoldable pub object_schema : JsonValue → JsonValue
unfolding keyword_value instance_value
object_schema schema =
    if is_true_schema schema
    then object
        (member (keyword_value Keyword.type) (text (instance_value Instance.object)) no_members)
    else schema

-- the locals `both_are_numbers`, `either_has_subschema` and `both_are_object`
abbrev pub both_are_numbers : JsonschemaTypes → JsonschemaTypes → Bool
both_are_numbers t u = is_number_type t && is_number_type u

abbrev pub either_has_subschema : JsonschemaTypes → JsonschemaTypes → Bool
either_has_subschema t u = is_combined_type t || is_combined_type u

abbrev pub both_are_object : JsonschemaTypes → JsonschemaTypes → JsonValue → JsonValue → Bool
both_are_object t u reader_schema writer_schema =
    is_object_schema t reader_schema && is_object_schema u writer_schema

-- the first test on the types
abbrev pub is_mismatch : JsonschemaTypes → JsonschemaTypes → JsonValue → JsonValue → Bool
is_mismatch t u reader_schema writer_schema =
    not (both_are_numbers t u)
    && not (either_has_subschema t u)
    && not (both_are_object t u reader_schema writer_schema)
    && not (same_type t u)

module _ (p : Packages) where
  module _ (visit : JsonValue → JsonValue → Location → Result CompatibilityResult) where
    -- two schemas with `not`
    unfoldable pub compare_not : JsonValue → JsonValue → Location → Result CompatibilityResult
    unfolding subschema_value get_or_else
    compare_not reader_schema writer_schema location =
        raise_if (not (is_truthy reader_schema)) assertion_error
        >> raise_if (not (is_truthy writer_schema)) assertion_error
        >> members_of reader_schema
        >>= (λ r. members_of writer_schema >>= (λ w.
            visit (get (subschema_value Subschema.not) r) (get (subschema_value Subschema.not) w)
              (location ++ subschema_value Subschema.not ∷ [])))

    -- the branches on the type that both schemas have
    unfoldable pub compare_same_type :
        JsonschemaTypes → JsonValue → JsonValue → Location → Result CompatibilityResult
    unfolding compare_not compatibility_string compatibility_array compatibility_enum
    compare_same_type boolean_schema reader_schema writer_schema location = ok compatible
    compare_same_type (subschema_type Subschema.not) reader_schema writer_schema location =
        compare_not reader_schema writer_schema location
    compare_same_type (instance_type Instance.boolean) reader_schema writer_schema location =
        ok compatible
    compare_same_type (instance_type Instance.string) reader_schema writer_schema location =
        compatibility_string p reader_schema writer_schema location
    compare_same_type (instance_type Instance.array) reader_schema writer_schema location =
        compatibility_array p visit reader_schema writer_schema location
    compare_same_type (keyword_type Keyword.enum) reader_schema writer_schema location =
        compatibility_enum reader_schema writer_schema location
    compare_same_type (instance_type Instance.null) reader_schema writer_schema location =
        ok compatible
    compare_same_type _ reader_schema writer_schema location = err value_error

    -- the branches on the types
    unfoldable pub compare_by_types :
        JsonschemaTypes
        → JsonschemaTypes
        → JsonValue
        → JsonValue
        → Location
        → Result CompatibilityResult
    unfolding same_type type_mismatch compatibility_numerical compatibility_subschemas
        is_number_type is_combined_type is_object_schema object_schema compatibility_object
        compare_same_type keyword_value instance_value
    compare_by_types reader_type writer_type reader_schema writer_schema location =
        if is_mismatch reader_type writer_type reader_schema writer_schema
        then ok (type_mismatch location)
        else if both_are_numbers reader_type writer_type
        then compatibility_numerical p reader_schema writer_schema location
        else if either_has_subschema reader_type writer_type
        then compatibility_subschemas p visit reader_schema writer_schema location
        else if both_are_object reader_type writer_type reader_schema writer_schema
        then compatibility_object p visit (object_schema reader_schema)
            (object_schema writer_schema) location
        else compare_same_type reader_type reader_schema writer_schema location

    -- the body of `compatibility_rec`
    unfoldable pub compare_schemas : JsonValue → JsonValue → Location → Result CompatibilityResult
    unfolding introduced_constraint incompatible_schema get_type_of compare_by_types
    compare_schemas reader_schema writer_schema location =
        if introduced_constraint reader_schema writer_schema
        then ok (incompatible_schema Incompatibility.schema_added location)
        else if is_null reader_schema && not (is_null writer_schema)
        then ok (incompatible_schema Incompatibility.schema_removed location)
        else get_type_of reader_schema >>= (λ reader_type.
          get_type_of writer_schema >>= (λ writer_type.
            compare_by_types reader_type writer_type reader_schema writer_schema location))

  -- `compatibility_rec`
  unfoldable pub compatibility_rec :
      ℕ → JsonValue → JsonValue → Location → Result CompatibilityResult
  unfolding compare_schemas done ◌then◌ for_each when with_value add merge_result if_incompatible
  compatibility_rec zero reader_schema writer_schema location = err recursion_error
  compatibility_rec (suc fuel) reader_schema writer_schema location =
      compare_schemas (compatibility_rec fuel) reader_schema writer_schema location
