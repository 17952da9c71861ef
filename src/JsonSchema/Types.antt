-- ===== src/JsonSchema/Types.antt =====
-- src/karapace/core/compatibility/jsonschema/types.py: the keywords and types of JSON Schema, the
-- incompatibilities, and the result that is filled with them (`SchemaCompatibilityResult` of the avro
-- package, whose messages, texts for humans, are left out).
use karapace.Prelude.{ℕ, Bool, true, false, List, [], String, string_eq, ◌==◌, if◌then◌else◌}
use karapace.Outcome.{Result}
use karapace.JsonSchema.Json.{JsonValue}

-- `Keyword`
pub data Keyword : Type 0 where
  ref type max_length min_length pattern maximum minimum exclusive_maximum : Keyword
  exclusive_minimum multiple max_properties min_properties additional_properties : Keyword
  dependencies dependent_schemas property_names pattern_properties properties required : Keyword
  default items max_items min_items unique_items additional_items enum : Keyword

-- `Keyword.value`
unfoldable pub keyword_value : Keyword → String
keyword_value Keyword.ref = "$ref"
keyword_value Keyword.type = "type"
keyword_value Keyword.max_length = "maxLength"
keyword_value Keyword.min_length = "minLength"
keyword_value Keyword.pattern = "pattern"
keyword_value Keyword.maximum = "maximum"
keyword_value Keyword.minimum = "minimum"
keyword_value Keyword.exclusive_maximum = "exclusiveMaximum"
keyword_value Keyword.exclusive_minimum = "exclusiveMinimum"
keyword_value Keyword.multiple = "multiple"
keyword_value Keyword.max_properties = "maxProperties"
keyword_value Keyword.min_properties = "minProperties"
keyword_value Keyword.additional_properties = "additionalProperties"
keyword_value Keyword.dependencies = "dependencies"
keyword_value Keyword.dependent_schemas = "dependentSchemas"
keyword_value Keyword.property_names = "propertyNames"
keyword_value Keyword.pattern_properties = "patternProperties"
keyword_value Keyword.properties = "properties"
keyword_value Keyword.required = "required"
keyword_value Keyword.default = "default"
keyword_value Keyword.items = "items"
keyword_value Keyword.max_items = "maxItems"
keyword_value Keyword.min_items = "minItems"
keyword_value Keyword.unique_items = "uniqueItems"
keyword_value Keyword.additional_items = "additionalItems"
keyword_value Keyword.enum = "enum"

-- `Instance`
pub data Instance : Type 0 where
  null boolean number string integer object array : Instance

-- `Instance.value`
unfoldable pub instance_value : Instance → String
instance_value Instance.null = "null"
instance_value Instance.boolean = "boolean"
instance_value Instance.number = "number"
instance_value Instance.string = "string"
instance_value Instance.integer = "integer"
instance_value Instance.object = "object"
instance_value Instance.array = "array"

-- `Subschema`
pub data Subschema : Type 0 where
  any_of all_of one_of not : Subschema

-- `Subschema.value`
unfoldable pub subschema_value : Subschema → String
subschema_value Subschema.any_of = "anyOf"
subschema_value Subschema.all_of = "allOf"
subschema_value Subschema.one_of = "oneOf"
subschema_value Subschema.not = "not"

-- `JSONSCHEMA_TYPES`
pub data JsonschemaTypes : Type 0 where
  instance_type : Instance → JsonschemaTypes
  subschema_type : Subschema → JsonschemaTypes
  keyword_type : Keyword → JsonschemaTypes
  boolean_schema : JsonschemaTypes

-- `a == b`: members of one enumeration are equal if their values are
unfoldable pub same_type : JsonschemaTypes → JsonschemaTypes → Bool
unfolding keyword_value instance_value subschema_value
same_type (instance_type a) (instance_type b) = instance_value a == instance_value b
same_type (subschema_type a) (subschema_type b) = subschema_value a == subschema_value b
same_type (keyword_type a) (keyword_type b) = keyword_value a == keyword_value b
same_type boolean_schema boolean_schema = true
same_type _ _ = false

-- `Incompatibility`
pub data Incompatibility : Type 0 where
  type_changed type_narrowed max_length_added max_length_decreased min_length_added :
      Incompatibility
  min_length_increased pattern_added pattern_changed maximum_added maximum_decreased :
      Incompatibility
  minimum_added minimum_increased maximum_exclusive_added maximum_exclusive_decreased :
      Incompatibility
  minimum_exclusive_added minimum_exclusive_increased multiple_added multiple_expanded :
      Incompatibility
  multiple_changed enum_array_narrowed combined_type_changed product_type_extended : Incompatibility
  sum_type_narrowed combined_type_subschemas_changed max_properties_added : Incompatibility
  min_properties_added max_properties_decreased min_properties_increased : Incompatibility
  additional_properties_narrowed dependency_array_added dependency_array_extended : Incompatibility
  dependency_schema_added property_removed_not_covered_by_partially_open_content_model :
      Incompatibility
  property_removed_from_closed_content_model property_added_to_open_content_model : Incompatibility
  property_added_not_covered_by_partially_open_content_model : Incompatibility
  required_property_added_to_unopen_content_model required_attribute_added : Incompatibility
  max_items_added max_items_decreased min_items_added min_items_increased : Incompatibility
  unique_items_added additional_items_removed additional_items_narrowed : Incompatibility
  item_removed_not_covered_by_partially_open_content_model : Incompatibility
  item_removed_from_closed_content_model item_added_to_open_content_model : Incompatibility
  item_added_not_covered_by_partially_open_content_model schema_added schema_removed :
      Incompatibility
  not_type_narrowed : Incompatibility

-- `SchemaCompatibilityResult`
pub record CompatibilityResult : Type 0 where
  pub is_compatible : Bool
  pub incompatibilities : List Incompatibility
  pub locations : List String

-- `SchemaCompatibilityResult(SchemaCompatibilityType.compatible)`
abbrev pub compatible : CompatibilityResult
compatible = record { is_compatible = true; incompatibilities = []; locations = [] }

-- `is_incompatible`
abbrev pub is_incompatible : CompatibilityResult → Bool
is_incompatible r = if r.is_compatible then false else true

-- `AssertionCheck`; the comparison is given the values of the reader and of the writer
pub record AssertionCheck : Type 0 where
  pub keyword : Keyword
  pub error_when_introducing : Incompatibility
  pub error_when_restricting : Incompatibility
  pub comparison : JsonValue → JsonValue → Result Bool

-- a location in a schema
abbrev pub Location : Type 0
Location = List String

-- what the checks ask of packages: `merge` of avro, the length of networkx's `maximum_matching` of a
-- graph given by its edges, and whether `re.match(pattern, text)` finds a match
pub record Packages : Type 0 where
  pub merge : CompatibilityResult → CompatibilityResult → CompatibilityResult
  pub matching_length : List (ℕ × ℕ) → ℕ
  pub re_match : String → String → Result Bool
