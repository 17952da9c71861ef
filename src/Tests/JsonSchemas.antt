-- ===== src/Tests/JsonSchemas.antt =====
-- JSON Schema compatibility.
use karapace.Prelude.{
  ℕ, ◌≡◌, refl, true, false, ◌&&◌, List, [], ◌∷◌, ◌++◌, String, string_eq, ◌==◌, pos, suc,
}
use karapace.Outcome.{ok, err, type_error, attribute_error}
use karapace.JsonSchema.Json.{
  JsonValue, bool, number, text, array, object, Items, no_items, item, Members, no_members, member,
}
use karapace.JsonSchema.Types.{Incompatibility, CompatibilityResult, compatible, Packages}
use karapace.JsonSchema.Recursion.{compatibility_rec}

-- `merge` that joins the records
abbrev pub joined_results : CompatibilityResult → CompatibilityResult → CompatibilityResult
joined_results r s = record {
  is_compatible = r.is_compatible && s.is_compatible;
  incompatibilities = r.incompatibilities ++ s.incompatibilities;
  locations = r.locations ++ s.locations;
}

-- twice the number of edges, which is the length of the matching where no two edges meet
abbrev pub greedy : List (ℕ × ℕ) → ℕ
greedy [] = 0
greedy ((i, j) ∷ edges) = suc (suc (greedy edges))

abbrev pub packages : Packages
packages = record {
  merge = joined_results;
  matching_length = greedy;
  re_match = λ pattern name. ok (pattern == name);
}

abbrev pub members : List (String × JsonValue) → Members
members [] = no_members
members ((k, v) ∷ rest) = member k v (members rest)

abbrev pub schema : List (String × JsonValue) → JsonValue
schema ms = object (members ms)

abbrev pub of_type : String → JsonValue
of_type t = schema (("type", text t) ∷ [])

abbrev pub items : List JsonValue → Items
items [] = no_items
items (v ∷ vs) = item v (items vs)

abbrev pub object_of : List (String × JsonValue) → List (String × JsonValue) → JsonValue
object_of properties rest =
    schema (("type", text "object") ∷ ("properties", schema properties) ∷ rest)

abbrev pub integers_to : ℕ → Members
integers_to n = members (("type", text "integer") ∷ ("maximum", number (pos n)) ∷ [])

abbrev pub integer_to : ℕ → JsonValue
integer_to n = object (integers_to n)

-- a smaller maximum
maximum_decreased :
    compatibility_rec packages 1 (integer_to 5) (integer_to 7) []
    ≡ ok (record {
      is_compatible = false;
      incompatibilities = Incompatibility.maximum_decreased ∷ [];
      locations = "" ∷ [];
    })
unfolding compatibility_rec
maximum_decreased = refl

-- a reader that is closed after the writer was not: no incompatibility is found
closed_unnoticed :
    compatibility_rec packages 4
      (object_of [] (("additionalProperties", bool false) ∷ []))
      (object_of [] (("additionalProperties", of_type "string") ∷ []))
      []
    ≡ ok compatible
unfolding compatibility_rec
closed_unnoticed = refl

-- `multipleOf` is not compared
multiple_unnoticed :
    compatibility_rec packages 4
      (schema (("type", text "integer") ∷ ("multipleOf", number (pos 2)) ∷ []))
      (of_type "integer")
      []
    ≡ ok compatible
unfolding compatibility_rec
multiple_unnoticed = refl

abbrev tuple : List JsonValue → List (String × JsonValue) → JsonValue
tuple vs rest = schema (("type", text "array") ∷ ("items", array (items vs)) ∷ rest)

-- an item that a closed tuple of the reader does not have
closed_tuple :
    compatibility_rec packages 6
      (tuple (of_type "string" ∷ []) (("additionalItems", bool false) ∷ []))
      (tuple (of_type "string" ∷ of_type "string" ∷ []) (("additionalItems", bool false) ∷ []))
      []
    ≡ ok (record {
      is_compatible = false;
      incompatibilities =
          Incompatibility.item_removed_not_covered_by_partially_open_content_model ∷ [];
      locations = "additionalItems" ∷ [];
    })
unfolding compatibility_rec
closed_tuple = refl

-- an object item that a closed tuple of the reader does not have
closed_tuple_unnoticed :
    compatibility_rec packages 6
      (tuple (of_type "string" ∷ []) (("additionalItems", bool false) ∷ []))
      (tuple (of_type "string" ∷ of_type "object" ∷ []) (("additionalItems", bool false) ∷ []))
      []
    ≡ ok compatible
unfolding compatibility_rec
closed_tuple_unnoticed = refl

abbrev pub combined_schema : String → List JsonValue → JsonValue
combined_schema keyword vs = schema ((keyword, array (items vs)) ∷ [])

-- one more alternative, and one less
alternatives :
    (compatibility_rec packages 6
        (combined_schema "oneOf" (of_type "string" ∷ of_type "null" ∷ []))
        (of_type "string")
        []
      ≡ ok compatible)
    × (compatibility_rec packages 6
          (combined_schema "oneOf" (of_type "string" ∷ []))
          (combined_schema "oneOf" (of_type "string" ∷ of_type "null" ∷ []))
          []
        ≡ ok (record {
          is_compatible = false;
          incompatibilities = Incompatibility.sum_type_narrowed ∷ [];
          locations = "oneOf" ∷ [];
        }))
    × (compatibility_rec packages 6
          (combined_schema "allOf" (of_type "string" ∷ of_type "null" ∷ []))
          (combined_schema "allOf" (of_type "null" ∷ of_type "string" ∷ []))
          []
        ≡ ok compatible)
unfolding compatibility_rec
alternatives = (refl, refl, refl)

-- a mismatch below a property: the location lacks a character
location_cut :
    compatibility_rec packages 6
      (object_of (("a", of_type "string") ∷ []) [])
      (object_of (("a", of_type "null") ∷ []) [])
      []
    ≡ ok (record {
      is_compatible = false;
      incompatibilities = Incompatibility.type_changed ∷ [];
      locations = "roperties/a" ∷ [];
    })
unfolding compatibility_rec
location_cut = refl

abbrev dependencies : List (String × JsonValue) → JsonValue
dependencies ds = schema (("type", text "object") ∷ ("dependencies", schema ds) ∷ [])

-- a dependency that the reader does not have raises
removed_dependency_raises :
    compatibility_rec packages 4
      (dependencies [])
      (dependencies (("a", array (item (text "b") no_items)) ∷ []))
      []
    ≡ err type_error
unfolding compatibility_rec
removed_dependency_raises = refl

-- a property whose schema is `true` raises
true_property_raises :
    compatibility_rec packages 4
      (object_of (("a", bool true) ∷ []) [])
      (object_of (("a", bool true) ∷ []) [])
      []
    ≡ err attribute_error
unfolding compatibility_rec
true_property_raises = refl

-- an added property, an unknown one, a nested change
object_changed :
    compatibility_rec packages 6
      (object_of (("a", integer_to 3) ∷ ("b", of_type "string") ∷ []) [])
      (object_of (("a", integer_to 5) ∷ []) [])
      []
    ≡ ok (record {
      is_compatible = false;
      incompatibilities =
          Incompatibility.maximum_decreased ∷ Incompatibility.property_added_to_open_content_model
          ∷ [];
      locations = "a" ∷ "properties" ∷ [];
    })
unfolding compatibility_rec
object_changed = refl
