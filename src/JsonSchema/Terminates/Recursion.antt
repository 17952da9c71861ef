-- ===== src/JsonSchema/Terminates/Recursion.antt =====
-- `compatibility_rec` ends on enough fuel.
use karapace.Prelude.{ℕ, zero, suc, ◌+◌, ◌≤◌, ◌<◌, ◌≡◌, refl, true, false, not, ◌&&◌, String, arith}
use karapace.Outcome.{Returns, Result, ok}
use karapace.JsonSchema.Json.{JsonValue, bool, object, Members, members_of, is_null}
use karapace.JsonSchema.Types.{
  Keyword, Instance, instance_type, Subschema, subschema_value, subschema_type, keyword_type,
  boolean_schema, JsonschemaTypes, Incompatibility, CompatibilityResult, compatible, Location,
  Packages,
}
use karapace.JsonSchema.Utils.{get_type_of}
use karapace.JsonSchema.Constraints.{introduced_constraint}
use karapace.JsonSchema.Steps.{type_mismatch, incompatible_schema}
use karapace.JsonSchema.Arrays.{array_steps, compatibility_array}
use karapace.JsonSchema.Objects.{compatibility_object}
use karapace.JsonSchema.Subschemas.{compatibility_subschemas}
use karapace.JsonSchema.Scalars.{compatibility_numerical}
use karapace.JsonSchema.Recursion.{
  is_mismatch, both_are_numbers, either_has_subschema, both_are_object, object_schema, compare_not,
  compare_same_type, compare_by_types, compare_schemas, compatibility_rec,
}
use karapace.JsonSchema.Terminates.Weight.{weight, weight_members, get-weight}
use karapace.JsonSchema.Terminates.Runs.{
  bind-Returns, bind_any-Returns, guarded-Returns, twice_guarded-Returns, if-Returns,
  result-Returns,
}
use karapace.JsonSchema.Terminates.Basics.{members_of-Returns}
use karapace.JsonSchema.Terminates.Types.{get_type_of-Returns}
use karapace.JsonSchema.Terminates.Arrays.{array_steps-Runs}
use karapace.JsonSchema.Terminates.Objects.{object_steps-Runs}
use karapace.JsonSchema.Terminates.Combined.{compatibility_subschemas-Returns}
use karapace.JsonSchema.Terminates.Scalars.{
  compatibility_enum-Returns, compatibility_numerical-Returns, compatibility_string-Returns,
}

members-weight :
    (v : JsonValue) (m : Members) → members_of v ≡ ok m → weight v ≡ suc (weight_members m)
unfolding weight
members-weight (object n) m h = ground (arith, h)
members-weight v m h = absurd (ground (arith, h))

object_schema-weight : (v : JsonValue) → weight (object_schema v) ≤ weight v
unfolding object_schema weight
object_schema-weight (bool true) = omega arith
object_schema-weight (bool false) = omega arith
object_schema-weight _ = omega arith

module _ (p : Packages) (matches : (s t : String) → Returns (p.re_match s t))
    (visit : JsonValue → JsonValue → Location → Result CompatibilityResult) (n : ℕ)
    (visit-Returns : (v w : JsonValue) (location : Location)
      → weight v + weight w < n
      → Returns (visit v w location)) where
  compatibility_array-Returns :
      (v w : JsonValue) (location : Location)
      → weight v + weight w ≤ n
      → Returns (compatibility_array p visit v w location)
  unfolding compatibility_array
  compatibility_array-Returns v w location h =
      bind_any-Returns (get_type_of v) _ (get_type_of-Returns v) (λ t.
        bind_any-Returns (get_type_of w) _ (get_type_of-Returns w) (λ u.
          twice_guarded-Returns _ _ (members_of v) _ (members_of-Returns v) (λ r e.
            bind-Returns (members_of w) _ (members_of-Returns w) (λ m f.
              if-Returns _ (array_steps p visit location v w r m compatible) (ok _)
                (result-Returns _
                  (array_steps-Runs p visit n visit-Returns location v w r m
                    (omega (arith, members-weight v r e, members-weight w m f)))
                  _)
                tt))))

  compatibility_object-Returns :
      (v w : JsonValue) (location : Location)
      → weight v + weight w ≤ n
      → Returns (compatibility_object p visit v w location)
  unfolding compatibility_object
  compatibility_object-Returns v w location h =
      bind_any-Returns (get_type_of v) _ (get_type_of-Returns v) (λ t.
        guarded-Returns _ (get_type_of w) _ (get_type_of-Returns w) (λ u e.
          guarded-Returns _ (members_of v) _ (members_of-Returns v) (λ r f.
            bind-Returns (members_of w) _ (members_of-Returns w) (λ m g.
              result-Returns _
                (object_steps-Runs p matches visit n visit-Returns location v w r m
                  (omega (arith, members-weight v r f, members-weight w m g)))
                _))))

  compare_not-Returns :
      (v w : JsonValue) (location : Location)
      → weight v + weight w ≤ n
      → Returns (compare_not p visit v w location)
  unfolding compare_not
  compare_not-Returns v w location h =
      twice_guarded-Returns _ _ (members_of v) _ (members_of-Returns v) (λ r e.
        bind-Returns (members_of w) _ (members_of-Returns w) (λ m f. visit-Returns _ _ _ (
          omega (
            arith,
            members-weight v r e,
            members-weight w m f,
            get-weight (subschema_value Subschema.not) r,
            get-weight (subschema_value Subschema.not) m,
          ))))

  compare_same_type-Returns :
      (t : JsonschemaTypes) (v w : JsonValue) (location : Location)
      → weight v + weight w ≤ n
      → Returns (compare_same_type p visit t v w location)
  unfolding compare_same_type
  compare_same_type-Returns boolean_schema v w location h = tt
  compare_same_type-Returns (subschema_type Subschema.not) v w location h =
      compare_not-Returns v w location h
  compare_same_type-Returns (subschema_type _) v w location h = tt
  compare_same_type-Returns (instance_type Instance.boolean) v w location h = tt
  compare_same_type-Returns (instance_type Instance.string) v w location h =
      compatibility_string-Returns p v w location
  compare_same_type-Returns (instance_type Instance.array) v w location h =
      compatibility_array-Returns v w location h
  compare_same_type-Returns (instance_type _) v w location h = tt
  compare_same_type-Returns (keyword_type Keyword.enum) v w location h =
      compatibility_enum-Returns v w location
  compare_same_type-Returns (keyword_type _) v w location h = tt

  compare_by_types-Returns :
      (t u : JsonschemaTypes) (v w : JsonValue) (location : Location)
      → weight v + weight w ≤ n
      → Returns (compare_by_types p visit t u v w location)
  unfolding compare_by_types
  compare_by_types-Returns t u v w location h =
      if-Returns (is_mismatch t u v w) (ok (type_mismatch location)) _ tt (
        if-Returns (both_are_numbers t u) (compatibility_numerical p v w location) _
          (compatibility_numerical-Returns p v w location)
          (if-Returns (either_has_subschema t u) (compatibility_subschemas p visit v w location) _
            subschemas
            (if-Returns (both_are_object t u v w)
              (compatibility_object p visit (object_schema v) (object_schema w) location) _ objects
              (compare_same_type-Returns t v w location h))))
    where
      visit_below :
          (a b : JsonValue) (l : Location)
          → weight a + weight b < weight v + weight w
          → Returns (visit a b l)
      visit_below a b l k = visit-Returns a b l (omega arith)

      subschemas : Returns (compatibility_subschemas p visit v w location)
      subschemas =
          compatibility_subschemas-Returns p visit (weight v) (weight w) visit_below v w location
            refl refl

      objects : Returns (compatibility_object p visit (object_schema v) (object_schema w) location)
      objects =
          compatibility_object-Returns (object_schema v) (object_schema w) location
            (omega (arith, object_schema-weight v, object_schema-weight w))

  compare_schemas-Returns :
      (v w : JsonValue) (location : Location)
      → weight v + weight w ≤ n
      → Returns (compare_schemas p visit v w location)
  unfolding compare_schemas
  compare_schemas-Returns v w location h =
      if-Returns (introduced_constraint v w)
        (ok (incompatible_schema Incompatibility.schema_added location)) _ tt
        (if-Returns (is_null v && not (is_null w))
          (ok (incompatible_schema Incompatibility.schema_removed location)) _ tt
          (bind_any-Returns (get_type_of v) _ (get_type_of-Returns v) (λ t.
            bind_any-Returns (get_type_of w) _ (get_type_of-Returns w)
              (λ u. compare_by_types-Returns t u v w location h))))

-- With more fuel than the two schemas weigh together, where an array, a dict and a Boolean each weigh one
-- and a value of another kind nothing, `compatibility_rec` comes to a result, or to an error that is not
-- the end of the fuel, if `re.match` does.
pub compatibility_rec-Returns :
    (p : Packages) (fuel : ℕ) (reader_schema writer_schema : JsonValue) (location : Location)
    → ((pattern name : String) → Returns (p.re_match pattern name))
    → weight reader_schema + weight writer_schema < fuel
    → Returns (compatibility_rec p fuel reader_schema writer_schema location)
unfolding compatibility_rec
compatibility_rec-Returns p zero v w location matches h = absurd (omega arith)
compatibility_rec-Returns p (suc fuel) v w location matches h =
    compare_schemas-Returns p matches (compatibility_rec p fuel) fuel
      (λ a b l k. compatibility_rec-Returns p fuel a b l matches k) v w location (omega arith)
