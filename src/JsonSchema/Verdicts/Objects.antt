-- ===== src/JsonSchema/Verdicts/Objects.antt =====
-- What a compatible verdict on two schemas of objects says of their properties.
use karapace.Prelude.{◌≡◌, refl, Bool, true, false, List, [], ◌∷◌, ◌++◌, String, if◌then◌else◌}
use karapace.Outcome.{Result, ok}
use karapace.JsonSchema.Json.{JsonValue, null, Members, get, is_null}
use karapace.JsonSchema.Types.{Incompatibility, CompatibilityResult, Location, Packages}
use karapace.JsonSchema.Constraints.{schema_from_partially_open_content_model}
use karapace.JsonSchema.Steps.{Statement, ◌then◌, for_each, when, with_value, add, merge_result}
use karapace.JsonSchema.Objects.{
  became_required, properties_location, check_dependencies, common_property, removed_with_schema,
  removed_property, added_property, check_dependent_schemas, check_additional_properties,
}
use karapace.JsonSchema.Verdicts.Passes.{
  Merges, Accepts, Passes, add-Passes, weaker-Passes, then-Passes, when-Passes, with_value-Passes,
  for_each-Passes, merge_result-Passes, if_incompatible-Passes, merged-Passes,
}

-- a step that never makes an incompatible result compatible
abbrev pub Keeps : Statement → Type 0
Keeps f = Passes f (Unit {0})

pub keeps : (P : Type 0) (f : Statement) → Passes f P → Keeps f
keeps P f h = weaker-Passes P (Unit {0}) f h (λ x. tt)

pub add-Keeps : (i : Incompatibility) (location : Location) → Keeps (add i location)
add-Keeps i location = keeps ⊥ (add i location) (add-Passes i location)

then-Keeps : (f g : Statement) → Keeps f → Keeps g → Keeps (f then g)
then-Keeps f g hf hg = keeps _ _ (then-Passes (Unit {0}) (Unit {0}) f g hf hg)

pub when-Keeps : (b : Bool) (f : Statement) → Keeps f → Keeps (when b f)
when-Keeps b f h = keeps _ _ (when-Passes (Unit {0}) b f h)

pub if-Keeps : (b : Bool) (f g : Statement) → Keeps f → Keeps g → Keeps (if b then f else g)
if-Keeps true f g hf hg = hf
if-Keeps false f g hf hg = hg

pub with_value-Keeps :
    {A : Type 0} (m : Result A) (f : A → Statement)
    → ((a : A) → Keeps (f a))
    → Keeps (with_value m f)
with_value-Keeps m f h = keeps _ _ (with_value-Passes (λ a. Unit {0}) m f h)

pub for_each-Keeps :
    {A : Type 0} (xs : List A) (f : A → Statement) → ((a : A) → Keeps (f a)) → Keeps (for_each xs f)
for_each-Keeps xs f h = keeps _ _ (for_each-Passes (λ a. Unit {0}) xs f h)

pub check_dependencies-Keeps :
    (location : Location) (r w : Members) → Keeps (check_dependencies location r w)
unfolding check_dependencies
check_dependencies-Keeps location r w = with_value-Keeps _ _ (λ ds. for_each-Keeps _ _ (λ d.
    with_value-Keeps _ _ (λ es.
      then-Keeps _ _ (when-Keeps _ _ (add-Keeps _ _)) (
        with_value-Keeps _ _ (λ xs. with_value-Keeps _ _ (λ ys. when-Keeps _ _ (add-Keeps _ _)))))))

module _ (p : Packages)
    (visit : JsonValue → JsonValue → Location → Result CompatibilityResult) where
  -- a property of both: it did not become required, and its schemas are compatible
  abbrev pub CommonKept : Location → Members → Members → String → Type 0
  CommonKept location vs ws k =
      (became_required (get k vs) (get k ws) ≡ ok false)
      × Accepts (visit (get k vs) (get k ws) (properties_location location ++ k ∷ []))

  -- a property of the writer alone: the reader has a schema for it, and the schemas are compatible
  abbrev pub RemovedKept : Location → Members → Members → String → Type 0
  RemovedKept location r ws k =
      (schema : JsonValue) × (schema_from_partially_open_content_model p r k ≡ ok schema)
      × (is_null schema ≡ false)
      × Accepts (visit schema (get k ws) (properties_location location))

module _ (p : Packages) (merges : Merges p)
    (visit : JsonValue → JsonValue → Location → Result CompatibilityResult) where
  merge-Keeps : (m : Result CompatibilityResult) → Keeps (merge_result p m)
  merge-Keeps m = keeps _ _ (merge_result-Passes p merges m)

  pub check_dependent_schemas-Keeps :
      (location : Location) (r w : Members) → Keeps (check_dependent_schemas p visit location r w)
  unfolding check_dependent_schemas
  check_dependent_schemas-Keeps location r w = with_value-Keeps _ _ (λ ds. for_each-Keeps _ _ (λ d.
      with_value-Keeps _ _ (λ es. then-Keeps _ _ (when-Keeps _ _ (add-Keeps _ _)) (merge-Keeps _))))

  pub check_additional_properties-Keeps :
      (location : Location) (a b : JsonValue)
      → Keeps (check_additional_properties p visit location a b)
  unfolding check_additional_properties
  check_additional_properties-Keeps location a b =
      then-Keeps _ _ (when-Keeps _ _ (add-Keeps _ _)) (when-Keeps _ _ (merge-Keeps _))

  pub common_property-Passes :
      (location : Location) (vs ws : Members) (k : String)
      → Passes (common_property p visit location vs ws k) (CommonKept p visit location vs ws k)
  unfolding common_property
  common_property-Passes location vs ws k =
      weaker-Passes _ _ _
        (then-Passes _ _ _ _
          (with_value-Passes (λ b. b ≡ true → ⊥) _ _ (λ b. when-Passes ⊥ b _ (add-Passes _ _)))
          (if_incompatible-Passes p merges _ _ (merged-Passes p merges)))
        (λ both. (required both.0, both.1))
    where
      required :
          (b : Bool) × (became_required (get k vs) (get k ws) ≡ ok b) × (b ≡ true → ⊥)
          → became_required (get k vs) (get k ws) ≡ ok false
      required (true, e, h) = absurd (h refl)
      required (false, e, h) = e

  removed_with_schema-Passes :
      (location : Location) (schema property : JsonValue)
      → Passes (removed_with_schema p visit location schema property) (
          (is_null schema ≡ false) × Accepts (visit schema property (properties_location location)))
  unfolding removed_with_schema
  removed_with_schema-Passes location null property =
      weaker-Passes ⊥ _ _ (add-Passes _ _) (λ x. absurd x)
  removed_with_schema-Passes location schema property =
      weaker-Passes _ _ _
        (if_incompatible-Passes p merges _ _ (λ a bad.
          weaker-Passes _ _ _ (then-Passes _ _ _ _ (merged-Passes p merges a bad) (add-Passes _ _))
            (λ x. x.0)))
        (λ x. (refl, x))

  pub removed_property-Passes :
      (location : Location) (r ws : Members) (k : String)
      → Passes (removed_property p visit location r ws k) (RemovedKept p visit location r ws k)
  unfolding removed_property
  removed_property-Passes location r ws k =
      weaker-Passes _ _ _
        (with_value-Passes _ _ _ (λ schema. removed_with_schema-Passes location schema (get k ws)))
        (λ x. (x.0, x.1, x.2.0, x.2.1))

  pub added_property-Keeps :
      (location : Location) (r w vs : Members) (k : String)
      → Keeps (added_property p visit location r w vs k)
  unfolding added_property
  added_property-Keeps location r w vs k =
      then-Keeps _ _
        (with_value-Keeps _ _ (λ s.
          when-Keeps _ _
            (keeps _ _ (if_incompatible-Passes p merges _ _ (λ a bad. add-Passes _ _)))))
        (with_value-Keeps _ _ (λ b. when-Keeps _ _ (add-Keeps _ _)))
