-- ===== src/JsonSchema/Terminates/Objects.antt =====
-- `compatibility_object` ends if it does on the parts of the two schemas.
use karapace.Prelude.{
  ℕ, ◌+◌, ◌≤◌, ◌<◌, ◌≡◌, Bool, true, false, List, [], ◌∷◌, String, All, arith, if◌then◌else◌,
}
use karapace.Outcome.{Returns, Result, ok, err, type_error}
use karapace.JsonSchema.Json.{
  JsonValue, null, array, object, no_items, Members, no_members, member, get, is_truthy,
}
use karapace.JsonSchema.Types.{Keyword, CompatibilityResult, Location, Packages}
use karapace.JsonSchema.Utils.{keyword_at, keyword_or}
use karapace.JsonSchema.Objects.{
  property_map, items_of, became_required, is_required_without_default, misses_properties, dict_at,
  check_dependencies, common_property, removed_with_schema, removed_property, added_property,
  unknown_properties, check_dependent_schemas, check_additional_properties, object_steps,
}
use karapace.JsonSchema.Assertions.{max_properties_check, min_properties_check}
use karapace.JsonSchema.Terminates.Weight.{weight, weight_members, get-weight, keyword_at-weight}
use karapace.JsonSchema.Terminates.Runs.{
  Runs, add-Runs, then-Runs, when-Runs, if-Runs, with_value-Runs, with_any-Runs, for_each-Runs,
  for_every-Runs, merge_result-Runs, if_incompatible-Runs, check_all-Runs,
}
use karapace.JsonSchema.Terminates.Basics.{
  lt-Returns, gt-Returns, members_of-Returns, set_of-Returns, text_in-Returns,
  is_object_content_model_open-Returns, dict-weight,
  schema_from_partially_open_content_model-Returns, schema_from_partially_open_content_model-weight,
}

property_map-Returns : (v : JsonValue) → Returns (property_map v)
property_map-Returns (object m) = tt
property_map-Returns v = ground arith

no_properties-weight :
    (b : Bool) (m : Members) (a : ℕ)
    → (if b then err type_error else ok no_members) ≡ ok m
    → weight_members m ≤ a
unfolding weight
no_properties-weight true m a h = absurd (ground (arith, h))
no_properties-weight false m a h = ground (arith, h)

property_map-weight :
    (v : JsonValue) (m : Members) (a : ℕ)
    → property_map v ≡ ok m
    → weight v ≤ a
    → weight_members m ≤ a
unfolding weight
property_map-weight (object n) m a h b = ground (arith, h, b)
property_map-weight v m a h b = no_properties-weight (is_truthy v) m a h

became_required-Returns : (v w : JsonValue) → Returns (became_required v w)
unfolding became_required
became_required-Returns v w = ground (arith, members_of-Returns v, members_of-Returns w)

is_required_without_default-Returns :
    (k : String) (r vs : Members) → Returns (is_required_without_default k r vs)
unfolding is_required_without_default
is_required_without_default-Returns k r vs = ground (
  arith,
  text_in-Returns k (keyword_or Keyword.required (array no_items) r),
  text_in-Returns _ (keyword_or Keyword.required (array no_items) vs),
)

misses_properties-Returns : (ks : List String) (v : JsonValue) → Returns (misses_properties ks v)
unfolding misses_properties
misses_properties-Returns [] v = tt
misses_properties-Returns (k ∷ ks) v = ground (arith, is_object_content_model_open-Returns v)

dict_at-Returns : (k : Keyword) (m : Members) → Returns (dict_at k m)
unfolding dict_at
dict_at-Returns k m = members_of-Returns _

dict_at-weight :
    (k : Keyword) (m n : Members) → dict_at k m ≡ ok n → weight_members n ≤ weight_members m
unfolding dict_at
dict_at-weight k m n h = dict-weight k m n h

check_dependencies-Runs :
    (location : Location) (r w : Members) → Runs (check_dependencies location r w)
unfolding check_dependencies
check_dependencies-Runs location r w =
    with_any-Runs _ _ (dict_at-Returns Keyword.dependencies w) (λ ds. for_every-Runs _ _ (λ d.
      with_any-Runs _ _ (dict_at-Returns Keyword.dependencies r) (λ es.
        then-Runs _ _ (when-Runs _ _ (add-Runs _ _)) (
          with_any-Runs _ _ (set_of-Returns d.1) (λ xs.
            with_any-Runs _ _ (set_of-Returns (get d.0 es))
              (λ ys. when-Runs _ _ (add-Runs _ _)))))))

items_of-weight :
    (m : Members) (a : ℕ)
    → weight_members m ≤ a
    → All (λ (e : String × JsonValue). weight e.1 ≤ a) (items_of m)
unfolding weight
items_of-weight no_members a h = tt
items_of-weight (member k v m) a h = (omega arith, items_of-weight m a (omega arith))

All-map :
    {A : Type 0} {P Q : A → Type 0} (xs : List A) → All P xs → ((a : A) → P a → Q a) → All Q xs
All-map [] h f = tt
All-map (x ∷ xs) (hx, h) f = (f x hx, All-map xs h f)

module _ (p : Packages) (matches : (s t : String) → Returns (p.re_match s t))
    (visit : JsonValue → JsonValue → Location → Result CompatibilityResult) (n : ℕ)
    (visit-Returns : (v w : JsonValue) (location : Location)
      → weight v + weight w < n
      → Returns (visit v w location)) where
  common_property-Runs :
      (location : Location) (vs ws : Members) (k : String)
      → weight_members vs + weight_members ws < n
      → Runs (common_property p visit location vs ws k)
  unfolding common_property
  common_property-Runs location vs ws k h =
      then-Runs _ _
        (with_any-Runs _ _ (became_required-Returns _ _) (λ b. when-Runs _ _ (add-Runs _ _)))
        (if_incompatible-Runs _ _ _
          (visit-Returns _ _ _ (omega (arith, get-weight k vs, get-weight k ws)))
          (λ r. merge_result-Runs _ _ tt))

  removed_with_schema-Runs :
      (location : Location) (schema property : JsonValue)
      → weight schema + weight property < n
      → Runs (removed_with_schema p visit location schema property)
  unfolding removed_with_schema
  removed_with_schema-Runs location null property h = add-Runs _ _
  removed_with_schema-Runs location schema property h =
      if_incompatible-Runs _ _ _ (visit-Returns _ _ _ h)
        (λ r. then-Runs _ _ (merge_result-Runs _ _ tt) (add-Runs _ _))

  removed_property-Runs :
      (location : Location) (r ws : Members) (k : String)
      → weight_members r + weight_members ws < n
      → Runs (removed_property p visit location r ws k)
  unfolding removed_property
  removed_property-Runs location r ws k h =
      with_value-Runs _ _ (schema_from_partially_open_content_model-Returns p matches r k) (λ s e.
        removed_with_schema-Runs _ _ _ (
          omega
            (arith, get-weight k ws, schema_from_partially_open_content_model-weight p r k s e)))

  added_property-Runs :
      (location : Location) (r w vs : Members) (k : String)
      → weight_members vs + weight_members w < n
      → Runs (added_property p visit location r w vs k)
  unfolding added_property
  added_property-Runs location r w vs k h =
      then-Runs _ _
        (with_value-Runs _ _ (schema_from_partially_open_content_model-Returns p matches w k)
          (λ s e. when-Runs _ _ (
            if_incompatible-Runs _ _ _
              (visit-Returns _ _ _ (
                omega (
                  arith,
                  get-weight k vs,
                  schema_from_partially_open_content_model-weight p w k s e,
                )))
              (λ r. add-Runs _ _))))
        (with_any-Runs _ _ (is_required_without_default-Returns k r vs)
          (λ b. when-Runs _ _ (add-Runs _ _)))

  unknown_properties-Runs :
      (location : Location) (reader_schema writer_schema : JsonValue) (r w vs ws : Members)
      → weight_members r + weight_members w < n
      → weight_members vs ≤ weight_members r
      → weight_members ws ≤ weight_members w
      → Runs (unknown_properties p visit location reader_schema writer_schema r w vs ws)
  unfolding unknown_properties
  unknown_properties-Runs location reader_schema writer_schema r w vs ws h hv hw =
      with_any-Runs _ _ (misses_properties-Returns _ reader_schema) (λ b.
        if-Runs _ _ _
          (for_every-Runs _ _ (λ k. removed_property-Runs location r ws k (omega arith)))
          (when-Runs _ _ (
            with_any-Runs _ _ (is_object_content_model_open-Returns writer_schema) (λ o.
              if-Runs _ _ _ (add-Runs _ _)
                (for_every-Runs _ _ (λ k. added_property-Runs location r w vs k (omega arith)))))))

  check_dependent_schemas-Runs :
      (location : Location) (r w : Members)
      → weight_members r + weight_members w < n
      → Runs (check_dependent_schemas p visit location r w)
  unfolding check_dependent_schemas
  check_dependent_schemas-Runs location r w h =
      with_value-Runs _ _ (dict_at-Returns Keyword.dependent_schemas w) (λ ds e. for_each-Runs _ _ (
        All-map (items_of ds)
          (items_of-weight ds (weight_members w) (dict_at-weight Keyword.dependent_schemas w ds e))
          (λ d b. with_value-Runs _ _ (dict_at-Returns Keyword.dependent_schemas r) (λ es f.
            then-Runs _ _ (when-Runs _ _ (add-Runs _ _)) (
              merge_result-Runs _ _ (
                visit-Returns (get d.0 es) d.1 location (
                  omega (
                    arith,
                    get-weight d.0 es,
                    dict_at-weight Keyword.dependent_schemas r es f,
                  ))))))))

  check_additional_properties-Runs :
      (location : Location) (a b : JsonValue)
      → weight a + weight b < n
      → Runs (check_additional_properties p visit location a b)
  unfolding check_additional_properties
  check_additional_properties-Runs location a b h =
      then-Runs _ _ (when-Runs _ _ (add-Runs _ _))
        (when-Runs _ _ (merge_result-Runs _ _ (visit-Returns a b _ h)))

  pub object_steps-Runs :
      (location : Location) (reader_schema writer_schema : JsonValue) (r w : Members)
      → weight_members r + weight_members w < n
      → Runs (object_steps p visit location reader_schema writer_schema r w)
  unfolding object_steps
  object_steps-Runs location reader_schema writer_schema r w h =
      then-Runs _ _
        (then-Runs _ _
          (then-Runs _ _
            (then-Runs _ _
              (with_value-Runs _ _ (property_map-Returns (keyword_at Keyword.properties r)) (λ vs e.
                with_value-Runs _ _ (property_map-Returns (keyword_at Keyword.properties w))
                  (λ ws f.
                    let hv =
                      property_map-weight _ vs _ e (keyword_at-weight Keyword.properties r) in
                    let hw =
                      property_map-weight _ ws _ f (keyword_at-weight Keyword.properties w) in
                    then-Runs _ _
                      (for_every-Runs _ _
                        (λ k. common_property-Runs location vs ws k (omega arith)))
                      (unknown_properties-Runs location reader_schema writer_schema r w vs ws h hv
                        hw))))
              (check_dependencies-Runs location r w))
            (check_dependent_schemas-Runs location r w h))
          (check_all-Runs p r w location (max_properties_check ∷ min_properties_check ∷ [])
            (lt-Returns, (gt-Returns, tt))))
        (check_additional_properties-Runs location _ _ (
          omega (
            arith,
            keyword_at-weight Keyword.additional_properties r,
            keyword_at-weight Keyword.additional_properties w,
          )))
