-- ===== src/JsonSchema/Verdicts/Properties.antt =====
-- Compatible schemas of objects: each property of the writer has a compatible schema in the reader.
use karapace.Prelude.{
  ℕ, suc, ◌≡◌, refl, sym, ◌∙◌, subst, ◌⊎◌, inl, inr, Bool, true, false, List, [], ◌∷◌, String, All,
  arith,
}
use karapace.Outcome.{Result, Result-cases, ok}
use karapace.JsonSchema.Json.{JsonValue, object, Members}
use karapace.JsonSchema.Types.{
  Keyword, Instance, instance_type, CompatibilityResult, Location, Packages,
}
use karapace.JsonSchema.Utils.{keyword_at, get_type_of}
use karapace.JsonSchema.Constraints.{is_object_content_model_open}
use karapace.JsonSchema.Assertions.{max_properties_check, min_properties_check}
use karapace.JsonSchema.Objects.{
  property_map, common_names, names_without, misses_properties, removed_property,
  unknown_properties, object_steps,
}
use karapace.JsonSchema.Recursion.{compatibility_rec}
use karapace.JsonSchema.Verdicts.Passes.{
  Merges, accept, Passes, weaker-Passes, then-Passes, if-Passes, with_value-Passes, for_each-Passes,
  accepted, check_all-Passes,
}
use karapace.JsonSchema.Verdicts.Runs.{
  compare_schemas-typed, compare_by_types-objects, compatibility_object-steps,
}
use karapace.JsonSchema.Verdicts.Objects.{
  add-Keeps, when-Keeps, if-Keeps, with_value-Keeps, for_each-Keeps, check_dependencies-Keeps,
  check_dependent_schemas-Keeps, check_additional_properties-Keeps, CommonKept,
  common_property-Passes, RemovedKept, removed_property-Passes, added_property-Keeps,
}

module _ (p : Packages)
    (visit : JsonValue → JsonValue → Location → Result CompatibilityResult) where
  -- the reader's model is open, or it has a compatible schema for each property of the writer alone
  abbrev pub UnknownKept : Location → JsonValue → Members → Members → Members → Type 0
  UnknownKept location reader_schema r vs ws =
      (is_object_content_model_open reader_schema ≡ ok true)
      ⊎ All (RemovedKept p visit location r ws) (names_without ws vs)

  -- what is said of the properties `vs` of the reader and `ws` of the writer
  abbrev pub PropertiesKept : Location → JsonValue → Members → Members → Members → Type 0
  PropertiesKept location v r vs ws =
      All (CommonKept p visit location vs ws) (common_names vs ws) × UnknownKept location v r vs ws

module _ (p : Packages) (merges : Merges p)
    (visit : JsonValue → JsonValue → Location → Result CompatibilityResult) where
  covered :
      (P : String → Type 0) (ks : List String) (v : JsonValue) (b : Bool)
      → misses_properties ks v ≡ ok b
      → (b ≡ true → All P ks)
      → (is_object_content_model_open v ≡ ok true) ⊎ All P ks
  unfolding misses_properties
  covered P [] v b e h = inr tt
  covered P (k ∷ ks) v b e h = elim (Result-cases (is_object_content_model_open v)) [
    | inl (true, o) ↦ inl o
    | inl (false, o) ↦ inr (h (ground (arith, e, o)))
    | inr (x, o) ↦ absurd (ground (arith, e, o))
  ]

  unknown_properties-Passes :
      (location : Location) (v w : JsonValue) (r m vs ws : Members)
      → Passes
          (unknown_properties p visit location v w r m vs ws)
          (UnknownKept p visit location v r vs ws)
  unfolding unknown_properties
  unknown_properties-Passes location v w r m vs ws =
      weaker-Passes _ _ _
        (with_value-Passes _ (misses_properties (names_without ws vs) v) _ (λ misses.
          if-Passes _ (Unit {0}) misses _ _
            (for_each-Passes (RemovedKept p visit location r ws) (names_without ws vs)
              (removed_property p visit location r ws)
              (removed_property-Passes p merges visit location r ws))
            (when-Keeps _ _ (
              with_value-Keeps _ _ (λ is_open.
                if-Keeps is_open _ _ (add-Keeps _ _)
                  (for_each-Keeps _ _ (added_property-Keeps p merges visit location r m vs)))))))
        (λ x. covered (RemovedKept p visit location r ws) (names_without ws vs) v x.0 x.1 x.2.0)

  pub object_steps-Passes :
      (location : Location) (v w : JsonValue) (r m vs ws : Members)
      → property_map (keyword_at Keyword.properties r) ≡ ok vs
      → property_map (keyword_at Keyword.properties m) ≡ ok ws
      → Passes (object_steps p visit location v w r m) (PropertiesKept p visit location v r vs ws)
  unfolding object_steps
  object_steps-Passes location v w r m vs ws pv pw =
      weaker-Passes _ _ _
        (then-Passes _ _ _ _
          (then-Passes _ _ _ _
            (then-Passes _ _ _ _
              (then-Passes _ _ _ _
                (with_value-Passes _ (property_map (keyword_at Keyword.properties r)) _ (λ vs'.
                  with_value-Passes _ (property_map (keyword_at Keyword.properties m)) _ (λ ws'.
                    then-Passes _ _ _ _
                      (for_each-Passes (CommonKept p visit location vs' ws') (common_names vs' ws')
                        _ (common_property-Passes p merges visit location vs' ws'))
                      (unknown_properties-Passes location v w r m vs' ws'))))
                (check_dependencies-Keeps location r m))
              (check_dependent_schemas-Keeps p merges visit location r m))
            (check_all-Passes p merges (max_properties_check ∷ min_properties_check ∷ []) r m
              location))
          (check_additional_properties-Keeps p merges visit location _ _))
        (λ x.
          let found = x.0.0.0.0 in
          subst (λ a. PropertiesKept p visit location v r a ws) (same _ _ _ found.1 pv)
            (subst (λ b. PropertiesKept p visit location v r found.0 b) (same _ _ _ found.2.1 pw)
              found.2.2))
    where
      same : (d : Result Members) (a b : Members) → d ≡ ok a → d ≡ ok b → a ≡ b
      same d a b e f = ground (arith, e, f)

-- Two schemas of objects, with the properties `vs` of the reader and `ws` of the writer: where the verdict
-- is compatible, each property of both did not become required in its own schema and has compatible
-- schemas; and the reader's content model is open, or the reader has, by a pattern or as the schema of
-- additional properties, a schema for each property of the writer alone that is compatible with the
-- writer's. `merge` is compatible where both its arguments are.
pub compatibility_rec-PropertiesKept :
    (p : Packages) (merges : Merges p) (fuel : ℕ) (r w vs ws : Members) (location : Location)
    (result : CompatibilityResult)
    → get_type_of (object r) ≡ ok (instance_type Instance.object)
    → get_type_of (object w) ≡ ok (instance_type Instance.object)
    → property_map (keyword_at Keyword.properties r) ≡ ok vs
    → property_map (keyword_at Keyword.properties w) ≡ ok ws
    → compatibility_rec p (suc fuel) (object r) (object w) location ≡ ok result
    → result.is_compatible ≡ true
    → PropertiesKept p (compatibility_rec p fuel) location (object r) r vs ws
unfolding compatibility_rec
compatibility_rec-PropertiesKept p merges fuel r w vs ws location result tr tw pv pw e c =
    let visit = compatibility_rec p fuel in
    let t = instance_type Instance.object in
    let v = object r in
    let v' = object w in
    let run =
      compare_schemas-typed p visit v v' t t location refl refl tr tw
      ∙ compare_by_types-objects p visit v v' t t location refl refl
      ∙ compatibility_object-steps p visit v v' t t location r w tr tw refl refl in
    accepted (PropertiesKept p visit location v r vs ws) (object_steps p visit location v v' r w)
      (object_steps-Passes p merges visit location v v' r w vs ws pv pw)
      (accept _ result (sym run ∙ e) c)
