-- ===== src/JsonSchema/Objects.antt =====
-- src/karapace/core/compatibility/jsonschema/checks.py: `compatibility_object`. `visit` is
-- `compatibility_rec`. A set is read in the order of its dict.
use karapace.Prelude.{
  Bool, false, not, ◌&&◌, List, [], ◌∷◌, ◌++◌, String, is_empty, select, if◌then◌else◌,
}
use karapace.Outcome.{Result, ok, err, raise_if, assertion_error, type_error, ◌>>=◌, ◌>>◌}
use karapace.JsonSchema.Json.{
  JsonValue, null, array, object, no_items, Members, no_members, member, is_null, is_truthy, names,
  has_member, get, get_or_else, members_of, set_of, difference, text_in,
}
use karapace.JsonSchema.Types.{
  Keyword, keyword_value, Instance, instance_type, same_type, Incompatibility, CompatibilityResult,
  compatible, Location, Packages,
}
use karapace.JsonSchema.Utils.{keyword_at, keyword_or, get_type_of}
use karapace.JsonSchema.Constraints.{
  is_false_schema, is_object_content_model_open, introduced_constraint,
  schema_from_partially_open_content_model,
}
use karapace.JsonSchema.Steps.{
  Statement, ◌then◌, for_each, when, with_value, add, merge_result, if_incompatible,
}
use karapace.JsonSchema.Assertions.{max_properties_check, min_properties_check}
use karapace.JsonSchema.Scalars.{check_all}

-- the dict of the properties; a value that is true and no dict, which `check_schema` rejects, is a TypeError
abbrev pub property_map : JsonValue → Result Members
property_map (object m) = ok m
property_map v = if is_truthy v then err type_error else ok no_members

-- `set(m) - set(n)`, `set(m) & set(n)`
abbrev pub names_without : Members → Members → List String
names_without m n = select (λ k. not (has_member k n)) (names m)

abbrev pub common_names : Members → Members → List String
common_names m n = select (λ k. has_member k n) (names m)

-- `m.items()`
abbrev pub items_of : Members → List (String × JsonValue)
items_of no_members = []
items_of (member k v m) = (k, v) ∷ items_of m

-- `not is_required_by_writer and is_required_by_reader`, of two schemas of a property
unfoldable pub became_required : JsonValue → JsonValue → Result Bool
unfolding keyword_at
became_required reader_property writer_property = members_of reader_property >>= (λ r.
    members_of writer_property >>= (λ w. ok (
      not (is_truthy (keyword_at Keyword.required w))
      && is_truthy (keyword_at Keyword.required r))))

-- `new_property_is_required_without_default`
unfoldable pub is_required_without_default : String → Members → Members → Result Bool
unfolding text_in keyword_or keyword_value
is_required_without_default k r reader_properties =
    text_in k (keyword_or Keyword.required (array no_items) r) >>= (λ required.
      if required
      then text_in (keyword_value Keyword.default)
          (keyword_or Keyword.required (array no_items) reader_properties)
        >>= (λ found. ok (not found))
      else ok false)

-- `properties_unknown_to_reader and not is_object_content_model_open(reader_schema)`
unfoldable pub misses_properties : List String → JsonValue → Result Bool
unfolding is_object_content_model_open
misses_properties [] reader_schema = ok false
misses_properties (k ∷ ks) reader_schema =
    is_object_content_model_open reader_schema >>= (λ b. ok (not b))

unfoldable pub properties_location : Location → Location
unfolding keyword_value
properties_location location = location ++ keyword_value Keyword.properties ∷ []

-- the dict of a keyword, `schema.get(keyword.value, {})`, whose items are asked for
unfoldable pub dict_at : Keyword → Members → Result Members
unfolding keyword_or
dict_at k m = members_of (keyword_or k (object no_members) m)

-- the loop over the writer's dependencies
unfoldable pub check_dependencies : Location → Members → Members → Statement
unfolding keyword_or get_or_else set_of difference dict_at
check_dependencies location r w =
    with_value (dict_at Keyword.dependencies w) (λ writer_dependencies.
      for_each (items_of writer_dependencies) (λ (dependency : String × JsonValue).
        with_value (dict_at Keyword.dependencies r) (λ reader_dependencies.
          let reader_dependency = get dependency.0 reader_dependencies in
          when (not (is_truthy reader_dependency))
            (add Incompatibility.dependency_array_added location)
          then with_value (set_of dependency.1) (λ ws. with_value (set_of reader_dependency) (λ vs.
            when (not (is_empty (difference ws vs)))
              (add Incompatibility.dependency_array_extended location))))))

module _ (p : Packages)
    (visit : JsonValue → JsonValue → Location → Result CompatibilityResult) where
  -- the loop over the properties of both
  unfoldable pub common_property : Location → Members → Members → String → Statement
  unfolding keyword_value became_required get_or_else properties_location
  common_property location vs ws k =
      let here = properties_location location ++ k ∷ [] in
      with_value (became_required (get k vs) (get k ws))
        (λ b. when b (add Incompatibility.required_attribute_added here))
      then if_incompatible p (visit (get k vs) (get k ws) here) (λ r. merge_result p (ok r))

  -- a property of the writer with the schema that the reader has for it, if any
  unfoldable pub removed_with_schema : Location → JsonValue → JsonValue → Statement
  unfolding keyword_value properties_location
  removed_with_schema location null writer_property =
      add Incompatibility.property_removed_from_closed_content_model (properties_location location)
  removed_with_schema location schema writer_property =
      if_incompatible p (visit schema writer_property (properties_location location)) (λ r.
        merge_result p (ok r)
        then add Incompatibility.property_removed_not_covered_by_partially_open_content_model
            (properties_location location))

  unfoldable pub removed_property : Location → Members → Members → String → Statement
  unfolding schema_from_partially_open_content_model keyword_value get_or_else removed_with_schema
  removed_property location r ws k =
      with_value (schema_from_partially_open_content_model p r k)
        (λ schema. removed_with_schema location schema (get k ws))

  -- a property of the reader that a writer without an open model does not have
  unfoldable pub added_property : Location → Members → Members → Members → String → Statement
  unfolding schema_from_partially_open_content_model is_required_without_default keyword_value
      properties_location get_or_else
  added_property location r w vs k =
      with_value (schema_from_partially_open_content_model p w k) (λ schema.
        when (not (is_null schema) && not (is_false_schema schema)) (
          if_incompatible p (visit (get k vs) schema (properties_location location)) (λ result.
            add Incompatibility.property_added_not_covered_by_partially_open_content_model
              (properties_location location))))
      then with_value (is_required_without_default k r vs) (λ b. when b (
          add Incompatibility.required_property_added_to_unopen_content_model
            (properties_location location)))

  -- the branch on the properties that one side does not know
  unfoldable pub unknown_properties :
      Location → JsonValue → JsonValue → Members → Members → Members → Members → Statement
  unfolding misses_properties is_object_content_model_open removed_property added_property
      properties_location keyword_value
  unknown_properties location reader_schema writer_schema r w vs ws =
      let unknown_to_reader = names_without ws vs in
      let unknown_to_writer = names_without vs ws in
      with_value (misses_properties unknown_to_reader reader_schema) (λ misses.
        if misses
        then for_each unknown_to_reader (removed_property location r ws)
        else when (not (is_empty unknown_to_writer)) (
            with_value (is_object_content_model_open writer_schema) (λ is_writer_open_model.
              if is_writer_open_model
              then add Incompatibility.property_added_to_open_content_model
                  (properties_location location)
              else for_each unknown_to_writer (added_property location r w vs))))

  -- the loop over the writer's dependent schemas
  unfoldable pub check_dependent_schemas : Location → Members → Members → Statement
  unfolding keyword_or get_or_else introduced_constraint dict_at
  check_dependent_schemas location r w =
      with_value (dict_at Keyword.dependent_schemas w) (λ writer_dependent_schemas.
        for_each (items_of writer_dependent_schemas) (λ (dependent : String × JsonValue).
          with_value (dict_at Keyword.dependent_schemas r) (λ reader_dependent_schemas.
            let reader_dependent_schema = get dependent.0 reader_dependent_schemas in
            when (introduced_constraint reader_dependent_schema (object writer_dependent_schemas))
              (add Incompatibility.dependency_schema_added location)
            then merge_result p (visit reader_dependent_schema dependent.1 location))))

  -- the statements on `additionalProperties`
  unfoldable pub check_additional_properties : Location → JsonValue → JsonValue → Statement
  unfolding introduced_constraint keyword_value
  check_additional_properties location reader_additional writer_additional =
      let here = location ++ keyword_value Keyword.additional_properties ∷ [] in
      when (introduced_constraint reader_additional writer_additional)
        (add Incompatibility.additional_properties_narrowed here)
      then when (is_truthy reader_additional && is_truthy writer_additional)
          (merge_result p (visit reader_additional writer_additional here))

  -- `compatibility_object` after its assertions
  unfoldable pub object_steps : Location → JsonValue → JsonValue → Members → Members → Statement
  unfolding keyword_at common_property unknown_properties check_dependencies check_dependent_schemas
      check_additional_properties
  object_steps location reader_schema writer_schema r w =
      with_value (property_map (keyword_at Keyword.properties r)) (λ vs.
        with_value (property_map (keyword_at Keyword.properties w)) (λ ws.
          for_each (common_names vs ws) (common_property location vs ws)
          then unknown_properties location reader_schema writer_schema r w vs ws))
      then check_dependencies location r w
      then check_dependent_schemas location r w
      then check_all p (max_properties_check ∷ min_properties_check ∷ []) r w location
      then check_additional_properties location (keyword_at Keyword.additional_properties r)
          (keyword_at Keyword.additional_properties w)

  -- `compatibility_object`
  unfoldable pub compatibility_object :
      JsonValue → JsonValue → Location → Result CompatibilityResult
  unfolding get_type_of same_type object_steps
  compatibility_object reader_schema writer_schema location =
      get_type_of reader_schema >>= (λ reader_type.
        raise_if (not (same_type reader_type (instance_type Instance.object))) assertion_error
        >> get_type_of writer_schema
        >>= (λ writer_type.
            raise_if (not (same_type writer_type (instance_type Instance.object))) assertion_error
            >> members_of reader_schema
            >>= (λ r.
                members_of writer_schema
                >>= (λ w. object_steps location reader_schema writer_schema r w compatible))))
