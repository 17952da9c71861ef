-- ===== src/JsonSchema/Arrays.antt =====
-- src/karapace/core/compatibility/jsonschema/checks.py: `compatibility_array`. `visit` is
-- `compatibility_rec`.
use karapace.Prelude.{
  ℕ, suc, Bool, true, false, not, ◌&&◌, List, [], ◌∷◌, ◌++◌, pos, length, ltb, if◌then◌else◌,
}
use karapace.Outcome.{Result, ok, raise_if, assertion_error, ◌>>=◌, ◌>>◌}
use karapace.Schema.{show_int}
use karapace.JsonSchema.Json.{JsonValue, null, bool, array, Members, list_elements, members_of}
use karapace.JsonSchema.Types.{
  Keyword, keyword_value, Instance, instance_type, same_type, Incompatibility, CompatibilityResult,
  compatible, Location, Packages,
}
use karapace.JsonSchema.Utils.{keyword_at, keyword_or, get_type_of}
use karapace.JsonSchema.Constraints.{
  is_true_schema, is_false_schema, is_tuple, is_tuple_without_additional_items,
  introduced_constraint,
}
use karapace.JsonSchema.Steps.{
  type_mismatch, Statement, done, ◌then◌, for_each, when, add, merge_result, if_incompatible,
}
use karapace.JsonSchema.Assertions.{max_items_check, min_items_check}
use karapace.JsonSchema.Scalars.{check_all}

-- the items that are compared: those of a tuple, or the one value of `items`
abbrev pub compared_items : Bool → JsonValue → List JsonValue
compared_items true (array vs) = list_elements vs
compared_items _ v = v ∷ []

-- `m.get(keyword)` with the member of `Keyword` itself as the key: no key of a JSON object is one
unfoldable pub get_by_member : Keyword → Members → JsonValue
get_by_member k m = null

-- what `zip(rs, ws)` leaves in the iterator of `rs`: it has taken one more if `ws` is shorter
abbrev pub left_of_first : List JsonValue → List JsonValue → List JsonValue
left_of_first [] ws = []
left_of_first (v ∷ vs) [] = vs
left_of_first (v ∷ vs) (w ∷ ws) = left_of_first vs ws

-- and in the iterator of `ws`
abbrev pub left_of_second : List JsonValue → List JsonValue → List JsonValue
left_of_second [] ws = ws
left_of_second (v ∷ vs) [] = []
left_of_second (v ∷ vs) (w ∷ ws) = left_of_second vs ws

-- `pos` after the loop over the pairs
abbrev pub last_position : List JsonValue → List JsonValue → ℕ
last_position (v ∷ v' ∷ vs) (w ∷ w' ∷ ws) = suc (last_position (v' ∷ vs) (w' ∷ ws))
last_position _ _ = 0

-- `location + ["items", f"{pos}"]`
unfoldable pub item_location : Location → ℕ → Location
unfolding show_int
item_location location n = location ++ "items" ∷ show_int (pos n) ∷ []

unfoldable pub additional_location : Location → Location
unfolding keyword_value
additional_location location = location ++ keyword_value Keyword.additional_items ∷ []

abbrev pub same_flag : Bool → Bool → Bool
same_flag true b = b
same_flag false b = not b

module _ (p : Packages)
    (visit : JsonValue → JsonValue → Location → Result CompatibilityResult) where
  -- the loop over the pairs of items
  unfoldable pub compare_items : Location → ℕ → List JsonValue → List JsonValue → Statement
  unfolding show_int item_location
  compare_items location n (v ∷ vs) (w ∷ ws) =
      if_incompatible p (visit v w (item_location location n)) (λ r. merge_result p (ok r))
      then compare_items location (suc n) vs ws
  compare_items location n _ _ = done

  -- the loop over the writer's items that the reader does not have
  unfoldable pub removed_items : Location → JsonValue → List JsonValue → Statement
  unfolding keyword_value additional_location
  removed_items location reader_additional ws = for_each ws (λ w.
      if_incompatible p (visit reader_additional w (additional_location location)) (λ r.
        add Incompatibility.item_removed_not_covered_by_partially_open_content_model
          (additional_location location)))

  -- the loop over the reader's items that the writer does not have
  unfoldable pub added_items : Location → ℕ → JsonValue → List JsonValue → Statement
  unfolding show_int item_location
  added_items location n writer_additional [] = done
  added_items location n writer_additional (v ∷ vs) =
      if_incompatible p (visit v writer_additional (item_location location n)) (λ r.
        add Incompatibility.item_added_not_covered_by_partially_open_content_model
          (item_location location n))
      then added_items location (suc n) writer_additional vs

  -- what follows the loop over the pairs, for the items that one side has more of
  unfoldable pub more_items :
      Location → Members → Members → List JsonValue → List JsonValue → Bool → Statement
  unfolding keyword_or keyword_value removed_items added_items additional_location
  more_items location r w vs ws are_tuples =
      let restricted = not (is_true_schema (keyword_or Keyword.additional_items (bool true) r)) in
      let writer_additional = keyword_or Keyword.additional_items (bool true) w in
      when (are_tuples && ltb (length vs) (length ws) && restricted) (
        if is_false_schema (bool restricted)
        then add Incompatibility.item_removed_from_closed_content_model
            (additional_location location)
        else removed_items location (bool restricted) (left_of_second vs ws))
      then when (are_tuples && ltb (length ws) (length vs)) (
          when (not (is_true_schema writer_additional))
            (added_items location (last_position vs ws) writer_additional (left_of_first vs ws))
          then add Incompatibility.item_added_to_open_content_model location)

  -- the statements after those: additional items, counts of items, unique items
  unfoldable pub array_constraints :
      Location → JsonValue → JsonValue → Members → Members → Statement
  unfolding keyword_value is_tuple_without_additional_items get_by_member introduced_constraint
      additional_location
  array_constraints location reader_schema writer_schema r w =
      let reader_additional_items = get_by_member Keyword.items r in
      let writer_additional_items = get_by_member Keyword.items w in
      let reader_unique_items = get_by_member Keyword.unique_items r in
      let writer_unique_items = get_by_member Keyword.unique_items r in
      when
        (is_tuple_without_additional_items reader_schema
          && not (is_tuple_without_additional_items writer_schema))
        (add Incompatibility.additional_items_removed (additional_location location))
      then when (introduced_constraint reader_additional_items writer_additional_items)
          (add Incompatibility.additional_items_removed (additional_location location))
      then merge_result p
          (visit reader_additional_items writer_additional_items (additional_location location))
      then check_all p (max_items_check ∷ min_items_check ∷ []) r w location
      then when (introduced_constraint reader_unique_items writer_unique_items)
          (add Incompatibility.unique_items_added location)

  -- `compatibility_array` of two dicts that are both tuples, or neither
  unfoldable pub array_steps : Location → JsonValue → JsonValue → Members → Members → Statement
  unfolding keyword_at is_tuple compare_items more_items array_constraints
  array_steps location reader_schema writer_schema r w =
      let are_tuples = is_tuple reader_schema in
      let vs = compared_items are_tuples (keyword_at Keyword.items r) in
      let ws = compared_items are_tuples (keyword_at Keyword.items w) in
      compare_items location 0 vs ws
      then more_items location r w vs ws are_tuples
      then array_constraints location reader_schema writer_schema r w

  -- `compatibility_array`
  unfoldable pub compatibility_array : JsonValue → JsonValue → Location → Result CompatibilityResult
  unfolding get_type_of same_type is_tuple array_steps type_mismatch
  compatibility_array reader_schema writer_schema location =
      get_type_of reader_schema >>= (λ reader_type. get_type_of writer_schema >>= (λ writer_type.
        raise_if (not (same_type reader_type (instance_type Instance.array))) assertion_error
        >> raise_if (not (same_type writer_type (instance_type Instance.array))) assertion_error
        >> members_of reader_schema
        >>= (λ r. members_of writer_schema >>= (λ w.
            if same_flag (is_tuple reader_schema) (is_tuple writer_schema)
            then array_steps location reader_schema writer_schema r w compatible
            else ok (type_mismatch location)))))
