-- ===== src/JsonSchema/Constraints.antt =====
-- src/karapace/core/compatibility/jsonschema/utils.py: tests on schemas, and comparisons of constraints.
use karapace.Prelude.{
  Bool, true, false, not, ◌&&◌, ◌||◌, Option, none, some, String, string_eq, ◌==◌, pos,
  if◌then◌else◌,
}
use karapace.Outcome.{Result, ok, ◌>>=◌}
use karapace.JsonSchema.Json.{
  JsonValue, bool, number, text, array, object, Items, Members, no_members, member, is_null,
  has_member, members_of, json_eq, greater, is_len_zero,
}
use karapace.JsonSchema.Types.{Keyword, keyword_value, Instance, instance_value, Packages}
use karapace.JsonSchema.Utils.{keyword_at, keyword_or}

-- `is_true_schema`, `is_false_schema`
abbrev pub is_true_schema : JsonValue → Bool
is_true_schema (bool b) = b
is_true_schema _ = false

abbrev pub is_false_schema : JsonValue → Bool
is_false_schema (bool b) = not b
is_false_schema _ = false

abbrev is_array : JsonValue → Bool
is_array (array vs) = true
is_array _ = false

-- `is_tuple`
unfoldable pub is_tuple : JsonValue → Bool
unfolding keyword_at
is_tuple (object m) = is_array (keyword_at Keyword.items m)
is_tuple _ = false

abbrev is_text_of : String → JsonValue → Bool
is_text_of s (text t) = s == t
is_text_of s _ = false

-- `is_string_and_constrained`; no number is equal to `float("inf")`, the default of `maxLength`
unfoldable pub is_string_and_constrained : JsonValue → Bool
unfolding keyword_at keyword_value keyword_or json_eq instance_value
is_string_and_constrained (object m) =
    is_text_of (instance_value Instance.string) (keyword_at Keyword.type m)
    && (has_member (keyword_value Keyword.max_length) m
        || not (json_eq (keyword_or Keyword.min_length (number (pos 0)) m) (number (pos 0)))
        || not (is_null (keyword_at Keyword.pattern m)))
is_string_and_constrained _ = false

-- `is_object_content_model_open`
unfoldable pub is_object_content_model_open : JsonValue → Result Bool
unfolding keyword_or is_len_zero
is_object_content_model_open (object m) =
    is_len_zero (keyword_or Keyword.pattern_properties (array Items.no_items) m)
    >>= (λ z. ok (z && is_true_schema (keyword_or Keyword.additional_properties (bool true) m)))
is_object_content_model_open _ = ok false

-- `value in (True, None)`
unfoldable is_true_or_none : JsonValue → Bool
unfolding json_eq
is_true_or_none v = json_eq v (bool true) || is_null v

-- `is_array_content_model_open`
unfoldable pub is_array_content_model_open : JsonValue → Bool
unfolding keyword_at is_tuple json_eq is_true_or_none
is_array_content_model_open (object m) =
    is_tuple (object m) && is_true_or_none (keyword_at Keyword.additional_items m)
is_array_content_model_open _ = false

-- `is_tuple_without_additional_items`
unfoldable pub is_tuple_without_additional_items : JsonValue → Bool
unfolding keyword_or is_tuple
is_tuple_without_additional_items (object m) =
    is_tuple (object m) && is_false_schema (keyword_or Keyword.additional_items (bool true) m)
is_tuple_without_additional_items _ = false

-- `gt`, `lt`
unfoldable pub gt : JsonValue → JsonValue → Result Bool
unfolding greater
gt left right = if is_null left || is_null right then ok false else greater left right

unfoldable pub lt : JsonValue → JsonValue → Result Bool
unfolding gt
lt left right = gt right left

-- `ne`
unfoldable pub ne : JsonValue → JsonValue → Result Bool
unfolding json_eq
ne writer reader = ok (not (is_null reader) && not (is_null writer) && not (json_eq reader writer))

-- `introduced_constraint`
unfoldable pub introduced_constraint : JsonValue → JsonValue → Bool
introduced_constraint reader writer = is_null writer && not (is_null reader)

-- the schema that was found, or the default
abbrev pub found_or : Option JsonValue → JsonValue → JsonValue
found_or (some schema) d = schema
found_or none d = d

module _ (p : Packages) where
  -- the schema of the first pattern that matches the name, if there is one
  unfoldable pub matching_schema : String → Members → Result (Option JsonValue)
  matching_schema name no_members = ok none
  matching_schema name (member pattern schema m) =
      let rest = matching_schema name m in
      p.re_match pattern name >>= (λ b. if b then ok (some schema) else rest)

  -- `schema_from_partially_open_content_model`
  unfoldable pub schema_from_partially_open_content_model : Members → String → Result JsonValue
  unfolding keyword_or keyword_at matching_schema
  schema_from_partially_open_content_model schema target_property_name =
      members_of (keyword_or Keyword.pattern_properties (object no_members) schema)
      >>= (λ patterns. matching_schema target_property_name patterns)
      >>= (λ o. ok (found_or o (keyword_at Keyword.additional_properties schema)))
