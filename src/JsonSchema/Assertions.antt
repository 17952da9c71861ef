-- ===== src/JsonSchema/Assertions.antt =====
-- src/karapace/core/compatibility/jsonschema/checks.py: the regular checks of a keyword.
use karapace.Prelude.{string_eq, if◌then◌else◌}
use karapace.Outcome.{Result}
use karapace.JsonSchema.Json.{Members}
use karapace.JsonSchema.Types.{
  Keyword, Incompatibility, CompatibilityResult, compatible, AssertionCheck, Location,
}
use karapace.JsonSchema.Utils.{keyword_at}
use karapace.JsonSchema.Constraints.{gt, lt, ne, introduced_constraint}
use karapace.JsonSchema.Steps.{◌then◌, Statement, when, with_value, add}

abbrev pub max_length_check : AssertionCheck
max_length_check = record {
  keyword = Keyword.max_length;
  error_when_introducing = Incompatibility.max_length_added;
  error_when_restricting = Incompatibility.max_length_decreased;
  comparison = lt;
}

abbrev pub min_length_check : AssertionCheck
min_length_check = record {
  keyword = Keyword.min_length;
  error_when_introducing = Incompatibility.min_length_added;
  error_when_restricting = Incompatibility.min_length_increased;
  comparison = gt;
}

abbrev pub pattern_check : AssertionCheck
pattern_check = record {
  keyword = Keyword.pattern;
  error_when_introducing = Incompatibility.pattern_added;
  error_when_restricting = Incompatibility.pattern_changed;
  comparison = ne;
}

abbrev pub maximum_check : AssertionCheck
maximum_check = record {
  keyword = Keyword.maximum;
  error_when_introducing = Incompatibility.maximum_added;
  error_when_restricting = Incompatibility.maximum_decreased;
  comparison = lt;
}

abbrev pub minimum_check : AssertionCheck
minimum_check = record {
  keyword = Keyword.minimum;
  error_when_introducing = Incompatibility.minimum_added;
  error_when_restricting = Incompatibility.minimum_increased;
  comparison = gt;
}

abbrev pub exclusive_maximum_check : AssertionCheck
exclusive_maximum_check = record {
  keyword = Keyword.exclusive_maximum;
  error_when_introducing = Incompatibility.maximum_exclusive_added;
  error_when_restricting = Incompatibility.maximum_exclusive_decreased;
  comparison = lt;
}

abbrev pub exclusive_minimum_check : AssertionCheck
exclusive_minimum_check = record {
  keyword = Keyword.exclusive_minimum;
  error_when_introducing = Incompatibility.minimum_exclusive_added;
  error_when_restricting = Incompatibility.minimum_exclusive_increased;
  comparison = gt;
}

abbrev pub max_properties_check : AssertionCheck
max_properties_check = record {
  keyword = Keyword.max_properties;
  error_when_introducing = Incompatibility.max_properties_added;
  error_when_restricting = Incompatibility.max_properties_decreased;
  comparison = lt;
}

abbrev pub min_properties_check : AssertionCheck
min_properties_check = record {
  keyword = Keyword.min_properties;
  error_when_introducing = Incompatibility.min_properties_added;
  error_when_restricting = Incompatibility.min_properties_increased;
  comparison = gt;
}

abbrev pub max_items_check : AssertionCheck
max_items_check = record {
  keyword = Keyword.max_items;
  error_when_introducing = Incompatibility.max_items_added;
  error_when_restricting = Incompatibility.max_items_decreased;
  comparison = lt;
}

abbrev pub min_items_check : AssertionCheck
min_items_check = record {
  keyword = Keyword.min_items;
  error_when_introducing = Incompatibility.min_items_added;
  error_when_restricting = Incompatibility.min_items_increased;
  comparison = gt;
}

-- the statements of `check_assertion_compatibility`
unfoldable pub assertion_steps : Members → Members → AssertionCheck → Location → Statement
unfolding keyword_at introduced_constraint
assertion_steps reader_schema writer_schema assertion_check location =
    let reader_value = keyword_at assertion_check.keyword reader_schema in
    let writer_value = keyword_at assertion_check.keyword writer_schema in
    when (introduced_constraint reader_value writer_value)
      (add assertion_check.error_when_introducing location)
    then with_value (assertion_check.comparison reader_value writer_value)
        (λ b. when b (add assertion_check.error_when_restricting location))

-- `check_assertion_compatibility`, of two dicts
unfoldable pub check_assertion_compatibility :
    Members → Members → AssertionCheck → Location → Result CompatibilityResult
unfolding assertion_steps lt gt ne
check_assertion_compatibility reader_schema writer_schema assertion_check location =
    assertion_steps reader_schema writer_schema assertion_check location compatible
