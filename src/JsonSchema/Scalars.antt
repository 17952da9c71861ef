-- ===== src/JsonSchema/Scalars.antt =====
-- src/karapace/core/compatibility/jsonschema/checks.py: the checks of numbers, strings and
-- enumerations.
use Prim.Native.Nat.{◌%◌}
use karapace.Prelude.{
  ℕ, zero, suc, Bool, not, ◌&&◌, ◌||◌, List, [], ◌∷◌, ◌++◌, ℤ, pos, negsuc, Option, none, some, eqb,
  string_eq, if◌then◌else◌,
}
use karapace.Outcome.{
  Result, ok, err, raise_if, assertion_error, type_error, zero_division_error, ◌>>=◌, ◌>>◌,
}
use karapace.JsonSchema.Json.{
  JsonValue, bool, number, Members, has_member, members_of, greater, set_of, difference, joined,
  number_of_bool,
}
use karapace.JsonSchema.Types.{
  Keyword, keyword_value, Instance, JsonschemaTypes, instance_type, same_type, Incompatibility,
  CompatibilityResult, compatible, AssertionCheck, Location, Packages,
}
use karapace.JsonSchema.Utils.{keyword_at, get_type_of}
use karapace.JsonSchema.Constraints.{ne, introduced_constraint}
use karapace.JsonSchema.Steps.{
  incompatible_schema, Statement, ◌then◌, for_each, when, with_value, add, merge_result,
}
use karapace.JsonSchema.Assertions.{
  check_assertion_compatibility, max_length_check, min_length_check, pattern_check, maximum_check,
  minimum_check, exclusive_maximum_check, exclusive_minimum_check,
}

-- the local `options_removed_by_reader`
abbrev pub options_removed_by_reader : Members → Members → Result (List JsonValue)
options_removed_by_reader reader writer =
    set_of (keyword_at Keyword.enum writer)
    >>= (λ ws. set_of (keyword_at Keyword.enum reader) >>= (λ rs. ok (difference ws rs)))

abbrev pub enum_result : Location → List JsonValue → Result CompatibilityResult
enum_result location [] = ok compatible
enum_result location (v ∷ vs) =
    joined (v ∷ vs)
    >> ok (
        incompatible_schema Incompatibility.enum_array_narrowed
          (location ++ keyword_value Keyword.enum ∷ []))

-- `compatibility_enum`
unfoldable pub compatibility_enum : JsonValue → JsonValue → Location → Result CompatibilityResult
unfolding set_of difference keyword_at keyword_value incompatible_schema
compatibility_enum reader_schema writer_schema location = members_of reader_schema >>= (λ r.
    raise_if (not (has_member (keyword_value Keyword.enum) r)) assertion_error
    >> members_of writer_schema
    >>= (λ w.
        raise_if (not (has_member (keyword_value Keyword.enum) w)) assertion_error
        >> options_removed_by_reader r w
        >>= enum_result location))

unfoldable pub is_number_type : JsonschemaTypes → Bool
unfolding same_type
is_number_type t =
    same_type t (instance_type Instance.number) || same_type t (instance_type Instance.integer)

-- an integer, or a Boolean as one
abbrev pub integer_of : JsonValue → Option ℤ
integer_of (bool b) = some (number_of_bool b)
integer_of (number n) = some n
integer_of _ = none

abbrev pub magnitude : ℤ → ℕ
magnitude (pos n) = n
magnitude (negsuc n) = suc n

-- `a % b != 0`
abbrev pub has_remainder : ℕ → ℕ → Result Bool
has_remainder a zero = err zero_division_error
has_remainder a (suc b) = ok (not (eqb (a % suc b) 0))

abbrev pub remainder_of : Option ℤ → Option ℤ → Result Bool
remainder_of (some a) (some b) = has_remainder (magnitude a) (magnitude b)
remainder_of _ _ = err type_error

-- `writer_multiple % reader_multiple != 0`, a TypeError unless both are numbers
unfoldable pub is_no_multiple : JsonValue → JsonValue → Result Bool
is_no_multiple writer_multiple reader_multiple =
    remainder_of (integer_of writer_multiple) (integer_of reader_multiple)

-- the statements on `multiple`
unfoldable pub check_multiple : JsonValue → JsonValue → Location → Statement
unfolding introduced_constraint ne greater is_no_multiple
check_multiple reader_multiple writer_multiple location =
    when (introduced_constraint reader_multiple writer_multiple)
      (add Incompatibility.multiple_added location)
    then with_value (ne reader_multiple writer_multiple) (λ changed. when changed (
        with_value (greater reader_multiple writer_multiple) (λ larger.
          if larger
          then add Incompatibility.multiple_expanded location
          else with_value (is_no_multiple writer_multiple reader_multiple)
              (λ b. when b (add Incompatibility.multiple_changed location)))))

module _ (p : Packages) where
  -- `for assertion_check in checks`
  abbrev pub check_all : List AssertionCheck → Members → Members → Location → Statement
  check_all checks r w location =
      for_each checks (λ c. merge_result p (check_assertion_compatibility r w c location))

  -- `compatibility_numerical` after its assertions
  unfoldable pub numerical_steps :
      JsonschemaTypes → JsonschemaTypes → Members → Members → Location → Statement
  unfolding check_assertion_compatibility keyword_at check_multiple same_type
  numerical_steps reader_type writer_type r w location =
      check_all
        (maximum_check ∷ minimum_check ∷ exclusive_maximum_check ∷ exclusive_minimum_check ∷ []) r w
        location
      then check_multiple (keyword_at Keyword.multiple r) (keyword_at Keyword.multiple w) location
      then when
          (same_type reader_type (instance_type Instance.integer)
            && same_type writer_type (instance_type Instance.number))
          (add Incompatibility.type_narrowed location)

  -- `compatibility_numerical`
  unfoldable pub compatibility_numerical :
      JsonValue → JsonValue → Location → Result CompatibilityResult
  unfolding get_type_of numerical_steps is_number_type
  compatibility_numerical reader_schema writer_schema location =
      get_type_of reader_schema >>= (λ reader_type. get_type_of writer_schema >>= (λ writer_type.
        raise_if (not (is_number_type reader_type)) assertion_error
        >> raise_if (not (is_number_type writer_type)) assertion_error
        >> members_of reader_schema
        >>= (λ r.
            members_of writer_schema
            >>= (λ w. numerical_steps reader_type writer_type r w location compatible))))

  -- `compatibility_string`
  unfoldable pub compatibility_string :
      JsonValue → JsonValue → Location → Result CompatibilityResult
  unfolding get_type_of check_assertion_compatibility same_type
  compatibility_string reader_schema writer_schema location =
      get_type_of reader_schema >>= (λ reader_type.
        raise_if (not (same_type reader_type (instance_type Instance.string))) assertion_error
        >> get_type_of writer_schema
        >>= (λ writer_type.
            raise_if (not (same_type writer_type (instance_type Instance.string))) assertion_error
            >> members_of reader_schema
            >>= (λ r. members_of writer_schema >>= (λ w.
                check_all (max_length_check ∷ min_length_check ∷ pattern_check ∷ []) r w location
                  compatible))))
