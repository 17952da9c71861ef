-- ===== src/JsonSchema/Verdicts/Runs.antt =====
-- Which check is run on two schemas of known types.
use karapace.Prelude.{
  if◌then◌else◌, ◌≡◌, refl, sym, ◌∙◌, Bool, true, false, not, List, [], ◌∷◌, inl, inr, Bool-cases,
  arith,
}
use karapace.Outcome.{Result, ok, raise_if, assertion_error, ◌>>◌}
use karapace.JsonSchema.Json.{
  JsonValue, Members, is_null, has_member, members_of, set_of, difference,
}
use karapace.JsonSchema.Types.{
  Keyword, Instance, JsonschemaTypes, instance_type, keyword_type, keyword_value,
  CompatibilityResult, compatible, Location, Packages,
}
use karapace.JsonSchema.Utils.{keyword_at, get_type_of}
use karapace.JsonSchema.Constraints.{introduced_constraint, is_true_schema, is_tuple}
use karapace.JsonSchema.Assertions.{max_length_check, min_length_check, pattern_check}
use karapace.JsonSchema.Scalars.{
  is_number_type, numerical_steps, compatibility_numerical, compatibility_string,
  compatibility_enum, enum_result, check_all,
}
use karapace.JsonSchema.Arrays.{same_flag, array_steps, compatibility_array}
use karapace.JsonSchema.Steps.{type_mismatch}
use karapace.JsonSchema.Objects.{object_steps, compatibility_object}
use karapace.JsonSchema.Recursion.{compare_by_types, compare_schemas}

-- the run of a check of two schemas of known types
module _ (p : Packages) (visit : JsonValue → JsonValue → Location → Result CompatibilityResult)
    (v w : JsonValue) (t u : JsonschemaTypes) (location : Location) where
  pub compare_schemas-typed :
      is_null v ≡ false
      → is_null w ≡ false
      → get_type_of v ≡ ok t
      → get_type_of w ≡ ok u
      → compare_schemas p visit v w location ≡ compare_by_types p visit t u v w location
  unfolding compare_schemas introduced_constraint
  compare_schemas-typed nv nw tv tw = rw nv (rw nw (rw tv (rw tw refl)))

  pub compare_by_types-numbers :
      is_number_type t ≡ true
      → is_number_type u ≡ true
      → compare_by_types p visit t u v w location ≡ compatibility_numerical p v w location
  unfolding compare_by_types
  compare_by_types-numbers nt nu = rw nt (rw nu refl)

  pub compatibility_numerical-steps :
      (r m : Members)
      → get_type_of v ≡ ok t
      → get_type_of w ≡ ok u
      → is_number_type t ≡ true
      → is_number_type u ≡ true
      → members_of v ≡ ok r
      → members_of w ≡ ok m
      → compatibility_numerical p v w location ≡ numerical_steps p t u r m location compatible
  unfolding compatibility_numerical
  compatibility_numerical-steps r m tv tw nt nu mv mw =
      rw tv (rw tw (rw nt (rw nu (rw mv (rw mw refl)))))

  pub compatibility_object-steps :
      (r m : Members)
      → get_type_of v ≡ ok (instance_type Instance.object)
      → get_type_of w ≡ ok (instance_type Instance.object)
      → members_of v ≡ ok r
      → members_of w ≡ ok m
      → compatibility_object p visit v w location ≡ object_steps p visit location v w r m compatible
  unfolding compatibility_object
  compatibility_object-steps r m tv tw mv mw = rw tv (rw tw (rw mv (rw mw refl)))

  pub compatibility_string-steps :
      (r m : Members)
      → get_type_of v ≡ ok (instance_type Instance.string)
      → get_type_of w ≡ ok (instance_type Instance.string)
      → members_of v ≡ ok r
      → members_of w ≡ ok m
      → compatibility_string p v w location
        ≡ check_all p
            (max_length_check ∷ min_length_check ∷ pattern_check ∷ [])
            r
            m
            location
            compatible
  unfolding compatibility_string
  compatibility_string-steps r m tv tw mv mw = rw tv (rw tw (rw mv (rw mw refl)))

  pub compare_by_types-strings :
      is_true_schema v ≡ false
      → compare_by_types p visit
          (instance_type Instance.string)
          (instance_type Instance.string)
          v
          w
          location
        ≡ compatibility_string p v w location
  unfolding compare_by_types
  compare_by_types-strings nv = rw nv refl

  pub compare_by_types-enums :
      is_true_schema v ≡ false
      → compare_by_types p visit
          (keyword_type Keyword.enum)
          (keyword_type Keyword.enum)
          v
          w
          location
        ≡ compatibility_enum v w location
  unfolding compare_by_types
  compare_by_types-enums nv = rw nv refl

  pub compare_by_types-objects :
      is_true_schema v ≡ false
      → is_true_schema w ≡ false
      → compare_by_types p visit
          (instance_type Instance.object)
          (instance_type Instance.object)
          v
          w
          location
        ≡ compatibility_object p visit v w location
  unfolding compare_by_types
  compare_by_types-objects nv nw = rw nv (rw nw refl)

  compatibility_enum-assertions :
      (r m : Members) (vs ws : List JsonValue)
      → members_of v ≡ ok r
      → members_of w ≡ ok m
      → set_of (keyword_at Keyword.enum r) ≡ ok vs
      → set_of (keyword_at Keyword.enum m) ≡ ok ws
      → compatibility_enum v w location ≡ (
          raise_if (not (has_member (keyword_value Keyword.enum) r)) assertion_error
          >> (raise_if (not (has_member (keyword_value Keyword.enum) m)) assertion_error
              >> enum_result location (difference ws vs)))
  unfolding compatibility_enum
  compatibility_enum-assertions r m vs ws mv mw sv sw = rw mv (
      rw mw (elim (Bool-cases (has_member (keyword_value Keyword.enum) r)) [
        | inr h ↦ rw h refl
        | inl h ↦ rw h (elim (Bool-cases (has_member (keyword_value Keyword.enum) m)) [
          | inr k ↦ rw k refl
          | inl k ↦ rw k (rw sw (rw sv refl))
        ])
      ]))

  pub compatibility_enum-result :
      (r m : Members) (vs ws : List JsonValue) (result : CompatibilityResult)
      → members_of v ≡ ok r
      → members_of w ≡ ok m
      → set_of (keyword_at Keyword.enum r) ≡ ok vs
      → set_of (keyword_at Keyword.enum m) ≡ ok ws
      → compatibility_enum v w location ≡ ok result
      → enum_result location (difference ws vs) ≡ ok result
  compatibility_enum-result r m vs ws result mv mw sv sw e =
      asserted (not (has_member (keyword_value Keyword.enum) r))
        (not (has_member (keyword_value Keyword.enum) m))
        (sym (compatibility_enum-assertions r m vs ws mv mw sv sw) ∙ e)
    where
      asserted :
          (a b : Bool)
          → (raise_if a assertion_error
              >> (raise_if b assertion_error >> enum_result location (difference ws vs)))
            ≡ ok result
          → enum_result location (difference ws vs) ≡ ok result
      asserted true b h = absurd (ground (arith, h))
      asserted false true h = absurd (ground (arith, h))
      asserted false false h = h

  pub compare_by_types-arrays :
      is_true_schema v ≡ false
      → compare_by_types p visit
          (instance_type Instance.array)
          (instance_type Instance.array)
          v
          w
          location
        ≡ compatibility_array p visit v w location
  unfolding compare_by_types
  compare_by_types-arrays nv = rw nv refl

  pub compatibility_array-result :
      (r m : Members)
      → get_type_of v ≡ ok (instance_type Instance.array)
      → get_type_of w ≡ ok (instance_type Instance.array)
      → members_of v ≡ ok r
      → members_of w ≡ ok m
      → compatibility_array p visit v w location ≡ (
          if same_flag (is_tuple v) (is_tuple w)
          then array_steps p visit location v w r m compatible
          else ok (type_mismatch location))
  unfolding compatibility_array
  compatibility_array-result r m tv tw mv mw = rw tv (rw tw (rw mv (rw mw refl)))
