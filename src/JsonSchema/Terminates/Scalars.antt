-- ===== src/JsonSchema/Terminates/Scalars.antt =====
-- The checks of numbers, strings and enumerations end.
use karapace.Prelude.{Option, none, some, List, [], ◌∷◌, ℤ, zero, suc, ℕ, arith}
use karapace.Outcome.{Returns}
use karapace.JsonSchema.Json.{JsonValue, Members, members_of, joined}
use karapace.JsonSchema.Types.{Keyword, JsonschemaTypes, Location, Packages}
use karapace.JsonSchema.Utils.{keyword_at, get_type_of}
use karapace.JsonSchema.Assertions.{
  max_length_check, min_length_check, pattern_check, maximum_check, minimum_check,
  exclusive_maximum_check, exclusive_minimum_check,
}
use karapace.JsonSchema.Scalars.{
  options_removed_by_reader, enum_result, compatibility_enum, is_no_multiple, remainder_of,
  has_remainder, check_multiple, numerical_steps, compatibility_numerical, compatibility_string,
}
use karapace.JsonSchema.Terminates.Runs.{
  bind_any-Returns, guarded-Returns, twice_guarded-Returns, Runs, result-Returns, add-Runs,
  then-Runs, when-Runs, if-Runs, with_any-Runs, check_all-Runs,
}
use karapace.JsonSchema.Terminates.Basics.{
  lt-Returns, gt-Returns, ne-Returns, greater-Returns, members_of-Returns, set_of-Returns,
  joined-Returns,
}
use karapace.JsonSchema.Terminates.Types.{get_type_of-Returns}

options_removed_by_reader-Returns : (r w : Members) → Returns (options_removed_by_reader r w)
options_removed_by_reader-Returns r w =
    ground (
      arith,
      set_of-Returns (keyword_at Keyword.enum w),
      set_of-Returns (keyword_at Keyword.enum r),
    )

enum_result-Returns :
    (location : Location) (vs : List JsonValue) → Returns (enum_result location vs)
enum_result-Returns location [] = tt
enum_result-Returns location (v ∷ vs) =
    bind_any-Returns (joined (v ∷ vs)) _ (joined-Returns (v ∷ vs)) (λ u. tt)

pub compatibility_enum-Returns :
    (v w : JsonValue) (location : Location) → Returns (compatibility_enum v w location)
unfolding compatibility_enum
compatibility_enum-Returns v w location =
    bind_any-Returns (members_of v) _ (members_of-Returns v) (λ r.
      guarded-Returns _ (members_of w) _ (members_of-Returns w) (λ m e.
        guarded-Returns _ (options_removed_by_reader r m) _ (options_removed_by_reader-Returns r m)
          (λ vs f. enum_result-Returns location vs)))

has_remainder-Returns : (a b : ℕ) → Returns (has_remainder a b)
has_remainder-Returns a zero = tt
has_remainder-Returns a (suc b) = tt

remainder_of-Returns : (a b : Option ℤ) → Returns (remainder_of a b)
remainder_of-Returns (some a) (some b) = has_remainder-Returns _ _
remainder_of-Returns none b = tt
remainder_of-Returns (some a) none = tt

is_no_multiple-Returns : (v w : JsonValue) → Returns (is_no_multiple v w)
unfolding is_no_multiple
is_no_multiple-Returns v w = remainder_of-Returns _ _

check_multiple-Runs : (v w : JsonValue) (location : Location) → Runs (check_multiple v w location)
unfolding check_multiple
check_multiple-Runs v w location = then-Runs _ _ (when-Runs _ _ (add-Runs _ _)) (
    with_any-Runs _ _ (ne-Returns v w) (λ b. when-Runs _ _ (
      with_any-Runs _ _ (greater-Returns v w) (λ larger.
        if-Runs _ _ _ (add-Runs _ _)
          (with_any-Runs _ _ (is_no_multiple-Returns w v) (λ c. when-Runs _ _ (add-Runs _ _)))))))

module _ (p : Packages) where
  numerical_steps-Runs :
      (t u : JsonschemaTypes) (r w : Members) (location : Location)
      → Runs (numerical_steps p t u r w location)
  unfolding numerical_steps
  numerical_steps-Runs t u r w location =
      then-Runs _ _
        (then-Runs _ _
          (check_all-Runs p r w location
            (maximum_check ∷ minimum_check ∷ exclusive_maximum_check ∷ exclusive_minimum_check ∷ [])
            (lt-Returns, (gt-Returns, (lt-Returns, (gt-Returns, tt)))))
          (check_multiple-Runs _ _ location))
        (when-Runs _ _ (add-Runs _ _))

  pub compatibility_numerical-Returns :
      (v w : JsonValue) (location : Location) → Returns (compatibility_numerical p v w location)
  unfolding compatibility_numerical
  compatibility_numerical-Returns v w location =
      bind_any-Returns (get_type_of v) _ (get_type_of-Returns v) (λ t.
        bind_any-Returns (get_type_of w) _ (get_type_of-Returns w) (λ u.
          twice_guarded-Returns _ _ (members_of v) _ (members_of-Returns v) (λ r e.
            bind_any-Returns (members_of w) _ (members_of-Returns w)
              (λ m. result-Returns _ (numerical_steps-Runs t u r m location) _))))

  pub compatibility_string-Returns :
      (v w : JsonValue) (location : Location) → Returns (compatibility_string p v w location)
  unfolding compatibility_string
  compatibility_string-Returns v w location =
      bind_any-Returns (get_type_of v) _ (get_type_of-Returns v) (λ t.
        guarded-Returns _ (get_type_of w) _ (get_type_of-Returns w) (λ u e.
          guarded-Returns _ (members_of v) _ (members_of-Returns v) (λ r f.
            bind_any-Returns (members_of w) _ (members_of-Returns w) (λ m.
              result-Returns _
                (check_all-Runs p r m location
                  (max_length_check ∷ min_length_check ∷ pattern_check ∷ [])
                  (lt-Returns, (gt-Returns, (ne-Returns, tt))))
                _))))
