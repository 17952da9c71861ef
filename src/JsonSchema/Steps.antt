-- ===== src/JsonSchema/Steps.antt =====
-- How the checks of src/karapace/core/compatibility/jsonschema/checks.py build a result: the functions
-- that make or extend one, and the statements of their bodies as steps on the local `result`.
use karapace.Prelude.{Bool, false, List, [], ◌∷◌, ◌++◌, String, string_eq, elem, if◌then◌else◌}
use karapace.Outcome.{Result, ok, ◌>>=◌}
use karapace.Protobuf.Text.{append, drop_first}
use karapace.JsonSchema.Types.{
  Incompatibility, CompatibilityResult, is_incompatible, Location, Packages,
}

-- `"/".join(location)`
unfoldable pub join_location : Location → String
join_location [] = ""
join_location (a ∷ []) = a
join_location (a ∷ b ∷ location) = append a (append "/" (join_location (b ∷ location)))

-- the location of an added incompatibility: without its first element, if there are more
unfoldable pub format_location : Location → String
unfolding join_location
format_location (a ∷ b ∷ location) = join_location (b ∷ location)
format_location location = join_location location

-- the location of a new result: without its first character, if it has more than one element
unfoldable pub cut_location : Location → String
unfolding join_location drop_first
cut_location (a ∷ b ∷ location) = drop_first 1 (join_location (a ∷ b ∷ location))
cut_location location = join_location location

-- `incompatible_schema`
unfoldable pub incompatible_schema : Incompatibility → Location → CompatibilityResult
unfolding join_location drop_first cut_location
incompatible_schema incompat_type location = record {
  is_compatible = false;
  incompatibilities = incompat_type ∷ [];
  locations = cut_location location ∷ [];
}

-- `type_mismatch`
unfoldable pub type_mismatch : Location → CompatibilityResult
unfolding join_location drop_first cut_location
type_mismatch location = record {
  is_compatible = false;
  incompatibilities = Incompatibility.type_changed ∷ [];
  locations = cut_location location ∷ [];
}

-- `locations.add(location)`
abbrev with_location : String → List String → List String
with_location l ls = if elem l ls then ls else ls ++ l ∷ []

-- `add_incompatibility`
unfoldable pub add_incompatibility :
    CompatibilityResult → Incompatibility → Location → CompatibilityResult
unfolding join_location format_location
add_incompatibility result incompat_type location = record {
  is_compatible = false;
  incompatibilities = result.incompatibilities ++ incompat_type ∷ [];
  locations = with_location (format_location location) result.locations;
}

-- a statement that may change `result`, or raise
abbrev pub Statement : Type 0
Statement = CompatibilityResult → Result CompatibilityResult

unfoldable pub done : Statement
done result = ok result

infixl 5 ◌then◌
unfoldable pub ◌then◌ : Statement → Statement → Statement
◌then◌ f g result = f result >>= g

-- `for x in xs: f(x)`
unfoldable pub for_each {ℓ} : {A : Type ℓ} → List A → (A → Statement) → Statement
unfolding done ◌then◌
for_each [] f = done
for_each (x ∷ xs) f = f x then for_each xs f

-- `if b: f`
unfoldable pub when : Bool → Statement → Statement
unfolding done
when b f = if b then f else done

-- a value that a statement goes on with
unfoldable pub with_value {ℓ} : {A : Type ℓ} → Result A → (A → Statement) → Statement
with_value m f result = m >>= (λ a. f a result)

-- `add_incompatibility(result, ...)`
unfoldable pub add : Incompatibility → Location → Statement
unfolding add_incompatibility
add i location result = ok (add_incompatibility result i location)

module _ (p : Packages) where
  -- `result = merge(result, m)`
  unfoldable pub merge_result : Result CompatibilityResult → Statement
  merge_result m result = m >>= (λ r. ok (p.merge result r))

  -- `rec_result = m`, `if is_incompatible(rec_result): f(rec_result)`
  unfoldable pub if_incompatible :
      Result CompatibilityResult → (CompatibilityResult → Statement) → Statement
  unfolding done
  if_incompatible m f result = m >>= (λ r. (if is_incompatible r then f r else done) result)
