-- ===== src/JsonSchema/Subschemas.antt =====
-- src/karapace/core/compatibility/jsonschema/checks.py: schemas with subschemas. `visit` is
-- `compatibility_rec`.
use karapace.Prelude.{
  ℕ, suc, Bool, true, false, not, ◌&&◌, ◌||◌, Option, none, some, List, [], ◌∷◌, ◌++◌, pos, length,
  ltb, eqb, ◌%◌, ◌/◌, if◌then◌else◌,
}
use karapace.Outcome.{Result, ok, err, assertion_error, ◌>>=◌}
use karapace.Schema.{show_int}
use karapace.JsonSchema.Json.{JsonValue}
use karapace.JsonSchema.Types.{
  Subschema, subschema_value, JsonschemaTypes, subschema_type, same_type, Incompatibility,
  CompatibilityResult, compatible, Location, Packages,
}
use karapace.JsonSchema.Utils.{
  maybe_get_subschemas_and_type, get_type_of, get_name_of, is_simple_subschema,
}
use karapace.JsonSchema.Steps.{type_mismatch, incompatible_schema}

-- the subschemas that are found, with their keyword
abbrev pub Found : Type 0
Found = Option (List JsonValue × Subschema)

-- `reader_type`, `writer_type`
unfoldable pub found_type : Found → JsonValue → Result JsonschemaTypes
unfolding get_type_of
found_type none schema = get_type_of schema
found_type (some (vs, t)) schema = ok (subschema_type t)

-- `reader_has_subschema`, `writer_has_subschema`
abbrev pub has_subschema : Found → Bool
has_subschema none = false
has_subschema (some (vs, Subschema.not)) = false
has_subschema (some (vs, t)) = true

-- `is_reader_special_case`, and `is_writer_special_case` with the sides exchanged
unfoldable pub is_special_case : Found → Found → JsonValue → Result Bool
unfolding is_simple_subschema
is_special_case found other schema =
    if has_subschema found && not (has_subschema other)
    then is_simple_subschema schema
    else ok false

-- `type_ in (Subschema.ANY_OF, Subschema.ONE_OF)`
unfoldable pub is_any_or_one : JsonschemaTypes → Bool
unfolding same_type
is_any_or_one t =
    same_type t (subschema_type Subschema.any_of) || same_type t (subschema_type Subschema.one_of)

-- the number of pairs of a matching, which networkx gives in both directions
abbrev pub half : ℕ → Result ℕ
half n = if eqb (n % 2) 0 then ok (n / 2) else err assertion_error

-- the verdict on the number of subschemas that can be matched
unfoldable pub count_verdict : Subschema → ℕ → ℕ → Location → ℕ → CompatibilityResult
unfolding same_type incompatible_schema
count_verdict reader_type readers writers location count =
    let required =
      if same_type (subschema_type reader_type) (subschema_type Subschema.all_of)
      then readers
      else writers in
    if ltb count required
    then incompatible_schema Incompatibility.combined_type_subschemas_changed location
    else compatible

module _ (p : Packages)
    (visit : JsonValue → JsonValue → Location → Result CompatibilityResult) where
  -- the edges of a subschema of the reader, with its position
  unfoldable pub edges_of : Location → ℕ → ℕ → JsonValue → List JsonValue → Result (List (ℕ × ℕ))
  unfolding show_int
  edges_of location i j v [] = ok []
  edges_of location i j v (w ∷ ws) = visit v w (location ++ show_int (pos j) ∷ []) >>= (λ r.
      edges_of location i (suc j) v ws
      >>= (λ rest. ok (if r.is_compatible then (i, j) ∷ rest else rest)))

  -- `compatible_edges`
  unfoldable pub compatible_edges :
      Location → ℕ → List JsonValue → List JsonValue → Result (List (ℕ × ℕ))
  unfolding edges_of
  compatible_edges location i [] ws = ok []
  compatible_edges location i (v ∷ vs) ws =
      edges_of location i 0 v ws
      >>= (λ row. compatible_edges location (suc i) vs ws >>= (λ rest. ok (row ++ rest)))

  -- `count_uniquely_compatible_schemas`
  unfoldable pub count_uniquely_compatible_schemas :
      Subschema → List JsonValue → List JsonValue → Location → Result ℕ
  unfolding compatible_edges subschema_value
  count_uniquely_compatible_schemas reader_type reader_schema writer_schema location =
      compatible_edges (location ++ subschema_value reader_type ∷ []) 0 reader_schema writer_schema
      >>= (λ edges. half (p.matching_length edges))

  -- `check_simple_subschema`
  unfoldable pub check_simple_subschema :
      JsonValue → JsonValue → Location → Result CompatibilityResult
  unfolding type_mismatch
  check_simple_subschema reader_schema writer_schema location =
      visit reader_schema writer_schema location
      >>= (λ r. ok (if r.is_compatible then r else type_mismatch location))

  -- `check_simple_subschema` of the first subschema of the reader, and of the writer
  unfoldable pub simple_reader : Found → JsonValue → Location → Result CompatibilityResult
  unfolding check_simple_subschema
  simple_reader (some (v ∷ vs, t)) writer_schema location =
      check_simple_subschema v writer_schema location
  simple_reader _ writer_schema location = err assertion_error

  unfoldable pub simple_writer : JsonValue → Found → Location → Result CompatibilityResult
  unfolding check_simple_subschema
  simple_writer reader_schema (some (w ∷ ws, t)) location =
      check_simple_subschema reader_schema w location
  simple_writer reader_schema _ location = err assertion_error

  -- the first compatible result of the reader's subschemas
  unfoldable pub first_compatible :
      List JsonValue → JsonValue → Location → Result CompatibilityResult
  unfolding type_mismatch
  first_compatible [] writer_schema location = ok (type_mismatch location)
  first_compatible (v ∷ vs) writer_schema location =
      let rest = first_compatible vs writer_schema location in
      visit v writer_schema location >>= (λ r. if r.is_compatible then ok r else rest)

  unfoldable pub any_of_reader : Found → JsonValue → Location → Result CompatibilityResult
  unfolding first_compatible
  any_of_reader none writer_schema location = err assertion_error
  any_of_reader (some (vs, t)) writer_schema location = first_compatible vs writer_schema location

  -- both schemas have subschemas
  unfoldable pub compare_combined :
      List JsonValue
      → Subschema
      → List JsonValue
      → Subschema
      → Location
      → Result CompatibilityResult
  unfolding same_type incompatible_schema count_uniquely_compatible_schemas is_any_or_one
      count_verdict
  compare_combined vs reader_type ws writer_type location =
      if not (
        same_type (subschema_type reader_type) (subschema_type Subschema.any_of)
        || same_type (subschema_type reader_type) (subschema_type writer_type))
      then ok (incompatible_schema Incompatibility.combined_type_changed location)
      else if same_type (subschema_type reader_type) (subschema_type Subschema.all_of)
          && ltb (length ws) (length vs)
      then ok (incompatible_schema Incompatibility.product_type_extended location)
      else if is_any_or_one (subschema_type reader_type) && ltb (length vs) (length ws)
      then ok (incompatible_schema Incompatibility.sum_type_narrowed location)
      else count_uniquely_compatible_schemas reader_type vs ws location
        >>= (λ n. ok (count_verdict reader_type (length vs) (length ws) location n))

  unfoldable pub both_combined : Found → Found → Location → Result CompatibilityResult
  unfolding compare_combined type_mismatch
  both_combined (some (vs, t)) (some (ws, u)) location = compare_combined vs t ws u location
  both_combined _ _ location = ok (type_mismatch location)

  -- the branches, once subschemas and types are known
  unfoldable pub compare_with_found :
      Found
      → Found
      → JsonschemaTypes
      → JsonValue
      → JsonValue
      → Location
      → Result CompatibilityResult
  unfolding both_combined is_simple_subschema check_simple_subschema same_type first_compatible
      compare_combined is_special_case is_any_or_one simple_reader simple_writer any_of_reader
      type_mismatch
  compare_with_found reader_found writer_found reader_type reader_schema writer_schema location =
      is_special_case reader_found writer_found reader_schema >>= (λ is_reader_special.
        is_special_case writer_found reader_found writer_schema >>= (λ is_writer_special.
          if is_reader_special
          then simple_reader reader_found writer_schema location
          else if is_writer_special
          then simple_writer reader_schema writer_found location
          else if is_any_or_one reader_type && not (has_subschema writer_found)
          then any_of_reader reader_found writer_schema location
          else both_combined reader_found writer_found location))

  -- `compatibility_subschemas`
  unfoldable pub compatibility_subschemas :
      JsonValue → JsonValue → Location → Result CompatibilityResult
  unfolding maybe_get_subschemas_and_type get_type_of get_name_of compare_with_found found_type
  compatibility_subschemas reader_schema writer_schema location =
      maybe_get_subschemas_and_type reader_schema >>= (λ reader_found.
        maybe_get_subschemas_and_type writer_schema >>= (λ writer_found.
          found_type reader_found reader_schema >>= (λ reader_type.
            found_type writer_found writer_schema >>= (λ writer_type.
              compare_with_found reader_found writer_found reader_type reader_schema writer_schema
                (location ++ get_name_of reader_type ∷ [])))))
