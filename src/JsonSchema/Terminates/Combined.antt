-- ===== src/JsonSchema/Terminates/Combined.antt =====
-- `compatibility_subschemas` ends if it does on the parts of the two schemas.
use karapace.Prelude.{
  ℕ, suc, ◌+◌, ◌≤◌, ◌<◌, ◌≡◌, false, none, some, List, [], subst, ◌∷◌, All, arith,
}
use karapace.Outcome.{Returns, Result, ok, err}
use karapace.JsonSchema.Json.{JsonValue}
use karapace.JsonSchema.Types.{Subschema, JsonschemaTypes, CompatibilityResult, Location, Packages}
use karapace.JsonSchema.Utils.{maybe_get_subschemas_and_type, is_simple_subschema}
use karapace.JsonSchema.Subschemas.{
  Found, found_type, is_special_case, edges_of, compatible_edges, count_uniquely_compatible_schemas,
  check_simple_subschema, simple_reader, simple_writer, first_compatible, any_of_reader,
  compare_combined, both_combined, compare_with_found, compatibility_subschemas, half,
}
use karapace.JsonSchema.Terminates.Weight.{weight}
use karapace.JsonSchema.Terminates.Runs.{bind-Returns, bind_any-Returns, if-Returns}
use karapace.JsonSchema.Terminates.Types.{
  maybe_get_subschemas_and_type-Returns, get_type_of-Returns, is_simple_subschema-Returns,
}
use karapace.JsonSchema.Terminates.Subschemas.{
  FoundBelow, maybe_get_subschemas_and_type-below, ResultBelow,
}

found_type-Returns : (found : Found) (v : JsonValue) → Returns (found_type found v)
unfolding found_type
found_type-Returns none v = get_type_of-Returns v
found_type-Returns (some (vs, t)) v = tt

is_special_case-Returns : (a b : Found) (v : JsonValue) → Returns (is_special_case a b v)
unfolding is_special_case
is_special_case-Returns a b v =
    if-Returns _ (is_simple_subschema v) (ok false) (is_simple_subschema-Returns v) tt

half-Returns : (k : ℕ) → Returns (half k)
half-Returns k = if-Returns _ (ok _) (err _) tt tt

module _ (p : Packages) (visit : JsonValue → JsonValue → Location → Result CompatibilityResult)
    (a b : ℕ)
    (visit-Returns : (v w : JsonValue) (location : Location)
      → weight v + weight w < a + b
      → Returns (visit v w location)) where
  edges_of-Returns :
      (location : Location) (i j : ℕ) (v : JsonValue) (ws : List JsonValue)
      → weight v < a
      → All (λ w. weight w < b) ws
      → Returns (edges_of p visit location i j v ws)
  unfolding edges_of
  edges_of-Returns location i j v [] hv hws = tt
  edges_of-Returns location i j v (w ∷ ws) hv (hw, hws) =
      bind_any-Returns (visit v w _) _ (visit-Returns v w _ (omega arith)) (λ r.
        bind_any-Returns (edges_of p visit location i (suc j) v ws) _
          (edges_of-Returns location i (suc j) v ws hv hws) (λ rest. tt))

  compatible_edges-Returns :
      (location : Location) (i : ℕ) (vs ws : List JsonValue)
      → All (λ v. weight v < a) vs
      → All (λ w. weight w < b) ws
      → Returns (compatible_edges p visit location i vs ws)
  unfolding compatible_edges
  compatible_edges-Returns location i [] ws hvs hws = tt
  compatible_edges-Returns location i (v ∷ vs) ws (hv, hvs) hws =
      bind_any-Returns (edges_of p visit location i 0 v ws) _
        (edges_of-Returns location i 0 v ws hv hws)
        (λ row.
          bind_any-Returns (compatible_edges p visit location (suc i) vs ws) _
            (compatible_edges-Returns location (suc i) vs ws hvs hws) (λ rest. tt))

  count_uniquely_compatible_schemas-Returns :
      (t : Subschema) (vs ws : List JsonValue) (location : Location)
      → All (λ v. weight v < a) vs
      → All (λ w. weight w < b) ws
      → Returns (count_uniquely_compatible_schemas p visit t vs ws location)
  unfolding count_uniquely_compatible_schemas
  count_uniquely_compatible_schemas-Returns t vs ws location hvs hws =
      bind_any-Returns (compatible_edges p visit _ 0 vs ws) _
        (compatible_edges-Returns _ 0 vs ws hvs hws)
        (λ edges. half-Returns (p.matching_length edges))

  compare_combined-Returns :
      (vs : List JsonValue) (t : Subschema) (ws : List JsonValue) (u : Subschema)
      (location : Location)
      → All (λ v. weight v < a) vs
      → All (λ w. weight w < b) ws
      → Returns (compare_combined p visit vs t ws u location)
  unfolding compare_combined
  compare_combined-Returns vs t ws u location hvs hws =
      ground (arith, count_uniquely_compatible_schemas-Returns t vs ws location hvs hws)

  check_simple_subschema-Returns :
      (v w : JsonValue) (location : Location)
      → weight v + weight w < a + b
      → Returns (check_simple_subschema p visit v w location)
  unfolding check_simple_subschema
  check_simple_subschema-Returns v w location h =
      bind_any-Returns (visit v w location) _ (visit-Returns v w location h) (λ r. tt)

  simple_reader-Returns :
      (found : Found) (w : JsonValue) (location : Location)
      → FoundBelow a found
      → weight w ≤ b
      → Returns (simple_reader p visit found w location)
  unfolding simple_reader
  simple_reader-Returns none w location h hw = tt
  simple_reader-Returns (some ([], t)) w location h hw = tt
  simple_reader-Returns (some (v ∷ vs, t)) w location (hv, h) hw =
      check_simple_subschema-Returns v w location (omega arith)

  simple_writer-Returns :
      (v : JsonValue) (found : Found) (location : Location)
      → FoundBelow b found
      → weight v ≤ a
      → Returns (simple_writer p visit v found location)
  unfolding simple_writer
  simple_writer-Returns v none location h hv = tt
  simple_writer-Returns v (some ([], t)) location h hv = tt
  simple_writer-Returns v (some (w ∷ ws, t)) location (hw, h) hv =
      check_simple_subschema-Returns v w location (omega arith)

  first_compatible-Returns :
      (vs : List JsonValue) (w : JsonValue) (location : Location)
      → All (λ v. weight v < a) vs
      → weight w ≤ b
      → Returns (first_compatible p visit vs w location)
  unfolding first_compatible
  first_compatible-Returns [] w location h hw = tt
  first_compatible-Returns (v ∷ vs) w location (hv, h) hw =
      bind_any-Returns (visit v w location) _ (visit-Returns v w location (omega arith))
        (λ r. if-Returns r.is_compatible (ok r) _ tt (first_compatible-Returns vs w location h hw))

  any_of_reader-Returns :
      (found : Found) (w : JsonValue) (location : Location)
      → FoundBelow a found
      → weight w ≤ b
      → Returns (any_of_reader p visit found w location)
  unfolding any_of_reader
  any_of_reader-Returns none w location h hw = tt
  any_of_reader-Returns (some (vs, t)) w location h hw = first_compatible-Returns vs w location h hw

  both_combined-Returns :
      (found other : Found) (location : Location)
      → FoundBelow a found
      → FoundBelow b other
      → Returns (both_combined p visit found other location)
  unfolding both_combined
  both_combined-Returns (some (vs, t)) (some (ws, u)) location h k =
      compare_combined-Returns vs t ws u location h k
  both_combined-Returns none other location h k = tt
  both_combined-Returns (some (vs, t)) none location h k = tt

  compare_with_found-Returns :
      (found other : Found) (t : JsonschemaTypes) (v w : JsonValue) (location : Location)
      → FoundBelow a found
      → FoundBelow b other
      → weight v ≤ a
      → weight w ≤ b
      → Returns (compare_with_found p visit found other t v w location)
  unfolding compare_with_found
  compare_with_found-Returns found other t v w location h k hv hw = ground (
    arith,
    is_special_case-Returns found other v,
    is_special_case-Returns other found w,
    simple_reader-Returns found w location h hw,
    simple_writer-Returns v other location k hv,
    any_of_reader-Returns found w location h hw,
    both_combined-Returns found other location h k,
  )

  pub compatibility_subschemas-Returns :
      (v w : JsonValue) (location : Location)
      → weight v ≡ a
      → weight w ≡ b
      → Returns (compatibility_subschemas p visit v w location)
  unfolding compatibility_subschemas
  compatibility_subschemas-Returns v w location hv hw =
      bind-Returns (maybe_get_subschemas_and_type v) _ (maybe_get_subschemas_and_type-Returns v)
        (λ found e.
          bind-Returns (maybe_get_subschemas_and_type w) _ (maybe_get_subschemas_and_type-Returns w)
            (λ other f. bind_any-Returns (found_type found v) _ (found_type-Returns found v) (λ t.
              bind_any-Returns (found_type other w) _ (found_type-Returns other w) (λ u.
                compare_with_found-Returns found other t v w _ (below v a found e hv)
                  (below w b other f hw) (omega arith) (omega arith)))))
    where
      below :
          (x : JsonValue) (n : ℕ) (found : Found)
          → maybe_get_subschemas_and_type x ≡ ok found
          → weight x ≡ n
          → FoundBelow n found
      below x n found e h =
          subst (λ r. ResultBelow n r) e
            (subst (λ k. ResultBelow k (maybe_get_subschemas_and_type x)) h
              (maybe_get_subschemas_and_type-below x))
