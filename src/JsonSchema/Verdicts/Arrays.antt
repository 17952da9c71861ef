-- ===== src/JsonSchema/Verdicts/Arrays.antt =====
-- What a compatible verdict on two schemas of arrays says of their items.
use karapace.Prelude.{
  ℕ, suc, ◌≡◌, refl, sym, ◌∙◌, Bool, true, false, not, ◌&&◌, List, [], ◌∷◌, length, ltb, arith,
  if◌then◌else◌,
}
use karapace.Outcome.{Result, ok}
use karapace.JsonSchema.Json.{JsonValue, object, Members}
use karapace.JsonSchema.Types.{
  Keyword, Instance, instance_type, CompatibilityResult, compatible, Location, Packages,
}
use karapace.JsonSchema.Utils.{keyword_at, get_type_of}
use karapace.JsonSchema.Constraints.{is_tuple, is_tuple_without_additional_items}
use karapace.JsonSchema.Assertions.{max_items_check, min_items_check}
use karapace.JsonSchema.Arrays.{
  compared_items, item_location, compare_items, removed_items, added_items, more_items,
  array_constraints, array_steps, same_flag,
}
use karapace.JsonSchema.Steps.{type_mismatch}
use karapace.JsonSchema.Recursion.{compatibility_rec}
use karapace.JsonSchema.Verdicts.Passes.{
  Merges, Accepts, accept, Passes, done-Passes, add-Passes, weaker-Passes, then-Passes, when-Passes,
  merge_result-Passes, if_incompatible-Passes, merged-Passes, accepted, check_all-Passes,
}
use karapace.JsonSchema.Verdicts.Objects.{
  Keeps, keeps, add-Keeps, when-Keeps, if-Keeps, for_each-Keeps,
}
use karapace.JsonSchema.Verdicts.Runs.{
  compare_schemas-typed, compare_by_types-arrays, compatibility_array-result,
}

module _ (visit : JsonValue → JsonValue → Location → Result CompatibilityResult) where
  -- the items at one position are compatible, from the position `i` on
  abbrev PairsKept : Location → ℕ → List JsonValue → List JsonValue → Type 0
  PairsKept location i (v ∷ vs) (w ∷ ws) =
      Accepts (visit v w (item_location location i)) × PairsKept location (suc i) vs ws
  PairsKept location i _ _ = Unit

  -- the items are compatible in pairs, a tuple of the reader is not longer, and is not closed where the
  -- writer's is not
  abbrev pub ArraysKept : Location → JsonValue → JsonValue → Members → Members → Type 0
  ArraysKept location v w r m =
      let are_tuples = is_tuple v in
      let vs = compared_items are_tuples (keyword_at Keyword.items r) in
      let ws = compared_items are_tuples (keyword_at Keyword.items m) in
      PairsKept location 0 vs ws
      × ((are_tuples && ltb (length ws) (length vs)) ≡ false)
      × ((is_tuple_without_additional_items v && not (is_tuple_without_additional_items w)) ≡ false)

is_false : (b : Bool) → (b ≡ true → ⊥) → b ≡ false
is_false b h = ground (arith, h)

module _ (p : Packages) (merges : Merges p)
    (visit : JsonValue → JsonValue → Location → Result CompatibilityResult) where
  compare_items-Passes :
      (location : Location) (i : ℕ) (vs ws : List JsonValue)
      → Passes (compare_items p visit location i vs ws) (PairsKept visit location i vs ws)
  unfolding compare_items
  compare_items-Passes location i (v ∷ vs) (w ∷ ws) =
      then-Passes _ _ _ _ (if_incompatible-Passes p merges _ _ (merged-Passes p merges))
        (compare_items-Passes location (suc i) vs ws)
  compare_items-Passes location i [] ws = done-Passes
  compare_items-Passes location i (v ∷ vs) [] = done-Passes

  added_items-Keeps :
      (location : Location) (i : ℕ) (w : JsonValue) (vs : List JsonValue)
      → Keeps (added_items p visit location i w vs)
  unfolding added_items
  added_items-Keeps location i w [] = done-Passes
  added_items-Keeps location i w (v ∷ vs) = keeps _ _ (
      then-Passes _ _ _ _ (if_incompatible-Passes p merges _ _ (λ a bad. add-Passes _ _))
        (added_items-Keeps location (suc i) w vs))

  removed_items-Keeps :
      (location : Location) (v : JsonValue) (ws : List JsonValue)
      → Keeps (removed_items p visit location v ws)
  unfolding removed_items
  removed_items-Keeps location v ws =
      for_each-Keeps _ _
        (λ w. keeps _ _ (if_incompatible-Passes p merges _ _ (λ a bad. add-Passes _ _)))

  more_items-Passes :
      (location : Location) (r m : Members) (vs ws : List JsonValue) (are_tuples : Bool)
      → Passes
          (more_items p visit location r m vs ws are_tuples)
          ((are_tuples && ltb (length ws) (length vs)) ≡ false)
  unfolding more_items
  more_items-Passes location r m vs ws are_tuples =
      weaker-Passes _ _ _
        (then-Passes _ _ _ _
          (when-Keeps _ _ (if-Keeps _ _ _ (add-Keeps _ _) (removed_items-Keeps location _ _)))
          (when-Passes _ _ _ (
            then-Passes _ _ _ _ (when-Keeps _ _ (added_items-Keeps location _ _ _))
              (add-Passes _ _))))
        (λ both. is_false (are_tuples && ltb (length ws) (length vs)) (λ e. (both.1 e).1))

  array_constraints-Passes :
      (location : Location) (v w : JsonValue) (r m : Members)
      → Passes (array_constraints p visit location v w r m) (
          (is_tuple_without_additional_items v && not (is_tuple_without_additional_items w))
          ≡ false)
  unfolding array_constraints
  array_constraints-Passes location v w r m =
      weaker-Passes _ _ _
        (then-Passes _ _ _ _
          (then-Passes _ _ _ _
            (then-Passes _ _ _ _
              (then-Passes _ _ _ _ (when-Passes ⊥ _ _ (add-Passes _ _))
                (when-Keeps _ _ (add-Keeps _ _)))
              (merge_result-Passes p merges _))
            (check_all-Passes p merges (max_items_check ∷ min_items_check ∷ []) r m location))
          (when-Keeps _ _ (add-Keeps _ _)))
        (λ all.
          is_false
            (is_tuple_without_additional_items v && not (is_tuple_without_additional_items w))
            all.0.0.0.0)

  array_steps-Passes :
      (location : Location) (v w : JsonValue) (r m : Members)
      → Passes (array_steps p visit location v w r m) (ArraysKept visit location v w r m)
  unfolding array_steps
  array_steps-Passes location v w r m =
      weaker-Passes _ _ _
        (then-Passes _ _ _ _
          (then-Passes _ _ _ _ (compare_items-Passes location 0 _ _) (
            more_items-Passes location r m
              (compared_items (is_tuple v) (keyword_at Keyword.items r))
              (compared_items (is_tuple v) (keyword_at Keyword.items m)) (is_tuple v)))
          (array_constraints-Passes location v w r m))
        (λ all. (all.0.0, all.0.1, all.1))

module _ (p : Packages)
    (visit : JsonValue → JsonValue → Location → Result CompatibilityResult) where
  not_mismatched :
      (location : Location) (v w : JsonValue) (r m : Members) (same : Bool)
      (result : CompatibilityResult)
      → (if same
          then array_steps p visit location v w r m compatible
          else ok (type_mismatch location))
        ≡ ok result
      → result.is_compatible ≡ true
      → (same ≡ true) × (array_steps p visit location v w r m compatible ≡ ok result)
  unfolding type_mismatch
  not_mismatched location v w r m true result e c = (refl, e)
  not_mismatched location v w r m false result e c = absurd (ground (arith, e, c))

-- Two schemas of arrays: where the verdict is compatible, both or neither are of tuples, the items are
-- compatible in pairs, and of tuples the reader's is not longer than the writer's and not closed where the
-- writer's is open. `merge` is compatible where both its arguments are.
pub compatibility_rec-ArraysKept :
    (p : Packages) (merges : Merges p) (fuel : ℕ) (r w : Members) (location : Location)
    (result : CompatibilityResult)
    → get_type_of (object r) ≡ ok (instance_type Instance.array)
    → get_type_of (object w) ≡ ok (instance_type Instance.array)
    → compatibility_rec p (suc fuel) (object r) (object w) location ≡ ok result
    → result.is_compatible ≡ true
    → (same_flag (is_tuple (object r)) (is_tuple (object w)) ≡ true)
      × ArraysKept (compatibility_rec p fuel) location (object r) (object w) r w
unfolding compatibility_rec
compatibility_rec-ArraysKept p merges fuel r w location result rt wt e c =
    let visit = compatibility_rec p fuel in
    let t = instance_type Instance.array in
    let v = object r in
    let v' = object w in
    let run =
      compare_schemas-typed p visit v v' t t location refl refl rt wt
      ∙ compare_by_types-arrays p visit v v' t t location refl
      ∙ compatibility_array-result p visit v v' t t location r w rt wt refl refl in
    let found =
      not_mismatched p visit location v v' r w (same_flag (is_tuple v) (is_tuple v')) result
        (sym run ∙ e) c in
    (
      found.0,
      accepted (ArraysKept visit location v v' r w) (array_steps p visit location v v' r w)
          (array_steps-Passes p merges visit location v v' r w) (accept _ result found.1 c),
    )
