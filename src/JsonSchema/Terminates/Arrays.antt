-- ===== src/JsonSchema/Terminates/Arrays.antt =====
-- `compatibility_array` ends if it does on the parts of the two schemas.
use karapace.Prelude.{ℕ, suc, ◌+◌, ◌≤◌, ◌<◌, Bool, true, List, [], ◌∷◌, All, arith}
use karapace.Outcome.{Returns, Result}
use karapace.JsonSchema.Json.{JsonValue, null, bool, array, Members}
use karapace.JsonSchema.Types.{Keyword, CompatibilityResult, Location, Packages}
use karapace.JsonSchema.Arrays.{
  compared_items, get_by_member, left_of_first, left_of_second, compare_items, removed_items,
  added_items, more_items, array_constraints, array_steps,
}
use karapace.JsonSchema.Assertions.{max_items_check, min_items_check}
use karapace.JsonSchema.Terminates.Weight.{
  weight, weight_members, list_elements-weight, keyword_at-weight, keyword_or-weight,
}
use karapace.JsonSchema.Terminates.Runs.{
  Runs, done-Runs, add-Runs, then-Runs, when-Runs, if-Runs, merge_result-Runs, if_incompatible-Runs,
  check_all-Runs,
}
use karapace.JsonSchema.Terminates.Basics.{lt-Returns, gt-Returns}

abbrev AllBelow : ℕ → List JsonValue → Type 0
AllBelow a vs = All (λ v. weight v ≤ a) vs

compared_items-AllBelow :
    (are_tuples : Bool) (v : JsonValue) (a : ℕ)
    → weight v ≤ a
    → AllBelow a (compared_items are_tuples v)
unfolding weight
compared_items-AllBelow true (array vs) a h = list_elements-weight a vs (omega arith)
compared_items-AllBelow _ v a h = (h, tt)

left_of_first-AllBelow :
    (vs ws : List JsonValue) (a : ℕ) → AllBelow a vs → AllBelow a (left_of_first vs ws)
left_of_first-AllBelow [] ws a h = tt
left_of_first-AllBelow (v ∷ vs) [] a (hv, h) = h
left_of_first-AllBelow (v ∷ vs) (w ∷ ws) a (hv, h) = left_of_first-AllBelow vs ws a h

left_of_second-AllBelow :
    (vs ws : List JsonValue) (b : ℕ) → AllBelow b ws → AllBelow b (left_of_second vs ws)
left_of_second-AllBelow [] ws b h = h
left_of_second-AllBelow (v ∷ vs) [] b h = tt
left_of_second-AllBelow (v ∷ vs) (w ∷ ws) b (hw, h) = left_of_second-AllBelow vs ws b h

module _ (p : Packages) (visit : JsonValue → JsonValue → Location → Result CompatibilityResult)
    (n : ℕ)
    (visit-Returns : (v w : JsonValue) (location : Location)
      → weight v + weight w < n
      → Returns (visit v w location)) where
  compare_items-Runs :
      (location : Location) (i : ℕ) (vs ws : List JsonValue) (a b : ℕ)
      → a + b < n
      → AllBelow a vs
      → AllBelow b ws
      → Runs (compare_items p visit location i vs ws)
  unfolding compare_items
  compare_items-Runs location i (v ∷ vs) (w ∷ ws) a b h (hv, hvs) (hw, hws) =
      then-Runs _ _
        (if_incompatible-Runs _ _ _ (visit-Returns v w _ (omega arith))
          (λ r. merge_result-Runs _ _ tt))
        (compare_items-Runs location (suc i) vs ws a b h hvs hws)
  compare_items-Runs location i [] ws a b h hvs hws = done-Runs
  compare_items-Runs location i (v ∷ vs) [] a b h hvs hws = done-Runs

  removed_items-Runs :
      (location : Location) (additional : JsonValue) (ws : List JsonValue) (b : ℕ)
      → weight additional + b < n
      → AllBelow b ws
      → Runs (removed_items p visit location additional ws)
  unfolding removed_items karapace.JsonSchema.Steps.for_each
  removed_items-Runs location additional [] b h hws = done-Runs
  removed_items-Runs location additional (w ∷ ws) b h (hw, hws) =
      then-Runs _ _
        (if_incompatible-Runs _ _ _ (visit-Returns additional w _ (omega arith))
          (λ r. add-Runs _ _))
        (removed_items-Runs location additional ws b h hws)

  added_items-Runs :
      (location : Location) (i : ℕ) (additional : JsonValue) (vs : List JsonValue) (a : ℕ)
      → a + weight additional < n
      → AllBelow a vs
      → Runs (added_items p visit location i additional vs)
  unfolding added_items
  added_items-Runs location i additional [] a h hvs = done-Runs
  added_items-Runs location i additional (v ∷ vs) a h (hv, hvs) =
      then-Runs _ _
        (if_incompatible-Runs _ _ _ (visit-Returns v additional _ (omega arith))
          (λ r. add-Runs _ _))
        (added_items-Runs location (suc i) additional vs a h hvs)

  more_items-Runs :
      (location : Location) (r w : Members) (vs ws : List JsonValue) (are_tuples : Bool)
      → suc (weight_members r + weight_members w) < n
      → AllBelow (weight_members r) vs
      → AllBelow (weight_members w) ws
      → Runs (more_items p visit location r w vs ws are_tuples)
  unfolding more_items weight
  more_items-Runs location r w vs ws are_tuples h hvs hws =
      then-Runs _ _
        (when-Runs _ _ (
          if-Runs _ _ _ (add-Runs _ _) (
            removed_items-Runs _ _ _ (weight_members w) (omega arith)
              (left_of_second-AllBelow vs ws _ hws))))
        (when-Runs _ _ (
          then-Runs _ _
            (when-Runs _ _ (
              added_items-Runs _ _ _ _ (weight_members r)
                (omega (arith, keyword_or-weight Keyword.additional_items (bool true) w))
                (left_of_first-AllBelow vs ws _ hvs)))
            (add-Runs _ _)))

  array_constraints-Runs :
      (location : Location) (reader_schema writer_schema : JsonValue) (r w : Members)
      → 0 < n
      → Runs (array_constraints p visit location reader_schema writer_schema r w)
  unfolding array_constraints weight get_by_member
  array_constraints-Runs location reader_schema writer_schema r w h =
      then-Runs _ _
        (then-Runs _ _
          (then-Runs _ _
            (then-Runs _ _ (when-Runs _ _ (add-Runs _ _)) (when-Runs _ _ (add-Runs _ _)))
            (merge_result-Runs _ _ (visit-Returns null null _ (omega arith))))
          (check_all-Runs _ r w _ (max_items_check ∷ min_items_check ∷ [])
            (lt-Returns, (gt-Returns, tt))))
        (when-Runs _ _ (add-Runs _ _))

  pub array_steps-Runs :
      (location : Location) (reader_schema writer_schema : JsonValue) (r w : Members)
      → suc (weight_members r + weight_members w) < n
      → Runs (array_steps p visit location reader_schema writer_schema r w)
  unfolding array_steps
  array_steps-Runs location reader_schema writer_schema r w h =
      let hvs = compared_items-AllBelow _ _ _ (keyword_at-weight Keyword.items r) in
      let hws = compared_items-AllBelow _ _ _ (keyword_at-weight Keyword.items w) in
      then-Runs _ _
        (then-Runs _ _
          (compare_items-Runs _ _ _ _ (weight_members r) (weight_members w) (omega arith) hvs hws)
          (more_items-Runs _ _ _ _ _ _ h hvs hws))
        (array_constraints-Runs location reader_schema writer_schema r w (omega arith))
