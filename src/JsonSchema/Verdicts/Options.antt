-- ===== src/JsonSchema/Verdicts/Options.antt =====
-- Options of a writer's schema are options of a compatible reader's.
use karapace.Prelude.{
  ℕ, suc, ◌≡◌, refl, sym, inl, inr, is_empty, ◌∙◌, subst, true, List, [], ◌∷◌, string_eq, arith,
}
use mathlib.Core.List.{Memᴰ}
use karapace.Outcome.{Result-cases, ok}
use karapace.JsonSchema.Json.{JsonValue, object, set_of, difference, among, joined, Members}
use karapace.JsonSchema.Types.{Keyword, keyword_type, CompatibilityResult, Location, Packages}
use karapace.JsonSchema.Utils.{keyword_at, get_type_of}
use karapace.JsonSchema.Scalars.{enum_result}
use karapace.JsonSchema.Recursion.{compatibility_rec}
use karapace.JsonSchema.Verdicts.Runs.{
  compare_schemas-typed, compare_by_types-enums, compatibility_enum-result,
}

difference-among :
    (ws vs : List JsonValue)
    → is_empty (difference ws vs) ≡ true
    → (option : JsonValue) → Memᴰ option ws
    → among option vs ≡ true
unfolding difference
difference-among [] vs h option m = elim m [ ]
difference-among (w ∷ ws) vs h option (Memᴰ.head e) =
    subst (λ v. among v vs ≡ true) (sym e) (ground (arith, h))
difference-among (w ∷ ws) vs h option (Memᴰ.tail m) =
    difference-among ws vs (ground (arith, h)) option m

enum_result-empty :
    (location : Location) (removed : List JsonValue) (result : CompatibilityResult)
    → enum_result location removed ≡ ok result
    → result.is_compatible ≡ true
    → is_empty removed ≡ true
unfolding karapace.JsonSchema.Steps.incompatible_schema
enum_result-empty location [] result e c = refl
enum_result-empty location (v ∷ vs) result e c = elim (Result-cases (joined (v ∷ vs))) [
  | inl (u, j) ↦ absurd (ground (arith, e, c, j))
  | inr (x, j) ↦ absurd (ground (arith, e, c, j))
]

-- Two schemas with `enum`, of the options `vs` of the reader and `ws` of the writer: where the verdict is
-- compatible, each option of the writer is equal to one of the reader.
pub compatibility_rec-among :
    (p : Packages) (fuel : ℕ) (r w : Members) (vs ws : List JsonValue) (location : Location)
    (result : CompatibilityResult) (option : JsonValue)
    → get_type_of (object r) ≡ ok (keyword_type Keyword.enum)
    → get_type_of (object w) ≡ ok (keyword_type Keyword.enum)
    → set_of (keyword_at Keyword.enum r) ≡ ok vs
    → set_of (keyword_at Keyword.enum w) ≡ ok ws
    → compatibility_rec p (suc fuel) (object r) (object w) location ≡ ok result
    → result.is_compatible ≡ true
    → Memᴰ option ws
    → among option vs ≡ true
unfolding compatibility_rec
compatibility_rec-among p fuel r w vs ws location result option tr tw sr sw e c member =
    let visit = compatibility_rec p fuel in
    let t = keyword_type Keyword.enum in
    let v = object r in
    let v' = object w in
    let run =
      compare_schemas-typed p visit v v' t t location refl refl tr tw
      ∙ compare_by_types-enums p visit v v' t t location refl in
    let removed =
      compatibility_enum-result p visit v v' t t location r w vs ws result refl refl sr sw
        (sym run ∙ e) in
    difference-among ws vs (enum_result-empty location (difference ws vs) result removed c) option
      member
