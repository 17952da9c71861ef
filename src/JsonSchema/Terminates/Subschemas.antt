-- ===== src/JsonSchema/Terminates/Subschemas.antt =====
-- `compatibility_subschemas` ends if it does on the parts of the two schemas.
use karapace.Prelude.{ℕ, suc, ◌≤◌, ◌<◌, ◌≡◌, refl, none, some, List, [], ◌∷◌, All, arith}
use karapace.Outcome.{Result, ok, err}
use karapace.JsonSchema.Json.{JsonValue, null, array, object, Items, Members, list_elements, get}
use karapace.JsonSchema.Types.{Keyword, Subschema, subschema_value}
use karapace.JsonSchema.Utils.{
  keyword_at, subschemas_at, or_next, not_schema, subschemas_of_keyword, get_keyword_subschemas,
  get_member_subschemas, maybe_get_subschemas_and_type,
}
use karapace.JsonSchema.Subschemas.{Found}
use karapace.JsonSchema.Terminates.Weight.{
  weight, weight_members, list_elements-weight, get-weight, with_types-weight,
}

-- the subschemas that are found are below a weight
abbrev pub FoundBelow : ℕ → Found → Type 0
FoundBelow n none = Unit
FoundBelow n (some (vs, t)) = All (λ v. weight v < n) vs

abbrev pub ResultBelow : ℕ → Result Found → Type 0
ResultBelow n (ok found) = FoundBelow n found
ResultBelow n (err x) = Unit

All-below :
    (vs : List JsonValue) (a n : ℕ)
    → a < n
    → All (λ v. weight v ≤ a) vs
    → All (λ v. weight v < n) vs
All-below [] a n h hs = tt
All-below (v ∷ vs) a n h (hv, hs) = (omega arith, All-below vs a n h hs)

list_elements-below :
    (vs : Items) (n : ℕ) → weight (array vs) ≤ n → All (λ v. weight v < n) (list_elements vs)
unfolding weight
list_elements-below vs n h =
    All-below (list_elements vs) _ n h (list_elements-weight _ vs (omega arith))

subschemas_at-below :
    (t : Subschema) (v : JsonValue) (n : ℕ) → weight v ≤ n → ResultBelow n (subschemas_at t v)
subschemas_at-below t null n h = tt
subschemas_at-below t (array vs) n h = list_elements-below vs n h
subschemas_at-below t _ n h = tt

or_next-below :
    (a b : Result Found) (n : ℕ) → ResultBelow n a → ResultBelow n b → ResultBelow n (or_next a b)
or_next-below (ok none) b n ha hb = hb
or_next-below (ok (some found)) b n ha hb = ha
or_next-below (err x) b n ha hb = tt

not_schema-below : (v : JsonValue) (n : ℕ) → weight v < n → FoundBelow n (not_schema v)
not_schema-below null n h = tt
not_schema-below _ n h = (h, tt)

subschemas_of_keyword-below :
    (t : Subschema) (m : Members) → ResultBelow (suc (weight_members m)) (subschemas_of_keyword t m)
unfolding subschemas_of_keyword
subschemas_of_keyword-below t m =
    subschemas_at-below t _ _ (omega (arith, get-weight (subschema_value t) m))

get_keyword_subschemas-below :
    (m : Members) → ResultBelow (suc (weight_members m)) (get_keyword_subschemas m)
unfolding get_keyword_subschemas
get_keyword_subschemas-below m =
    let n = suc (weight_members m) in
    let last : Result Found = ok (not_schema (get (subschema_value Subschema.not) m)) in
    let one = or_next (subschemas_of_keyword Subschema.one_of m) last in
    or_next-below (subschemas_of_keyword Subschema.all_of m)
      (or_next (subschemas_of_keyword Subschema.any_of m) one) n
      (subschemas_of_keyword-below Subschema.all_of m)
      (or_next-below (subschemas_of_keyword Subschema.any_of m) one n
        (subschemas_of_keyword-below Subschema.any_of m)
        (or_next-below (subschemas_of_keyword Subschema.one_of m) last n
          (subschemas_of_keyword-below Subschema.one_of m)
          (not_schema-below _ n (omega (arith, get-weight (subschema_value Subschema.not) m)))))

get_member_subschemas-below :
    (t : JsonValue) (m : Members)
    → keyword_at Keyword.type m ≡ t
    → ResultBelow (suc (weight_members m)) (get_member_subschemas t m)
unfolding get_member_subschemas
get_member_subschemas-below (array ts) m e =
    All-below _ _ _ (omega arith)
      (with_types-weight (list_elements ts) m (list_elements-below ts _ (rw e (omega arith))))
get_member_subschemas-below _ m e = get_keyword_subschemas-below m

pub maybe_get_subschemas_and_type-below :
    (v : JsonValue) → ResultBelow (weight v) (maybe_get_subschemas_and_type v)
unfolding maybe_get_subschemas_and_type weight
maybe_get_subschemas_and_type-below (object m) = get_member_subschemas-below _ m refl
maybe_get_subschemas_and_type-below _ = tt
