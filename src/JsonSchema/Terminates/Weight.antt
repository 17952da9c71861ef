-- ===== src/JsonSchema/Terminates/Weight.antt =====
-- A weight of schemas that each part has less of.
use karapace.Prelude.{ℕ, suc, ◌+◌, ◌≤◌, ◌<◌, List, [], ◌∷◌, String, string_eq, All, arith}
use karapace.JsonSchema.Json.{
  JsonValue, bool, array, object, Items, no_items, item, Members, no_members, member, list_elements,
  get, get_or_else, put,
}
use karapace.JsonSchema.Types.{Keyword, keyword_value}
use karapace.JsonSchema.Utils.{keyword_at, keyword_or, with_types}

unfoldable mutual
  pub weight : JsonValue → ℕ
  weight (bool b) = 1
  weight (array vs) = suc (weight_items vs)
  weight (object m) = suc (weight_members m)
  weight _ = 0

  pub weight_items : Items → ℕ
  weight_items no_items = 0
  weight_items (item v vs) = weight v + weight_items vs

  pub weight_members : Members → ℕ
  weight_members no_members = 0
  weight_members (member k v m) = weight v + weight_members m

pub get_or_else-weight :
    (k : String) (d : JsonValue) (m : Members)
    → weight (get_or_else k d m) ≤ weight d + weight_members m
unfolding get_or_else weight
get_or_else-weight k d no_members = omega arith
get_or_else-weight k d (member j v m) = ground (arith, get_or_else-weight k d m)

pub get-weight : (k : String) (m : Members) → weight (get k m) ≤ weight_members m
unfolding get_or_else weight
get-weight k no_members = omega arith
get-weight k (member j v m) = ground (arith, get-weight k m)

-- a value that takes the place of another
pub put-weight :
    (k : String) (v : JsonValue) (m : Members)
    → weight_members (put k v m) + weight (get k m) ≤ weight_members m + weight v
unfolding get_or_else put weight
put-weight k v no_members = omega arith
put-weight k v (member j w m) = ground (arith, put-weight k v m)

pub list_elements-weight :
    (n : ℕ) (vs : Items) → weight_items vs ≤ n → All (λ v. weight v ≤ n) (list_elements vs)
unfolding weight
list_elements-weight n no_items h = tt
list_elements-weight n (item v vs) h = (omega arith, list_elements-weight n vs (omega arith))

-- one type in place of the array of types
pub with_types-weight :
    (ts : List JsonValue) (m : Members)
    → All (λ t. weight t < weight (keyword_at Keyword.type m)) ts
    → All (λ v. weight v ≤ weight_members m) (with_types ts m)
unfolding keyword_at put weight with_types
with_types-weight [] m h = tt
with_types-weight (t ∷ ts) m (ht, h) =
    (omega (arith, put-weight (keyword_value Keyword.type) t m), with_types-weight ts m h)

pub keyword_at-weight : (k : Keyword) (m : Members) → weight (keyword_at k m) ≤ weight_members m
unfolding keyword_at
keyword_at-weight k m = get-weight (keyword_value k) m

pub keyword_or-weight :
    (k : Keyword) (d : JsonValue) (m : Members)
    → weight (keyword_or k d m) ≤ weight d + weight_members m
unfolding keyword_or
keyword_or-weight k d m = get_or_else-weight (keyword_value k) d m
