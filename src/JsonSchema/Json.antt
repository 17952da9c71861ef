-- ===== src/JsonSchema/Json.antt =====
-- The JSON values that the checker of src/karapace/core/compatibility/jsonschema reads, as `json.loads`
-- gives them, and Python's tests on them. Numbers are integers: fractions are left out.
use Prim.Native.Char.{code}
use Prim.Native.String.{String, [], ◌∷◌}
use karapace.Prelude.{
  ℕ, suc, Bool, true, false, not, ◌&&◌, ◌||◌, List, ℤ, pos, int_beq, int_leb, ltb, eqb, string_eq,
  ◌==◌, if◌then◌else◌, any_of, all_of, select, is_empty,
}
use karapace.Outcome.{Result, ok, err, type_error, attribute_error}

-- A `dict` is its items in insertion order, each key once. `null` is Python's None.
mutual
  pub data JsonValue : Type 0 where
    null : JsonValue
    bool : Bool → JsonValue
    number : ℤ → JsonValue
    text : String → JsonValue
    array : Items → JsonValue
    object : Members → JsonValue

  pub data Items : Type 0 where
    no_items : Items
    item : JsonValue → Items → Items

  pub data Members : Type 0 where
    no_members : Members
    member : String → JsonValue → Members → Members

abbrev pub is_null : JsonValue → Bool
is_null null = true
is_null _ = false

-- `bool(v)`
abbrev pub is_truthy : JsonValue → Bool
is_truthy null = false
is_truthy (bool b) = b
is_truthy (number n) = not (int_beq n (pos 0))
is_truthy (text s) = not (s == "")
is_truthy (array no_items) = false
is_truthy (array (item v vs)) = true
is_truthy (object no_members) = false
is_truthy (object (member k v m)) = true

-- the elements of a list
abbrev pub list_elements : Items → List JsonValue
list_elements no_items = List.[]
list_elements (item v vs) = List.◌∷◌ v (list_elements vs)

-- the keys of a dict
abbrev pub names : Members → List String
names no_members = List.[]
names (member k v m) = List.◌∷◌ k (names m)

-- `k in m`
abbrev pub has_member : String → Members → Bool
has_member k m = any_of (λ j. j == k) (names m)

-- `m.get(k, d)`, `m.get(k)` and `m[k]` where `k` is known to be in `m`
unfoldable pub get_or_else : String → JsonValue → Members → JsonValue
get_or_else k d no_members = d
get_or_else k d (member j v m) = let rest = get_or_else k d m in if j == k then v else rest

abbrev pub get : String → Members → JsonValue
get k m = get_or_else k null m

-- `m[k] = v` for a key that is in `m`
unfoldable pub put : String → JsonValue → Members → Members
put k v no_members = no_members
put k v (member j w m) = let rest = put k v m in if j == k then member j v m else member j w rest

-- the dict whose method `get` or `items` is called
abbrev pub members_of : JsonValue → Result Members
members_of (object m) = ok m
members_of _ = err attribute_error

-- the number that a Boolean or a number is in a comparison
abbrev pub number_of_bool : Bool → ℤ
number_of_bool b = if b then pos 1 else pos 0

abbrev count_members : Members → ℕ
count_members no_members = 0
count_members (member k v m) = suc (count_members m)

-- `a == b`: the order of the keys does not matter
unfoldable mutual
  pub json_eq : JsonValue → JsonValue → Bool
  json_eq null null = true
  json_eq (bool a) (bool b) = int_beq (number_of_bool a) (number_of_bool b)
  json_eq (bool a) (number n) = int_beq (number_of_bool a) n
  json_eq (number n) (bool b) = int_beq n (number_of_bool b)
  json_eq (number a) (number b) = int_beq a b
  json_eq (text s) (text t) = s == t
  json_eq (array vs) (array ws) = items_eq vs ws
  json_eq (object m) (object n) = eqb (count_members m) (count_members n) && members_in m n
  json_eq _ _ = false

  items_eq : Items → Items → Bool
  items_eq no_items no_items = true
  items_eq (item v vs) (item w ws) = json_eq v w && items_eq vs ws
  items_eq _ _ = false

  members_in : Members → Members → Bool
  members_in no_members n = true
  members_in (member k v m) n = has_member k n && json_eq v (get_or_else k null n) && members_in m n

-- `s > t` of two texts, by code points
unfoldable pub text_gt : String → String → Bool
text_gt [] t = false
text_gt (c ∷ s) [] = true
text_gt (c ∷ s) (d ∷ t) =
    let rest = text_gt s t in
    if ltb (code d) (code c) then true else if eqb (code c) (code d) then rest else false

abbrev int_gt : ℤ → ℤ → Bool
int_gt a b = not (int_leb a b)

-- `a > b`: a TypeError for values that have no order
unfoldable mutual
  pub greater : JsonValue → JsonValue → Result Bool
  greater (bool a) (bool b) = ok (int_gt (number_of_bool a) (number_of_bool b))
  greater (bool a) (number n) = ok (int_gt (number_of_bool a) n)
  greater (number n) (bool b) = ok (int_gt n (number_of_bool b))
  greater (number a) (number b) = ok (int_gt a b)
  greater (text s) (text t) = ok (text_gt s t)
  greater (array vs) (array ws) = items_gt vs ws
  greater _ _ = err type_error

  items_gt : Items → Items → Result Bool
  items_gt no_items ws = ok false
  items_gt (item v vs) no_items = ok true
  items_gt (item v vs) (item w ws) =
      let rest = items_gt vs ws in let first = greater v w in if json_eq v w then rest else first

-- `a in vs` of a list
abbrev pub among : JsonValue → List JsonValue → Bool
among a vs = any_of (λ v. json_eq v a) vs

abbrev hashable : JsonValue → Bool
hashable (array vs) = false
hashable (object m) = false
hashable _ = true

abbrev characters : String → List JsonValue
characters [] = List.[]
characters (c ∷ s) = List.◌∷◌ (text (c ∷ [])) (characters s)

abbrev pub texts : List String → List JsonValue
texts List.[] = List.[]
texts (List.◌∷◌ s ss) = List.◌∷◌ (text s) (texts ss)

abbrev hashable_all : List JsonValue → Result (List JsonValue)
hashable_all vs = if all_of hashable vs then ok vs else err type_error

-- `set(v)`, as the list of its members, each as often as `v` has it
unfoldable pub set_of : JsonValue → Result (List JsonValue)
set_of (array vs) = hashable_all (list_elements vs)
set_of (text s) = ok (characters s)
set_of (object m) = ok (texts (names m))
set_of _ = err type_error

-- `a - b` of two sets
unfoldable pub difference : List JsonValue → List JsonValue → List JsonValue
difference vs ws = select (λ v. not (among v ws)) vs

-- `", ".join(vs)`, by the TypeError it raises
abbrev is_text : JsonValue → Bool
is_text (text s) = true
is_text _ = false

abbrev pub joined : List JsonValue → Result (Unit {0})
joined vs = if all_of is_text vs then ok tt else err type_error

-- `s in t` of two texts
abbrev starts : String → String → Bool
starts [] t = true
starts (c ∷ s) [] = false
starts (c ∷ s) (d ∷ t) = eqb (code c) (code d) && starts s t

abbrev has_text : String → String → Bool
has_text s [] = starts s []
has_text s (d ∷ t) = starts s (d ∷ t) || has_text s t

-- `s in v`
unfoldable pub text_in : String → JsonValue → Result Bool
unfolding json_eq
text_in s (array vs) = ok (among (text s) (list_elements vs))
text_in s (text t) = ok (has_text s t)
text_in s (object m) = ok (has_member s m)
text_in s _ = err type_error

-- `len(v)`, compared with 0
unfoldable pub is_len_zero : JsonValue → Result Bool
is_len_zero (array vs) = ok (is_empty (list_elements vs))
is_len_zero (text s) = ok (s == "")
is_len_zero (object m) = ok (is_empty (names m))
is_len_zero _ = err type_error
