-- ===== src/Protobuf/Compare.antt =====
-- `EnumElement.compare` of src/karapace/core/protobuf/enum_element.py, and what the comparisons share. The
-- keys of the other side alone, a Python set, are taken in the order of its dict.
use karapace.Prelude.{
  ℕ, zero, suc, ◌+◌, ◌/◌, ◌%◌, true, false, not, Option, none, some, List, [], ◌∷◌, ◌++◌, String, ℤ,
  pos, negsuc, nat_eq, string_eq, int_eq, option_eq, ◌==◌, Eq, ltb, select,
}
use karapace.Dict.{Dict, get, set, contains, keys}
use Prim.Native.String.{slice}
use karapace.Protobuf.Text.{append}
use karapace.Protobuf.Elements.{EnumConstantElement, TypeElement, message_element, enum_element}
use karapace.Protobuf.Comparison.{
  type_alter, enum_constant_add, enum_constant_alter, enum_constant_drop, Compare, ◌>>◌, for_each,
  push_path, pop_path, add_modification, add_when,
}

abbrev pub decimal_digit : ℕ → String
decimal_digit n = slice "0123456789" n (n + 1)

-- the decimal digits, at most `more` of them
unfoldable pub decimal : ℕ → ℕ → String
decimal zero n = ""
decimal (suc more) n = elim (ltb n 10) [
  | true ↦ decimal_digit n
  | false ↦ append (decimal more (n / 10)) (decimal_digit (n % 10))
]

-- `str` of an `int`
abbrev pub str : ℤ → String
str (pos n) = decimal (suc n) n
str (negsuc n) = append "-" (decimal (suc (suc n)) (suc n))

-- the dict of some elements by a key, and the keys of two dicts
abbrev pub by_key : {A K : Type 0} ⦃e : Eq K⦄ → (A → K) → List A → Dict K A → Dict K A
by_key key [] d = d
by_key key (a ∷ rest) d = by_key key rest (set (key a) a d)

abbrev pub chained : {A B K : Type 0} ⦃e : Eq K⦄ → Dict K A → Dict K B → List K
chained self other = keys self ++ select (λ k. not (contains k self)) (keys other)

-- the body of the loop of `EnumElement.compare`
abbrev pub compare_constants :
    Option EnumConstantElement → Option EnumConstantElement → Compare (Unit {0})
compare_constants none other = add_modification enum_constant_add
compare_constants (some a) none = add_modification enum_constant_drop
compare_constants (some a) (some b) = add_when (not (a.name == b.name)) enum_constant_alter

-- `EnumElement.compare`
unfoldable pub compare_enum : List EnumConstantElement → TypeElement → Compare (Unit {0})
unfolding get set add_modification decimal
compare_enum constants (message_element h fields one_ofs nested) = add_modification type_alter
compare_enum constants (enum_element h others) =
    let self_tags = by_key (λ a. a.tag) constants [] in
    let other_tags = by_key (λ a. a.tag) others [] in
    for_each (chained self_tags other_tags) λ tag.
      push_path (str tag) >> compare_constants (get tag self_tags) (get tag other_tags) >> pop_path
