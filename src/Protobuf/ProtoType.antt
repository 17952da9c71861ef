-- ===== src/Protobuf/ProtoType.antt =====
-- src/karapace/core/protobuf/proto_type.py: the names of types.
pub mod Returns
use karapace.Prelude.{
  ℕ, zero, suc, Bool, true, false, not, ◌&&◌, ◌||◌, Option, none, some, is_some, get_or, List, [],
  ◌∷◌, String, nat_eq, string_eq, ◌==◌, elem, if◌then◌else◌, ◌+◌,
}
use karapace.Outcome.{illegal_argument, recursion_error, Result, ok, err, ◌>>=◌, or_raise}
use karapace.Protobuf.Text.{
  chars, dot, comma, hash_sign, starts_with, ends_with, drop_first, drop_last, split_last, strip,
}

-- `ProtoType`: a scalar, a map with the types of its keys and values, or another name
pub data ProtoType : Type 0 where
  scalar : String → ProtoType
  named : String → ProtoType
  map_type : String → ProtoType → ProtoType → ProtoType

-- the attributes `string`, `is_scalar` and `is_map`
abbrev pub string : ProtoType → String
string (scalar s) = s
string (named s) = s
string (map_type s key value) = s

abbrev pub is_scalar : ProtoType → Bool
is_scalar (scalar s) = true
is_scalar _ = false

abbrev pub is_map : ProtoType → Bool
is_map (map_type s key value) = true
is_map _ = false

-- the keys of `SCALAR_TYPES`
abbrev pub scalar_types : List String
scalar_types =
    "bool" ∷ "bytes" ∷ "double" ∷ "float" ∷ "fixed32" ∷ "fixed64" ∷ "int32" ∷ "int64" ∷ "sfixed32"
    ∷ "sfixed64" ∷ "sint32" ∷ "sint64" ∷ "string" ∷ "uint32" ∷ "uint64" ∷ []

-- `ProtoType(False, name, key, value)`
abbrev pub map_of : String → ProtoType → ProtoType → Result ProtoType
map_of name key value =
    if is_scalar key
      && not (string key == "bytes")
      && not (string key == "double")
      && not (string key == "float")
    then ok (map_type name key value)
    else err illegal_argument

-- how `get2` reads a name that is no scalar
pub data Syntax : Type 0 where
  no_name plain no_comma : Syntax
  map_syntax : String → String → Syntax

abbrev pub at_comma : Option (String × String) → Syntax
at_comma none = no_comma
at_comma (some (before, after)) = map_syntax (strip (drop_first 4 before)) (strip (drop_last after))

abbrev pub syntax_of : String → Syntax
syntax_of name =
    if name == "" || is_some (split_last hash_sign name)
    then no_name
    else if starts_with "map<" name && ends_with ">" name
    then at_comma (split_last comma name)
    else plain

-- the rest of `get2`, which calls itself on the parts of a map
abbrev pub read_syntax : (String → Result ProtoType) → String → Syntax → Result ProtoType
read_syntax get2 name no_name = err illegal_argument
read_syntax get2 name plain = ok (named name)
read_syntax get2 name no_comma = err illegal_argument
read_syntax get2 name (map_syntax key value) =
    get2 key >>= (λ key'. get2 value >>= (λ value'. map_of name key' value'))

-- `get2`, on fuel: the parts' names are shorter than the map's
unfoldable pub get2_from : ℕ → String → Result ProtoType
get2_from zero name = err recursion_error
get2_from (suc fuel) name =
    if elem name scalar_types
    then ok (scalar name)
    else read_syntax (get2_from fuel) name (syntax_of name)

abbrev pub get2 : String → Result ProtoType
get2 name = get2_from (suc (chars name)) name

-- `simple_name`
abbrev pub simple_name : String → String
simple_name s = elim (split_last dot s) [ none ↦ s | some (before, after) ↦ after ]

pub data CompatibilityKind : Type 0 where
  variant svariant fixed64 length_delimited fixed32 double float : CompatibilityKind

abbrev pub kind_code : CompatibilityKind → ℕ
kind_code variant = 1
kind_code svariant = 2
kind_code fixed64 = 3
kind_code length_delimited = 4
kind_code fixed32 = 5
kind_code double = 6
kind_code float = 7

-- the table of `compatibility_kind`
unfoldable pub kind_of : String → Option CompatibilityKind
kind_of s =
    if elem s ("int32" ∷ "int64" ∷ "uint32" ∷ "uint64" ∷ "bool" ∷ [])
    then some variant
    else if elem s ("sint32" ∷ "sint64" ∷ [])
    then some svariant
    else if s == "double"
    then some double
    else if elem s ("fixed64" ∷ "sfixed64" ∷ [])
    then some fixed64
    else if s == "float"
    then some float
    else if elem s ("fixed32" ∷ "sfixed32" ∷ [])
    then some fixed32
    else if elem s ("string" ∷ "bytes" ∷ [])
    then some length_delimited
    else none

unfoldable pub compatibility_kind : Bool → ProtoType → Result CompatibilityKind
unfolding split_last kind_of
compatibility_kind is_enum t =
    if is_enum then ok variant else or_raise (kind_of (simple_name (string t))) illegal_argument
