-- ===== src/JsonSchema/Utils.antt =====
-- src/karapace/core/compatibility/jsonschema/utils.py: subschemas and types of schemas.
use karapace.Prelude.{
  Bool, false, Option, none, some, List, [], ◌∷◌, String, string_eq, ◌==◌, length, eqb,
  if◌then◌else◌,
}
use karapace.Outcome.{Result, ok, err, value_error, runtime_error, assertion_error, ◌>>=◌}
use karapace.JsonSchema.Json.{
  JsonValue, null, bool, number, text, array, object, Members, is_truthy, list_elements, has_member,
  get, get_or_else, put,
}
use karapace.JsonSchema.Types.{
  Keyword, keyword_value, Instance, instance_value, Subschema, subschema_value, JsonschemaTypes,
  instance_type, subschema_type, keyword_type, boolean_schema,
}

-- `schema.get(keyword.value)`
unfoldable pub keyword_at : Keyword → Members → JsonValue
unfolding keyword_value get_or_else
keyword_at k m = get (keyword_value k) m

-- `schema.get(keyword.value, d)`
unfoldable pub keyword_or : Keyword → JsonValue → Members → JsonValue
unfolding keyword_value get_or_else
keyword_or k d m = get_or_else (keyword_value k) d m

-- the schemas of a list of types
unfoldable pub with_types : List JsonValue → Members → List JsonValue
unfolding keyword_value put
with_types [] m = []
with_types (t ∷ ts) m = object (put (keyword_value Keyword.type) t m) ∷ with_types ts m

-- the subschemas of a keyword that has a value, which must be an array
abbrev pub subschemas_at : Subschema → JsonValue → Result (Option (List JsonValue × Subschema))
subschemas_at type_ null = ok none
subschemas_at type_ (array vs) = ok (some (list_elements vs, type_))
subschemas_at type_ _ = err assertion_error

-- one look after another, up to the first that finds something
abbrev pub or_next :
    Result (Option (List JsonValue × Subschema))
    → Result (Option (List JsonValue × Subschema))
    → Result (Option (List JsonValue × Subschema))
or_next (ok none) next = next
or_next found next = found

-- the subschema of `not`
abbrev pub not_schema : JsonValue → Option (List JsonValue × Subschema)
not_schema null = none
not_schema v = some (v ∷ [], Subschema.not)

unfoldable pub subschemas_of_keyword :
    Subschema → Members → Result (Option (List JsonValue × Subschema))
unfolding subschema_value get_or_else
subschemas_of_keyword type_ m = subschemas_at type_ (get (subschema_value type_) m)

unfoldable pub get_keyword_subschemas : Members → Result (Option (List JsonValue × Subschema))
unfolding subschema_value get_or_else subschemas_of_keyword
get_keyword_subschemas m = or_next (subschemas_of_keyword Subschema.all_of m) (
    or_next (subschemas_of_keyword Subschema.any_of m) (
      or_next (subschemas_of_keyword Subschema.one_of m)
        (ok (not_schema (get (subschema_value Subschema.not) m)))))

-- the subschemas of a dict whose `type` is given
unfoldable pub get_member_subschemas :
    JsonValue → Members → Result (Option (List JsonValue × Subschema))
unfolding subschema_value get_or_else keyword_value put with_types get_keyword_subschemas
get_member_subschemas (array types) m =
    ok (some (with_types (list_elements types) m, Subschema.any_of))
get_member_subschemas _ m = get_keyword_subschemas m

-- `maybe_get_subschemas_and_type`
unfoldable pub maybe_get_subschemas_and_type :
    JsonValue → Result (Option (List JsonValue × Subschema))
unfolding subschema_value get_or_else keyword_value put keyword_at get_member_subschemas
maybe_get_subschemas_and_type (object m) = get_member_subschemas (keyword_at Keyword.type m) m
maybe_get_subschemas_and_type _ = ok none

-- `Instance(value)`
abbrev pub instance_of_text : String → Result Instance
instance_of_text s =
    if s == "null"
    then ok Instance.null
    else if s == "boolean"
    then ok Instance.boolean
    else if s == "number"
    then ok Instance.number
    else if s == "string"
    then ok Instance.string
    else if s == "integer"
    then ok Instance.integer
    else if s == "object"
    then ok Instance.object
    else if s == "array"
    then ok Instance.array
    else err value_error

abbrev pub instance_of : JsonValue → Result Instance
instance_of (text s) = instance_of_text s
instance_of _ = err value_error

-- the type of a dict: of its subschemas, of `type`, of `enum`, or an object
unfoldable pub type_of_members :
    Option (List JsonValue × Subschema) → Members → Result JsonschemaTypes
unfolding keyword_at keyword_value
type_of_members (some (vs, t)) m = ok (subschema_type t)
type_of_members none m =
    if is_truthy (keyword_at Keyword.type m)
    then instance_of (keyword_at Keyword.type m) >>= (λ i. ok (instance_type i))
    else if has_member (keyword_value Keyword.enum) m
    then ok (keyword_type Keyword.enum)
    else ok (instance_type Instance.object)

-- `get_type_of`
unfoldable pub get_type_of : JsonValue → Result JsonschemaTypes
unfolding maybe_get_subschemas_and_type keyword_at keyword_value type_of_members
get_type_of null = ok (instance_type Instance.null)
get_type_of (text s) = err runtime_error
get_type_of (bool b) = ok boolean_schema
get_type_of (array vs) = err runtime_error
get_type_of (object m) =
    maybe_get_subschemas_and_type (object m) >>= (λ found. type_of_members found m)
get_type_of (number n) = err value_error

-- `get_name_of`
unfoldable pub get_name_of : JsonschemaTypes → String
unfolding instance_value subschema_value keyword_value
get_name_of (instance_type i) = instance_value i
get_name_of (subschema_type t) = subschema_value t
get_name_of (keyword_type k) = keyword_value k
get_name_of boolean_schema = ""

abbrev is_single : Option (List JsonValue × Subschema) → Bool
is_single none = false
is_single (some (vs, t)) = eqb (length vs) 1

-- `is_simple_subschema`
unfoldable pub is_simple_subschema : JsonValue → Result Bool
unfolding maybe_get_subschemas_and_type
is_simple_subschema schema =
    maybe_get_subschemas_and_type schema >>= (λ found. ok (is_single found))
