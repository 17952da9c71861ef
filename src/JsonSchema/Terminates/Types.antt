-- ===== src/JsonSchema/Terminates/Types.antt =====
-- The functions that find the subschemas and the type of a schema end.
use karapace.Prelude.{Option, none, some, List, string_eq, arith}
use karapace.Outcome.{Returns, Result, ok, err}
use karapace.JsonSchema.Json.{JsonValue, null, text, array, object, Members, get}
use karapace.JsonSchema.Types.{Keyword, Subschema, subschema_value}
use karapace.JsonSchema.Utils.{
  keyword_at, subschemas_at, or_next, not_schema, subschemas_of_keyword, get_keyword_subschemas,
  get_member_subschemas, maybe_get_subschemas_and_type, instance_of, type_of_members, get_type_of,
  is_simple_subschema,
}
use karapace.JsonSchema.Terminates.Runs.{bind_any-Returns}

subschemas_at-Returns : (t : Subschema) (v : JsonValue) → Returns (subschemas_at t v)
subschemas_at-Returns t null = tt
subschemas_at-Returns t (array vs) = tt
subschemas_at-Returns t _ = tt

or_next-Returns :
    (m n : Result (Option (List JsonValue × Subschema)))
    → Returns m
    → Returns n
    → Returns (or_next m n)
or_next-Returns (ok none) n hm hn = hn
or_next-Returns (ok (some found)) n hm hn = tt
or_next-Returns (err x) n hm hn = hm

subschemas_of_keyword-Returns : (t : Subschema) (m : Members) → Returns (subschemas_of_keyword t m)
unfolding subschemas_of_keyword
subschemas_of_keyword-Returns t m = subschemas_at-Returns t (get (subschema_value t) m)

get_keyword_subschemas-Returns : (m : Members) → Returns (get_keyword_subschemas m)
unfolding get_keyword_subschemas
get_keyword_subschemas-Returns m =
    let last : Result (Option (List JsonValue × Subschema)) =
      ok (not_schema (get (subschema_value Subschema.not) m)) in
    let one : Result (Option (List JsonValue × Subschema)) =
      or_next (subschemas_of_keyword Subschema.one_of m) last in
    or_next-Returns (subschemas_of_keyword Subschema.all_of m)
      (or_next (subschemas_of_keyword Subschema.any_of m) one)
      (subschemas_of_keyword-Returns Subschema.all_of m)
      (or_next-Returns (subschemas_of_keyword Subschema.any_of m) one
        (subschemas_of_keyword-Returns Subschema.any_of m)
        (or_next-Returns (subschemas_of_keyword Subschema.one_of m) last
          (subschemas_of_keyword-Returns Subschema.one_of m) tt))

get_member_subschemas-Returns : (t : JsonValue) (m : Members) → Returns (get_member_subschemas t m)
unfolding get_member_subschemas
get_member_subschemas-Returns (array ts) m = tt
get_member_subschemas-Returns _ m = get_keyword_subschemas-Returns m

pub maybe_get_subschemas_and_type-Returns :
    (v : JsonValue) → Returns (maybe_get_subschemas_and_type v)
unfolding maybe_get_subschemas_and_type
maybe_get_subschemas_and_type-Returns (object m) = get_member_subschemas-Returns _ m
maybe_get_subschemas_and_type-Returns _ = tt

instance_of-Returns : (v : JsonValue) → Returns (instance_of v)
instance_of-Returns (text s) = ground arith
instance_of-Returns _ = tt

type_of_members-Returns :
    (found : Option (List JsonValue × Subschema)) (m : Members) → Returns (type_of_members found m)
unfolding type_of_members
type_of_members-Returns (some (vs, t)) m = tt
type_of_members-Returns none m = ground (arith, instance_of-Returns (keyword_at Keyword.type m))

pub get_type_of-Returns : (v : JsonValue) → Returns (get_type_of v)
unfolding get_type_of
get_type_of-Returns (object m) =
    bind_any-Returns (maybe_get_subschemas_and_type (object m)) _
      (maybe_get_subschemas_and_type-Returns (object m)) (λ found. type_of_members-Returns found m)
get_type_of-Returns _ = tt

pub is_simple_subschema-Returns : (v : JsonValue) → Returns (is_simple_subschema v)
unfolding is_simple_subschema
is_simple_subschema-Returns v =
    bind_any-Returns (maybe_get_subschemas_and_type v) _ (maybe_get_subschemas_and_type-Returns v)
      (λ found. tt)
