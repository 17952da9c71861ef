-- ===== src/JsonSchema/Normalize.antt =====
-- `normalize_schema` of src/karapace/core/compatibility/jsonschema/utils.py, and `compatibility` of checks.py.
-- The resolver of the jsonschema package is a parameter: its scopes are a list, the innermost first.
pub mod Plain
use karapace.Prelude.{
  ℕ, zero, suc, Bool, true, false, List, [], ◌∷◌, String, string_eq, ◌==◌, if◌then◌else◌,
}
use karapace.Outcome.{Result, ok, err, type_error, recursion_error, ◌>>=◌}
use karapace.JsonSchema.Json.{
  JsonValue, null, bool, number, text, array, object, Items, no_items, item, Members, no_members,
  member,
}
use karapace.JsonSchema.Types.{Keyword, CompatibilityResult, Packages}
use karapace.JsonSchema.Utils.{keyword_at}
use karapace.JsonSchema.Recursion.{compatibility_rec}

-- a validator: its schema, `ID_OF`, and its resolver with the scopes that it starts with, `push_scope` and
-- `resolve`
pub record Validator : Type 0 where
  pub schema : JsonValue
  pub scopes : List String
  pub id_of : Members → String
  pub push_scope : String → List String → List String
  pub resolve_ref : List String → String → Result (String × JsonValue)

-- `normalized.update(schema)` of an empty dict; a list of pairs, which is no schema, is left out, and what
-- else is no dict is a TypeError
abbrev updated : JsonValue → Result JsonValue
updated (object m) = ok (object m)
updated _ = err type_error

module _ (validator : Validator) where
  -- the scope of a schema is pushed unless it is empty
  abbrev pub scopes_of : Members → List String → List String
  scopes_of m scopes =
      if validator.id_of m == "" then scopes else validator.push_scope (validator.id_of m) scopes

  module _ (visit : List String → JsonValue → Result JsonValue) where
    unfoldable pub normalize_members : List String → Members → Result Members
    normalize_members scopes no_members = ok no_members
    normalize_members scopes (member k v m) =
        visit scopes v >>= (λ w. normalize_members scopes m >>= (λ n. ok (member k w n)))

    unfoldable pub normalize_items : List String → Items → Result Items
    normalize_items scopes no_items = ok no_items
    normalize_items scopes (item v vs) =
        visit scopes v >>= (λ w. normalize_items scopes vs >>= (λ ws. ok (item w ws)))

    -- a dict whose `$ref` is given; a reference that is no text raises in the resolver
    unfoldable pub normalize_reference : JsonValue → List String → Members → Result JsonValue
    unfolding normalize_members
    normalize_reference null scopes m = normalize_members scopes m >>= (λ n. ok (object n))
    normalize_reference (text ref) scopes m =
        validator.resolve_ref scopes ref >>= (λ (resolved : String × JsonValue).
          visit (validator.push_scope resolved.0 scopes) resolved.1 >>= updated)
    normalize_reference _ scopes m = err type_error

  -- `normalize_schema_rec`, with fuel for the depth of the calls
  unfoldable pub normalize_schema_rec : ℕ → List String → JsonValue → Result JsonValue
  unfolding normalize_reference normalize_items keyword_at
  normalize_schema_rec zero scopes schema = err recursion_error
  normalize_schema_rec (suc fuel) scopes (object m) =
      normalize_reference (normalize_schema_rec fuel) (keyword_at Keyword.ref m)
        (scopes_of m scopes) m
  normalize_schema_rec (suc fuel) scopes (array vs) =
      normalize_items (normalize_schema_rec fuel) scopes vs >>= (λ ws. ok (array ws))
  normalize_schema_rec (suc fuel) scopes schema = ok schema

  -- `normalize_schema`
  unfoldable pub normalize_schema : ℕ → Result JsonValue
  unfolding normalize_schema_rec
  normalize_schema fuel = normalize_schema_rec fuel validator.scopes validator.schema

-- `compatibility`
unfoldable pub compatibility : Packages → ℕ → ℕ → Validator → Validator → Result CompatibilityResult
unfolding normalize_schema compatibility_rec
compatibility p depth fuel reader writer = normalize_schema reader depth >>= (λ reader_schema.
    normalize_schema writer depth
    >>= (λ writer_schema. compatibility_rec p fuel reader_schema writer_schema []))
