-- ===== src/Reader/Handlers.antt =====
-- `handle_msg` of `KafkaSchemaReader` and the handlers that it calls. A handler gives back the state
-- beside an exception too, with what it wrote before. `Services` holds the library code: SHA-1, the
-- parsers, and `normalize`, the text that `TypedSchema.__init__` stores for a schema.
use karapace.Prelude.{
  ℕ, true, false, Option, none, some, List, [], ◌∷◌, String, ℤ, pos, negsuc, is_empty, is_some,
  string_eq, ◌==◌, if◌then◌else◌,
}
use karapace.Dict.{Dict, get, contains}
use karapace.Version.{version_eq}
use karapace.Version.Versioner.{init}
use karapace.Outcome.{
  key_error, value_error, type_error, invalid_schema, invalid_references, Result, ok, err, ◌>>=◌,
  or_raise,
}
use karapace.Schema.{
  SchemaType, avro, jsonschema, protobuf, Reference, AnyReference, reference_from_mapping,
  TypedSchema,
}
use karapace.Database.{
  Database, find_subject, find_subject_schemas, insert_subject, put_compatibility, delete_subject,
  delete_subject_schema, delete_subject_hard, insert_schema_version,
}
use karapace.Resolve.{Dependency, resolve_references}
use karapace.Messages.{
  Json, text, JsonObject, RawReference, text_at, int_at, text_if_any, bool_or, references_if_any,
}

pub record Services (S : Type 0) : Type 0 where
  pub hash : String → String
  pub parse : TypedSchema → Dict String (Dependency S) → Result S
  pub normalize :
      SchemaType → String → Option (List Reference) → Dict String (Dependency S) → Result String

-- What the reader shares with the registry: the database and the global compatibility.
pub record Core : Type 0 where
  pub database : Database
  pub compatibility : String

-- an object with no entries is false, as `None` is
abbrev pub truthy : Option JsonObject → Option JsonObject
truthy none = none
truthy (some o) = if is_empty o then none else some o

-- a change of the database that may raise, in the shared state
abbrev pub on_database : Core → Result Database → Result (Unit {0}) × Core
on_database core (ok db) = (ok tt, record core { database = db })
on_database core (err x) = (err x, core)

-- the `else` branch of `_handle_msg_config`
abbrev pub set_level : String → Core → Result String → Result (Unit {0}) × Core
set_level subject core (ok level) =
    (ok tt, record core { database = put_compatibility subject (some level) core.database })
set_level subject core (err x) = (err x, core)

abbrev pub set_global_level : Core → Result String → Result (Unit {0}) × Core
set_global_level core (ok level) = (ok tt, record core { compatibility = level })
set_global_level core (err x) = (err x, core)

abbrev pub with_subject : String → Core → Core
with_subject subject core =
    if is_some (find_subject subject core.database)
    then core
    else record core { database = insert_subject subject core.database }

abbrev pub config_of : Option JsonObject → Core → Result (Option String) → Result (Unit {0}) × Core
config_of payload core (err x) = (err x, core)
config_of payload core (ok (some subject)) = elim (truthy payload) [
  | none ↦ (
    ok tt,
    record core { database = put_compatibility subject none (with_subject subject core).database },
  )
  | some o ↦ set_level subject (with_subject subject core) (text_at "compatibilityLevel" o)
]
config_of payload core (ok none) = elim payload [
  | none ↦ (ok tt, core)
  | some o ↦ set_global_level core (text_at "compatibilityLevel" o)
]

-- `_handle_msg_config`
unfoldable pub handle_config : JsonObject → Option JsonObject → Core → Result (Unit {0}) × Core
unfolding find_subject
handle_config key payload core = config_of payload core (text_if_any "subject" key)

module _ {S : Type 0} (services : Services S) where
  -- `_handle_msg_delete_subject`
  unfoldable pub delete_subject_of : Option JsonObject → Database → Result Database
  unfolding find_subject init
  delete_subject_of payload db = do
    o ← or_raise payload value_error
    subject ← text_at "subject" o
    n ← int_at "version" o
    version ← init n
    if is_some (find_subject subject db)
        then delete_subject services.hash subject version db
        else ok db

  -- the end of `_handle_msg_schema_hard_delete`: a subject with no version left goes too
  abbrev pub drop_if_empty : String → Database → Result Database
  drop_if_empty subject db =
      if is_empty (find_subject_schemas subject true db)
      then delete_subject_hard subject db
      else ok db

  -- `_handle_msg_schema_hard_delete`
  unfoldable pub hard_delete_of : JsonObject → Database → Result Database
  unfolding find_subject init
  hard_delete_of key db = do
    subject ← text_at "subject" key
    n ← int_at "version" key
    version ← init n
    if is_some (find_subject subject db)
        then (if contains version (find_subject_schemas subject true db)
            then (do
              db' ← delete_subject_schema services.hash subject version db
              drop_if_empty subject db')
            else ok db)
        else ok db

  -- `SchemaType(schema_type)`, of `value.get("schemaType", "AVRO")`
  unfoldable pub type_of : Option Json → Result SchemaType
  type_of none = ok avro
  type_of (some (text s)) =
      if s == "AVRO"
      then ok avro
      else if s == "JSON"
      then ok jsonschema
      else if s == "PROTOBUF"
      then ok protobuf
      else err invalid_schema
  type_of (some _) = err invalid_schema

  abbrev pub natural : ℤ → Result ℕ
  natural (pos n) = ok n
  natural (negsuc n) = err type_error

  -- `[reference_from_mapping(r) for r in schema_references]`
  abbrev pub candidates : List RawReference → Result (List AnyReference)
  candidates [] = ok []
  candidates ((name, subject, version) ∷ rest) = do
    r ← reference_from_mapping name subject version
    rs ← candidates rest
    ok (r ∷ rs)

  -- `except InvalidReferences`
  abbrev invalid_references→schema : {A : Type 0} → Result A → Result A
  invalid_references→schema (ok a) = ok a
  invalid_references→schema (err invalid_references) = err invalid_schema
  invalid_references→schema (err x) = err x

  -- the references of the schema, resolved: those of a JSON schema are not read
  unfoldable pub resolved_for :
      ℕ
      → SchemaType
      → Option (List RawReference)
      → Database
      → Result (Option (List Reference) × Dict String (Dependency S))
  unfolding reference_from_mapping resolve_references
  resolved_for fuel jsonschema raw db = ok (none, [])
  resolved_for fuel t none db = ok (none, [])
  resolved_for fuel t (some raw) db =
      if is_empty raw
      then ok (none, [])
      else invalid_references→schema (do
        refs ← candidates raw
        (resolved, dependencies) ← resolve_references services.parse fuel db refs
        ok (some resolved, dependencies))

  -- `_handle_msg_schema` with a value
  unfoldable pub insert_of : ℕ → JsonObject → Database → Result Database
  unfolding type_of init
  insert_of fuel o db = do
    schema_str ← text_at "schema" o
    subject ← text_at "subject" o
    i ← int_at "id" o
    schema_id ← natural i
    n ← int_at "version" o
    version ← init n
    deleted ← bool_or false "deleted" o
    raw ← references_if_any "references" o
    t ← type_of (get "schemaType" o)
    (resolved, dependencies) ← resolved_for fuel t raw db
    normal ← services.normalize t schema_str resolved dependencies
    ok (
        insert_schema_version services.hash subject schema_id version deleted
          (record { schema_type = t; schema_str = normal; references = resolved }) resolved db)

  -- `_handle_msg_schema`
  unfoldable pub handle_schema : ℕ → JsonObject → Option JsonObject → Database → Result Database
  handle_schema fuel key payload db = elim (truthy payload) [
    | none ↦ hard_delete_of key db
    | some o ↦ insert_of fuel o db
  ]

  -- `except (KeyError, ValueError)` of `handle_msg`
  abbrev pub discard : Result (Unit {0}) × Core → Result (Unit {0}) × Core
  discard (ok u, core) = (ok u, core)
  discard (err key_error, core) = (err invalid_schema, core)
  discard (err value_error, core) = (err invalid_schema, core)
  discard (err x, core) = (err x, core)

  -- the branches on `MessageType(key["keytype"])`
  unfoldable pub handle_keytype :
      ℕ → Result String → JsonObject → Option JsonObject → Core → Result (Unit {0}) × Core
  unfolding handle_schema
  handle_keytype fuel (err x) key payload core = (err x, core)
  handle_keytype fuel (ok keytype) key payload core =
      if keytype == "CONFIG"
      then handle_config key payload core
      else if keytype == "SCHEMA"
      then on_database core (handle_schema fuel key payload core.database)
      else if keytype == "DELETE_SUBJECT"
      then on_database core (delete_subject_of payload core.database)
      else if keytype == "NOOP"
      then (ok tt, core)
      else (err value_error, core)

  -- `handle_msg`
  unfoldable pub handle_msg : ℕ → JsonObject → Option JsonObject → Core → Result (Unit {0}) × Core
  unfolding handle_keytype
  handle_msg fuel key payload core =
      if contains "keytype" key
      then discard (handle_keytype fuel (text_at "keytype" key) key payload core)
      else (err invalid_schema, core)
