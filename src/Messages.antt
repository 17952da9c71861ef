-- ===== src/Messages.antt =====
-- The records of the schemas topic: src/karapace/core/schema_registry.py builds them and
-- core/schema_reader.py reads them. A decoded JSON object is a dictionary of the values below; a
-- field that holds another JSON type than the program writes there is a TypeError of the model.
use karapace.Prelude.{
  ℕ, Bool, Option, none, some, List, [], ◌∷◌, map, String, string_eq, ℤ, pos, is_empty,
  if◌then◌else◌,
}
use karapace.Dict.{Dict, get}
use karapace.Version.{Version, value}
use karapace.Outcome.{Result, ok, err, key_error, type_error}
use karapace.Schema.{SchemaType, avro, jsonschema, protobuf, Reference, TypedSchema}
use karapace.Compatibility.{CompatibilityMode, mode_value}

-- A reference as a JSON object: its name, subject and version.
abbrev pub RawReference : Type 0
RawReference = String × String × ℤ

-- A JSON value, as far as the records use them.
pub data Json : Type 0 where
  null : Json
  bool : Bool → Json
  int : ℤ → Json
  text : String → Json
  references : List RawReference → Json

abbrev pub JsonObject : Type 0
JsonObject = Dict String Json

abbrev as_text : Option Json → Result String
as_text none = err key_error
as_text (some (text s)) = ok s
as_text (some _) = err type_error

abbrev as_int : Option Json → Result ℤ
as_int none = err key_error
as_int (some (int n)) = ok n
as_int (some _) = err type_error

abbrev as_optional_text : Option Json → Result (Option String)
as_optional_text none = ok none
as_optional_text (some null) = ok none
as_optional_text (some (text s)) = ok (some s)
as_optional_text (some _) = err type_error

abbrev as_bool_or : Bool → Option Json → Result Bool
as_bool_or d none = ok d
as_bool_or d (some (bool b)) = ok b
as_bool_or d (some _) = err type_error

abbrev as_optional_references : Option Json → Result (Option (List RawReference))
as_optional_references none = ok none
as_optional_references (some null) = ok none
as_optional_references (some (references rs)) = ok (some rs)
as_optional_references (some _) = err type_error

-- `d[k]` of a text, of an integer; `d.get(k)` of a text, a flag, and references
unfoldable pub text_at : String → JsonObject → Result String
text_at k d = as_text (get k d)

unfoldable pub int_at : String → JsonObject → Result ℤ
int_at k d = as_int (get k d)

unfoldable pub text_if_any : String → JsonObject → Result (Option String)
text_if_any k d = as_optional_text (get k d)

unfoldable pub bool_or : Bool → String → JsonObject → Result Bool
bool_or d k o = as_bool_or d (get k o)

unfoldable pub references_if_any : String → JsonObject → Result (Option (List RawReference))
references_if_any k o = as_optional_references (get k o)

-- A message that the producer sends; a value of none is sent as no bytes.
pub record Message : Type 0 where
  pub key : JsonObject
  pub payload : Option JsonObject

-- `SchemaType.value`
unfoldable pub type_value : SchemaType → String
type_value avro = "AVRO"
type_value jsonschema = "JSON"
type_value protobuf = "PROTOBUF"

-- `Reference.to_dict`
abbrev pub to_dict : Reference → RawReference
to_dict r = (r.name, r.subject, value r.version)

-- `if references: value["references"] = …`
abbrev references_entry : Option (List Reference) → JsonObject → JsonObject
references_entry none rest = rest
references_entry (some refs) rest =
    if is_empty refs then rest else ("references", references (map to_dict refs)) ∷ rest

-- `if schema.schema_type is not SchemaType.AVRO: value["schemaType"] = …`
abbrev type_entry : SchemaType → JsonObject
type_entry avro = []
type_entry jsonschema = ("schemaType", text "JSON") ∷ []
type_entry protobuf = ("schemaType", text "PROTOBUF") ∷ []

-- the value of a message with a schema
abbrev schema_payload :
    String → TypedSchema → ℕ → Version → Bool → Option (List Reference) → JsonObject
schema_payload subject schema schema_id version deleted references' =
    ("subject", text subject)
    ∷ ("version", int (value version))
    ∷ ("id", int (pos schema_id))
    ∷ ("schema", text schema.schema_str)
    ∷ ("deleted", bool deleted)
    ∷ references_entry references' (type_entry schema.schema_type)

-- the message of `send_schema_message`
unfoldable pub schema_message :
    String → Option TypedSchema → ℕ → Version → Bool → Option (List Reference) → Message
schema_message subject schema schema_id version deleted references' = record {
  key =
      ("subject", text subject)
      ∷ ("version", int (value version))
      ∷ ("magic", int (pos 1))
      ∷ ("keytype", text "SCHEMA")
      ∷ [];
  payload = elim schema [
    | none ↦ none
    | some s ↦ some (schema_payload subject s schema_id version deleted references')
  ];
}

abbrev optional_text : Option String → Json
optional_text none = null
optional_text (some s) = text s

abbrev config_key : Option String → JsonObject
config_key subject =
    ("subject", optional_text subject) ∷ ("magic", int (pos 0)) ∷ ("keytype", text "CONFIG") ∷ []

-- the message of `send_config_message`
unfoldable pub config_message : CompatibilityMode → Option String → Message
unfolding mode_value
config_message level subject = record {
  key = config_key subject;
  payload = some (("compatibilityLevel", text (mode_value level)) ∷ []);
}

-- the message of `send_config_subject_delete_message`
unfoldable pub config_delete_message : String → Message
config_delete_message subject = record { key = config_key (some subject); payload = none }

-- the message of `send_delete_subject_message`
unfoldable pub delete_subject_message : String → Version → Message
delete_subject_message subject version = record {
  key =
      ("subject", text subject) ∷ ("magic", int (pos 0)) ∷ ("keytype", text "DELETE_SUBJECT") ∷ [];
  payload = some (("subject", text subject) ∷ ("version", int (value version)) ∷ []);
}
