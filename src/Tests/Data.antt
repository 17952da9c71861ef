-- ===== src/Tests/Data.antt =====
-- The services, schemas and databases of the tests.
use karapace.Prelude.{true, false, ◌&&◌, none, [], ◌++◌, String, ◌==◌, string_eq}
use karapace.Version.{number}
use karapace.Outcome.{ok}
use karapace.Schema.{avro, jsonschema, Reference, TypedSchema}
use karapace.Database.{Database, empty, insert_schema_version}
use karapace.Database.Invariant.{IsWellFormed, IsWellFormed-empty, insert-IsWellFormed}
use karapace.Compatibility.{SchemaCompatibilityResult, Checkers, ParsedTypedSchema}
use karapace.Reader.Handlers.{Services, Core}
use karapace.Registry.{Registry}

-- a text as its own hash
abbrev pub plain_hash : String → String
plain_hash s = s

-- every schema parses, and every text is normal
abbrev pub plain_services : Services TypedSchema
plain_services = record { hash = plain_hash; parse = λ t d. ok t; normalize = λ t s refs d. ok s }

abbrev pub user : TypedSchema
user = record { schema_type = avro; schema_str = "user"; references = none }

abbrev pub order : TypedSchema
order = record { schema_type = avro; schema_str = "order"; references = none }

abbrev pub user_in_json : TypedSchema
user_in_json = record { schema_type = jsonschema; schema_str = "user"; references = none }

abbrev pub to_users : Reference
to_users = record { name = "user"; subject = "users"; version = number 1 }

-- one subject with one version
abbrev pub one_user : Database
one_user = insert_schema_version plain_hash "users" 1 (number 1) false user none empty

pub one_user-IsWellFormed : IsWellFormed plain_hash one_user
one_user-IsWellFormed =
    insert-IsWellFormed plain_hash (IsWellFormed-empty plain_hash) "users" 1 (number 1) false user
      none

-- the same subject with a second version of the same schema
abbrev pub two_users : Database
two_users = insert_schema_version plain_hash "users" 1 (number 2) false user none one_user

abbrev pub core_of : Database → Core
core_of db = record { database = db; compatibility = "BACKWARD" }

abbrev pub registry_of : Database → Registry
registry_of db = record { core = core_of db; sent = [] }

-- the database of one version that is soft deleted
abbrev pub one_deleted : Database
one_deleted = insert_schema_version plain_hash "users" 1 (number 1) true user none empty

abbrev pub parsed : TypedSchema → ParsedTypedSchema TypedSchema
parsed t = record { typed = t; parsed = t }

-- a checker that wants the same text, and a `merge` that joins verdicts
abbrev pub same_text : TypedSchema → TypedSchema → SchemaCompatibilityResult
same_text t u = record { is_compatible = t.schema_str == u.schema_str; messages = [] }

abbrev pub same_type_checkers : Checkers TypedSchema
same_type_checkers = record {
  check_avro = same_text;
  check_jsonschema = same_text;
  check_protobuf = same_text;
  merge = λ a b. record {
    is_compatible = a.is_compatible && b.is_compatible;
    messages = a.messages ++ b.messages;
  };
}
