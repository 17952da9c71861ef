-- ===== src/Registry/Reads.antt =====
-- The operations of the registry that read.
use karapace.Prelude.{
  ℕ, Bool, true, Option, none, some, List, [], ◌∷◌, String, ◌==◌, string_eq, is_empty, last_of,
  get_or, ℤ, if◌then◌else◌,
}
use karapace.Dict.{Dict, get, keys, values}
use karapace.Version.{Version, version_eq, value, version_leb}
use karapace.Version.Versioner.{from_schema_versions}
use karapace.Outcome.{
  Result, ok, err, ◌>>=◌, or_raise, key_error, value_error, subject_not_found, schemas_not_found,
  version_not_found,
}
use karapace.Schema.{SchemaType, avro, Reference, TypedSchema, SchemaVersion}
use karapace.Database.{
  Database, find_subject, find_subjects, find_subject_schemas, find_schema, find_schemas,
  get_subject_compatibility, get_referenced_by, live_items,
}
use karapace.Resolve.{resolve_and_parse}
use karapace.Compatibility.{
  CompatibilityMode, mode_of, is_transitive, SchemaCompatibilityResult, compatible, is_incompatible,
  ParsedTypedSchema, Checkers, check_compatibility,
}
use karapace.Reader.Handlers.{Services, Core}

-- `subjects_list`
unfoldable pub subjects_list : Bool → Database → List String
unfolding find_subjects
subjects_list include_deleted db = find_subjects include_deleted db

-- `get_schemas`
unfoldable pub get_schemas : String → Bool → Database → List SchemaVersion
get_schemas subject include_deleted db = values (find_subject_schemas subject include_deleted db)

-- `get_compatibility_mode`: the subject's level, else the global one
unfoldable pub get_compatibility_mode : String → Core → Result CompatibilityMode
unfolding mode_of
get_compatibility_mode subject core =
    or_raise (mode_of (get_or (get_subject_compatibility subject core.database) core.compatibility))
      value_error

-- `schemas_list`
unfoldable pub schemas_list : Bool → Bool → Database → Dict String (List SchemaVersion)
unfolding find_schemas
schemas_list include_deleted latest_only db = find_schemas include_deleted latest_only db

-- `schemas_get`: the schema, and the global id where it is asked for
unfoldable pub schemas_get : ℕ → Bool → Database → Option (TypedSchema × Option ℕ)
schemas_get schema_id fetch_max_id db = elim (find_schema schema_id db) [
  | err x ↦ none
  | ok schema ↦ some (schema, (if fetch_max_id then some db.global_schema_id else none))
]

-- `subject_get`
unfoldable pub subject_get : String → Bool → Database → Result (Dict Version SchemaVersion)
subject_get subject include_deleted db = elim (find_subject subject db) [
  | none ↦ err subject_not_found
  | some _ ↦
      let schemas = find_subject_schemas subject include_deleted db in
      if is_empty schemas then err schemas_not_found else ok schemas
]

-- the first lines of the three operations on one version: its entry, if it is there
unfoldable pub resolve_version : String → Version → Bool → Database → Result SchemaVersion
unfolding subject_get from_schema_versions
resolve_version subject version include_deleted db = do
  schema_versions ← subject_get subject include_deleted db
  resolved ← from_schema_versions schema_versions version
  or_raise (get resolved schema_versions) version_not_found

-- The JSON object of `subject_version_get`, whose last three entries may be missing.
pub record SubjectVersion : Type 0 where
  pub subject : String
  pub version : ℤ
  pub id : ℕ
  pub schema : String
  pub references : Option (List Reference)
  pub schema_type : Option SchemaType
  pub compatibility : Option String

abbrev type_if_not_avro : SchemaType → Option SchemaType
type_if_not_avro avro = none
type_if_not_avro t = some t

-- `if compatibility:`, where an empty text is false
abbrev nonempty_text : Option String → Option String
nonempty_text none = none
nonempty_text (some s) = if s == "" then none else some s

-- `subject_version_get`
unfoldable pub subject_version_get : String → Version → Bool → Database → Result SubjectVersion
unfolding subject_get from_schema_versions
subject_version_get subject version include_deleted db = do
  schema_versions ← subject_get subject include_deleted db
  resolved ← from_schema_versions schema_versions version
  found ← or_raise (get resolved schema_versions) version_not_found
  ok (record {
    subject = subject;
    version = value resolved;
    id = found.schema_id;
    schema = found.schema.schema_str;
    references = found.schema.references;
    schema_type = type_if_not_avro found.schema.schema_type;
    compatibility = nonempty_text (get_subject_compatibility subject db);
  })

-- `subject_version_referencedby_get`
unfoldable pub subject_version_referencedby_get :
    String → Version → Bool → Database → Result (List ℕ)
unfolding resolve_version
subject_version_referencedby_get subject version include_deleted db = do
  found ← resolve_version subject version include_deleted db
  ok (get_or (get_referenced_by found.subject found.version db) [])

-- `sorted` of versions
unfoldable pub insert_sorted : Version → List Version → List Version
insert_sorted v [] = v ∷ []
insert_sorted v (w ∷ ws) = if version_leb v w then v ∷ w ∷ ws else w ∷ insert_sorted v ws

unfoldable pub sorted : List Version → List Version
unfolding insert_sorted
sorted [] = []
sorted (v ∷ vs) = insert_sorted v (sorted vs)

-- `get_live_versions_sorted`
unfoldable pub get_live_versions_sorted : Dict Version SchemaVersion → List Version
unfolding sorted
get_live_versions_sorted versions = sorted (keys (live_items versions))

-- the choice of `old_versions` in `check_schema_compatibility`
unfoldable pub old_versions : CompatibilityMode → List Version → List Version
unfolding is_transitive
old_versions mode live =
    if is_transitive mode then live else elim (last_of live) [ none ↦ [] | some v ↦ v ∷ [] ]

-- the loop of `check_schema_compatibility`: it ends at the first incompatible version
unfoldable pub check_versions :
    (Version → Result SchemaCompatibilityResult)
    → SchemaCompatibilityResult
    → List Version
    → Result SchemaCompatibilityResult
check_versions check result [] = ok result
check_versions check result (v ∷ vs) = do
  r ← check v
  let rest = check_versions check r vs
  if is_incompatible r then ok r else rest

module _ {S : Type 0} (services : Services S) (checkers : Checkers S) (fuel : ℕ) where
  -- the body of the loop of `check_schema_compatibility`
  unfoldable pub check_version :
      CompatibilityMode
      → ParsedTypedSchema S
      → Database
      → Dict Version SchemaVersion
      → Version
      → Result SchemaCompatibilityResult
  unfolding check_compatibility resolve_and_parse
  check_version mode new db versions v = do
    old ← or_raise (get v versions) key_error
    parsed ← resolve_and_parse services.parse fuel db old.schema
    ok (check_compatibility checkers (record { typed = old.schema; parsed = parsed }) new mode)

  -- `check_schema_compatibility`
  unfoldable pub check_schema_compatibility :
      ParsedTypedSchema S → String → Core → Result SchemaCompatibilityResult
  unfolding get_compatibility_mode get_live_versions_sorted old_versions check_version
      check_versions
  check_schema_compatibility new subject core = do
    mode ← get_compatibility_mode subject core
    let versions = find_subject_schemas subject true core.database
    check_versions (check_version mode new core.database versions) compatible
        (old_versions mode (get_live_versions_sorted versions))
