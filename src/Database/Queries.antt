-- ===== src/Database/Queries.antt =====
-- The methods of `InMemoryDatabase` that read.
use karapace.Prelude.{
  ℕ, zero, suc, ◌+◌, Bool, true, false, not, ◌&&◌, Option, none, some, List, [], ◌∷◌, map, String,
  ◌==◌, nat_eq, string_eq, pair_eq, select, any_of, is_empty, last_of, length, if◌then◌else◌, ◌++◌,
}
use karapace.Dict.{Dict, get, contains, keys, values}
use karapace.Version.{Version, version_eq, max_version, value}
use karapace.Version.Versioner.{make, int}
use karapace.Outcome.{Result, ◌>>=◌, or_raise, key_error, value_error}
use karapace.Schema.{TypedSchema, SchemaVersion, schema_eq, fingerprint_str}
use karapace.Database.State.{SubjectData, Database}
use karapace.Prelude.{ℤ, pos, negsuc}

-- `_get_schema_id_from_storage`
unfoldable pub id_from_storage : TypedSchema → Dict ℕ TypedSchema → Option ℕ
id_from_storage new_schema [] = none
id_from_storage new_schema ((schema_id, schema) ∷ rest) =
    if schema == new_schema then some schema_id else id_from_storage new_schema rest

-- `get_schema_id_if_exists`. The parameter `include_deleted` is not read there.
unfoldable pub get_schema_id_if_exists :
    (String → String) → String → TypedSchema → Database → Option ℕ
get_schema_id_if_exists hash subject schema db =
    elim (get subject db.hash_to_schema_id_on_subject) [
      | none ↦ none
      | some ids ↦ if is_empty ids then none else get (hash (fingerprint_str schema)) ids
    ]

-- `value + 1` of a version, as a tag
abbrev pub plus_one : ℤ → ℤ
plus_one (pos n) = pos (suc n)
plus_one (negsuc zero) = pos 0
plus_one (negsuc (suc n)) = negsuc n

-- `get_next_version`
unfoldable pub get_next_version : String → Database → Result Version
get_next_version subject db = do
  data' ← or_raise (get subject db.subjects) key_error
  greatest ← or_raise (max_version (keys data'.schemas)) value_error
  make (int (plus_one (value greatest)))

-- `get_subject_compatibility`
unfoldable pub get_subject_compatibility : String → Database → Option String
get_subject_compatibility subject db = elim (get subject db.subjects) [
  | none ↦ none
  | some data' ↦ data'.compatibility
]

-- `find_schema`
unfoldable pub find_schema : ℕ → Database → Result TypedSchema
find_schema schema_id db = or_raise (get schema_id db.schemas) key_error

-- `find_subject`
unfoldable pub find_subject : String → Database → Option String
find_subject subject db = if contains subject db.subjects then some subject else none

-- the items whose schema version is not deleted
abbrev pub live_items : Dict Version SchemaVersion → Dict Version SchemaVersion
live_items = select (λ e. not e.1.deleted)

-- `find_subject_schemas`
unfoldable pub find_subject_schemas : String → Bool → Database → Dict Version SchemaVersion
find_subject_schemas subject include_deleted db = elim (get subject db.subjects) [
  | none ↦ []
  | some data' ↦ if include_deleted then data'.schemas else live_items data'.schemas
]

-- `find_subjects`
unfoldable pub find_subjects : Bool → Database → List String
unfolding find_subject_schemas
find_subjects include_deleted db =
    if include_deleted
    then keys db.subjects
    else select (λ s. not (is_empty (find_subject_schemas s false db))) (keys db.subjects)

-- the choice of `latest_only` in `find_schemas`
abbrev only_latest : Bool → List SchemaVersion → List SchemaVersion
only_latest false schemas = schemas
only_latest true schemas = elim (last_of schemas) [ none ↦ schemas | some v ↦ v ∷ [] ]

-- `find_schemas`: the test of `include_deleted` stands there as it is written.
unfoldable pub find_schemas : Bool → Bool → Database → Dict String (List SchemaVersion)
find_schemas include_deleted latest_only db =
    map
      (λ e. (
        e.0,
        (let selected = only_latest latest_only (values e.1.schemas) in
            if include_deleted then select (λ v. not v.deleted) selected else selected),
      ))
      db.subjects

-- `subjects_for_schema`
unfoldable pub subjects_for_schema : ℕ → Database → List String
subjects_for_schema schema_id db =
    map (λ e. e.0)
      (select (λ e. any_of (λ v. not v.deleted && v.schema_id == schema_id) (values e.1.schemas))
        db.subjects)

-- the loop over the subjects in `find_schema_versions_by_schema_id`
abbrev versions_by_id : ℕ → Bool → Database → List String → List SchemaVersion
versions_by_id schema_id include_deleted db [] = []
versions_by_id schema_id include_deleted db (s ∷ rest) =
    select (λ v. v.schema_id == schema_id) (values (find_subject_schemas s include_deleted db))
    ++ versions_by_id schema_id include_deleted db rest

-- `find_schema_versions_by_schema_id`
unfoldable pub find_schema_versions_by_schema_id : ℕ → Bool → Database → List SchemaVersion
unfolding find_subject_schemas
find_schema_versions_by_schema_id schema_id include_deleted db =
    versions_by_id schema_id include_deleted db (keys db.subjects)

-- `num_schemas`, `num_subjects`
unfoldable pub num_schemas : Database → ℕ
num_schemas db = length db.schemas

unfoldable pub num_subjects : Database → ℕ
num_subjects db = length db.subjects

-- the counters of `num_schema_versions` over one subject's versions, and over all subjects
unfoldable pub count_versions : List SchemaVersion → ℕ × ℕ → ℕ × ℕ
count_versions [] counts = counts
count_versions (v ∷ vs) (live, gone) =
    count_versions vs (if v.deleted then (live, gone + 1) else (live + 1, gone))

unfoldable pub count_subjects : Dict String SubjectData → ℕ × ℕ → ℕ × ℕ
unfolding count_versions
count_subjects [] counts = counts
count_subjects (e ∷ rest) counts = count_subjects rest (count_versions (values e.1.schemas) counts)

-- `num_schema_versions`
unfoldable pub num_schema_versions : Database → ℕ × ℕ
unfolding count_subjects
num_schema_versions db = count_subjects db.subjects (0, 0)

-- `get_referenced_by`
unfoldable pub get_referenced_by : String → Version → Database → Option (List ℕ)
get_referenced_by subject version db = get (subject, version) db.referenced_by
