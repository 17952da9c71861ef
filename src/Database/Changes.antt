-- ===== src/Database/Changes.antt =====
-- The methods of `InMemoryDatabase` that write.
use karapace.Prelude.{
  ℕ, suc, max, Bool, ◌||◌, Option, none, some, List, [], ◌∷◌, map, String, nat_eq, string_eq,
  get_or, if◌then◌else◌,
}
use karapace.Dict.{Dict, get, set, pop, set_default, values}
use karapace.Version.{Version, version_eq, version_leb}
use karapace.Outcome.{Result, ok, ◌>>=◌, or_raise, key_error}
use karapace.Schema.{Reference, TypedSchema, SchemaVersion, fingerprint_str}
use karapace.Database.State.{
  SubjectData, new_subject, Database, set_id_on_subject, delete_id_on_subject, insert_references,
  remove_referenced_by,
}
use karapace.Database.Queries.{id_from_storage}

-- `get_schema_id`: the id of an equal schema, or the next global one.
unfoldable pub get_schema_id : TypedSchema → Database → ℕ × Database
unfolding id_from_storage
get_schema_id new_schema db = elim (id_from_storage new_schema db.schemas) [
  | none ↦ (suc db.global_schema_id, record db { global_schema_id = suc db.global_schema_id })
  | some schema_id ↦ (schema_id, db)
]

-- `_get_from_hash_cache`: the schema that the cache has for the fingerprint, and the cache after.
abbrev pub cached_schema : (String → String) → TypedSchema → Dict String TypedSchema → TypedSchema
cached_schema hash schema cache = get_or (get (hash (fingerprint_str schema)) cache) schema

-- `insert_subject`
unfoldable pub insert_subject : String → Database → Database
insert_subject subject db = record db { subjects = set_default subject new_subject db.subjects }

-- the versions and the compatibility of a subject, which `insert_subject` has made present
abbrev pub subject_data : String → Database → SubjectData
subject_data subject db = get_or (get subject db.subjects) new_subject

-- `if references: for ref in references: …`
abbrev pub insert_optional_references :
    ℕ
    → Option (List Reference)
    → Dict (String × Version) (List ℕ)
    → Dict (String × Version) (List ℕ)
insert_optional_references schema_id none referents = referents
insert_optional_references schema_id (some refs) referents =
    insert_references schema_id refs referents

abbrev pub remove_optional_references :
    ℕ
    → Option (List Reference)
    → Dict (String × Version) (List ℕ)
    → Dict (String × Version) (List ℕ)
remove_optional_references schema_id none referents = referents
remove_optional_references schema_id (some refs) referents =
    remove_referenced_by schema_id refs referents

-- the `SchemaVersion` that `insert_schema_version` stores, with the schema that the cache has
abbrev pub new_entry :
    (String → String)
    → String
    → ℕ
    → Version
    → Bool
    → TypedSchema
    → Option (List Reference)
    → Database
    → SchemaVersion
new_entry hash subject schema_id version deleted schema references db = record {
  subject = subject;
  version = version;
  deleted = deleted;
  schema_id = schema_id;
  schema = cached_schema hash schema db.hash_to_schema;
  references = references;
}

-- `insert_schema_version`
unfoldable pub insert_schema_version :
    (String → String)
    → String
    → ℕ
    → Version
    → Bool
    → TypedSchema
    → Option (List Reference)
    → Database
    → Database
unfolding set_id_on_subject delete_id_on_subject insert_references
insert_schema_version hash subject schema_id version deleted new_schema references db =
    let fingerprint = hash (fingerprint_str new_schema) in
    let schema = cached_schema hash new_schema db.hash_to_schema in
    let entry = new_entry hash subject schema_id version deleted new_schema references db in
    let found = subject_data subject db in
    record {
      global_schema_id = max db.global_schema_id schema_id;
      subjects =
          set subject (record found { schemas = set version entry found.schemas }) db.subjects;
      schemas = set schema_id schema db.schemas;
      referenced_by =
          if deleted
          then db.referenced_by
          else insert_optional_references schema_id references db.referenced_by;
      hash_to_schema = set_default fingerprint new_schema db.hash_to_schema;
      hash_to_schema_id_on_subject =
          if deleted
          then delete_id_on_subject subject (hash (fingerprint_str schema))
              db.hash_to_schema_id_on_subject
          else set_id_on_subject subject (hash (fingerprint_str schema)) schema_id
              db.hash_to_schema_id_on_subject;
    }

-- `delete_subject_compatibility` and `set_subject_compatibility`: an absent subject stays absent.
unfoldable pub put_compatibility : String → Option String → Database → Database
put_compatibility subject compatibility db = elim (get subject db.subjects) [
  | none ↦ db
  | some found ↦ record db {
    subjects = set subject (record found { compatibility = compatibility }) db.subjects;
  }
]

-- the flag that the loop of `delete_subject` sets on one version
abbrev pub soft_delete : Version → SchemaVersion → SchemaVersion
soft_delete version v = record v { deleted = version_leb v.version version || v.deleted }

-- the other effect of that loop: every version's fingerprint leaves the cache of the subject
unfoldable pub delete_fingerprints :
    (String → String)
    → String
    → List SchemaVersion
    → Dict String (Dict String ℕ)
    → Dict String (Dict String ℕ)
unfolding delete_id_on_subject
delete_fingerprints hash subject [] cache = cache
delete_fingerprints hash subject (v ∷ vs) cache =
    delete_fingerprints hash subject vs
      (delete_id_on_subject subject (hash (fingerprint_str v.schema)) cache)

-- `delete_subject`
unfoldable pub delete_subject : (String → String) → String → Version → Database → Result Database
unfolding delete_fingerprints
delete_subject hash subject version db = do
  found ← or_raise (get subject db.subjects) key_error
  ok (record db {
    subjects =
        set subject
          (record found { schemas = map (λ e. (e.0, soft_delete version e.1)) found.schemas })
          db.subjects;
    hash_to_schema_id_on_subject =
        delete_fingerprints hash subject (values found.schemas) db.hash_to_schema_id_on_subject;
  })

-- the loop of `delete_subject_hard`
unfoldable pub remove_all_references :
    List SchemaVersion → Dict (String × Version) (List ℕ) → Dict (String × Version) (List ℕ)
unfolding remove_referenced_by
remove_all_references [] referents = referents
remove_all_references (v ∷ vs) referents =
    remove_all_references vs (remove_optional_references v.schema_id v.references referents)

-- `delete_subject_hard`
unfoldable pub delete_subject_hard : String → Database → Result Database
unfolding remove_all_references
delete_subject_hard subject db = do
  found ← or_raise (get subject db.subjects) key_error
  ok (record db {
    subjects = pop subject db.subjects;
    referenced_by = remove_all_references (values found.schemas) db.referenced_by;
    hash_to_schema_id_on_subject = pop subject db.hash_to_schema_id_on_subject;
  })

-- `delete_subject_schema`
unfoldable pub delete_subject_schema :
    (String → String) → String → Version → Database → Result Database
unfolding delete_id_on_subject remove_referenced_by
delete_subject_schema hash subject version db = do
  found ← or_raise (get subject db.subjects) key_error
  ok (elim (get version found.schemas) [
    | none ↦ db
    | some v ↦ record db {
      subjects = set subject (record found { schemas = pop version found.schemas }) db.subjects;
      referenced_by = remove_optional_references v.schema_id v.references db.referenced_by;
      hash_to_schema_id_on_subject =
          delete_id_on_subject subject (hash (fingerprint_str v.schema))
            db.hash_to_schema_id_on_subject;
    }
  ])
