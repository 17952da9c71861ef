-- ===== src/Database/Forget.antt =====
-- What the caches of fingerprints forget or mix up: a version's fingerprint leaves the cache with any
-- version that shares it, and the fingerprint does not see the type of a schema.
use karapace.Prelude.{ℕ, ◌≡◌, ◌≢◌, refl, Bool, Option, none, some, List, String, arith, string_eq}
use karapace.Dict.{get}
use karapace.Version.{Version, version_eq}
use karapace.Outcome.{ok}
use karapace.Schema.{Reference, TypedSchema, SchemaVersion, fingerprint_str}
use karapace.Database.{
  Database, get_schema_id_if_exists, delete_subject_schema, delete_id_on_subject,
  insert_schema_version,
}
use karapace.Database.Lookup.{version_at, version_at-delete_subject_schema, version_at-insert}
use karapace.Database.Index.{id_at-delete, get_schema_id_if_exists-eq-id_at}

-- the cache after `delete_subject_schema` of a version that is there
cache-delete_subject_schema :
    (hash : String → String) (s : String) (v : Version) {x : SchemaVersion} (db : Database)
    {db' : Database}
    → delete_subject_schema hash s v db ≡ ok db'
    → version_at s v db ≡ some x
    → db'.hash_to_schema_id_on_subject
      ≡ delete_id_on_subject s (hash (fingerprint_str x.schema)) db.hash_to_schema_id_on_subject
unfolding delete_subject_schema version_at
cache-delete_subject_schema hash s v db done at = ground arith

-- Where two versions of a subject share a fingerprint, deleting one permanently leaves the other in
-- place as it was, deleted or not, while the cache no longer finds an id for its schema.
pub delete_subject_schema-forgets :
    (hash : String → String) (s : String) (v w : Version) {x y : SchemaVersion} (db : Database)
    {db' : Database}
    → v ≢ w
    → version_at s v db ≡ some x
    → version_at s w db ≡ some y
    → hash (fingerprint_str x.schema) ≡ hash (fingerprint_str y.schema)
    → delete_subject_schema hash s v db ≡ ok db'
    → (version_at s w db' ≡ some y) × (get_schema_id_if_exists hash s y.schema db' ≡ none)
delete_subject_schema-forgets hash s v w {x} {y} db {db'} other atv atw same done =
    let f = hash (fingerprint_str y.schema) in
    let g = hash (fingerprint_str x.schema) in
    (
      ground (arith, version_at-delete_subject_schema s w db hash s v done, version_eq.beq_iff v w),
      ground (
        arith,
        get_schema_id_if_exists-eq-id_at hash s y.schema db',
        cache-delete_subject_schema hash s v db done atv,
        id_at-delete s f s g db.hash_to_schema_id_on_subject,
        string_eq.beq_iff s s,
        string_eq.beq_iff g f,
      ),
    )

-- Two schemas of the same text and references have one fingerprint, whatever their types.
pub fingerprint_str-any_type :
    (t u : TypedSchema)
    → t.schema_str ≡ u.schema_str
    → t.references ≡ u.references
    → fingerprint_str t ≡ fingerprint_str u
unfolding fingerprint_str
fingerprint_str-any_type t u same_text same_refs = ground arith

-- Once a schema is in the cache, a version that is inserted with a schema of the same text and
-- references and another type holds the cached schema, so its type is the cached one and not the one
-- that was asked for.
insert-takes_cached_type :
    (hash : String → String) (subject : String) (schema_id : ℕ) (version : Version) (deleted : Bool)
    (t u : TypedSchema) (references : Option (List Reference)) (db : Database)
    → get (hash (fingerprint_str t)) db.hash_to_schema ≡ some t
    → t.schema_str ≡ u.schema_str
    → t.references ≡ u.references
    → t.schema_type ≢ u.schema_type
    → (x : SchemaVersion) × (version_at subject version
          (insert_schema_version hash subject schema_id version deleted u references db)
        ≡ some x)
      × (x.schema ≡ t)
      × (x.schema.schema_type ≢ u.schema_type)
insert-takes_cached_type hash subject schema_id version deleted t u references db hit text refs
      differ =
    (
      record {
        subject = subject;
        version = version;
        deleted = deleted;
        schema_id = schema_id;
        schema = t;
        references = references;
      },
      ground (
        arith,
        version_at-insert subject version db hash subject schema_id version deleted u references,
        fingerprint_str-any_type t u text refs,
        string_eq.beq_iff subject subject,
        version_eq.beq_iff version version,
      ),
      refl,
      differ,
    )
