-- ===== src/Database/Invariant.antt =====
-- The well-formedness of `InMemoryDatabase`, which every method that writes keeps.
use karapace.Prelude.{
  ℕ, ◌≤◌, ◌≡◌, refl, Bool, true, Option, some, List, String, arith, is_some, ==_iff, string_eq,
  nat_eq, ◌==◌, inl, inr, Option-cases, map_option, if◌then◌else◌,
}
use karapace.Dict.{get, get-set, get-set_default}
use karapace.Dict.Keys.{HasUniqueKeys, set-HasUniqueKeys}
use karapace.Version.{Version, version_eq}
use karapace.Outcome.{ok}
use karapace.Schema.{Reference, TypedSchema, SchemaVersion, fingerprint_str}
use karapace.Database.{
  Database, empty, cached_schema, insert_schema_version, insert_subject, put_compatibility,
  delete_subject, delete_subject_hard, delete_subject_schema, get_schema_id, id_from_storage,
  soft_delete,
}
use karapace.Database.Lookup.{
  version_at, version_at-insert, version_at-insert_subject, version_at-put_compatibility,
  version_at-delete_subject, version_at-delete_subject_hard, version_at-delete_subject_schema,
}

-- Ids are given once and are at most the global one; a version is filed under its own subject and
-- number, and its id is registered; the cache files a schema under its own fingerprint.
pub record IsWellFormed (hash : String → String) (db : Database) : Type 0 where
  pub unique_ids : HasUniqueKeys db.schemas
  pub ids_bounded : (i : ℕ) (t : TypedSchema) → get i db.schemas ≡ some t → i ≤ db.global_schema_id
  pub filed :
      (s : String) (v : Version) (x : SchemaVersion)
      → version_at s v db ≡ some x
      → (x.subject ≡ s) × (x.version ≡ v) × (is_some (get x.schema_id db.schemas) ≡ true)
  pub cached :
      (f : String) (t : TypedSchema)
      → get f db.hash_to_schema ≡ some t
      → hash (fingerprint_str t) ≡ f

module _ (hash : String → String) where
  pub IsWellFormed-empty : IsWellFormed hash empty
  unfolding get version_at
  IsWellFormed-empty = record {
    unique_ids = tt;
    ids_bounded = λ i t h. cc;
    filed = λ s v x h. absurd (ground arith);
    cached = λ f t h. cc;
  }

  module _ {db : Database} (w : IsWellFormed hash db) where
    -- The cached schema has the fingerprint of the schema that it replaces.
    pub fingerprint-cached_schema :
        (t : TypedSchema)
        → hash (fingerprint_str (cached_schema hash t db.hash_to_schema)) ≡ hash (fingerprint_str t)
    fingerprint-cached_schema t =
        ground (arith, w.cached (hash (fingerprint_str t)) (cached_schema hash t db.hash_to_schema))

    pub insert-IsWellFormed :
        (subject : String) (schema_id : ℕ) (version : Version) (deleted : Bool)
        (schema : TypedSchema) (references : Option (List Reference))
        → IsWellFormed hash
            (insert_schema_version hash subject schema_id version deleted schema references db)
    unfolding insert_schema_version
    insert-IsWellFormed subject schema_id version deleted schema references =
        let stored = cached_schema hash schema db.hash_to_schema in
        record {
          unique_ids = set-HasUniqueKeys schema_id stored db.schemas w.unique_ids;
          ids_bounded =
              λ i t h. ground (arith, get-set schema_id i stored db.schemas, w.ids_bounded i t);
          filed = λ s v x h. ground (
            arith,
            version_at-insert s v db hash subject schema_id version deleted schema references,
            w.filed s v x,
            get-set schema_id x.schema_id stored db.schemas,
            ==_iff subject s,
            ==_iff version v,
          );
          cached = λ f t h. ground (
            arith,
            get-set_default (hash (fingerprint_str schema)) f schema db.hash_to_schema,
            ==_iff (hash (fingerprint_str schema)) f,
            w.cached f t,
          );
        }

    -- A change that only drops versions, or alters other fields of them, keeps the invariant.
    keep :
        {db' : Database}
        → db'.schemas ≡ db.schemas
        → db'.global_schema_id ≡ db.global_schema_id
        → db'.hash_to_schema ≡ db.hash_to_schema
        → ((s : String) (v : Version) (x : SchemaVersion)
            → version_at s v db' ≡ some x
            → (y : SchemaVersion) × (version_at s v db ≡ some y)
              × (x.subject ≡ y.subject)
              × (x.version ≡ y.version)
              × (x.schema_id ≡ y.schema_id))
        → IsWellFormed hash db'
    keep same_schemas same_global same_cache from = record {
      unique_ids = rw same_schemas w.unique_ids;
      ids_bounded = λ i t h. ground (arith, w.ids_bounded i t);
      filed = λ s v x h. let (y, at, q, r, t) = from s v x h in ground (arith, w.filed s v y);
      cached = λ f t h. ground (arith, w.cached f t);
    }

    pub insert_subject-IsWellFormed :
        (subject : String) → IsWellFormed hash (insert_subject subject db)
    unfolding insert_subject
    insert_subject-IsWellFormed subject =
        keep refl refl refl λ s v x h. (x, (rw version_at-insert_subject at h), refl, refl, refl)

    pub put_compatibility-IsWellFormed :
        (subject : String) (level : Option String)
        → IsWellFormed hash (put_compatibility subject level db)
    put_compatibility-IsWellFormed subject level =
        keep (unfold put_compatibility in ground arith) (unfold put_compatibility in ground arith)
          (unfold put_compatibility in ground arith)
          λ s v x h. (x, (rw version_at-put_compatibility at h), refl, refl, refl)

    pub delete_subject-IsWellFormed :
        (subject : String) (version : Version) {db' : Database}
        → delete_subject hash subject version db ≡ ok db'
        → IsWellFormed hash db'
    delete_subject-IsWellFormed subject version {db'} done =
        keep (unfold delete_subject in ground arith) (unfold delete_subject in ground arith)
          (unfold delete_subject in ground arith)
          λ s v x h.
            soft_deleted s v x
              (rw (version_at-delete_subject s v db hash subject version done) at h)
      where
        soft_deleted :
            (s : String) (v : Version) (x : SchemaVersion)
            → (if subject == s
                then map_option (soft_delete version) (version_at s v db)
                else version_at s v db)
              ≡ some x
            → (y : SchemaVersion) × (version_at s v db ≡ some y)
              × (x.subject ≡ y.subject)
              × (x.version ≡ y.version)
              × (x.schema_id ≡ y.schema_id)
        soft_deleted s v x h = elim (Option-cases (version_at s v db)) [
          | inl e ↦ absurd (ground arith)
          | inr (y, e) ↦ (y, e, ground arith, ground arith, ground arith)
        ]

    pub delete_subject_hard-IsWellFormed :
        (subject : String) {db' : Database}
        → delete_subject_hard subject db ≡ ok db'
        → IsWellFormed hash db'
    delete_subject_hard-IsWellFormed subject {db'} done =
        keep (unfold delete_subject_hard in ground arith)
          (unfold delete_subject_hard in ground arith) (unfold delete_subject_hard in ground arith)
          λ s v x h. (
            x,
            ground (arith, version_at-delete_subject_hard s v db subject done),
            refl,
            refl,
            refl,
          )

    pub delete_subject_schema-IsWellFormed :
        (subject : String) (version : Version) {db' : Database}
        → delete_subject_schema hash subject version db ≡ ok db'
        → IsWellFormed hash db'
    delete_subject_schema-IsWellFormed subject version {db'} done =
        keep (unfold delete_subject_schema in ground arith)
          (unfold delete_subject_schema in ground arith)
          (unfold delete_subject_schema in ground arith)
          λ s v x h. (
            x,
            ground (arith, version_at-delete_subject_schema s v db hash subject version done),
            refl,
            refl,
            refl,
          )

    pub get_schema_id-IsWellFormed : (t : TypedSchema) → IsWellFormed hash (get_schema_id t db).1
    unfolding get_schema_id version_at
    get_schema_id-IsWellFormed t = elim (Option-cases (id_from_storage t db.schemas)) [
      | inl e ↦
          rw (e, get_schema_id)
            (record {
              unique_ids = w.unique_ids;
              ids_bounded = λ i u h. ground (arith, w.ids_bounded i u);
              filed = w.filed;
              cached = w.cached;
            })
      | inr (i, e) ↦ rw (e, get_schema_id) w
    ]
