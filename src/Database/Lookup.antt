-- ===== src/Database/Lookup.antt =====
-- What a lookup of a version finds after each method of `InMemoryDatabase` that writes.
use karapace.Prelude.{
  ℕ, ◌≡◌, refl, Bool, true, ◌&&◌, Option, none, some, List, [], ◌∷◌, map, String, arith, Eq,
  string_eq, ◌==◌, map_option, is_empty, if◌then◌else◌,
}
use karapace.Dict.{Dict, get, set, pop, get-set, get-pop}
use karapace.Version.{Version, version_eq}
use karapace.Outcome.{ok}
use karapace.Schema.{Reference, TypedSchema, SchemaVersion}
use karapace.Database.{
  Database, SubjectData, new_subject, subject_data, find_subject_schemas, new_entry,
  insert_schema_version, insert_subject, put_compatibility, soft_delete, delete_subject,
  delete_subject_hard, delete_subject_schema,
}

-- The version that a client finds, deleted ones included.
unfoldable pub version_at : String → Version → Database → Option SchemaVersion
unfolding find_subject_schemas
version_at s v db = get v (find_subject_schemas s true db)

-- a version that is found stands in its subject
pub in_subject :
    (s : String) (v : Version) (db : Database) {found : SubjectData} {x : SchemaVersion}
    → get s db.subjects ≡ some found
    → version_at s v db ≡ some x
    → get v found.schemas ≡ some x
unfolding version_at
in_subject s v db e h = ground arith

pub no_version :
    (s : String) (v : Version) (db : Database)
    → is_empty (find_subject_schemas s true db) ≡ true
    → version_at s v db ≡ none
unfolding version_at get
no_version s v db h = ground arith

-- the same, on the subjects alone
abbrev version_in : String → Version → Option SubjectData → Option SchemaVersion
version_in s v none = none
version_in s v (some found) = get v found.schemas

version_at-eq-version_in :
    (s : String) (v : Version) (db : Database)
    → version_at s v db ≡ version_in s v (get s db.subjects)
unfolding version_at get
version_at-eq-version_in s v db = ground arith

pub get-map :
    {K V : Type 0} ⦃e : Eq K⦄ (f : V → V) (k : K) (d : Dict K V)
    → get k (map (λ x. (x.0, f x.1)) d) ≡ map_option f (get k d)
unfolding get
get-map f k [] = refl
get-map ⦃e⦄ f k ((j, w) ∷ d) = ground (arith, get-map f k d)

get-new_subject : (v : Version) → get v new_subject.schemas ≡ none
unfolding get
get-new_subject v = refl

module _ (s : String) (v : Version) (db : Database) where
  pub version_at-insert :
      (hash : String → String) (subject : String) (schema_id : ℕ) (version : Version)
      (deleted : Bool) (schema : TypedSchema) (references : Option (List Reference))
      → version_at s v
          (insert_schema_version hash subject schema_id version deleted schema references db)
        ≡ (if subject == s && version == v
            then some (new_entry hash subject schema_id version deleted schema references db)
            else version_at s v db)
  unfolding insert_schema_version
  version_at-insert hash subject schema_id version deleted schema references =
      let entry = new_entry hash subject schema_id version deleted schema references db in
      let found = subject_data subject db in
      ground (
        arith,
        version_at-eq-version_in s v db,
        version_at-eq-version_in s v
            (insert_schema_version hash subject schema_id version deleted schema references db),
        get-set subject s (record found { schemas = set version entry found.schemas }) db.subjects,
        get-set version v entry found.schemas,
        get-new_subject v,
        string_eq.beq_iff subject s,
      )

  pub version_at-insert_subject :
      (subject : String) → version_at s v (insert_subject subject db) ≡ version_at s v db
  unfolding insert_subject
  version_at-insert_subject subject = ground (
    arith,
    version_at-eq-version_in s v db,
    version_at-eq-version_in s v (insert_subject subject db),
    get-set subject s new_subject db.subjects,
    get-new_subject v,
    string_eq.beq_iff subject s,
  )

  pub version_at-put_compatibility :
      (subject : String) (level : Option String)
      → version_at s v (put_compatibility subject level db) ≡ version_at s v db
  unfolding put_compatibility
  version_at-put_compatibility subject level =
      let found = subject_data subject db in
      ground (
        arith,
        version_at-eq-version_in s v db,
        version_at-eq-version_in s v (put_compatibility subject level db),
        get-set subject s (record found { compatibility = level }) db.subjects,
        string_eq.beq_iff subject s,
      )

  pub version_at-delete_subject :
      (hash : String → String) (subject : String) (version : Version) {db' : Database}
      → delete_subject hash subject version db ≡ ok db'
      → version_at s v db' ≡ (
          if subject == s
          then map_option (soft_delete version) (version_at s v db)
          else version_at s v db)
  unfolding delete_subject
  version_at-delete_subject hash subject version {db'} h =
      let found = subject_data subject db in
      ground (
        arith,
        version_at-eq-version_in s v db,
        version_at-eq-version_in s v db',
        get-set subject s
            (record found { schemas = map (λ e. (e.0, soft_delete version e.1)) found.schemas })
            db.subjects,
        get-map (soft_delete version) v found.schemas,
        string_eq.beq_iff subject s,
      )

  pub version_at-delete_subject_hard :
      (subject : String) {db' : Database}
      → delete_subject_hard subject db ≡ ok db'
      → version_at s v db' ≡ (if subject == s then none else version_at s v db)
  unfolding delete_subject_hard
  version_at-delete_subject_hard subject {db'} h = ground (
    arith,
    version_at-eq-version_in s v db,
    version_at-eq-version_in s v db',
    get-pop subject s db.subjects,
    string_eq.beq_iff subject s,
  )

  pub version_at-delete_subject_schema :
      (hash : String → String) (subject : String) (version : Version) {db' : Database}
      → delete_subject_schema hash subject version db ≡ ok db'
      → version_at s v db' ≡ (if subject == s && version == v then none else version_at s v db)
  unfolding delete_subject_schema
  version_at-delete_subject_schema hash subject version {db'} h =
      let found = subject_data subject db in
      ground (
        arith,
        version_at-eq-version_in s v db,
        version_at-eq-version_in s v db',
        get-set subject s (record found { schemas = pop version found.schemas }) db.subjects,
        get-pop version v found.schemas,
        string_eq.beq_iff subject s,
        version_eq.beq_iff version v,
      )
