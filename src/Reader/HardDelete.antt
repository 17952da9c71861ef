-- ===== src/Reader/HardDelete.antt =====
-- What the reader does with the message of a permanent delete.
use karapace.Prelude.{
  ℕ, ◌≡◌, refl, true, ◌&&◌, Option, none, some, List, String, arith, is_some, is_empty, inl, inr,
  Bool-cases, Option-cases, string_eq, ◌==◌, if◌then◌else◌,
}
use karapace.Dict.{get, pop, contains, get-set_self}
use karapace.Version.{Version, version_eq}
use karapace.Outcome.{ok}
use karapace.Schema.{Reference, SchemaVersion}
use karapace.Database.{
  Database, SubjectData, delete_subject_schema, delete_subject_hard, find_subject,
  find_subject_schemas,
}
use karapace.Database.Lookup.{
  version_at, no_version, in_subject, version_at-delete_subject_schema,
  version_at-delete_subject_hard,
}
use karapace.Messages.{schema_message, text_at, int_at}
use karapace.Reader.Handlers.{Services, Core, handle_msg, hard_delete_of, drop_if_empty}
use karapace.Reader.Effects.{init-value}

-- The subject of a version that is found is there.
subject_of_version :
    (s : String) (v : Version) (db : Database) {x : SchemaVersion}
    → version_at s v db ≡ some x
    → (found : SubjectData) × (get s db.subjects ≡ some found)
unfolding version_at get
subject_of_version s v db at = elim (Option-cases (get s db.subjects)) [
  | inl e ↦ absurd (ground arith)
  | inr there ↦ there
]

pub find_present :
    (s : String) (v : Version) (db : Database) {x : SchemaVersion}
    → version_at s v db ≡ some x
    → (is_some (find_subject s db) ≡ true) × (contains v (find_subject_schemas s true db) ≡ true)
unfolding version_at find_subject get
find_present s v db at =
    let (found, e) = subject_of_version s v db at in (ground arith, ground arith)

module _ (hash : String → String) (s : String) (v : Version) (db : Database) where
  deleted_schema :
      {x : SchemaVersion}
      → version_at s v db ≡ some x
      → (db' : Database) × (delete_subject_schema hash s v db ≡ ok db')
        × ((found : SubjectData) × (get s db'.subjects ≡ some found))
  unfolding delete_subject_schema
  deleted_schema {x} at =
      let (found, e) = subject_of_version s v db at in
      let entry : get v found.schemas ≡ some x = in_subject s v db e at in
      rw e (
        rw entry (
          _,
          refl,
          (
            record found { schemas = pop v found.schemas },
            get-set_self s (record found { schemas = pop v found.schemas }) db.subjects,
          ),
        ))

hard_deleted :
    (s : String) (db : Database) {found : SubjectData}
    → get s db.subjects ≡ some found
    → (db' : Database) × (delete_subject_hard s db ≡ ok db')
unfolding delete_subject_hard
hard_deleted s db e = rw e (_, refl)

module _ {S : Type 0} (services : Services S) (s : String) (v : Version) (db : Database)
    {x : SchemaVersion} (at : version_at s v db ≡ some x) where
  -- the database after both deletes, and what it finds
  after_deletes :
      (db1 : Database)
      → delete_subject_schema services.hash s v db ≡ ok db1
      → ((found : SubjectData) × (get s db1.subjects ≡ some found))
      → (db' : Database) × (drop_if_empty services s db1 ≡ ok db')
        × ((t : String) (w : Version)
            → version_at t w db' ≡ (if s == t && v == w then none else version_at t w db))
  after_deletes db1 done (found, there) =
      elim (Bool-cases (is_empty (find_subject_schemas s true db1))) [
        | inl gone ↦
            let (db2, hard) = hard_deleted s db1 there in
            rw gone (
              db2,
              hard,
              λ t w. ground (
                arith,
                version_at-delete_subject_hard t w db1 s hard,
                version_at-delete_subject_schema t w db services.hash s v done,
                no_version s w db1 gone,
                string_eq.beq_iff s t,
              ),
            )
        | inr left ↦
            rw left
              (db1, refl, λ t w. version_at-delete_subject_schema t w db services.hash s v done)
      ]

  hard_delete_of-present :
      (schema_id : ℕ) (refs : Option (List Reference))
      → (db' : Database) × (hard_delete_of services
            (schema_message s none schema_id v true refs).key
            db
          ≡ ok db')
        × ((t : String) (w : Version)
            → version_at t w db' ≡ (if s == t && v == w then none else version_at t w db))
  unfolding hard_delete_of schema_message text_at int_at get
  hard_delete_of-present schema_id refs =
      let (db1, done, there) = deleted_schema services.hash s v db at in
      let (present, listed) = find_present s v db at in
      rw (init-value v) (rw present (rw listed (rw done (after_deletes db1 done there))))

-- A schema message without a value, for a version that is there, is handled without an error: it takes
-- that version away and no other, and changes nothing but the database.
pub handle_msg-hard_delete :
    {S : Type 0} (services : Services S) (fuel : ℕ) (core : Core) (s : String) (v : Version)
    (schema_id : ℕ) (refs : Option (List Reference)) {x : SchemaVersion}
    → version_at s v core.database ≡ some x
    → (db' : Database) × ((let m = schema_message s none schema_id v true refs in
          handle_msg services fuel m.key m.payload core)
        ≡ (ok tt, record core { database = db' }))
      × ((t : String) (w : Version)
          → version_at t w db' ≡ (if s == t && v == w then none else version_at t w core.database))
unfolding handle_msg text_at get schema_message
handle_msg-hard_delete services fuel core s v schema_id refs at =
    let (db', done, finds) = hard_delete_of-present services s v core.database at schema_id refs in
    (db', rw done, finds)
