-- ===== src/Database/Index.antt =====
-- The cache from a subject and a fingerprint to a schema id, which registration asks first.
use karapace.Prelude.{
  ℕ, ◌≡◌, refl, Bool, true, ◌&&◌, Option, none, some, List, [], ◌∷◌, String, arith, string_eq, ◌==◌,
  is_empty, get_or, any_of, if◌then◌else◌,
}
use karapace.Dict.{Dict, get, set, pop, get-set, get-pop}
use karapace.Version.{Version}
use karapace.Schema.{Reference, TypedSchema, SchemaVersion, fingerprint_str}
use karapace.Database.{
  Database, set_id_on_subject, delete_id_on_subject, get_schema_id_if_exists, cached_schema,
  insert_schema_version, delete_fingerprints,
}
use karapace.Database.Invariant.{IsWellFormed, fingerprint-cached_schema}

-- the id that a two-level cache has for a subject and a fingerprint
unfoldable pub id_at : String → String → Dict String (Dict String ℕ) → Option ℕ
id_at subject fingerprint cache = get fingerprint (get_or (get subject cache) [])

get_nil : (f : String) → get {V = ℕ} f [] ≡ none
unfolding get
get_nil f = refl

id_of_empty : (f : String) (ids : Dict String ℕ) → is_empty ids ≡ true → get f ids ≡ none
unfolding get
id_of_empty f [] h = refl
id_of_empty f (x ∷ ids) h = cc

module _ (s f : String) where
  pub id_at-set :
      (subject fingerprint : String) (i : ℕ) (cache : Dict String (Dict String ℕ))
      → id_at s f (set_id_on_subject subject fingerprint i cache)
        ≡ (if subject == s && fingerprint == f then some i else id_at s f cache)
  unfolding id_at set_id_on_subject
  id_at-set subject fingerprint i cache =
      let ids = get_or (get subject cache) [] in
      ground (
        arith,
        get-set subject s (set fingerprint i ids) cache,
        get-set fingerprint f i ids,
        string_eq.beq_iff subject s,
      )

  pub id_at-delete :
      (subject fingerprint : String) (cache : Dict String (Dict String ℕ))
      → id_at s f (delete_id_on_subject subject fingerprint cache)
        ≡ (if subject == s && fingerprint == f then none else id_at s f cache)
  unfolding id_at delete_id_on_subject
  id_at-delete subject fingerprint cache =
      let ids = get_or (get subject cache) [] in
      ground (
        arith,
        get-set subject s (pop fingerprint ids) cache,
        get-pop subject s cache,
        get-pop fingerprint f ids,
        id_of_empty f (pop fingerprint ids),
        get_nil f,
        string_eq.beq_iff subject s,
      )

  pub id_at-pop :
      (subject : String) (cache : Dict String (Dict String ℕ))
      → id_at s f (pop subject cache) ≡ (if subject == s then none else id_at s f cache)
  unfolding id_at
  id_at-pop subject cache = ground (arith, get-pop subject s cache, get_nil f)

  -- After the loop of `delete_subject` no fingerprint of the subject's versions is left.
  pub id_at-delete_fingerprints :
      (hash : String → String) (subject : String) (vs : List SchemaVersion)
      (cache : Dict String (Dict String ℕ))
      → id_at s f (delete_fingerprints hash subject vs cache) ≡ (
          if subject == s && any_of (λ v. hash (fingerprint_str v.schema) == f) vs
          then none
          else id_at s f cache)
  unfolding delete_fingerprints
  id_at-delete_fingerprints hash subject [] cache = ground arith
  id_at-delete_fingerprints hash subject (v ∷ vs) cache =
      let g = hash (fingerprint_str v.schema) in
      ground (
        arith,
        id_at-delete_fingerprints hash subject vs (delete_id_on_subject subject g cache),
        id_at-delete subject g cache,
      )

pub get_schema_id_if_exists-eq-id_at :
    (hash : String → String) (s : String) (t : TypedSchema) (db : Database)
    → get_schema_id_if_exists hash s t db
      ≡ id_at s (hash (fingerprint_str t)) db.hash_to_schema_id_on_subject
unfolding get_schema_id_if_exists id_at
get_schema_id_if_exists-eq-id_at hash s t db =
    let f = hash (fingerprint_str t) in
    let ids = get_or (get s db.hash_to_schema_id_on_subject) [] in
    ground (arith, get_nil f, id_of_empty f ids)

module _ (hash : String → String) (s : String) (t : TypedSchema) (db : Database) where
  -- In a well-formed database, the id that the cache finds for a subject and a schema after an
  -- insert: for the same subject and fingerprint the inserted id, or none if the version was inserted as
  -- deleted; for any other what it found before.
  pub get_schema_id_if_exists-insert :
      (subject : String) (schema_id : ℕ) (version : Version) (deleted : Bool) (schema : TypedSchema)
      (references : Option (List Reference))
      → IsWellFormed hash db
      → get_schema_id_if_exists hash s t
          (insert_schema_version hash subject schema_id version deleted schema references db)
        ≡ (if subject == s && hash (fingerprint_str schema) == hash (fingerprint_str t)
            then (if deleted then none else some schema_id)
            else get_schema_id_if_exists hash s t db)
  unfolding insert_schema_version
  get_schema_id_if_exists-insert subject schema_id version deleted schema references w =
      let f = hash (fingerprint_str t) in
      let g = hash (fingerprint_str (cached_schema hash schema db.hash_to_schema)) in
      let db' = insert_schema_version hash subject schema_id version deleted schema references db in
      ground (
        arith,
        get_schema_id_if_exists-eq-id_at hash s t db,
        get_schema_id_if_exists-eq-id_at hash s t db',
        fingerprint-cached_schema hash w schema,
        id_at-set s f subject g schema_id db.hash_to_schema_id_on_subject,
        id_at-delete s f subject g db.hash_to_schema_id_on_subject,
      )
