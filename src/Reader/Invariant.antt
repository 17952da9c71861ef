-- ===== src/Reader/Invariant.antt =====
-- Every message, well-formed or not, keeps the invariant of the database.
use karapace.Prelude.{
  ℕ, ◌≡◌, refl, Bool, true, false, Option, none, some, [], ◌∷◌, String, arith, inl, inr, Bool-cases,
  is_some, is_empty, string_eq, ◌==◌, if◌then◌else◌,
}
use karapace.Dict.{get, contains}
use karapace.Version.{version_eq}
use karapace.Version.Versioner.{init}
use karapace.Outcome.{Result, ok, err, ◌>>=◌, or_raise, value_error}
use karapace.Database.{
  Database, find_subject, find_subject_schemas, delete_subject, delete_subject_schema,
  delete_subject_hard,
}
use karapace.Database.Invariant.{
  IsWellFormed, insert-IsWellFormed, insert_subject-IsWellFormed, put_compatibility-IsWellFormed,
  delete_subject-IsWellFormed, delete_subject_hard-IsWellFormed, delete_subject_schema-IsWellFormed,
}
use karapace.Messages.{JsonObject, text_at, int_at, bool_or, references_if_any, text_if_any}
use karapace.Reader.Handlers.{
  Services, Core, handle_config, delete_subject_of, hard_delete_of, insert_of, handle_schema,
  handle_keytype, handle_msg, discard, config_of, with_subject, type_of, resolved_for, natural,
  on_database, set_level, set_global_level,
}

-- a database that a step gives back is well-formed
abbrev Gives : (String → String) → Result Database → Type 0
Gives hash (ok db) = IsWellFormed hash db
Gives hash (err x) = Unit

Gives-bind :
    (hash : String → String) {A : Type 0} (m : Result A) (f : A → Result Database)
    → ((a : A) → m ≡ ok a → Gives hash (f a))
    → Gives hash (m >>= f)
Gives-bind hash (ok a) f h = h a refl
Gives-bind hash (err x) f h = tt

Gives-if :
    (hash : String → String) (b : Bool) (m n : Result Database)
    → Gives hash m
    → Gives hash n
    → Gives hash (if b then m else n)
Gives-if hash true m n hm hn = hm
Gives-if hash false m n hm hn = hn

Gives-of :
    (hash : String → String) (m : Result Database)
    → ((db : Database) → m ≡ ok db → IsWellFormed hash db)
    → Gives hash m
Gives-of hash (ok db) h = h db refl
Gives-of hash (err x) h = tt

module _ {S : Type 0} (services : Services S) {db : Database}
    (w : IsWellFormed services.hash db) where
  delete_subject_of-Gives :
      (payload : Option JsonObject) → Gives services.hash (delete_subject_of services payload db)
  unfolding delete_subject_of
  delete_subject_of-Gives payload = Gives-bind services.hash (or_raise payload value_error) _ λ o _.
      Gives-bind services.hash (text_at "subject" o) _ λ subject _.
        Gives-bind services.hash (int_at "version" o) _ λ n _.
          Gives-bind services.hash (init n) _ λ version _.
            Gives-if services.hash (is_some (find_subject subject db)) _ _
              (Gives-of services.hash (delete_subject services.hash subject version db)
                (λ db' done. delete_subject-IsWellFormed services.hash w subject version done))
              w

  hard_delete_of-Gives : (key : JsonObject) → Gives services.hash (hard_delete_of services key db)
  unfolding hard_delete_of
  hard_delete_of-Gives key = Gives-bind services.hash (text_at "subject" key) _ λ subject _.
      Gives-bind services.hash (int_at "version" key) _ λ n _.
        Gives-bind services.hash (init n) _ λ version _.
          Gives-if services.hash (is_some (find_subject subject db)) _ _
            (Gives-if services.hash (contains version (find_subject_schemas subject true db)) _ _
              (Gives-bind services.hash (delete_subject_schema services.hash subject version db) _
                λ db' done.
                  let w' =
                    delete_subject_schema-IsWellFormed services.hash w subject version done in
                  Gives-if services.hash (is_empty (find_subject_schemas subject true db')) _ _
                    (Gives-of services.hash (delete_subject_hard subject db')
                      (λ db'' gone. delete_subject_hard-IsWellFormed services.hash w' subject gone))
                    w')
              w)
            w

  insert_of-Gives : (fuel : ℕ) (o : JsonObject) → Gives services.hash (insert_of services fuel o db)
  unfolding insert_of
  insert_of-Gives fuel o = Gives-bind services.hash (text_at "schema" o) _ λ schema_str _.
      Gives-bind services.hash (text_at "subject" o) _ λ subject _.
        Gives-bind services.hash (int_at "id" o) _ λ i _.
          Gives-bind services.hash (natural services i) _ λ schema_id _.
            Gives-bind services.hash (int_at "version" o) _ λ n _.
              Gives-bind services.hash (init n) _ λ version _.
                Gives-bind services.hash (bool_or false "deleted" o) _ λ deleted _.
                  Gives-bind services.hash (references_if_any "references" o) _ λ raw _.
                    Gives-bind services.hash (type_of services (get "schemaType" o)) _ λ t _.
                      Gives-bind services.hash (resolved_for services fuel t raw db) _ λ found _.
                        Gives-bind services.hash (services.normalize t schema_str found.0 found.1) _
                          λ normal _.
                            insert-IsWellFormed services.hash w subject schema_id version deleted
                              (record {
                                schema_type = t;
                                schema_str = normal;
                                references = found.0;
                              })
                              found.0

  handle_schema-Gives :
      (fuel : ℕ) (key : JsonObject) (payload : Option JsonObject)
      → Gives services.hash (handle_schema services fuel key payload db)
  unfolding handle_schema
  handle_schema-Gives fuel key none = hard_delete_of-Gives key
  handle_schema-Gives fuel key (some []) = hard_delete_of-Gives key
  handle_schema-Gives fuel key (some (x ∷ o)) = insert_of-Gives fuel (x ∷ o)

module _ (hash : String → String) (core : Core) (w : IsWellFormed hash core.database) where
  on_database-keeps :
      (m : Result Database) → Gives hash m → IsWellFormed hash (on_database core m).1.database
  on_database-keeps (ok db) g = g
  on_database-keeps (err x) g = w

  with_subject-keeps : (subject : String) → IsWellFormed hash (with_subject subject core).database
  with_subject-keeps subject = elim (Bool-cases (is_some (find_subject subject core.database))) [
    | inl e ↦ rw e w
    | inr e ↦ rw e (insert_subject-IsWellFormed hash w subject)
  ]

  config_of-keeps :
      (payload : Option JsonObject) (subject : Result (Option String))
      → IsWellFormed hash (config_of payload core subject).1.database
  config_of-keeps payload (err x) = w
  config_of-keeps none (ok none) = w
  config_of-keeps (some o) (ok none) = level (text_at "compatibilityLevel" o)
    where
      level : (l : Result String) → IsWellFormed hash (set_global_level core l).1.database
      level (ok l) = w
      level (err x) = w
  config_of-keeps none (ok (some subject)) =
      put_compatibility-IsWellFormed hash (with_subject-keeps subject) subject none
  config_of-keeps (some []) (ok (some subject)) =
      put_compatibility-IsWellFormed hash (with_subject-keeps subject) subject none
  config_of-keeps (some (x ∷ o)) (ok (some subject)) = level (text_at "compatibilityLevel" (x ∷ o))
    where
      level :
          (l : Result String)
          → IsWellFormed hash (set_level subject (with_subject subject core) l).1.database
      level (ok l) =
          put_compatibility-IsWellFormed hash (with_subject-keeps subject) subject (some l)
      level (err x) = with_subject-keeps subject

discard-database :
    {S : Type 0} (services : Services S) (r : Result (Unit {0}) × Core)
    → (discard services r).1 ≡ r.1
discard-database services (ok u, core) = refl
discard-database services (err x, core) = ground arith

module _ {S : Type 0} (services : Services S) (core : Core)
    (w : IsWellFormed services.hash core.database) where
  handle_keytype-keeps :
      (fuel : ℕ) (keytype : Result String) (key : JsonObject) (payload : Option JsonObject)
      → IsWellFormed services.hash
          (handle_keytype services fuel keytype key payload core).1.database
  unfolding handle_keytype handle_config
  handle_keytype-keeps fuel (err x) key payload = w
  handle_keytype-keeps fuel (ok keytype) key payload =
      by_test (keytype == "CONFIG") _ _
        (config_of-keeps services.hash core w payload (text_if_any "subject" key))
        (by_test (keytype == "SCHEMA") _ _
          (on_database-keeps services.hash core w _
            (handle_schema-Gives services w fuel key payload))
          (by_test (keytype == "DELETE_SUBJECT") _ _
            (on_database-keeps services.hash core w _ (delete_subject_of-Gives services w payload))
            (by_test (keytype == "NOOP") _ _ w w)))
    where
      by_test :
          (b : Bool) (m n : Result (Unit {0}) × Core)
          → IsWellFormed services.hash m.1.database
          → IsWellFormed services.hash n.1.database
          → IsWellFormed services.hash (if b then m else n).1.database
      by_test true m n hm hn = hm
      by_test false m n hm hn = hn

  -- Whatever the message and whether its handler raises, a well-formed database stays well-formed.
  pub handle_msg-IsWellFormed :
      (fuel : ℕ) (key : JsonObject) (payload : Option JsonObject)
      → IsWellFormed services.hash (handle_msg services fuel key payload core).1.database
  unfolding handle_msg
  handle_msg-IsWellFormed fuel key payload = elim (Bool-cases (contains "keytype" key)) [
    | inl e ↦
        rw e (rw discard-database (handle_keytype-keeps fuel (text_at "keytype" key) key payload))
    | inr e ↦ rw e w
  ]
