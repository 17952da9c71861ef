-- ===== src/Tests/Stores.antt =====
-- Runs of the database and of what it is made of.
use karapace.Prelude.{
  ℕ, suc, ◌≤◌, ◌<◌, ◌≡◌, ◌≢◌, ◌⊎◌, refl, true, false, none, some, [], ◌∷◌, arith, string_eq, nat_eq,
}
use karapace.Dict.{get, set}
use karapace.Version.{Version, number, rank, version_eq}
use karapace.Outcome.{ok}
use karapace.Schema.{TypedSchema, SchemaVersion, fingerprint_str}
use karapace.Database.{
  Database, get_schema_id, get_next_version, get_schema_id_if_exists, insert_schema_version,
  delete_subject_schema, insert_references, remove_referenced_by,
}
use karapace.Database.Lookup.{version_at}
use karapace.Database.Ids.{get_schema_id-fresh, get_next_version-greater}
use karapace.Database.Index.{get_schema_id_if_exists-insert}
use karapace.Database.Forget.{delete_subject_schema-forgets}
use karapace.Database.Referents.{refers, refers-insert_references, refers-remove_referenced_by}
use karapace.Tests.Data.{
  plain_hash, user, order, to_users, one_user, one_user-IsWellFormed, two_users,
}

get_schema_id-fresh_example :
    ((get (get_schema_id order one_user).0 one_user.schemas ≡ some order)
      × ((get_schema_id order one_user).1 ≡ one_user))
    ⊎ (((j : ℕ) (s : TypedSchema)
          → get j one_user.schemas ≡ some s
          → (j < (get_schema_id order one_user).0) × (s ≢ order))
        × ((get_schema_id order one_user).1.global_schema_id ≡ (get_schema_id order one_user).0))
get_schema_id-fresh_example = get_schema_id-fresh plain_hash order one_user one_user-IsWellFormed

abbrev user_entry : SchemaVersion
user_entry = record {
  subject = "users";
  version = number 1;
  deleted = false;
  schema_id = 1;
  schema = user;
  references = none;
}

first_user : version_at "users" (number 1) two_users ≡ some user_entry
unfolding version_at insert_schema_version get set
first_user = refl

second_user :
    version_at "users" (number 2) two_users ≡ some (record user_entry { version = number 2 })
unfolding version_at insert_schema_version get set fingerprint_str
second_user = refl

get_next_version-greater_example :
    (n : ℕ) × (get_next_version "users" two_users ≡ ok (number (suc n)))
    × ((v : Version) (y : SchemaVersion)
        → version_at "users" v two_users ≡ some y
        → rank v ≤ rank (number n))
get_next_version-greater_example =
    get_next_version-greater "users" 1 user_entry two_users first_user

get_schema_id_if_exists-insert_example :
    get_schema_id_if_exists plain_hash "users" order
      (insert_schema_version plain_hash "users" 2 (number 2) false order none one_user)
    ≡ some 2
unfolding fingerprint_str
get_schema_id_if_exists-insert_example =
    get_schema_id_if_exists-insert plain_hash "users" order one_user "users" 2 (number 2) false
      order none one_user-IsWellFormed

-- the database after the second version is deleted permanently
without_second :
    (db : Database) × (delete_subject_schema plain_hash "users" (number 2) two_users ≡ ok db)
unfolding delete_subject_schema insert_schema_version get set
without_second = (_, refl)

delete_subject_schema-forgets_example :
    (version_at "users" (number 1) without_second.0 ≡ some user_entry)
    × (get_schema_id_if_exists plain_hash "users" user without_second.0 ≡ none)
delete_subject_schema-forgets_example =
    delete_subject_schema-forgets plain_hash "users" (number 2) (number 1) two_users (ground arith)
      second_user first_user refl without_second.1

user_is_cached : get (plain_hash (fingerprint_str user)) one_user.hash_to_schema ≡ some user
unfolding insert_schema_version get set fingerprint_str
user_is_cached = refl

refers-insert_references_example :
    refers 2 "users" (number 1) (insert_references 2 (to_users ∷ []) []) ≡ true
refers-insert_references_example =
    refers-insert_references 2 "users" (number 1) 2 (to_users ∷ []) []

refers-remove_referenced_by_example :
    refers 2 "users"
      (number 1)
      (remove_referenced_by 2 (to_users ∷ []) (insert_references 2 (to_users ∷ []) []))
    ≡ false
refers-remove_referenced_by_example =
    refers-remove_referenced_by 2 "users" (number 1) 2 (to_users ∷ [])
      (insert_references 2 (to_users ∷ []) [])
