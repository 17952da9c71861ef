-- ===== src/Tests/Registrations.antt =====
-- Runs of the registry, and of the reader on the messages that it sends.
use karapace.Prelude.{
  ◌≡◌, refl, true, false, ◌&&◌, none, some, [], String, ◌==◌, string_eq, if◌then◌else◌,
}
use karapace.Dict.{Dict, get, set}
use karapace.Version.{Version, number, version_eq}
use karapace.Outcome.{ok}
use karapace.Schema.{SchemaVersion}
use karapace.Database.{
  Database, find_subject_schemas, insert_schema_version, get_schema_id, id_from_storage,
  find_subject,
}
use karapace.Database.Lookup.{version_at}
use karapace.Messages.{Message, schema_message}
use karapace.Reader.Handlers.{handle_msg, resolved_for}
use karapace.Reader.HardDelete.{handle_msg-hard_delete}
use karapace.Reader.Effects.{handle_msg-schema_message}
use karapace.Registry.{write_new_schema_local, subject_get}
use karapace.Registry.Register.{registered}
use karapace.Registry.RoundTrip.{register_again}
use karapace.Tests.Data.{
  plain_hash, plain_services, same_type_checkers, parsed, order, one_user, one_user-IsWellFormed,
  two_users, one_deleted, core_of, registry_of,
}

abbrev message_of_order : Message
message_of_order = schema_message "users" (some order) 2 (number 2) false none

the_user : (x : SchemaVersion) × (version_at "users" (number 1) one_user ≡ some x)
unfolding version_at insert_schema_version get set
the_user = (_, refl)

handle_msg-hard_delete_example :
    (db' : Database) × ((let m = schema_message "users" none 1 (number 1) true none in
        handle_msg plain_services 8 m.key m.payload (core_of one_user))
      ≡ (ok tt, core_of db'))
    × ((t : String) (w : Version)
        → version_at t w db'
          ≡ (if "users" == t && number 1 == w then none else version_at t w one_user))
handle_msg-hard_delete_example =
    handle_msg-hard_delete plain_services 8 (core_of one_user) "users" (number 1) 1 none the_user.1

deleted_there :
    (versions : Dict Version SchemaVersion) × (subject_get "users" true one_deleted ≡ ok versions)
unfolding subject_get insert_schema_version get set find_subject find_subject_schemas
deleted_there = (_, refl)

abbrev versions_of_users : Dict Version SchemaVersion
versions_of_users = find_subject_schemas "users" true two_users

handle_msg-schema_message_example :
    handle_msg plain_services 8 message_of_order.key message_of_order.payload (core_of one_user) ≡ (
      ok tt,
      core_of (insert_schema_version plain_hash "users" 2 (number 2) false order none one_user),
    )
unfolding resolved_for
handle_msg-schema_message_example =
    handle_msg-schema_message plain_services 8 (core_of one_user) "users" order 2 (number 2) false
      [] refl refl

register_again_example :
    (let sender = registered "users" order none (number 2) (registry_of one_user) in
      let m = schema_message "users" (some order) 2 (number 2) false none in
      let after = record sender {
        core = (handle_msg plain_services 8 m.key m.payload sender.core).1;
      } in
      write_new_schema_local plain_services same_type_checkers 8 "users" (parsed order) none after
      ≡ (ok 2, after))
unfolding get_schema_id id_from_storage insert_schema_version get set resolved_for
register_again_example =
    register_again plain_services same_type_checkers 8 "users" (parsed order) none (number 2)
      (registry_of one_user) [] one_user-IsWellFormed refl refl
