-- ===== src/Registry/Writes.antt =====
-- `write_new_schema_local`, and the messages of the configuration.
use karapace.Prelude.{
  ℕ, true, false, Option, none, some, List, String, is_empty, if◌then◌else◌, string_eq,
}
use karapace.Dict.{Dict}
use karapace.Version.{Version, number}
use karapace.Outcome.{incompatible_schema}
use karapace.Schema.{Reference, TypedSchema, SchemaVersion}
use karapace.Database.{
  get_schema_id_if_exists, find_subject_schemas, get_schema_id, get_next_version,
}
use karapace.Compatibility.{CompatibilityMode, ParsedTypedSchema, Checkers, is_incompatible}
use karapace.Messages.{schema_message, config_message, config_delete_message}
use karapace.Reader.Handlers.{Services}
use karapace.Registry.State.{Action, return, raise, asks, gets, send, changes, ◌>>=◌, ◌>>◌}
use karapace.Registry.Reads.{
  get_live_versions_sorted, check_schema_compatibility, get_compatibility_mode,
}

-- `send_config_message`, `send_config_subject_delete_message`
unfoldable pub send_config : CompatibilityMode → Option String → Action (Unit {0})
unfolding config_message
send_config level subject = send (config_message level subject)

unfoldable pub send_config_delete : String → Action (Unit {0})
unfolding config_delete_message
send_config_delete subject = send (config_delete_message subject)

module _ {S : Type 0} (services : Services S) (checkers : Checkers S) (fuel : ℕ) where
  -- the end of every path that registers: an id, and the message
  unfoldable pub register : String → TypedSchema → Option (List Reference) → Version → Action ℕ
  unfolding get_schema_id schema_message
  register subject schema references version = do
    schema_id ← changes (get_schema_id schema)
    send (schema_message subject (some schema) schema_id version false references)
    return schema_id

  -- the branch of a subject with live versions: the check comes first
  unfoldable pub register_checked :
      String → ParsedTypedSchema S → Option (List Reference) → Action ℕ
  register_checked subject new references = do
    result ← asks (check_schema_compatibility services checkers fuel new subject)
    (if is_incompatible result
        then (do asks (get_compatibility_mode subject); raise incompatible_schema)
        else (do
          version ← asks (λ core. get_next_version subject core.database)
          register subject new.typed references version))

  -- the branches on the versions that the subject has, the deleted ones included
  unfoldable pub register_new :
      String → ParsedTypedSchema S → Option (List Reference) → Dict Version SchemaVersion → Action ℕ
  register_new subject new references versions =
      if is_empty versions
      then register subject new.typed references (number 1)
      else if is_empty (get_live_versions_sorted versions)
      then (do
        version ← asks (λ core. get_next_version subject core.database)
        register subject new.typed references version)
      else register_checked subject new references

  -- `write_new_schema_local`
  unfoldable pub write_new_schema_local :
      String → ParsedTypedSchema S → Option (List Reference) → Action ℕ
  write_new_schema_local subject new references = do
    known ← gets (get_schema_id_if_exists services.hash subject new.typed)
    versions ← gets (find_subject_schemas subject true)
    elim known [
      | some schema_id ↦ return schema_id
      | none ↦ register_new subject new references versions
    ]
