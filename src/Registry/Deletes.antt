-- ===== src/Registry/Deletes.antt =====
-- `subject_delete_local` and `subject_version_delete_local`.
use karapace.Prelude.{
  Bool, true, false, not, ◌&&◌, none, some, List, [], ◌∷◌, String, is_empty, last_of, all_of,
  get_or, if◌then◌else◌,
}
use karapace.Dict.{Dict, get, keys, values}
use karapace.Version.{Version, latest, version_eq, is_latest}
use karapace.Version.Versioner.{from_schema_versions}
use karapace.Outcome.{
  Result, ok, err, or_raise, reference_exists, schemas_not_found, subject_not_soft_deleted,
  subject_soft_deleted, version_not_found, schema_version_soft_deleted,
  schema_version_not_soft_deleted,
}
use karapace.Schema.{SchemaVersion}
use karapace.Database.{get_referenced_by, live_items}
use karapace.Messages.{schema_message, delete_subject_message}
use karapace.Registry.State.{Action, return, raise, lift, asks, gets, raise_when, send, ◌>>=◌, ◌>>◌}
use karapace.Registry.Reads.{subject_get}

-- `if referenced_by and len(referenced_by) > 0: raise ReferenceExistsException`
unfoldable pub refuse_if_referenced : String → Version → Action (Unit {0})
unfolding get_referenced_by
refuse_if_referenced subject version = do
  ids ← gets (λ db. get_or (get_referenced_by subject version db) [])
  (if is_empty ids then return tt else raise (reference_exists ids version))

-- the two loops of a permanent delete: first every version is checked, then every one is deleted
unfoldable pub refuse_if_any_referenced :
    String → List (Version × SchemaVersion) → Action (Unit {0})
unfolding refuse_if_referenced
refuse_if_any_referenced subject [] = return tt
refuse_if_any_referenced subject (e ∷ rest) = do
  ids ← gets (λ db. get_or (get_referenced_by subject e.1.version db) [])
  (if is_empty ids then return tt else raise (reference_exists ids e.0))
  refuse_if_any_referenced subject rest

unfoldable pub send_deletes : String → List (Version × SchemaVersion) → Action (Unit {0})
unfolding schema_message
send_deletes subject [] = return tt
send_deletes subject (e ∷ rest) = do
  send (schema_message subject none e.1.schema_id e.0 true e.1.references)
  send_deletes subject rest

-- the branch `if permanent`
unfoldable pub delete_permanently : String → Dict Version SchemaVersion → Action (List Version)
delete_permanently subject versions = do
  refuse_if_any_referenced subject versions
  send_deletes subject versions
  return (keys versions)

-- the end of the branch without `permanent`
unfoldable pub delete_up_to : String → Version → List Version → Action (List Version)
unfolding refuse_if_referenced delete_subject_message
delete_up_to subject version version_list = do
  refuse_if_referenced subject version
  send (delete_subject_message subject version)
  return version_list

-- its start: the last live version, or -1 in the `except` branch
abbrev delete_live : String → Result (Dict Version SchemaVersion) → Action (List Version)
delete_live subject (err schemas_not_found) = delete_up_to subject latest []
delete_live subject (err x) = raise x
delete_live subject (ok live) = elim (last_of (keys live)) [
  | none ↦ return []
  | some v ↦ delete_up_to subject v (keys live)
]

-- the branch without `permanent`
unfoldable pub delete_softly : String → Action (List Version)
unfolding delete_up_to subject_get
delete_softly subject r = delete_live subject (subject_get subject false r.core.database) r

-- `subject_delete_local`
unfoldable pub subject_delete_local : String → Bool → Action (List Version)
subject_delete_local subject permanent = do
  versions ← asks (λ core. subject_get subject true core.database)
  let all_deleted = all_of (λ v. v.deleted) (values versions)
  raise_when (permanent && not all_deleted) subject_not_soft_deleted
  raise_when (not permanent && all_deleted) subject_soft_deleted
  (if permanent then delete_permanently subject versions else delete_softly subject)

-- the versions among which the version is resolved
abbrev pub candidates : Bool → Version → Dict Version SchemaVersion → Dict Version SchemaVersion
candidates permanent version versions =
    if not permanent && is_latest version then live_items versions else versions

-- its guards on the version that is found, and the message
unfoldable pub delete_version : String → Bool → Version → SchemaVersion → Action Version
delete_version subject permanent resolved found = do
  raise_when (found.deleted && not permanent) schema_version_soft_deleted
  raise_when (permanent && not found.deleted) schema_version_not_soft_deleted
  refuse_if_referenced subject resolved
  send (
      schema_message subject (if permanent then none else some found.schema) found.schema_id
        resolved true found.references)
  return resolved

-- `subject_version_delete_local`
unfoldable pub subject_version_delete_local : String → Version → Bool → Action Version
subject_version_delete_local subject version permanent = do
  all_versions ← asks (λ core. subject_get subject true core.database)
  let versions = candidates permanent version all_versions
  resolved ← lift (from_schema_versions versions version)
  found ← lift (or_raise (get resolved versions) version_not_found)
  delete_version subject permanent resolved found
