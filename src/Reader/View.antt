-- ===== src/Reader/View.antt =====
-- What the log of messages says about the versions, without a database: an abstract registry that maps
-- a subject and a version to an id and a flag, and the change that each message of the registry makes.
use karapace.Prelude.{
  ℕ, Bool, true, false, ◌&&◌, ◌||◌, Option, none, some, List, [], ◌∷◌, String, string_eq, ◌==◌,
  map_option, if◌then◌else◌,
}
use karapace.Version.{Version, version_eq, version_leb}
use karapace.Outcome.{Result, ok, err}
use karapace.Schema.{TypedSchema, SchemaVersion, Reference}
use karapace.Database.{Database}
use karapace.Database.Lookup.{version_at}
use karapace.Compatibility.{CompatibilityMode}
use karapace.Messages.{
  Message, schema_message, config_message, config_delete_message, delete_subject_message,
}
use karapace.Reader.Handlers.{Services, Core, handle_msg}

abbrev pub View : Type 0
View = String → Version → Option (ℕ × Bool)

-- what a client sees of a version: its id, and whether it is deleted
abbrev pub entry_view : SchemaVersion → ℕ × Bool
entry_view x = (x.schema_id, x.deleted)

abbrev pub view_of : Database → View
view_of db s v = map_option entry_view (version_at s v db)

-- a version `w` after its subject is soft deleted up to `v`
abbrev pub deleted_up_to : Version → Version → ℕ × Bool → ℕ × Bool
deleted_up_to v w e = (e.0, version_leb w v || e.1)

-- What the registry writes to the log.
pub data Event : Type 0 where
  schema_written : String → TypedSchema → ℕ → Version → Bool → Event
  version_dropped : String → ℕ → Version → Option (List Reference) → Event
  subject_deleted : String → Version → Event
  level_set : CompatibilityMode → Option String → Event
  level_dropped : String → Event

abbrev pub message_of : Event → Message
message_of (schema_written s t i v deleted) = schema_message s (some t) i v deleted t.references
message_of (version_dropped s i v refs) = schema_message s none i v true refs
message_of (subject_deleted s v) = delete_subject_message s v
message_of (level_set mode s) = config_message mode s
message_of (level_dropped s) = config_delete_message s

-- the change that a message makes
abbrev pub apply : Event → View → View
apply (schema_written s t i v deleted) view u w =
    if s == u && v == w then some (i, deleted) else view u w
apply (version_dropped s i v refs) view u w = if s == u && v == w then none else view u w
apply (subject_deleted s v) view u w =
    if s == u then map_option (deleted_up_to v w) (view u w) else view u w
apply (level_set mode s) view u w = view u w
apply (level_dropped s) view u w = view u w

abbrev pub accepted : {A : Type 0} → Result A → Bool
accepted (ok a) = true
accepted (err x) = false

-- a log, from a state on: which messages were accepted, and the state after them
unfoldable pub replay : {S : Type 0} → Services S → ℕ → List Event → Core → List Bool × Core
replay services fuel [] core = ([], core)
replay services fuel (e ∷ es) core =
    let m = message_of e in
    let out = handle_msg services fuel m.key m.payload core in
    let rest = replay services fuel es out.1 in (accepted out.0 ∷ rest.0, rest.1)

-- the changes of the accepted messages, in order
abbrev pub apply_accepted : List Event → List Bool → View → View
apply_accepted [] _ view = view
apply_accepted (e ∷ es) [] view = view
apply_accepted (e ∷ es) (b ∷ bs) view = apply_accepted es bs (if b then apply e view else view)
