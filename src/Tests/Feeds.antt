-- ===== src/Tests/Feeds.antt =====
-- Runs of the reader on batches of messages.
use karapace.Prelude.{
  refl, ◌≡◌, true, false, Option, none, some, List, [], ◌∷◌, String, pos, negsuc, int_leb,
  string_eq, ◌==◌, if◌then◌else◌,
}
use karapace.KeyFormat.{canonical, is_key_in_canonical_format}
use karapace.Dict.{get}
use karapace.Outcome.{ok}
use karapace.Offsets.{is_seen}
use karapace.Reader.Handlers.{handle_msg}
use karapace.Reader.Release.{consume_message-releases}
use karapace.Messages.{text, int, text_at}
use karapace.Database.Invariant.{IsWellFormed}
use karapace.Reader.Consume.{
  RawMessage, Decoded, object, other, Reader, read_key, consume_message, consume_messages,
}
use karapace.Reader.Steps.{Advances, consume_message-Advances}
use karapace.Reader.Batches.{KeepsMode, consume_messages-IsWellFormed, consume_messages-KeepsMode}
use karapace.Reader.View.{
  Event, schema_written, subject_deleted, version_dropped, replay, apply_accepted, view_of,
}
use karapace.Reader.Replay.{replay-refines}
use karapace.Schema.{TypedSchema, avro}
use karapace.Version.{number}
use karapace.Tests.Data.{plain_hash, plain_services, one_user, one_user-IsWellFormed, core_of}

-- one text that is the key of a NOOP message; another that is JSON but no object; else no JSON
abbrev decode : String → Option Decoded
decode s =
    if s == "noop"
    then some (object (("keytype", text "NOOP") ∷ ("magic", int (pos 0)) ∷ []))
    else if s == "7"
    then some other
    else none

abbrev reader : Reader
reader = record {
  core = core_of one_user;
  offset = negsuc 0;
  ready = true;
  key_mode = canonical;
  greatest_offset = negsuc 0;
  highest_offset = pos 1;
  max_messages_to_process = 1;
}

abbrev noop_message : RawMessage
noop_message = record { offset = pos 0; error = none; key = some "noop"; value = none }

-- a key that is no JSON
abbrev broken_message : RawMessage
broken_message = record { offset = pos 1; error = none; key = some "{"; value = none }

consume_message-Advances_example :
    Advances plain_hash noop_message
      (read_key decode noop_message)
      reader
      (consume_message plain_services decode 8 false true noop_message reader).1
consume_message-Advances_example =
    consume_message-Advances plain_services decode 8 false true noop_message reader
      one_user-IsWellFormed

consume_messages-IsWellFormed_example :
    (let r' =
        (consume_messages plain_services decode 8 false true
          (noop_message ∷ broken_message ∷ [])
          (0, 0)
          reader).1 in
      IsWellFormed plain_hash r'.core.database
      × (int_leb reader.greatest_offset r'.greatest_offset ≡ true))
consume_messages-IsWellFormed_example =
    consume_messages-IsWellFormed plain_services decode 8 false true
      (noop_message ∷ broken_message ∷ []) (0, 0) reader one_user-IsWellFormed

consume_messages-KeepsMode_example :
    KeepsMode plain_services decode 8 false true (noop_message ∷ broken_message ∷ []) reader (
      consume_messages plain_services decode 8 false true
        (noop_message ∷ broken_message ∷ [])
        (0, 0)
        reader)
consume_messages-KeepsMode_example =
    consume_messages-KeepsMode plain_services decode 8 false true
      (noop_message ∷ broken_message ∷ []) (0, 0) reader one_user-IsWellFormed

noop_counts :
    (consume_message plain_services decode 8 false true noop_message reader).0 ≡ ok (some canonical)
unfolding consume_message handle_msg is_key_in_canonical_format get text_at
noop_counts = refl

consume_message-releases_example :
    is_seen
      (pos 0)
      (consume_message plain_services decode 8 false true noop_message reader).1.greatest_offset
    ≡ true
consume_message-releases_example =
    consume_message-releases plain_services decode 8 false noop_message canonical reader refl
      noop_counts

abbrev user_schema : TypedSchema
user_schema = record { schema_type = avro; schema_str = "{}"; references = none }

-- a version is written, its subject is soft deleted, a second version is written, the first one dropped
abbrev user_log : List Event
user_log =
    schema_written "orders" user_schema 5 (number 1) false
    ∷ subject_deleted "orders" (number 1)
    ∷ schema_written "orders" user_schema 6 (number 2) false
    ∷ version_dropped "orders" 5 (number 1) none
    ∷ []

replay-refines_example :
    (let out = replay plain_services 8 user_log (core_of one_user) in
      view_of out.1.database "orders" (number 2)
      ≡ apply_accepted user_log out.0 (view_of one_user) "orders" (number 2))
replay-refines_example =
    replay-refines plain_services 8 user_log (core_of one_user) one_user-IsWellFormed "orders"
      (number 2)

user_log_accepted :
    (replay plain_services 8 user_log (core_of one_user)).0 ≡ true ∷ true ∷ true ∷ true ∷ []
unfolding replay handle_msg get karapace.Messages.schema_message text_at
    karapace.Messages.delete_subject_message karapace.Reader.Handlers.insert_of
    karapace.Messages.int_at karapace.Messages.bool_or karapace.Messages.references_if_any
    karapace.Reader.Handlers.resolved_for karapace.Reader.Handlers.delete_subject_of
    karapace.Reader.Handlers.hard_delete_of karapace.Database.insert_schema_version
    karapace.Dict.set karapace.Database.delete_subject karapace.Database.delete_subject_schema
    karapace.Dict.pop
user_log_accepted = refl
