-- ===== src/Reader/Effects.antt =====
-- What the reader does with the messages that the registry sends.
use karapace.Prelude.{
  ℕ, ◌≡◌, refl, Bool, Option, none, some, List, [], map, String, is_empty, string_eq, if◌then◌else◌,
}
use karapace.Dict.{Dict, get}
use karapace.Version.{Version, latest, number, value, version_eq}
use karapace.Version.Versioner.{init}
use karapace.Outcome.{ok}
use karapace.Schema.{SchemaType, avro, Reference, TypedSchema}
use karapace.Database.{insert_schema_version}
use karapace.Resolve.{Dependency}
use karapace.Messages.{
  RawReference, schema_message, to_dict, text_at, int_at, bool_or, references_if_any,
}
use karapace.Reader.Handlers.{Services, Core, handle_msg, insert_of, resolved_for}

pub init-value : (v : Version) → init (value v) ≡ ok v
unfolding init
init-value latest = refl
init-value (number n) = refl

-- the references that a message carries for a schema
abbrev pub sent_references : Option (List Reference) → Option (List RawReference)
sent_references none = none
sent_references (some refs) = if is_empty refs then none else some (map to_dict refs)

module _ {S : Type 0} (services : Services S) (fuel : ℕ) (core : Core) where
  -- the same over the fields of the schema, so that each shape of the message computes
  insert_fields :
      (subject : String) (t : SchemaType) (schema_str : String) (refs : Option (List Reference))
      (schema_id : ℕ) (version : Version) (deleted : Bool)
      (dependencies : Dict String (Dependency S))
      → resolved_for services fuel t (sent_references refs) core.database ≡ ok (refs, dependencies)
      → services.normalize t schema_str refs dependencies ≡ ok schema_str
      → (let schema : TypedSchema = record {
        schema_type = t;
        schema_str = schema_str;
        references = refs;
      } in
          let m = schema_message subject (some schema) schema_id version deleted refs in
          handle_msg services fuel m.key m.payload core)
        ≡ (
          ok tt,
          record core {
            database =
                insert_schema_version services.hash subject schema_id version deleted
                  (record { schema_type = t; schema_str = schema_str; references = refs })
                  refs
                  core.database;
          },
        )
  unfolding handle_msg insert_of schema_message text_at int_at bool_or references_if_any get
  insert_fields subject avro schema_str none schema_id version deleted dependencies resolves
        normal =
      rw (init-value version) (rw resolves (rw normal))
  insert_fields subject t schema_str (some []) schema_id version deleted dependencies resolves
        normal =
      rw (init-value version) (rw resolves (rw normal))
  insert_fields subject _ schema_str _ schema_id version deleted dependencies resolves normal =
      rw (init-value version) (rw resolves (rw normal))

  -- The reader inserts what `send_schema_message` sends, under the conditions that the references
  -- resolve to those of the schema and that its text is normal.
  pub handle_msg-schema_message :
      (subject : String) (schema : TypedSchema) (schema_id : ℕ) (version : Version) (deleted : Bool)
      (dependencies : Dict String (Dependency S))
      → resolved_for services fuel schema.schema_type
          (sent_references schema.references)
          core.database
        ≡ ok (schema.references, dependencies)
      → services.normalize schema.schema_type schema.schema_str schema.references dependencies
        ≡ ok schema.schema_str
      → (let m = schema_message subject (some schema) schema_id version deleted schema.references in
          handle_msg services fuel m.key m.payload core)
        ≡ (
          ok tt,
          record core {
            database =
                insert_schema_version services.hash subject schema_id version deleted schema
                  schema.references core.database;
          },
        )
  handle_msg-schema_message subject schema schema_id version deleted dependencies resolves normal =
      insert_fields subject schema.schema_type schema.schema_str schema.references schema_id version
        deleted dependencies resolves normal
