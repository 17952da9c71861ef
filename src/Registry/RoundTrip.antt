-- ===== src/Registry/RoundTrip.antt =====
-- The messages of the registry, after the reader has handled them.
use karapace.Prelude.{
  Option, List, ℕ, ◌≡◌, refl, false, ◌&&◌, some, String, arith, string_eq, ◌==◌, ==_refl,
}
use karapace.Dict.{Dict}
use karapace.Version.{Version, version_eq}
use karapace.Outcome.{ok}
use karapace.Schema.{Reference, TypedSchema, SchemaVersion, fingerprint_str}
use karapace.Database.{
  Database, get_schema_id, get_schema_id_if_exists, insert_schema_version, new_entry,
}
use karapace.Database.Invariant.{
  IsWellFormed, get_schema_id-IsWellFormed, fingerprint-cached_schema,
}
use karapace.Database.Index.{get_schema_id_if_exists-insert}
use karapace.Database.Lookup.{version_at, version_at-insert}
use karapace.Resolve.{Dependency}
use karapace.Messages.{schema_message}
use karapace.Reader.Handlers.{Services, handle_msg, resolved_for}
use karapace.Reader.Effects.{sent_references, handle_msg-schema_message}
use karapace.Registry.{Registry, write_new_schema_local}
use karapace.Compatibility.{Checkers, ParsedTypedSchema}
use karapace.Registry.Register.{registered}

-- What a registration leaves behind once it is read: the id is found for the subject and the schema,
-- the version holds that id, is live and has the schema's fingerprint, and all other versions are as
-- they were.
pub record IsRegistered (hash : String → String) (s : String) (t : TypedSchema) (v : Version)
    (i : ℕ) (before after : Database) : Type 0 where
  pub id_found : get_schema_id_if_exists hash s t after ≡ some i
  pub entry : SchemaVersion
  pub entry_found : version_at s v after ≡ some entry
  pub entry_live : entry.deleted ≡ false
  pub entry_id : entry.schema_id ≡ i
  pub entry_fingerprint : hash (fingerprint_str entry.schema) ≡ hash (fingerprint_str t)
  pub others :
      (u : String) (w : Version)
      → (u == s && w == v) ≡ false
      → version_at u w after ≡ version_at u w before

insert-IsRegistered :
    (hash : String → String) (s : String) (t : TypedSchema) (v : Version) (i : ℕ)
    (before db : Database)
    → IsWellFormed hash db
    → ((u : String) (x : Version) → version_at u x db ≡ version_at u x before)
    → IsRegistered hash s t v i before (insert_schema_version hash s i v false t t.references db)
insert-IsRegistered hash s t v i before db w same = record {
  id_found = ground (
    arith,
    get_schema_id_if_exists-insert hash s t db s i v false t t.references w,
    ==_refl s,
    ==_refl (hash (fingerprint_str t)),
  );
  entry = new_entry hash s i v false t t.references db;
  entry_found =
      ground
        (arith, version_at-insert s v db hash s i v false t t.references, ==_refl s, ==_refl v);
  entry_live = refl;
  entry_id = refl;
  entry_fingerprint = fingerprint-cached_schema hash w t;
  others = λ u x other. ground (
    arith,
    same u x,
    version_at-insert u x db hash s i v false t t.references,
    string_eq.beq_iff s u,
    string_eq.beq_iff u s,
    version_eq.beq_iff v x,
    version_eq.beq_iff x v,
  );
}

version_at-get_schema_id :
    (u : String) (x : Version) (t : TypedSchema) (db : Database)
    → version_at u x (get_schema_id t db).1 ≡ version_at u x db
unfolding get_schema_id version_at
version_at-get_schema_id u x t db = ground arith

pub register_roundtrip :
    {S : Type 0} (services : Services S) (fuel : ℕ) (s : String) (t : TypedSchema) (v : Version)
    (r : Registry) (dependencies : Dict String (Dependency S))
    → IsWellFormed services.hash r.core.database
    → resolved_for services fuel t.schema_type
        (sent_references t.references)
        (get_schema_id t r.core.database).1
      ≡ ok (t.references, dependencies)
    → services.normalize t.schema_type t.schema_str t.references dependencies ≡ ok t.schema_str
    → (let i = (get_schema_id t r.core.database).0 in
        let m = schema_message s (some t) i v false t.references in
        let read =
          handle_msg services fuel m.key m.payload (registered s t t.references v r).core in
        (read.0 ≡ ok tt) × IsRegistered services.hash s t v i r.core.database read.1.database)
register_roundtrip services fuel s t v r dependencies w resolves normal =
    let i = (get_schema_id t r.core.database).0 in
    let db = (get_schema_id t r.core.database).1 in
    let core = (registered s t t.references v r).core in
    rw (handle_msg-schema_message services fuel core s t i v false dependencies resolves normal) (
      refl,
      insert-IsRegistered services.hash s t v i r.core.database db
          (get_schema_id-IsWellFormed services.hash w t)
          (λ u x. version_at-get_schema_id u x t r.core.database),
    )

-- Once the reader has taken the message of a registration in a well-formed database, whose references
-- resolve to those of the schema and whose text is normal, registering the schema again for the subject
-- gives the same id and sends nothing, whatever the checkers say.
pub register_again :
    {S : Type 0} (services : Services S) (checkers : Checkers S) (fuel : ℕ) (s : String)
    (new : ParsedTypedSchema S) (refs : Option (List Reference)) (v : Version) (r : Registry)
    (dependencies : Dict String (Dependency S))
    → IsWellFormed services.hash r.core.database
    → resolved_for services fuel new.typed.schema_type
        (sent_references new.typed.references)
        (get_schema_id new.typed r.core.database).1
      ≡ ok (new.typed.references, dependencies)
    → services.normalize new.typed.schema_type new.typed.schema_str new.typed.references
        dependencies
      ≡ ok new.typed.schema_str
    → (let t = new.typed in
        let i = (get_schema_id t r.core.database).0 in
        let sender = registered s t t.references v r in
        let m = schema_message s (some t) i v false t.references in
        let after = record sender {
          core = (handle_msg services fuel m.key m.payload sender.core).1;
        } in
        write_new_schema_local services checkers fuel s new refs after ≡ (ok i, after))
unfolding write_new_schema_local
register_again services checkers fuel s new refs v r dependencies w resolves normal =
    let stored =
      (register_roundtrip services fuel s new.typed v r dependencies w resolves normal).1 in
    rw stored.id_found refl
