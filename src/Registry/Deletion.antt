-- ===== src/Registry/Deletion.antt =====
-- When the registry deletes, and what it then sends.
use karapace.Prelude.{
  ◌≡◌, Bool, true, none, some, List, [], ◌∷◌, ◌++◌, map, String, All, get_or, if◌then◌else◌,
}
use karapace.Dict.{Dict, get, keys, values}
use karapace.Version.{Version, version_eq}
use karapace.Version.Versioner.{from_schema_versions}
use karapace.Outcome.{Result, ok, err}
use karapace.Schema.{SchemaVersion}
use karapace.Database.{Database, get_referenced_by}
use karapace.Messages.{Message, schema_message}
use karapace.Registry.{Registry}

-- no schema refers to a version
abbrev pub IsUnreferenced : String → Version → Database → Type 0
IsUnreferenced s v db = get_or (get_referenced_by s v db) [] ≡ []

-- what the deletion of a version that is found comes to
abbrev pub DeletesFound :
    String → Bool → Version → SchemaVersion → Registry → Result Version × Registry → Type 0
DeletesFound s permanent v x r (err e, r') = r' ≡ r
DeletesFound s permanent v x r (ok u, r') =
    (u ≡ v)
    × (x.deleted ≡ permanent)
    × IsUnreferenced s v r.core.database
    × (r' ≡ record r {
      sent =
          r.sent
          ++ schema_message s (if permanent then none else some x.schema) x.schema_id v true
              x.references
            ∷ [];
    })

-- what a delete of one version comes to
abbrev pub DeletesVersion :
    String
    → Version
    → Bool
    → Dict Version SchemaVersion
    → Registry
    → Result Version × Registry
    → Type 0
DeletesVersion s version permanent versions r (err x, r') = r' ≡ r
DeletesVersion s version permanent versions r (ok v, r') =
    (x : SchemaVersion) × (from_schema_versions versions version ≡ ok v)
    × (get v versions ≡ some x)
    × DeletesFound s permanent v x r (ok v, r')

-- the message of a permanent delete of one version
abbrev pub tombstone : String → Version × SchemaVersion → Message
tombstone s e = schema_message s none e.1.schema_id e.0 true e.1.references

-- What the permanent delete of a subject comes to, over the versions that it has.
abbrev pub DeletesSubject :
    String → Dict Version SchemaVersion → Registry → Result (List Version) × Registry → Type 0
DeletesSubject s versions r (err x, r') = r' ≡ r
DeletesSubject s versions r (ok vs, r') =
    (vs ≡ keys versions)
    × All (λ x. x.deleted ≡ true) (values versions)
    × All (λ e. IsUnreferenced s e.1.version r.core.database) versions
    × (r' ≡ record r { sent = r.sent ++ map (tombstone s) versions })
