-- ===== src/Registry/Register.antt =====
-- What `write_new_schema_local` sends, and what the reader makes of it.
use karapace.Prelude.{
  ℕ, ◌≡◌, ◌⊎◌, false, Option, none, some, List, [], ◌∷◌, ◌++◌, String, string_eq,
}
use karapace.Version.{Version, version_eq}
use karapace.Outcome.{Result, ok, err}
use karapace.Schema.{Reference, TypedSchema}
use karapace.Database.{get_schema_id}
use karapace.Database.Lookup.{version_at}
use karapace.Messages.{schema_message}
use karapace.Registry.{Registry}

-- the registry after a registration under a version: the id is taken, and one message is sent
abbrev pub registered :
    String → TypedSchema → Option (List Reference) → Version → Registry → Registry
registered s t refs v r = record {
  core = record r.core { database = (get_schema_id t r.core.database).1 };
  sent = r.sent ++ schema_message s (some t) (get_schema_id t r.core.database).0 v false refs ∷ [];
}

-- An error leaves the registry as it was; a result is an id that was known, or a registration under a
-- version that the subject does not have.
abbrev pub Settled :
    String
    → TypedSchema
    → Option (List Reference)
    → Option ℕ
    → Registry
    → Result ℕ × Registry
    → Type 0
Settled s t refs known r (err x, r') = r' ≡ r
Settled s t refs known r (ok i, r') =
    ((known ≡ some i) × (r' ≡ r))
    ⊎ ((v : Version) × (version_at s v r.core.database ≡ none)
        × (i ≡ (get_schema_id t r.core.database).0)
        × (r' ≡ registered s t refs v r))
