-- ===== src/Tests/Records.antt =====
-- Runs of the offset watcher, of the format of keys and of the compatibility modes.
use karapace.Prelude.{◌≡◌, ◌||◌, refl, [], ◌∷◌, pos, arith, string_eq}
use karapace.Dict.{get}
use karapace.Outcome.{ok}
use karapace.Messages.{text, int, JsonObject}
use karapace.KeyFormat.{format_key, canonical}
use karapace.KeyFormat.Canonical.{IsCanonicalOf, format_key-canonical}
use karapace.Compatibility.{
  backward, forward, full, SchemaCompatibilityResult, is_incompatible, check_compatibility,
}
use karapace.Compatibility.Modes.{full-eq-both}
use karapace.Tests.Data.{same_type_checkers, parsed, user, order}

-- a key of a schema, in another order than the canonical one
abbrev mixed_key : JsonObject
mixed_key =
    ("magic", int (pos 1))
    ∷ ("version", int (pos 1))
    ∷ ("keytype", text "SCHEMA")
    ∷ ("subject", text "users")
    ∷ []

format_key-canonical_example :
    (out : JsonObject) × (format_key canonical mixed_key ≡ ok out)
    × IsCanonicalOf
        (text "SCHEMA")
        (get "subject" mixed_key)
        (get "version" mixed_key)
        (int (pos 1))
        out
unfolding get
format_key-canonical_example =
    format_key-canonical mixed_key (text "SCHEMA") (int (pos 1)) refl refl refl

merge-joins :
    (a b : SchemaCompatibilityResult)
    → is_incompatible (same_type_checkers.merge a b) ≡ (is_incompatible a || is_incompatible b)
merge-joins a b = ground arith

full-eq-both_example :
    is_incompatible (check_compatibility same_type_checkers (parsed user) (parsed order) full) ≡ (
      is_incompatible (check_compatibility same_type_checkers (parsed user) (parsed order) backward)
      || is_incompatible
          (check_compatibility same_type_checkers (parsed user) (parsed order) forward))
full-eq-both_example = full-eq-both same_type_checkers (parsed user) (parsed order) merge-joins
