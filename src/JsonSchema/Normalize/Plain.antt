-- ===== src/JsonSchema/Normalize/Plain.antt =====
-- Schemas without references are normal.
use karapace.Prelude.{ℕ, zero, suc, ◌<◌, ◌≡◌, refl, List, [], String, arith}
use karapace.Outcome.{Result, ok}
use karapace.JsonSchema.Json.{
  JsonValue, null, array, object, Items, no_items, item, Members, no_members, member,
}
use karapace.JsonSchema.Types.{Keyword, Packages}
use karapace.JsonSchema.Utils.{keyword_at}
use karapace.JsonSchema.Recursion.{compatibility_rec}
use karapace.JsonSchema.Normalize.{
  Validator, scopes_of, normalize_members, normalize_items, normalize_reference,
  normalize_schema_rec, normalize_schema, compatibility,
}
use karapace.JsonSchema.Terminates.Weight.{weight, weight_items, weight_members}

-- no dict of a schema has a `$ref`
unfoldable mutual
  pub IsPlain : JsonValue → Type 0
  IsPlain (array vs) = ItemsPlain vs
  IsPlain (object m) = (keyword_at Keyword.ref m ≡ null) × MembersPlain m
  IsPlain _ = Unit

  pub ItemsPlain : Items → Type 0
  ItemsPlain no_items = Unit
  ItemsPlain (item v vs) = IsPlain v × ItemsPlain vs

  pub MembersPlain : Members → Type 0
  MembersPlain no_members = Unit
  MembersPlain (member k v m) = IsPlain v × MembersPlain m

module _ (visit : List String → JsonValue → Result JsonValue) (n : ℕ)
    (visit-plain : (scopes : List String) (v : JsonValue)
      → IsPlain v
      → weight v < n
      → visit scopes v ≡ ok v)
    (validator : Validator) where
  normalize_members-plain :
      (scopes : List String) (m : Members)
      → MembersPlain m
      → weight_members m < n
      → normalize_members validator visit scopes m ≡ ok m
  unfolding normalize_members IsPlain weight
  normalize_members-plain scopes no_members plain h = refl
  normalize_members-plain scopes (member k v m) (pv, pm) h =
      rw (visit-plain scopes v pv (omega arith))
        (rw (normalize_members-plain scopes m pm (omega arith)) refl)

  normalize_items-plain :
      (scopes : List String) (vs : Items)
      → ItemsPlain vs
      → weight_items vs < n
      → normalize_items validator visit scopes vs ≡ ok vs
  unfolding normalize_items IsPlain weight
  normalize_items-plain scopes no_items plain h = refl
  normalize_items-plain scopes (item v vs) (pv, pvs) h =
      rw (visit-plain scopes v pv (omega arith))
        (rw (normalize_items-plain scopes vs pvs (omega arith)) refl)

  normalize_reference-plain :
      (ref : JsonValue) (scopes : List String) (m : Members)
      → ref ≡ null
      → MembersPlain m
      → weight_members m < n
      → normalize_reference validator visit ref scopes m ≡ ok (object m)
  unfolding normalize_reference
  normalize_reference-plain null scopes m e plain h =
      rw (normalize_members-plain scopes m plain h) refl
  normalize_reference-plain _ scopes m e plain h = absurd (ground (arith, e))

normalize_schema_rec-plain :
    (validator : Validator) (fuel : ℕ) (scopes : List String) (v : JsonValue)
    → IsPlain v
    → weight v < fuel
    → normalize_schema_rec validator fuel scopes v ≡ ok v
unfolding normalize_schema_rec IsPlain weight
normalize_schema_rec-plain validator zero scopes v plain h = absurd (omega arith)
normalize_schema_rec-plain validator (suc fuel) scopes (object m) (e, plain) h =
    normalize_reference-plain (normalize_schema_rec validator fuel) fuel
      (normalize_schema_rec-plain validator fuel) validator _ (scopes_of validator m scopes) m e
      plain (omega arith)
normalize_schema_rec-plain validator (suc fuel) scopes (array vs) plain h =
    rw
      (normalize_items-plain (normalize_schema_rec validator fuel) fuel
        (normalize_schema_rec-plain validator fuel) validator scopes vs plain (omega arith))
      refl
normalize_schema_rec-plain validator (suc fuel) scopes _ plain h = refl

-- The check of two schemas without `$ref`, with more fuel for their normalization than either of them weighs,
-- is that of the schemas as they are.
pub compatibility-plain :
    (p : Packages) (depth fuel : ℕ) (reader writer : Validator)
    → IsPlain reader.schema
    → IsPlain writer.schema
    → weight reader.schema < depth
    → weight writer.schema < depth
    → compatibility p depth fuel reader writer
      ≡ compatibility_rec p fuel reader.schema writer.schema []
unfolding compatibility normalize_schema
compatibility-plain p depth fuel reader writer pr pw hr hw =
    rw (normalize_schema_rec-plain reader depth reader.scopes reader.schema pr hr)
      (rw (normalize_schema_rec-plain writer depth writer.scopes writer.schema pw hw) refl)
