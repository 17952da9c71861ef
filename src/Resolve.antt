-- ===== src/Resolve.antt =====
-- The resolution of references in src/karapace/core/schema_reader.py, and `resolve_and_parse` of
-- core/schema_registry.py. `S` is the type of parsed schemas, and `parse` stands for the parsers behind
-- `ParsedTypedSchema.parse`. References may lead to schemas with references, so the code recurs along
-- them; the fuel bounds that depth, and without fuel the error is Python's RecursionError.
pub mod Depth
use karapace.Prelude.{
  ℕ, zero, suc, false, none, some, List, [], ◌∷◌, ◌++◌, map, String, string_eq, is_empty,
  if◌then◌else◌,
}
use karapace.Dict.{Dict, get, set, keys}
use karapace.Version.{Version, version_eq, max_version}
use karapace.Outcome.{
  Result, ok, err, ◌>>=◌, ◌>>◌, or_raise, raise_if, invalid_references, value_error,
  recursion_error,
}
use karapace.Schema.{Reference, AnyReference, latest_of, exact, resolve, TypedSchema, SchemaVersion}
use karapace.Database.{Database, find_subject_schemas}

-- `Dependency` of src/karapace/core/dependency.py
pub record Dependency (S : Type 0) : Type 0 where
  pub name : String
  pub subject : String
  pub version : Version
  pub schema : S

abbrev pub subject_of : AnyReference → String
subject_of (latest_of name subject) = subject
subject_of (exact r) = r.subject

-- `reference.resolve(max(subject_data))`, or the reference itself
abbrev pub pick_version : AnyReference → Dict Version SchemaVersion → Result Reference
pick_version (latest_of name subject) data' = do
  greatest ← or_raise (max_version (keys data')) value_error
  ok (resolve name subject greatest)
pick_version (exact r) data' = ok r

-- the resolved references, and the dependencies under the references' names
abbrev pub Resolved : Type 0 → Type 0
Resolved S = List Reference × Dict String (Dependency S)

module _ {S : Type 0} where
  -- the loop of `resolve_references`, over what resolves one reference
  unfoldable pub resolve_loop :
      (AnyReference → Result (Reference × Dependency S))
      → List AnyReference
      → Resolved S
      → Result (Resolved S)
  resolve_loop one [] found = ok found
  resolve_loop one (ref ∷ refs) (resolved, dependencies) = do
    (r, d) ← one ref
    resolve_loop one refs (resolved ++ r ∷ [], set r.name d dependencies)

  module _ (parse : TypedSchema → Dict String (Dependency S) → Result S) where
    -- `_resolve_and_validate`, and in the same words `resolve_and_parse`
    abbrev pub parse_resolved :
        (AnyReference → Result (Reference × Dependency S)) → TypedSchema → Result S
    parse_resolved one schema = elim schema.references [
      | none ↦ parse schema []
      | some refs ↦ if is_empty refs then parse schema [] else (do
        (resolved, dependencies) ← resolve_loop one (map exact refs) ([], [])
        parse (record schema { references = some resolved }) dependencies)
    ]

    -- `_resolve_reference`
    unfoldable pub resolve_reference :
        ℕ → Database → AnyReference → Result (Reference × Dependency S)
    unfolding find_subject_schemas resolve_loop max_version get
    resolve_reference zero db ref = err recursion_error
    resolve_reference (suc fuel) db ref = do
      let subject_data = find_subject_schemas (subject_of ref) false db
      raise_if (is_empty subject_data) invalid_references
      r ← pick_version ref subject_data
      version ← or_raise (get r.version subject_data) invalid_references
      validated ← parse_resolved (resolve_reference fuel db) version.schema
      ok (r, record { name = r.name; subject = r.subject; version = r.version; schema = validated })

    -- `resolve_references`
    unfoldable pub resolve_references : ℕ → Database → List AnyReference → Result (Resolved S)
    unfolding resolve_reference
    resolve_references fuel db refs = resolve_loop (resolve_reference fuel db) refs ([], [])

    -- `resolve_and_parse`
    unfoldable pub resolve_and_parse : ℕ → Database → TypedSchema → Result S
    unfolding resolve_reference
    resolve_and_parse fuel db = parse_resolved (resolve_reference fuel db)
