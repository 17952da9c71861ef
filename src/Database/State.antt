-- ===== src/Database/State.antt =====
-- The fields of `InMemoryDatabase`, its empty state, and the private helpers on the two caches of
-- fingerprints and on the referents.
use karapace.Prelude.{
  ℕ, not, Option, none, some, List, [], ◌∷◌, ◌++◌, String, ◌==◌, nat_eq, string_eq, pair_eq, elem,
  select, is_empty, get_or, if◌then◌else◌,
}
use karapace.Dict.{Dict, get, set, pop}
use karapace.Version.{Version, version_eq}
use karapace.Schema.{Reference, TypedSchema, SchemaVersion}

-- `SubjectData`; the compatibility is a text, as in the messages
pub record SubjectData : Type 0 where
  pub schemas : Dict Version SchemaVersion
  pub compatibility : Option String

abbrev pub new_subject : SubjectData
new_subject = record { schemas = []; compatibility = none }

-- `InMemoryDatabase`. A `Referents` set is a list with each id once.
pub record Database : Type 0 where
  pub global_schema_id : ℕ
  pub subjects : Dict String SubjectData
  pub schemas : Dict ℕ TypedSchema
  pub referenced_by : Dict (String × Version) (List ℕ)
  pub hash_to_schema : Dict String TypedSchema
  pub hash_to_schema_id_on_subject : Dict String (Dict String ℕ)

-- `InMemoryDatabase.__init__`
abbrev pub empty : Database
empty = record {
  global_schema_id = 0;
  subjects = [];
  schemas = [];
  referenced_by = [];
  hash_to_schema = [];
  hash_to_schema_id_on_subject = [];
}

-- `_set_schema_id_on_subject`, on the cache and the fingerprint
unfoldable pub set_id_on_subject :
    String → String → ℕ → Dict String (Dict String ℕ) → Dict String (Dict String ℕ)
set_id_on_subject subject fingerprint schema_id cache =
    set subject (set fingerprint schema_id (get_or (get subject cache) [])) cache

-- what `_delete_from_schema_id_on_subject` does with the subject's entries, if it has any
abbrev without_fingerprint :
    String
    → String
    → Option (Dict String ℕ)
    → Dict String (Dict String ℕ)
    → Dict String (Dict String ℕ)
without_fingerprint subject fingerprint none cache = cache
without_fingerprint subject fingerprint (some ids) cache =
    if is_empty (pop fingerprint ids)
    then pop subject cache
    else set subject (pop fingerprint ids) cache

-- `_delete_from_schema_id_on_subject`
unfoldable pub delete_id_on_subject :
    String → String → Dict String (Dict String ℕ) → Dict String (Dict String ℕ)
delete_id_on_subject subject fingerprint cache =
    without_fingerprint subject fingerprint (get subject cache) cache

-- `set.add`, `set.remove`
abbrev pub add_referent : ℕ → List ℕ → List ℕ
add_referent schema_id ids = if elem schema_id ids then ids else ids ++ schema_id ∷ []

abbrev pub remove_referent : ℕ → List ℕ → List ℕ
remove_referent schema_id = select (λ i. not (i == schema_id))

-- `_insert_referenced_by`: an empty set is replaced, as an absent one.
unfoldable pub insert_referenced_by :
    String → Version → ℕ → Dict (String × Version) (List ℕ) → Dict (String × Version) (List ℕ)
insert_referenced_by subject version schema_id referents = elim (get (subject, version) referents) [
  | none ↦ set (subject, version) (schema_id ∷ []) referents
  | some ids ↦
      if is_empty ids
      then set (subject, version) (schema_id ∷ []) referents
      else set (subject, version) (add_referent schema_id ids) referents
]

-- the body of the loop of `_remove_referenced_by`
unfoldable pub remove_reference :
    ℕ → Reference → Dict (String × Version) (List ℕ) → Dict (String × Version) (List ℕ)
remove_reference schema_id ref referents = elim (get (ref.subject, ref.version) referents) [
  | none ↦ referents
  | some ids ↦
      if elem schema_id ids
      then set (ref.subject, ref.version) (remove_referent schema_id ids) referents
      else referents
]

-- `_remove_referenced_by`
unfoldable pub remove_referenced_by :
    ℕ → List Reference → Dict (String × Version) (List ℕ) → Dict (String × Version) (List ℕ)
unfolding remove_reference
remove_referenced_by schema_id [] referents = referents
remove_referenced_by schema_id (ref ∷ refs) referents =
    remove_referenced_by schema_id refs (remove_reference schema_id ref referents)

-- the loop over the references in `insert_schema_version`
unfoldable pub insert_references :
    ℕ → List Reference → Dict (String × Version) (List ℕ) → Dict (String × Version) (List ℕ)
unfolding insert_referenced_by
insert_references schema_id [] referents = referents
insert_references schema_id (ref ∷ refs) referents =
    insert_references schema_id refs
      (insert_referenced_by ref.subject ref.version schema_id referents)
