-- ===== src/Database/Ids.antt =====
-- Schema ids and version numbers are never given twice: `get_schema_id` and `get_next_version`.
use karapace.Prelude.{
  ℕ, suc, ◌≤◌, ◌<◌, ◌≡◌, ◌≢◌, ◌⊎◌, inl, inr, refl, none, some, [], ◌∷◌, String, arith, nat_eq,
  string_eq, Option-cases,
}
use karapace.Dict.{Dict, get, keys}
use karapace.Dict.Keys.{HasUniqueKeys}
use karapace.Version.{Version, latest, number, rank, version_eq, max_version}
use karapace.Version.Versioner.{make}
use karapace.Outcome.{ok}
use karapace.Schema.{TypedSchema, SchemaVersion, schema_eq}
use karapace.Database.{Database, SubjectData, id_from_storage, get_schema_id, get_next_version}
use karapace.Database.Invariant.{IsWellFormed}
use karapace.Database.Lookup.{version_at, in_subject}

stored_id :
    (t : TypedSchema) (d : Dict ℕ TypedSchema) {i : ℕ}
    → HasUniqueKeys d
    → id_from_storage t d ≡ some i
    → get i d ≡ some t
unfolding id_from_storage get
stored_id t [] u h = cc
stored_id t ((j, s) ∷ d) {i} u h =
    ground (arith, stored_id t d {i = i} u.1, schema_eq.beq_iff s t, nat_eq.beq_iff j i)

not_stored :
    (t : TypedSchema) (d : Dict ℕ TypedSchema) (j : ℕ) (s : TypedSchema)
    → id_from_storage t d ≡ none
    → get j d ≡ some s
    → s ≢ t
unfolding id_from_storage get
not_stored t [] j s u h = cc
not_stored t ((i, r) ∷ d) j s u h =
    ground (arith, not_stored t d j s, schema_eq.beq_iff r t, nat_eq.beq_iff i j)

-- In a well-formed database, an id for a schema is either one under which an equal schema is stored, and
-- then the database stays as it is, or it is above every id that is in use, no equal schema is stored,
-- and the global id becomes it.
pub get_schema_id-fresh :
    (hash : String → String) (t : TypedSchema) (db : Database)
    → IsWellFormed hash db
    → ((get (get_schema_id t db).0 db.schemas ≡ some t) × ((get_schema_id t db).1 ≡ db))
      ⊎ (((j : ℕ) (s : TypedSchema)
            → get j db.schemas ≡ some s
            → (j < (get_schema_id t db).0) × (s ≢ t))
          × ((get_schema_id t db).1.global_schema_id ≡ (get_schema_id t db).0))
unfolding get_schema_id
get_schema_id-fresh hash t db w = elim (Option-cases (id_from_storage t db.schemas)) [
  | inl e ↦
      rw (e, get_schema_id)
        (inr
          ((λ j s h. (omega (arith, w.ids_bounded j s h), not_stored t db.schemas j s e h)), refl))
  | inr (i, e) ↦ rw (e, get_schema_id) (inl (stored_id t db.schemas w.unique_ids e, refl))
]

none-of-max :
    (v : Version) (d : Dict Version SchemaVersion) → max_version (keys d) ≡ none → get v d ≡ none
unfolding max_version get
none-of-max v [] e = refl
none-of-max v (z ∷ d) e = absurd (ground arith)

-- `max` of the keys is at least each key.
rank-le-max :
    (v m : Version) (d : Dict Version SchemaVersion) (x : SchemaVersion)
    → max_version (keys d) ≡ some m
    → get v d ≡ some x
    → rank v ≤ rank m
unfolding max_version get
rank-le-max v m [] x h g = cc
rank-le-max v m ((j, y) ∷ d) x h g = elim (Option-cases (max_version (keys d))) [
  | inl e ↦ ground (arith, none-of-max v d e, version_eq.beq_iff j v)
  | inr (n, e) ↦ ground (arith, rank-le-max v n d x e, version_eq.beq_iff j v)
]

module _ (s : String) (db : Database) {found : SubjectData}
    (e : get s db.subjects ≡ some found) where
  next_after :
      (m : Version) (k : ℕ) {x : SchemaVersion}
      → max_version (keys found.schemas) ≡ some m
      → version_at s (number k) db ≡ some x
      → (n : ℕ) × (get_next_version s db ≡ ok (number (suc n)))
        × ((v : Version) (y : SchemaVersion)
            → version_at s v db ≡ some y
            → rank v ≤ rank (number n))
  unfolding get_next_version make
  next_after latest k {x} greatest h = absurd (
      omega (
        arith,
        rank-le-max (number k) latest found.schemas x greatest (in_subject s (number k) db e h),
      ))
  next_after (number n) k greatest h = (
    n,
    ground arith,
    λ v y at. rank-le-max v (number n) found.schemas y greatest (in_subject s v db e at),
  )

-- A next version that is given out is above every version of the subject.
above :
    (s : String) (db : Database) {found : SubjectData} (e : get s db.subjects ≡ some found)
    (m n : Version)
    → max_version (keys found.schemas) ≡ some m
    → get_next_version s db ≡ ok n
    → (v : Version) (y : SchemaVersion) → version_at s v db ≡ some y
    → rank v < rank n
unfolding get_next_version make
above s db e latest n greatest given v y at = absurd (ground arith)
above s db {found} e (number k) n greatest given v y at =
    ground (arith, rank-le-max v (number k) found.schemas y greatest (in_subject s v db e at))

pub get_next_version-above :
    (s : String) (db : Database) (n : Version)
    → get_next_version s db ≡ ok n
    → (v : Version) (y : SchemaVersion) → version_at s v db ≡ some y
    → rank v < rank n
get_next_version-above s db n given v y at = elim (Option-cases (get s db.subjects)) [
  | inl e ↦ absurd (unfold get_next_version in ground arith)
  | inr (found, e) ↦ elim (Option-cases (max_version (keys found.schemas))) [
    | inl empty ↦ absurd (unfold get_next_version in ground arith)
    | inr (m, greatest) ↦ above s db e m n greatest given v y at
  ]
]

-- A subject that has a version with a number has a next version, whose number is above every version
-- that the subject has, deleted or not.
pub get_next_version-greater :
    (s : String) (k : ℕ) (x : SchemaVersion) (db : Database)
    → version_at s (number k) db ≡ some x
    → (n : ℕ) × (get_next_version s db ≡ ok (number (suc n)))
      × ((v : Version) (y : SchemaVersion) → version_at s v db ≡ some y → rank v ≤ rank (number n))
unfolding version_at
get_next_version-greater s k x db h = elim (Option-cases (get s db.subjects)) [
  | inl e ↦ absurd (ground (arith, no_versions (number k)))
  | inr (found, e) ↦ elim (Option-cases (max_version (keys found.schemas))) [
    | inl none_there ↦ absurd (
        ground
          (arith, none-of-max (number k) found.schemas none_there, in_subject s (number k) db e h))
    | inr (m, greatest) ↦ next_after s db e m k greatest h
  ]
]
  where
    no_versions : (v : Version) → get {V = SchemaVersion} v [] ≡ none
    no_versions v = unfold get in refl
