-- ===== src/Database/Counts.antt =====
-- The counters that the metrics report: `num_schema_versions` against the number of versions.
use karapace.Prelude.{ℕ, ◌+◌, ◌≡◌, Bool, not, List, [], ◌∷◌, ◌++◌, String, arith, length, select}
use karapace.Dict.{Dict, values}
use karapace.Schema.{SchemaVersion}
use karapace.Database.{SubjectData, Database, count_versions, count_subjects, num_schema_versions}

-- all versions of all subjects, and the two halves of them
abbrev pub all_versions : Dict String SubjectData → List SchemaVersion
all_versions [] = []
all_versions (e ∷ rest) = values e.1.schemas ++ all_versions rest

abbrev pub live_of : List SchemaVersion → List SchemaVersion
live_of = select (λ v. not v.deleted)

abbrev pub deleted_of : List SchemaVersion → List SchemaVersion
deleted_of = select (λ v. v.deleted)

count_versions-lengths :
    (vs : List SchemaVersion) (a b : ℕ)
    → ((count_versions vs (a, b)).0 ≡ a + length (live_of vs))
      × ((count_versions vs (a, b)).1 ≡ b + length (deleted_of vs))
unfolding count_versions
count_versions-lengths [] a b = ground arith
count_versions-lengths (v ∷ vs) a b =
    ground (arith, count_versions-lengths vs (a + 1) b, count_versions-lengths vs a (b + 1))

length-select-append :
    (p : SchemaVersion → Bool) (xs ys : List SchemaVersion)
    → length (select p (xs ++ ys)) ≡ length (select p xs) + length (select p ys)
length-select-append p [] ys = omega arith
length-select-append p (x ∷ xs) ys = ground (arith, length-select-append p xs ys)

count_subjects-lengths :
    (d : Dict String SubjectData) (a b : ℕ)
    → ((count_subjects d (a, b)).0 ≡ a + length (live_of (all_versions d)))
      × ((count_subjects d (a, b)).1 ≡ b + length (deleted_of (all_versions d)))
unfolding count_subjects
count_subjects-lengths [] a b = ground arith
count_subjects-lengths (e ∷ d) a b =
    let vs = values e.1.schemas in
    let counted = count_versions vs (a, b) in
    ground (
      arith,
      count_versions-lengths vs a b,
      count_subjects-lengths d counted.0 counted.1,
      length-select-append (λ v. not v.deleted) vs (all_versions d),
      length-select-append (λ v. v.deleted) vs (all_versions d),
    )

-- The counters are the numbers of live and of soft-deleted versions over all subjects.
num_schema_versions-counts :
    (db : Database)
    → ((num_schema_versions db).0 ≡ length (live_of (all_versions db.subjects)))
      × ((num_schema_versions db).1 ≡ length (deleted_of (all_versions db.subjects)))
unfolding num_schema_versions
num_schema_versions-counts db = ground (arith, count_subjects-lengths db.subjects 0 0)
