-- ===== src/Registry/Checks.antt =====
-- Which versions a new schema is checked against, and what the check accepts.
use karapace.Prelude.{
  ◌≤◌, ◌≡◌, ◌↔◌, refl, false, some, List, [], ◌∷◌, arith, All, last_of, inl, inr, Bool-cases,
  leb→le,
}
use mathlib.Core.List.{Perm}
use mathlib.Core.List.Perm
use karapace.Dict.{Dict, keys}
use karapace.Version.{Version, rank, version_leb}
use karapace.Outcome.{Result, ok, Result-cases}
use karapace.Schema.{SchemaVersion}
use karapace.Database.{live_items}
use karapace.Reader.Handlers.{Core}
use karapace.Compatibility.{
  CompatibilityMode, is_transitive, SchemaCompatibilityResult, is_incompatible,
}
use karapace.Registry.{
  insert_sorted, sorted, get_live_versions_sorted, old_versions, check_versions,
}

-- each version is at most every later one
abbrev pub IsSorted : List Version → Type 0
IsSorted [] = Unit
IsSorted (v ∷ vs) = All (λ w. rank v ≤ rank w) vs × IsSorted vs

All-insert_sorted :
    (a v : Version) (vs : List Version)
    → rank a ≤ rank v
    → All (λ w. rank a ≤ rank w) vs
    → All (λ w. rank a ≤ rank w) (insert_sorted v vs)
unfolding insert_sorted
All-insert_sorted a v [] h all = (h, tt)
All-insert_sorted a v (w ∷ ws) h all = ground (arith, All-insert_sorted a v ws h all.1)

All-below :
    (a b : Version) (vs : List Version)
    → rank a ≤ rank b
    → All (λ w. rank b ≤ rank w) vs
    → All (λ w. rank a ≤ rank w) vs
All-below a b [] h all = tt
All-below a b (w ∷ ws) h all = (omega (arith, all.0), All-below a b ws h all.1)

insert_sorted-IsSorted :
    (v : Version) (vs : List Version) → IsSorted vs → IsSorted (insert_sorted v vs)
unfolding insert_sorted
insert_sorted-IsSorted v [] s = (tt, tt)
insert_sorted-IsSorted v (w ∷ ws) s = elim (Bool-cases (version_leb v w)) [
  | inl e ↦ rw e ((leb→le _ _ e, All-below v w ws (leb→le _ _ e) s.0), s)
  | inr e ↦ rw e (All-insert_sorted w v ws (ground arith) s.0, insert_sorted-IsSorted v ws s.1)
]

sorted-IsSorted : (vs : List Version) → IsSorted (sorted vs)
unfolding sorted
sorted-IsSorted [] = tt
sorted-IsSorted (v ∷ vs) = insert_sorted-IsSorted v (sorted vs) (sorted-IsSorted vs)

insert_sorted-perm : (v : Version) (vs : List Version) → Perm (insert_sorted v vs) (v ∷ vs)
unfolding insert_sorted
insert_sorted-perm v [] = Perm.refl (v ∷ [])
insert_sorted-perm v (w ∷ ws) = elim (Bool-cases (version_leb v w)) [
  | inl e ↦ rw e (Perm.refl (v ∷ w ∷ ws))
  | inr e ↦ rw e (Perm.trans (Perm.cons w (insert_sorted-perm v ws)) (Perm.swap v w ws))
]

sorted-perm : (vs : List Version) → Perm (sorted vs) vs
unfolding sorted
sorted-perm [] = Perm.refl []
sorted-perm (v ∷ vs) = Perm.trans (insert_sorted-perm v (sorted vs)) (Perm.cons v (sorted-perm vs))

pub get_live_versions_sorted-sorts :
    (versions : Dict Version SchemaVersion)
    → IsSorted (get_live_versions_sorted versions)
      × Perm (get_live_versions_sorted versions) (keys (live_items versions))
unfolding get_live_versions_sorted
get_live_versions_sorted-sorts versions =
    (sorted-IsSorted (keys (live_items versions)), sorted-perm (keys (live_items versions)))

-- the last of an ascending list is at least each of it
pub le-last_of :
    (vs : List Version) {v : Version}
    → IsSorted vs
    → last_of vs ≡ some v
    → All (λ w. rank w ≤ rank v) vs
le-last_of [] s e = cc
le-last_of (w ∷ []) s e = (ground arith, tt)
le-last_of (w ∷ x ∷ ws) {v} s e =
    let rest = le-last_of (x ∷ ws) {v = v} s.1 e in (omega (arith, s.0.0, rest.0), rest)

-- In a mode that is not transitive, a subject with live versions is checked at one version, which
-- is the greatest of the live ones.
old_versions-greatest :
    (mode : CompatibilityMode) (versions : Dict Version SchemaVersion) (v : Version)
    → is_transitive mode ≡ false
    → last_of (get_live_versions_sorted versions) ≡ some v
    → (old_versions mode (get_live_versions_sorted versions) ≡ v ∷ [])
      × All (λ w. rank w ≤ rank v) (get_live_versions_sorted versions)
unfolding old_versions
old_versions-greatest mode versions v h e = (
  ground arith,
  le-last_of (get_live_versions_sorted versions) (get_live_versions_sorted-sorts versions).0 e,
)

module _ (check : Version → Result SchemaCompatibilityResult) where
  -- From a compatible result on, the loop accepts exactly when the check of each version is made and
  -- accepts it.
  pub check_versions-accepts :
      (result : SchemaCompatibilityResult) (vs : List Version)
      → is_incompatible result ≡ false
      → ((r : SchemaCompatibilityResult) × (check_versions check result vs ≡ ok r)
          × (is_incompatible r ≡ false))
        ↔ All
            (λ v. (r : SchemaCompatibilityResult) × (check v ≡ ok r) × (is_incompatible r ≡ false))
            vs
  unfolding check_versions
  check_versions-accepts result [] good = (λ _. tt, λ _. (result, refl, good))
  check_versions-accepts result (v ∷ vs) good = elim (Result-cases (check v)) [
    | inl (r, e) ↦ elim (Bool-cases (is_incompatible r)) [
      | inl bad ↦ rw (e, bad) (λ found. absurd (ground arith), λ all. absurd (ground arith))
      | inr fine ↦
          let rest = check_versions-accepts r vs fine in
          rw (e, fine) (λ found. ((r, refl, fine), rest.0 found), λ all. rest.1 all.1)
    ]
    | inr (x, e) ↦ rw e (λ found. absurd (ground arith), λ all. absurd (ground arith))
  ]
