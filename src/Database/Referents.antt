-- ===== src/Database/Referents.antt =====
-- The sets of schema ids that refer to a version: `_insert_referenced_by`, `_remove_referenced_by`.
use karapace.Prelude.{
  ℕ, ◌≡◌, Bool, not, ◌&&◌, ◌||◌, List, [], ◌∷◌, ◌++◌, String, arith, nat_eq, string_eq, pair_eq,
  ◌==◌, elem, get_or, any_of,
}
use karapace.Dict.{Dict, get, get-set}
use karapace.Version.{Version, version_eq}
use karapace.Schema.{Reference}
use karapace.Database.{
  add_referent, remove_referent, insert_referenced_by, insert_references, remove_reference,
  remove_referenced_by,
}

-- whether an id is among the referents of a version
unfoldable pub refers : ℕ → String → Version → Dict (String × Version) (List ℕ) → Bool
refers i s v referents = elem i (get_or (get (s, v) referents) [])

-- the reference names this version
abbrev pub names : String → Version → Reference → Bool
names s v ref = ref.subject == s && ref.version == v

elem-append : (i j : ℕ) (xs : List ℕ) → elem i (xs ++ j ∷ []) ≡ (elem i xs || j == i)
elem-append i j [] = ground arith
elem-append i j (x ∷ xs) = ground (arith, elem-append i j xs)

elem-add : (i j : ℕ) (xs : List ℕ) → elem i (add_referent j xs) ≡ (j == i || elem i xs)
elem-add i j xs = ground (arith, elem-append i j xs, nat_eq.beq_iff j i)

elem-remove : (i j : ℕ) (xs : List ℕ) → elem i (remove_referent j xs) ≡ (not (i == j) && elem i xs)
elem-remove i j [] = ground arith
elem-remove i j (x ∷ xs) =
    ground (arith, elem-remove i j xs, nat_eq.beq_iff x i, nat_eq.beq_iff x j, nat_eq.beq_iff i j)

module _ (i : ℕ) (s : String) (v : Version) where
  refers-insert :
      (subject : String) (version : Version) (j : ℕ) (referents : Dict (String × Version) (List ℕ))
      → refers i s v (insert_referenced_by subject version j referents)
        ≡ (((subject == s && version == v) && j == i) || refers i s v referents)
  unfolding refers insert_referenced_by
  refers-insert subject version j referents =
      let ids = get_or (get (subject, version) referents) [] in
      ground (
        arith,
        get-set (subject, version) (s, v) (j ∷ []) referents,
        get-set (subject, version) (s, v) (add_referent j ids) referents,
        elem-add i j ids,
        string_eq.beq_iff subject s,
        version_eq.beq_iff version v,
      )

  -- After the references of a version are recorded, an id is among the referents of a version exactly
  -- if it was before, or it is the recording version's id and a reference names that version.
  pub refers-insert_references :
      (j : ℕ) (refs : List Reference) (referents : Dict (String × Version) (List ℕ))
      → refers i s v (insert_references j refs referents)
        ≡ ((any_of (names s v) refs && j == i) || refers i s v referents)
  unfolding insert_references
  refers-insert_references j [] referents = ground arith
  refers-insert_references j (ref ∷ refs) referents = ground (
    arith,
    refers-insert_references j refs (insert_referenced_by ref.subject ref.version j referents),
    refers-insert ref.subject ref.version j referents,
  )

  refers-remove :
      (j : ℕ) (ref : Reference) (referents : Dict (String × Version) (List ℕ))
      → refers i s v (remove_reference j ref referents)
        ≡ (not (names s v ref && j == i) && refers i s v referents)
  unfolding refers remove_reference
  refers-remove j ref referents =
      let ids = get_or (get (ref.subject, ref.version) referents) [] in
      ground (
        arith,
        get-set (ref.subject, ref.version) (s, v) (remove_referent j ids) referents,
        elem-remove i j ids,
        string_eq.beq_iff ref.subject s,
        version_eq.beq_iff ref.version v,
        nat_eq.beq_iff i j,
        nat_eq.beq_iff j i,
      )

  -- After the references of a version are removed, an id is among the referents of a version exactly
  -- if it was before, unless it is the removed version's id and a reference names that version.
  pub refers-remove_referenced_by :
      (j : ℕ) (refs : List Reference) (referents : Dict (String × Version) (List ℕ))
      → refers i s v (remove_referenced_by j refs referents)
        ≡ (not (any_of (names s v) refs && j == i) && refers i s v referents)
  unfolding remove_referenced_by
  refers-remove_referenced_by j [] referents = ground arith
  refers-remove_referenced_by j (ref ∷ refs) referents = ground (
    arith,
    refers-remove_referenced_by j refs (remove_reference j ref referents),
    refers-remove j ref referents,
  )
