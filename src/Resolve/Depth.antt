-- ===== src/Resolve/Depth.antt =====
-- Enough fuel for the resolution of references: more than the depth of what they name.
use karapace.Prelude.{
  ℕ, zero, suc, ◌<◌, ◌≤◌, ◌≡◌, ◌≢◌, refl, ◌∙◌, false, Option, none, some, List, [], ◌∷◌, map,
  String, arith, All, is_empty, inl, inr, Bool-cases, Option-cases,
}
use karapace.Dict.{Dict, get}
use karapace.Version.{Version, version_eq}
use karapace.Outcome.{Error, Result, ok, err, Result-cases, recursion_error}
use karapace.Schema.{
  Reference, AnyReference, latest_of, exact, SchemaType, TypedSchema, SchemaVersion,
}
use karapace.Database.{Database, find_subject_schemas}
use karapace.Resolve.{
  Dependency, Resolved, subject_of, pick_version, resolve_loop, parse_resolved, resolve_reference,
  resolve_references,
}

same_error :
    {A B : Type 0} {x y : Error}
    → ◌≡◌ {A = Result A} (err x) (err y)
    → ◌≡◌ {A = Result B} (err x) (err y)
same_error p = ground arith

module _ {S : Type 0} where
  loop-fine :
      (one : AnyReference → Result (Reference × Dependency S)) (refs : List AnyReference)
      (found : Resolved S)
      → All (λ ref. one ref ≢ err recursion_error) refs
      → resolve_loop one refs found ≢ err recursion_error
  unfolding resolve_loop
  loop-fine one [] found h = cc
  loop-fine one (ref ∷ refs) found h = elim (Result-cases (one ref)) [
    | inr (x, e) ↦ rw e (λ p. h.0 (e ∙ same_error p))
    | inl (a, e) ↦ rw e (loop-fine one refs _ h.1)
  ]

  All-exact :
      (one : AnyReference → Result (Reference × Dependency S)) (refs : List Reference)
      → All (λ r. one (exact r) ≢ err recursion_error) refs
      → All (λ ref. one ref ≢ err recursion_error) (map exact refs)
  All-exact one [] h = tt
  All-exact one (r ∷ refs) h = (h.0, All-exact one refs h.1)

module _ {S : Type 0} (parse : TypedSchema → Dict String (Dependency S) → Result S)
    (parses : (t : TypedSchema) (d : Dict String (Dependency S))
      → parse t d ≢ err recursion_error) where
  parse_resolved-fine :
      (one : AnyReference → Result (Reference × Dependency S)) (t : SchemaType) (text : String)
      (refs : Option (List Reference))
      → ((rs : List Reference) → refs ≡ some rs → All (λ r. one (exact r) ≢ err recursion_error) rs)
      → parse_resolved parse one (record { schema_type = t; schema_str = text; references = refs })
        ≢ err recursion_error
  parse_resolved-fine one t text none h = parses _ []
  parse_resolved-fine one t text (some []) h = parses _ []
  parse_resolved-fine one t text (some (r ∷ rs)) h =
      elim (Result-cases (resolve_loop one (map exact (r ∷ rs)) ([], []))) [
        | inr (x, e) ↦ rw e (λ p.
            loop-fine one (map exact (r ∷ rs)) ([], []) (All-exact one (r ∷ rs) (h (r ∷ rs) refl))
              (e ∙ same_error p))
        | inl (found, e) ↦ rw e (parses _ found.1)
      ]

  module _ (db : Database) (depth : String → Version → ℕ)
      (ordered : (s : String) (v : Version) (x : SchemaVersion) (rs : List Reference)
        → get v (find_subject_schemas s false db) ≡ some x
        → x.schema.references ≡ some rs
        → All (λ r. depth r.subject r.version < depth s v) rs) where
    -- the version that a reference names is no deeper than `n`: for the latest version, none is
    abbrev pub Within : ℕ → AnyReference → Type 0
    Within n (exact r) = depth r.subject r.version ≤ n
    Within n (latest_of name s) =
        (v : Version) (x : SchemaVersion)
        → get v (find_subject_schemas s false db) ≡ some x
        → depth s v ≤ n

    pick_version-error :
        (ref : AnyReference) (d : Dict Version SchemaVersion) (y : Error)
        → pick_version ref d ≡ err y
        → y ≢ recursion_error
    pick_version-error (exact r) d y h = cc
    pick_version-error (latest_of name s) d y h = ground arith

    -- a version that is picked is within the depth
    pick_version-depth :
        (n : ℕ) (ref : AnyReference) (r : Reference) (x : SchemaVersion)
        → Within n ref
        → pick_version ref (find_subject_schemas (subject_of ref) false db) ≡ ok r
        → get r.version (find_subject_schemas (subject_of ref) false db) ≡ some x
        → depth (subject_of ref) r.version ≤ n
    pick_version-depth n (exact q) r x h picked found = ground arith
    pick_version-depth n (latest_of name s) r x h picked found = h r.version x found

    one_step :
        (n : ℕ) (ref : AnyReference)
        → ((r : Reference) (x : SchemaVersion)
            → pick_version ref (find_subject_schemas (subject_of ref) false db) ≡ ok r
            → get r.version (find_subject_schemas (subject_of ref) false db) ≡ some x
            → parse_resolved parse (resolve_reference parse n db) x.schema ≢ err recursion_error)
        → resolve_reference parse (suc n) db ref ≢ err recursion_error
    unfolding resolve_reference
    one_step n ref next =
        let data' = find_subject_schemas (subject_of ref) false db in
        elim (Bool-cases (is_empty data')) [
          | inl e ↦ rw e cc
          | inr e ↦ elim (Result-cases (pick_version ref data')) [
            | inr (y, p) ↦ rw e (rw p (λ q. pick_version-error ref data' y p (ground arith)))
            | inl (r, p) ↦ elim (Option-cases (get r.version data')) [
              | inl missing ↦ rw e (rw p (rw missing cc))
              | inr (x, found) ↦
                  elim (Result-cases
                    (parse_resolved parse (resolve_reference parse n db) x.schema)) [
                      | inr (y, raises) ↦ rw e (
                          rw p
                            (rw found (rw raises (λ q. next r x p found (raises ∙ same_error q)))))
                      | inl (a, gives) ↦ rw e (rw p (rw found (rw gives cc)))
                    ]
            ]
          ]
        ]

    references_fine :
        (n m : ℕ)
        → ((k : ℕ)
            → n ≡ suc k
            → (q : Reference) → depth q.subject q.version ≤ k
            → resolve_reference parse n db (exact q) ≢ err recursion_error)
        → m ≤ n
        → (rs : List Reference) → All (λ q. depth q.subject q.version < m) rs
        → All (λ q. resolve_reference parse n db (exact q) ≢ err recursion_error) rs
    references_fine n m fine le [] h = tt
    references_fine zero m fine le (q ∷ rs) h = absurd (omega (arith, h.0, le))
    references_fine (suc n) m fine le (q ∷ rs) h =
        (fine n refl q (omega (arith, h.0, le)), references_fine (suc n) m fine le rs h.1)

    deeper_fine :
        (n : ℕ) (ref : AnyReference)
        → ((k : ℕ)
            → n ≡ suc k
            → (q : Reference) → depth q.subject q.version ≤ k
            → resolve_reference parse n db (exact q) ≢ err recursion_error)
        → Within n ref
        → resolve_reference parse (suc n) db ref ≢ err recursion_error
    deeper_fine n ref fine within = one_step n ref λ r x picked found.
        parse_resolved-fine (resolve_reference parse n db) x.schema.schema_type x.schema.schema_str
          x.schema.references
          λ rs e.
            references_fine n (depth (subject_of ref) r.version) fine
              (pick_version-depth n ref r x within picked found) rs
              (ordered (subject_of ref) r.version x rs found e)

    reference_fine :
        (n : ℕ) (ref : AnyReference)
        → Within n ref
        → resolve_reference parse (suc n) db ref ≢ err recursion_error
    reference_fine zero ref within =
        deeper_fine zero ref (λ k e q le. absurd (omega (arith, e))) within
    reference_fine (suc n) ref within =
        deeper_fine (suc n) ref (λ k e q le. reference_fine n (exact q) (omega (arith, e, le)))
          within

    -- Where references lead to versions of less depth and no parser recurs without end, fuel above the
    -- depth of what the references name is enough: the resolution ends with a result or with an error of
    -- the code, and not for want of fuel.
    pub resolve_references-enough_fuel :
        (n : ℕ) (refs : List AnyReference)
        → All (Within n) refs
        → resolve_references parse (suc n) db refs ≢ err recursion_error
    unfolding resolve_references
    resolve_references-enough_fuel n refs within =
        loop-fine (resolve_reference parse (suc n) db) refs ([], []) (each refs within)
      where
        each :
            (refs : List AnyReference)
            → All (Within n) refs
            → All (λ ref. resolve_reference parse (suc n) db ref ≢ err recursion_error) refs
        each [] h = tt
        each (ref ∷ rest) h = (reference_fine n ref h.0, each rest h.1)
