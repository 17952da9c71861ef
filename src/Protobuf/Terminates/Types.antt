-- ===== src/Protobuf/Terminates/Types.antt =====
-- The types that a comparison of src/karapace/core/protobuf keeps and finds, and steps of the comparison
-- of two lists of types.
use karapace.Prelude.{
  ℕ, ◌≡◌, refl, sym, ap, ◌∙◌, subst, inl, inr, Option, none, some, List, [], ◌∷◌, ◌++◌, String,
  arith, string_eq, int_eq, All, if◌then◌else◌, Option-cases, Bool-cases, Eq, get_or,
}
use mathlib.Core.List.{Memᴰ}
use karapace.Dict.{Dict, get, set, get-set}
use karapace.Outcome.{ok}
use karapace.Protobuf.Elements.{
  FieldElement, OneOfElement, TypeElement, TypeElements, message_element, enum_element, nil, cons,
}
use karapace.Protobuf.Locks.{Within, AllWithin, inner, inner_all}
use karapace.Protobuf.Comparison.{TypeRecord, Compare, ◌>>◌, type_alter}
use karapace.Protobuf.TypeStorage.{add_self_type, add_a_type, add_types, prefixed}
use karapace.Protobuf.Compare.{by_key, chained}
use karapace.Protobuf.Safe.{
  Inside, Safe, Any, bind-Safe, seq-Safe, for_each-Safe, for_every-Safe, add_modification-Safe,
  done-Safe, if-Safe, canonical-Safe,
}
use karapace.Protobuf.Messages.{
  elements, type_name, add_self_types, add_other_types, compare_named, compare_type_lists, convert,
  compare_fields, compare_all_one_ofs, compare_parts,
}
use karapace.Protobuf.Terminates.Messages.{
  convert-Safe, compare_fields-Safe, compare_all_one_ofs-Safe,
}

pub All-left : {A : Type 0} (P : A → Type 0) (xs ys : List A) → All P (xs ++ ys) → All P xs
All-left P [] ys h = tt
All-left P (x ∷ xs) ys (p, h) = (p, All-left P xs ys h)

pub All-right : {A : Type 0} (P : A → Type 0) (xs ys : List A) → All P (xs ++ ys) → All P ys
All-right P [] ys h = h
All-right P (x ∷ xs) ys (p, h) = All-right P xs ys h

pub All-map :
    {A : Type 0} (P Q : A → Type 0) → ((a : A) → P a → Q a) → (xs : List A) → All P xs → All Q xs
All-map P Q f [] h = tt
All-map P Q f (x ∷ xs) (p, h) = (f x p, All-map P Q f xs h)

-- what is found after a write is what was written, or was found before
found-set :
    {K V : Type 0} ⦃e : Eq K⦄ (P : V → Type 0) (k : K) (v : V) (d : Dict K V)
    → P v
    → ((j : K) (a : V) → get j d ≡ some a → P a)
    → (j : K) (a : V) → get j (set k v d) ≡ some a
    → P a
found-set ⦃e⦄ P k v d p found j a h = elim (Bool-cases (e.beq k j)) [
  | inl same ↦
      let written : some a ≡ some v =
        sym h ∙ get-set k j v d ∙ ap (λ b. if b then some v else get j d) same in
      subst P (sym (ap (λ o. get_or o v) written)) p
  | inr other ↦
      found j a (sym (get-set k j v d ∙ ap (λ b. if b then some v else get j d) other) ∙ h)
]

module _ (us : List TypeElement) where
  set-Inside :
      (name : String) (r : TypeRecord) (types : Dict String TypeRecord)
      → Within us r.type_element
      → Inside us types
      → Inside us (set name r types)
  set-Inside name r types w inside =
      found-set (λ (q : TypeRecord). Within us q.type_element) name r types w inside

  mutual
    unfolding add_a_type inner

    pub add_a_type-Inside :
        (prefix package_name : Option String) (t : TypeElement) (types : Dict String TypeRecord)
        → Within us t
        → Inside us types
        → Inside us (add_a_type prefix package_name t types)
    add_a_type-Inside prefix package_name (message_element h fields one_ofs nested) types (w, ws)
          inside =
        add_types-Inside (some (prefixed prefix h.name)) package_name nested _ ws
          (set-Inside (prefixed prefix h.name) _ types (w, ws) inside)
    add_a_type-Inside prefix package_name (enum_element h constants) types w inside =
        set-Inside (prefixed prefix h.name) _ types w inside

    add_types-Inside :
        (prefix package_name : Option String) (ts : TypeElements) (types : Dict String TypeRecord)
        → AllWithin us ts
        → Inside us types
        → Inside us (add_types prefix package_name ts types)
    add_types-Inside prefix package_name nil types ws inside = inside
    add_types-Inside prefix package_name (cons t ts) types ws inside =
        add_types-Inside prefix package_name ts _
          (All-right (λ u. Memᴰ u us) (inner t) (inner_all ts) ws)
          (add_a_type-Inside prefix package_name t types
            (All-left (λ u. Memᴰ u us) (inner t) (inner_all ts) ws) inside)

  pub elements-Within : (ts : TypeElements) → AllWithin us ts → All (Within us) (elements ts)
  unfolding inner
  elements-Within nil ws = tt
  elements-Within (cons t ts) ws = (
    All-left (λ u. Memᴰ u us) (inner t) (inner_all ts) ws,
    elements-Within ts (All-right (λ u. Memᴰ u us) (inner t) (inner_all ts) ws),
  )

-- what a dict by key finds is one of the elements
by_key-All :
    {A K : Type 0} ⦃e : Eq K⦄ (P : A → Type 0) (key : A → K) (xs : List A) (d : Dict K A)
    → All P xs
    → ((j : K) (a : A) → get j d ≡ some a → P a)
    → (j : K) (a : A) → get j (by_key key xs d) ≡ some a
    → P a
by_key-All P key [] d h found = found
by_key-All P key (x ∷ xs) d (p, h) found =
    by_key-All P key xs (set (key x) x d) h (found-set P (key x) x d p found)

-- a type that was found, if any
abbrev pub ElementWithin : List TypeElement → Option TypeElement → Type 0
ElementWithin us none = Unit
ElementWithin us (some t) = Within us t

pub by_name-ElementWithin :
    (us : List TypeElement) (ts : TypeElements) (name : String)
    → AllWithin us ts
    → ElementWithin us (get name (by_key type_name (elements ts) []))
unfolding get
by_name-ElementWithin us ts name ws =
    elim (Option-cases (get name (by_key type_name (elements ts) []))) [
      | inl e ↦ rw e tt
      | inr (t, e) ↦ rw e (
          by_key-All (Within us) type_name (elements ts) [] (elements-Within us ts ws)
            (λ (j : String) (a : TypeElement) (g : get j [] ≡ some a). absurd (ground (arith, g)))
            name t e)
    ]

module _ (us : List TypeElement) (k : ℕ) where
  pub add_self_types-Safe :
      (ts : TypeElements) → AllWithin us ts → Safe us k Any (add_self_types ts)
  add_self_types-Safe ts ws =
      let add : TypeElement → Compare (Unit {0}) =
        λ t c. (ok tt, add_self_type (some c.self_package_name) t c) in
      for_each-Safe us k (elements ts) add (
        All-map (Within us) (λ t. Safe us k Any (add t))
          (λ t w c inside h. (
            tt,
            add_a_type-Inside us (some c.self_package_name) (some c.self_package_name) t
                c.self_types w inside,
            refl,
            λ r. r,
          ))
          (elements ts) (elements-Within us ts ws))

  pub add_other_types-Safe : (ts : TypeElements) → Safe us k Any (add_other_types ts)
  add_other_types-Safe ts =
      for_every-Safe us k (elements ts) _ λ t c inside h. (tt, inside, refl, λ r. r)

module _ (us : List TypeElement) (k : ℕ) (visit : TypeElement → TypeElement → Compare (Unit {0}))
    (visit-Safe : (t u : TypeElement) → Within us t → Safe us k Any (visit t u)) where
  pub compare_named-Safe :
      (a b : Option TypeElement) → ElementWithin us a → Safe us k Any (compare_named visit a b)
  compare_named-Safe none none w = done-Safe us k
  compare_named-Safe none (some u) w = add_modification-Safe us k _
  compare_named-Safe (some t) none w = add_modification-Safe us k _
  compare_named-Safe (some t) (some u) w =
      if-Safe us k _ _ _ (visit-Safe t u w) (add_modification-Safe us k type_alter)

  pub compare_type_lists-Safe :
      (ts others : TypeElements)
      → AllWithin us ts
      → Safe us k Any (compare_type_lists visit ts others)
  unfolding compare_type_lists
  compare_type_lists-Safe ts others ws =
      let self_types = by_key type_name (elements ts) [] in
      let other_types = by_key type_name (elements others) [] in
      seq-Safe us k (add_self_types ts >> add_other_types others) _
        (seq-Safe us k (add_self_types ts) (add_other_types others) (add_self_types-Safe us k ts ws)
          (add_other_types-Safe us k others))
        (for_every-Safe us k (chained self_types other_types) _ λ name.
          canonical-Safe us k name
            (compare_named visit (get name self_types) (get name other_types))
            (compare_named-Safe (get name self_types) (get name other_types)
              (by_name-ElementWithin us ts name ws)))

  pub compare_parts-Safe :
      (fields : List FieldElement) (one_ofs : List OneOfElement) (nested : TypeElements)
      (other_fields : List FieldElement) (other_one_ofs : List OneOfElement)
      (other_nested : TypeElements)
      → AllWithin us nested
      → Safe us k Any
          (compare_parts visit fields one_ofs nested other_fields other_one_ofs other_nested)
  unfolding compare_parts
  compare_parts-Safe fields one_ofs nested other_fields other_one_ofs other_nested ws =
      let tags = by_key (λ (f : FieldElement). f.tag) fields [] in
      bind-Safe us k Any Any (convert other_one_ofs tags) _ (convert-Safe us k other_one_ofs tags)
        λ self_tags _.
          seq-Safe us k
            (compare_fields visit fields other_fields self_tags
              >> compare_all_one_ofs visit one_ofs other_one_ofs)
            _
            (seq-Safe us k (compare_fields visit fields other_fields self_tags) _
              (compare_fields-Safe us k visit visit-Safe fields other_fields self_tags)
              (compare_all_one_ofs-Safe us k visit visit-Safe one_ofs other_one_ofs))
            (compare_type_lists-Safe nested other_nested ws)
