-- ===== src/Protobuf/Terminates/Messages.antt =====
-- Steps of the comparison of two messages, in src/karapace/core/protobuf, given those of `visit`.
use karapace.Prelude.{ℕ, Option, none, some, List, [], ◌∷◌, String, string_eq, int_eq, ℤ, ltb}
use karapace.Dict.{Dict, get}
use karapace.Outcome.{ok}
use karapace.Protobuf.Elements.{FieldElement, OneOfElement, TypeElement}
use karapace.Protobuf.Locks.{Within}
use karapace.Protobuf.Comparison.{
  Compare, ◌>>◌, push_path, pop_path, add_modification, add_when, one_of_field_add,
  one_of_field_drop, one_of_add, one_of_drop, field_add, field_drop, field_tag_alter,
  few_fields_converted_to_one_of,
}
use karapace.Protobuf.Compare.{by_key, chained, str}
use karapace.Protobuf.Safe.{
  Safe, Any, bind-Safe, seq-Safe, for_every-Safe, add_modification-Safe, add_when-Safe, done-Safe,
  push_path-Safe, pop_path-Safe, scope-Safe, attempt-Safe,
}
use karapace.Protobuf.Messages.{
  compare_one_of_fields, compare_one_of, compare_one_ofs, compare_two_fields, convert, take_tags,
  note_altered, altered_name, compare_fields, compare_all_one_ofs,
}
use karapace.Protobuf.Terminates.Fields.{compare_field-Safe}

module _ (us : List TypeElement) (k : ℕ) where
  pub convert-Safe :
      (one_ofs : List OneOfElement) (tags : Dict ℤ FieldElement)
      → Safe us k Any (convert one_ofs tags)
  unfolding convert
  convert-Safe [] tags = attempt-Safe us k (ok tags) tt
  convert-Safe (o ∷ one_ofs) tags =
      let taken = take_tags o.fields tags 0 in
      bind-Safe us k Any Any
        (push_path o.name >> add_when (ltb 1 taken.1) few_fields_converted_to_one_of >> pop_path)
        (λ _. convert one_ofs taken.0)
        (scope-Safe us k o.name _
          (add_when-Safe us k (ltb 1 taken.1) few_fields_converted_to_one_of))
        (λ _ _. convert-Safe one_ofs taken.0)

  note_altered-Safe : (tag : ℤ) (name : Option String) → Safe us k Any (note_altered tag name)
  note_altered-Safe tag none = done-Safe us k
  note_altered-Safe tag (some name) =
      seq-Safe us k (pop_path >> push_path name >> add_modification field_tag_alter >> pop_path)
        (push_path (str tag))
        (seq-Safe us k (pop_path >> push_path name >> add_modification field_tag_alter) pop_path
          (seq-Safe us k (pop_path >> push_path name) (add_modification field_tag_alter)
            (seq-Safe us k pop_path (push_path name) (pop_path-Safe us k)
              (push_path-Safe us k name))
            (add_modification-Safe us k field_tag_alter))
          (pop_path-Safe us k))
        (push_path-Safe us k (str tag))

module _ (us : List TypeElement) (k : ℕ) (visit : TypeElement → TypeElement → Compare (Unit {0}))
    (visit-Safe : (t u : TypeElement) → Within us t → Safe us k Any (visit t u)) where
  compare_one_of_fields-Safe :
      (f g : Option FieldElement) → Safe us k Any (compare_one_of_fields visit f g)
  compare_one_of_fields-Safe none g = add_modification-Safe us k one_of_field_add
  compare_one_of_fields-Safe (some f) none = add_modification-Safe us k one_of_field_drop
  compare_one_of_fields-Safe (some f) (some g) = compare_field-Safe us k visit visit-Safe f g

  compare_one_of-Safe : (a b : OneOfElement) → Safe us k Any (compare_one_of visit a b)
  unfolding compare_one_of
  compare_one_of-Safe a b =
      let self_tags = by_key (λ (f : FieldElement). f.tag) a.fields [] in
      let other_tags = by_key (λ (f : FieldElement). f.tag) b.fields [] in
      for_every-Safe us k (chained self_tags other_tags) _ λ tag.
        scope-Safe us k (str tag)
          (compare_one_of_fields visit (get tag self_tags) (get tag other_tags))
          (compare_one_of_fields-Safe (get tag self_tags) (get tag other_tags))

  compare_one_ofs-Safe : (a b : Option OneOfElement) → Safe us k Any (compare_one_ofs visit a b)
  compare_one_ofs-Safe none b = add_modification-Safe us k one_of_add
  compare_one_ofs-Safe (some a) none = add_modification-Safe us k one_of_drop
  compare_one_ofs-Safe (some a) (some b) = compare_one_of-Safe a b

  compare_two_fields-Safe :
      (f g : Option FieldElement) → Safe us k Any (compare_two_fields visit f g)
  compare_two_fields-Safe none g = add_modification-Safe us k field_add
  compare_two_fields-Safe (some f) none = add_modification-Safe us k field_drop
  compare_two_fields-Safe (some f) (some g) = compare_field-Safe us k visit visit-Safe f g

  pub compare_fields-Safe :
      (fields others : List FieldElement) (self_tags : Dict ℤ FieldElement)
      → Safe us k Any (compare_fields visit fields others self_tags)
  unfolding compare_fields
  compare_fields-Safe fields others self_tags =
      let self_names = by_key (λ (f : FieldElement). f.name) fields [] in
      let other_names = by_key (λ (f : FieldElement). f.name) others [] in
      let other_tags = by_key (λ (f : FieldElement). f.tag) others [] in
      for_every-Safe us k (chained self_tags other_tags) _ λ tag.
        let altered = altered_name tag self_tags self_names other_names in
        let two = compare_two_fields visit (get tag self_tags) (get tag other_tags) in
        seq-Safe us k (push_path (str tag) >> note_altered tag altered >> two) pop_path
          (seq-Safe us k (push_path (str tag) >> note_altered tag altered) two
            (seq-Safe us k (push_path (str tag)) (note_altered tag altered)
              (push_path-Safe us k (str tag)) (note_altered-Safe us k tag altered))
            (compare_two_fields-Safe (get tag self_tags) (get tag other_tags)))
          (pop_path-Safe us k)

  pub compare_all_one_ofs-Safe :
      (one_ofs others : List OneOfElement)
      → Safe us k Any (compare_all_one_ofs visit one_ofs others)
  unfolding compare_all_one_ofs
  compare_all_one_ofs-Safe one_ofs others =
      let self_one_ofs = by_key (λ (o : OneOfElement). o.name) one_ofs [] in
      let other_one_ofs = by_key (λ (o : OneOfElement). o.name) others [] in
      for_every-Safe us k (chained self_one_ofs other_one_ofs) _ λ name.
        scope-Safe us k name
          (compare_one_ofs visit (get name self_one_ofs) (get name other_one_ofs))
          (compare_one_ofs-Safe (get name self_one_ofs) (get name other_one_ofs))
