-- ===== src/Protobuf/Messages.antt =====
-- The comparison of messages: one_of_element.py, message_element.py, compare_type_lists.py and
-- `ProtoFileElement.compare`, all of src/karapace/core/protobuf.
use karapace.Prelude.{
  ℕ, zero, suc, Option, none, some, List, [], ◌∷◌, String, ℤ, nat_eq, string_eq, int_eq, option_eq,
  ◌==◌, ltb, if◌then◌else◌,
}
use karapace.Dict.{Dict, get, set, pop, contains}
use karapace.Outcome.{ok, recursion_error}
use karapace.Protobuf.Elements.{
  FieldElement, OneOfElement, Header, header, TypeElement, TypeElements, message_element,
  enum_element, nil, cons, is_enum_element,
}
use karapace.Protobuf.Comparison.{
  message_add, message_drop, enum_add, enum_drop, type_alter, field_add, field_drop,
  field_tag_alter, one_of_add, one_of_drop, one_of_field_add, one_of_field_drop,
  few_fields_converted_to_one_of, Compare, done, fail, attempt, ◌>>=◌, ◌>>◌, for_each, push_path,
  push_canonical, pop_path, pop_canonical, add_modification, add_when,
}
use karapace.Protobuf.TypeStorage.{
  add_self_type, add_other_type, get_self_type, get_other_type, self_type_short_name,
  other_type_short_name, lock_message, unlock_message,
}
use karapace.Protobuf.Fields.{bool_beq, compare_field}
use karapace.Protobuf.Compare.{by_key, chained, str, compare_enum}

-- what `compare_type_lists` does with its lists first: the types by name, and their full names
abbrev pub elements : TypeElements → List TypeElement
elements nil = []
elements (cons t ts) = t ∷ elements ts

abbrev pub type_name : TypeElement → String
type_name t = (header t).name

abbrev pub add_self_types : TypeElements → Compare (Unit {0})
add_self_types types =
    for_each (elements types) λ t c. (ok tt, add_self_type (some c.self_package_name) t c)

abbrev pub add_other_types : TypeElements → Compare (Unit {0})
add_other_types types =
    for_each (elements types) λ t c. (ok tt, add_other_type (some c.other_package_name) t c)

module _ (visit : TypeElement → TypeElement → Compare (Unit {0})) where
  abbrev pub compare_one_of_fields : Option FieldElement → Option FieldElement → Compare (Unit {0})
  compare_one_of_fields none other = add_modification one_of_field_add
  compare_one_of_fields (some f) none = add_modification one_of_field_drop
  compare_one_of_fields (some f) (some g) = compare_field visit f g

  -- `OneOfElement.compare`
  unfoldable pub compare_one_of : OneOfElement → OneOfElement → Compare (Unit {0})
  unfolding get set compare_field
  compare_one_of self other =
      let self_tags = by_key (λ f. f.tag) self.fields [] in
      let other_tags = by_key (λ f. f.tag) other.fields [] in
      for_each (chained self_tags other_tags) λ tag.
        push_path (str tag)
        >> compare_one_of_fields (get tag self_tags) (get tag other_tags)
        >> pop_path

  abbrev pub compare_one_ofs : Option OneOfElement → Option OneOfElement → Compare (Unit {0})
  compare_one_ofs none other = add_modification one_of_add
  compare_one_ofs (some a) none = add_modification one_of_drop
  compare_one_ofs (some a) (some b) = compare_one_of a b

  abbrev pub compare_two_fields : Option FieldElement → Option FieldElement → Compare (Unit {0})
  compare_two_fields none other = add_modification field_add
  compare_two_fields (some f) none = add_modification field_drop
  compare_two_fields (some f) (some g) = compare_field visit f g

  -- the branches of the loop of `compare_type_lists`
  abbrev pub compare_named : Option TypeElement → Option TypeElement → Compare (Unit {0})
  compare_named none none = done
  compare_named none (some u) =
      add_modification (if is_enum_element u then enum_add else message_add)
  compare_named (some t) none =
      add_modification (if is_enum_element t then enum_drop else message_drop)
  compare_named (some t) (some u) =
      if bool_beq (is_enum_element t) (is_enum_element u)
      then visit t u
      else add_modification type_alter

  -- `compare_type_lists`
  unfoldable pub compare_type_lists : TypeElements → TypeElements → Compare (Unit {0})
  unfolding get set karapace.Protobuf.TypeStorage.add_a_type add_modification
  compare_type_lists self_types_list other_types_list =
      let self_types = by_key type_name (elements self_types_list) [] in
      let other_types = by_key type_name (elements other_types_list) [] in
      add_self_types self_types_list
      >> add_other_types other_types_list
      >> for_each (chained self_types other_types) λ name.
        push_canonical name
        >> compare_named (get name self_types) (get name other_types)
        >> pop_canonical

-- the tags of a one-of that are taken out of the message's own, and their number
abbrev pub take_tags : List FieldElement → Dict ℤ FieldElement → ℕ → Dict ℤ FieldElement × ℕ
take_tags [] tags count = (tags, count)
take_tags (f ∷ fields) tags count =
    if contains f.tag tags
    then take_tags fields (pop f.tag tags) (suc count)
    else take_tags fields tags count

-- the loop over the one-ofs of the other message
unfoldable pub convert : List OneOfElement → Dict ℤ FieldElement → Compare (Dict ℤ FieldElement)
unfolding get pop add_modification
convert [] tags = attempt (ok tags)
convert (o ∷ one_ofs) tags =
    let taken = take_tags o.fields tags 0 in
    push_path o.name
    >> add_when (ltb 1 taken.1) few_fields_converted_to_one_of
    >> pop_path
    >> convert one_ofs taken.0

abbrev pub name_with_tags : String → Option FieldElement → Option FieldElement → Option String
name_with_tags name (some self) (some other) = if self.tag == other.tag then none else some name
name_with_tags name _ _ = none

-- the name of the field with a tag, if both messages have a field of that name and with different tags
unfoldable pub altered_name :
    ℤ → Dict ℤ FieldElement → Dict String FieldElement → Dict String FieldElement → Option String
unfolding get
altered_name tag self_tags self_names other_names = elim (get tag self_tags) [
  | none ↦ none
  | some f ↦
      if f.name == ""
      then none
      else name_with_tags f.name (get f.name self_names) (get f.name other_names)
]

abbrev pub note_altered : ℤ → Option String → Compare (Unit {0})
note_altered tag none = done
note_altered tag (some name) =
    pop_path
    >> push_path name
    >> add_modification field_tag_alter
    >> pop_path
    >> push_path (str tag)

module _ (visit : TypeElement → TypeElement → Compare (Unit {0})) where
  -- the loop over the fields of two messages, of which the other one-ofs have taken their tags
  unfoldable pub compare_fields :
      List FieldElement → List FieldElement → Dict ℤ FieldElement → Compare (Unit {0})
  unfolding get set altered_name add_modification compare_field
  compare_fields fields other_fields self_tags =
      let self_names = by_key (λ f. f.name) fields [] in
      let other_names = by_key (λ f. f.name) other_fields [] in
      let other_tags = by_key (λ f. f.tag) other_fields [] in
      for_each (chained self_tags other_tags) λ tag.
        push_path (str tag)
        >> note_altered tag (altered_name tag self_tags self_names other_names)
        >> compare_two_fields visit (get tag self_tags) (get tag other_tags)
        >> pop_path

  -- the loop over the one-ofs of two messages
  unfoldable pub compare_all_one_ofs : List OneOfElement → List OneOfElement → Compare (Unit {0})
  unfolding get set compare_one_of add_modification
  compare_all_one_ofs one_ofs others =
      let self_one_ofs = by_key (λ o. o.name) one_ofs [] in
      let other_one_ofs = by_key (λ o. o.name) others [] in
      for_each (chained self_one_ofs other_one_ofs) λ name.
        push_path name
        >> compare_one_ofs visit (get name self_one_ofs) (get name other_one_ofs)
        >> pop_path

  -- what `MessageElement.compare` does with a locked message
  unfoldable pub compare_parts :
      List FieldElement
      → List OneOfElement
      → TypeElements
      → List FieldElement
      → List OneOfElement
      → TypeElements
      → Compare (Unit {0})
  unfolding get set convert compare_fields compare_all_one_ofs compare_type_lists
  compare_parts fields one_ofs nested other_fields other_one_ofs other_nested =
      convert other_one_ofs (by_key (λ f. f.tag) fields []) >>= λ self_tags.
      compare_fields fields other_fields self_tags
      >> compare_all_one_ofs one_ofs other_one_ofs
      >> compare_type_lists visit nested other_nested

  -- `MessageElement.compare`, of a message with these parts
  unfoldable pub compare_message_element :
      Header
      → List FieldElement
      → List OneOfElement
      → TypeElements
      → TypeElement
      → Compare (Unit {0})
  unfolding lock_message unlock_message compare_parts add_modification
  compare_message_element h fields one_ofs nested (enum_element h' constants) =
      add_modification type_alter
  compare_message_element h fields one_ofs nested
        (message_element h' other_fields other_one_ofs other_nested) =
      let self = message_element h fields one_ofs nested in
      lock_message self >>= λ locked.
      if locked
      then (compare_parts fields one_ofs nested other_fields other_one_ofs other_nested
          >> unlock_message self
          >> done)
      else done

-- `compare` of a type element, on fuel: each call below it is by an element that is locked, or of a
-- nested type
unfoldable pub compare_element : ℕ → TypeElement → TypeElement → Compare (Unit {0})
unfolding compare_message_element compare_enum
compare_element zero self other = fail recursion_error
compare_element (suc fuel) (enum_element h constants) other = compare_enum constants other
compare_element (suc fuel) (message_element h fields one_ofs nested) other =
    compare_message_element (compare_element fuel) h fields one_ofs nested other
