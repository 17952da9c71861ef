-- ===== src/Protobuf/Fields.antt =====
-- src/karapace/core/protobuf/field_element.py: the comparison of two fields. `visit` is the comparison of
-- two type elements, `compare` of the element.
use karapace.Prelude.{
  ℕ, Bool, true, false, not, ◌&&◌, ◌||◌, Option, none, some, nat_eq, string_eq, int_eq, option_eq,
  ◌==◌, if◌then◌else◌,
}
use karapace.Outcome.{ok, assertion_error}
use karapace.Protobuf.Elements.{
  Label, optional, required, repeated, one_of, FieldElement, TypeElement, is_enum_element,
}
use karapace.Protobuf.ProtoType.{
  ProtoType, scalar, named, map_type, string, is_scalar, is_map, get2, CompatibilityKind, kind_code,
  compatibility_kind, length_delimited,
}
use karapace.Protobuf.Comparison.{
  field_label_alter, field_name_alter, field_kind_alter, field_type_alter, Compare, fail, attempt,
  look, ◌>>=◌, ◌>>◌, add_modification, add_when, TypeRecord,
}
use karapace.Protobuf.TypeStorage.{
  add_self_type, add_other_type, get_self_type, get_other_type, self_type_short_name,
  other_type_short_name, lock_message, unlock_message,
}

abbrev label_code : Label → ℕ
label_code optional = 1
label_code required = 2
label_code repeated = 3
label_code one_of = 4

abbrev pub label_beq : Option Label → Option Label → Bool
label_beq none none = true
label_beq (some a) (some b) = label_code a == label_code b
label_beq _ _ = false

abbrev pub enum_record : Option TypeRecord → Bool
enum_record none = false
enum_record (some r) = is_enum_element r.type_element

abbrev pub kind_beq : CompatibilityKind → CompatibilityKind → Bool
kind_beq a b = kind_code a == kind_code b

abbrev pub bool_beq : Bool → Bool → Bool
bool_beq true b = b
bool_beq false b = not b

-- the scalar branch of `compare_type`: six of the seven kinds are those whose label counts
abbrev pub compare_scalars :
    Option Label → Option Label → CompatibilityKind → CompatibilityKind → Compare (Unit {0})
compare_scalars self_label other_label self_kind other_kind =
    add_when (not (label_beq self_label other_label) && not (kind_beq self_kind length_delimited))
      field_label_alter
    >> add_when (not (kind_beq self_kind other_kind)) field_kind_alter

-- what `compare_map` does with the other type, which it asserts to be a map
abbrev pub with_parts :
    (ProtoType → ProtoType → Compare (Unit {0})) → ProtoType → Compare (Unit {0})
with_parts compare_map (map_type s key value) = compare_map key value
with_parts compare_map _ = fail assertion_error

module _ (visit : TypeElement → TypeElement → Compare (Unit {0})) where
  abbrev pub compare_records :
      ProtoType → ProtoType → Option TypeRecord → Option TypeRecord → Compare (Unit {0})
  compare_records self_type other_type (some self) (some other) =
      look (self_type_short_name (string self_type)) >>= λ self_name.
      look (other_type_short_name (string other_type)) >>= λ other_name.
      if self_name == other_name
      then visit self.type_element other.type_element
      else add_modification field_name_alter
  compare_records self_type other_type _ _ =
      add_when (not (string self_type == string other_type)) field_type_alter

  -- `FieldElement.compare_message`
  unfoldable pub compare_message : ProtoType → ProtoType → Compare (Unit {0})
  unfolding get_self_type get_other_type karapace.Protobuf.TypeStorage.short_name
  compare_message self_type other_type =
      look (λ c. ok (get_self_type (string self_type) c)) >>= λ self.
      look (λ c. ok (get_other_type (string other_type) c)) >>= λ other.
      compare_records self_type other_type self other

  -- the end of `FieldElement.compare_type`, with `compare_map` for what it does with the keys and values
  -- of two maps
  abbrev pub compare_kinds :
      (ProtoType → ProtoType → Compare (Unit {0}))
      → Option Label
      → Option Label
      → ProtoType
      → ProtoType
      → Bool
      → Bool
      → Compare (Unit {0})
  compare_kinds compare_map self_label other_label self_type other_type self_is_enum other_is_enum =
      let self_is_scalar = is_scalar self_type || self_is_enum in
      let other_is_scalar = is_scalar other_type || other_is_enum in
      if bool_beq self_is_scalar other_is_scalar && bool_beq (is_map self_type) (is_map other_type)
      then (if is_map self_type
          then with_parts compare_map other_type
          else if self_is_scalar
          then (attempt (compatibility_kind self_is_enum self_type) >>= λ self_kind.
              attempt (compatibility_kind other_is_enum other_type) >>= λ other_kind.
              compare_scalars self_label other_label self_kind other_kind)
          else compare_message self_type other_type)
      else add_modification field_kind_alter

  abbrev pub compare_found :
      (ProtoType → ProtoType → Compare (Unit {0}))
      → Option Label
      → Option Label
      → ProtoType
      → ProtoType
      → Compare (Unit {0})
  compare_found compare_map self_label other_label self_type other_type =
      look (λ c. ok (get_self_type (string self_type) c)) >>= λ self.
      look (λ c. ok (get_other_type (string other_type) c)) >>= λ other.
      compare_kinds compare_map self_label other_label self_type other_type (enum_record self)
        (enum_record other)

  -- `FieldElement.compare_type`, of a field with the label `self_label`
  unfoldable pub compare_type :
      Option Label → Option Label → ProtoType → ProtoType → Compare (Unit {0})
  unfolding compare_message compatibility_kind
  compare_type self_label other_label (scalar s) other =
      compare_found (λ key value. fail assertion_error) self_label other_label (scalar s) other
  compare_type self_label other_label (named s) other =
      compare_found (λ key value. fail assertion_error) self_label other_label (named s) other
  compare_type self_label other_label (map_type s self_key self_value) other =
      compare_found
        (λ key value.
          compare_type self_label none self_key key
          >> compare_type self_label none self_value value)
        self_label other_label (map_type s self_key self_value) other

  -- `FieldElement.compare`
  unfoldable pub compare_field : FieldElement → FieldElement → Compare (Unit {0})
  unfolding compare_type karapace.Protobuf.ProtoType.get2_from
  compare_field self other =
      add_when (not (self.name == other.name)) field_name_alter
      >> (attempt (get2 self.element_type) >>= λ self_type.
          attempt (get2 other.element_type) >>= λ other_type.
          compare_type self.label other.label self_type other_type)
